-- ===== src/Slots/Flash/Hash.antt =====
-- The Flash reads of slots.c leave the device alone, and an accepted hash is that of all the bytes.
use esp_container.Common.{
  ℕ, zero, suc, ◌+◌, ◌-◌, ◌≤◌, ◌<◌, ◌≡◌, sym, ap, ◌∙◌, ◌≢◌, inl, inr, Bool, true, false, ◌&&◌, ◌||◌,
  ltb, leb, ◌==◌, List, [], ◌++◌, some, length, arith, Bool-cases, Option-cases, ltb→lt,
}
use mathlib.Core.Path.{ap₂}
use mathlib.Core.List.{append-nil, append_assoc}
use esp_container.Common.Bytes.{bytes_eq, bytes_eq_sound}
use esp_container.Crypto.{Psa, digest_start, digest_update, digest_finish, digest_abort}
use esp_container.Slots.Types.{Geometry, slot_at, Binding, SlotsState, slot_count}
use esp_container.Slots.Valid.{has_candidate}
use esp_container.Slots.Io.{SlotsIo, SlotsError, untrusted, uncertain}
use esp_container.Slots.Io.Post.{Ends, done, failed, seq, weaken, require-Ends}
use esp_container.Slots.Flash.{
  flash_relative_read, read_chunk, absorb, chunk, hash_loop, start_digest, finish_digest,
  hash_flash, check_binding, hash_candidate, check_references,
}
use esp_container.Slots.Flash.Laws.{
  Device, flash_bytes, flash_bytes-add, SlotsIoLaws, PsaLaws, Hashed, BindingIntact, Intact,
  CandidateHashed,
}

false_true : {A : Type 0} → false ≡ true → A
false_true e = cc

-- An error that leaves the device `v` as it is.
abbrev pub Clean : {W : Type 0} → (W → Device) → Device → SlotsError → W → Type 0
Clean view v e w = (view w ≡ v) × (e ≢ uncertain)

pub chunk_bounds :
    (size offset : ℕ)
    → offset < size
    → (0 < chunk size offset) × (offset + chunk size offset ≤ size)
unfolding chunk
chunk_bounds size offset h = ground arith

-- The bytes of one round and of the rounds that follow are the bytes of all of them.
rounds_join :
    (f : ℕ → ℕ) (base size offset c : ℕ)
    → offset + c ≤ size
    → flash_bytes f (base + offset) c ++ flash_bytes f (base + (offset + c)) (size - (offset + c))
      ≡ flash_bytes f (base + offset) (size - offset)
rounds_join f base size offset c h =
    ap (λ (x : ℕ). flash_bytes f (base + offset) c ++ flash_bytes f x (size - (offset + c)))
      (omega arith)
    ∙ sym (flash_bytes-add f (base + offset) c (size - (offset + c)))
    ∙ ap (flash_bytes f (base + offset)) (omega arith)

append_join :
    (front : List ℕ) (rest : List ℕ) {mid bs part all result : List ℕ}
    → mid ≡ front ++ bs
    → bs ≡ part
    → result ≡ mid ++ rest
    → part ++ rest ≡ all
    → result ≡ front ++ all
append_join front rest {part = part} p q r h =
    r
    ∙ ap (λ (x : List ℕ). x ++ rest) (p ∙ ap (◌++◌ front) q)
    ∙ append_assoc front part rest
    ∙ ap (◌++◌ front) h

whole_range :
    (f : ℕ → ℕ) (base size : ℕ) {first : List ℕ}
    → first ≡ []
    → first ++ flash_bytes f (base + 0) (size - 0) ≡ flash_bytes f base size
whole_range f base size q =
    ap (λ (x : List ℕ). x ++ flash_bytes f (base + 0) (size - 0)) q
    ∙ ap₂ (flash_bytes f) (omega arith) (omega arith)

nothing_left :
    {Op : Type 0} (absorbed : Op → List ℕ) (op : Op) (f : ℕ → ℕ) (a n : ℕ)
    → n ≡ 0
    → absorbed op ≡ absorbed op ++ flash_bytes f a n
nothing_left absorbed op f a n h = rw h (unfold flash_bytes in sym (append-nil (absorbed op)))

module _ {W Op : Type 0} (io : SlotsIo W) (psa : Psa W Op) (view : W → Device)
    (absorbed : Op → List ℕ) (sha256 : List ℕ → List ℕ) (laws : SlotsIoLaws io view)
    (hashes : PsaLaws psa view absorbed sha256) where
  pub flash_relative_read_keeps :
      (base size offset n : ℕ) (w : W)
      → view (flash_relative_read io base size offset n w).1 ≡ view w
  unfolding flash_relative_read
  flash_relative_read_keeps base size offset n w =
      ground (arith, laws.flash_read_keeps (base + offset) n w)

  flash_relative_read_bytes :
      (base size offset n : ℕ) (w : W) (bs : List ℕ)
      → (flash_relative_read io base size offset n w).0 ≡ some bs
      → bs ≡ flash_bytes (view w).flash (base + offset) n
  unfolding flash_relative_read
  flash_relative_read_bytes base size offset n w bs e =
      ground (arith, laws.flash_read_bytes (base + offset) n w bs)

  read_chunk-Ends :
      (base size offset n : ℕ) (op : Op) (w : W) (v : Device)
      → view w ≡ v
      → Ends
          (λ bs w'. (view w' ≡ v) × (bs ≡ flash_bytes v.flash (base + offset) n))
          (Clean view v)
          (read_chunk io psa base size offset n op w)
  unfolding read_chunk digest_abort
  read_chunk-Ends base size offset n op w v h =
      elim (Option-cases (flash_relative_read io base size offset n w).0) [
        | inl e ↦
            rw (e, read_chunk)
              (failed (
                hashes.abort_keeps op _ ∙ flash_relative_read_keeps base size offset n w ∙ h,
                λ q. cc,
              ))
        | inr (bs, e) ↦
            rw (e, read_chunk)
              (done (
                flash_relative_read_keeps base size offset n w ∙ h,
                flash_relative_read_bytes base size offset n w bs e
                    ∙ ap (λ (d : Device). flash_bytes d.flash (base + offset) n) h,
              ))
      ]

  absorb-Ends :
      (op : Op) (bs : List ℕ) (w : W) (v : Device)
      → view w ≡ v
      → Ends
          (λ op' w'. (view w' ≡ v) × (absorbed op' ≡ absorbed op ++ bs))
          (Clean view v)
          (absorb psa op bs w)
  unfolding absorb digest_update digest_abort
  absorb-Ends op bs w v h = elim (Bool-cases (psa.hash_update op bs w).fine) [
    | inl e ↦ rw e (done (hashes.update_keeps op bs w ∙ h, hashes.update_absorbs op bs w e))
    | inr e ↦ rw e (failed (hashes.abort_keeps _ _ ∙ hashes.update_keeps op bs w ∙ h, λ q. cc))
  ]

  -- With fuel for the rounds, the loop has taken in every byte from `offset` to `size`.
  hash_loop-Ends :
      (fuel base size offset : ℕ) (op : Op) (w : W) (v : Device)
      → view w ≡ v
      → offset ≤ size
      → size - offset ≤ fuel
      → Ends
          (λ op' w'.
            (view w' ≡ v)
            × (absorbed op' ≡ absorbed op ++ flash_bytes v.flash (base + offset) (size - offset)))
          (Clean view v)
          (hash_loop io psa fuel base size offset op w)
  unfolding hash_loop
  hash_loop-Ends zero base size offset op w v h le f =
      done (h, nothing_left absorbed op v.flash (base + offset) (size - offset) (omega arith))
  hash_loop-Ends (suc fuel) base size offset op w v h le f = elim (Bool-cases (ltb offset size)) [
    | inr ended ↦
        rw ended (
          done (h, nothing_left absorbed op v.flash (base + offset) (size - offset) (ground arith)))
    | inl more ↦ rw more (
        seq (read_chunk-Ends base size offset (chunk size offset) op w v h)
          (λ bs w1 p.
            seq (absorb-Ends op bs w1 v p.0)
              (λ op' w2 q.
                weaken
                  (hash_loop-Ends fuel base size (offset + chunk size offset) op' w2 v q.0
                    (chunk_bounds size offset (ltb→lt offset size more)).1
                    (omega (arith, chunk_bounds size offset (ltb→lt offset size more))))
                  (λ op'' w3 r. (
                    r.0,
                    append_join (absorbed op)
                        (flash_bytes v.flash (base + (offset + chunk size offset))
                          (size - (offset + chunk size offset)))
                        q.1 p.1 r.1
                        (rounds_join v.flash base size offset (chunk size offset)
                          (chunk_bounds size offset (ltb→lt offset size more)).1),
                  ))
                  (λ e w3 r. r))
              (λ e w2 q. q))
          (λ e w1 p. p))
  ]

  start_digest-Ends :
      (w : W) (v : Device)
      → view w ≡ v
      → Ends (λ op w'. (view w' ≡ v) × (absorbed op ≡ [])) (Clean view v) (start_digest psa w)
  unfolding start_digest digest_start
  start_digest-Ends w v h =
      let w1 = (psa.crypto_init w).1 in
      let op = psa.hash_operation_init in
      elim (Bool-cases (psa.crypto_init w).0) [
        | inr e ↦ rw e (failed (hashes.abort_keeps op w1 ∙ hashes.init_keeps w ∙ h, λ q. cc))
        | inl e ↦ elim (Bool-cases (psa.hash_setup op w1).fine) [
          | inl f ↦
              rw (e, f)
                (done (
                  hashes.setup_keeps op w1 ∙ hashes.init_keeps w ∙ h,
                  hashes.setup_absorbs op w1 f,
                ))
          | inr f ↦
              rw (e, f)
                (failed (
                  hashes.abort_keeps _ _ ∙ hashes.setup_keeps op w1 ∙ hashes.init_keeps w ∙ h,
                  λ q. cc,
                ))
        ]
      ]

  finish_digest-Ends :
      (op : Op) (w : W) (v : Device)
      → view w ≡ v
      → Ends
          (λ out w'. (view w' ≡ v) × (out ≡ sha256 (absorbed op)))
          (Clean view v)
          (finish_digest psa op w)
  unfolding finish_digest digest_finish
  finish_digest-Ends op w v h = elim (Bool-cases (psa.hash_finish op w).fine) [
    | inr e ↦ rw e (failed (hashes.abort_keeps _ _ ∙ hashes.finish_keeps op w ∙ h, λ q. cc))
    | inl e ↦ elim (Bool-cases (length (psa.hash_finish op w).output == 32)) [
      | inl f ↦
          rw (e, f)
            (done
              (hashes.abort_keeps _ _ ∙ hashes.finish_keeps op w ∙ h, hashes.finish_output op w e))
      | inr f ↦ rw (e, f) (failed (hashes.abort_keeps _ _ ∙ hashes.finish_keeps op w ∙ h, λ q. cc))
    ]
  ]

  module _ (g : Geometry) where
    accepted :
        (slot size : ℕ) (v : Device) {all first out expected : List ℕ}
        → all ≡ first ++ flash_bytes v.flash ((slot_at g slot).offset_bytes + 0) (size - 0)
        → first ≡ []
        → out ≡ sha256 all
        → out ≡ expected
        → Hashed sha256 g v slot size expected
    accepted slot size v p q r s =
        ap sha256 (sym (p ∙ whole_range v.flash (slot_at g slot).offset_bytes size q)) ∙ sym r ∙ s

    -- With callbacks that keep their laws and a digest that keeps its own: hash_flash leaves the
    -- device alone, and accepts only if the SHA-256 of exactly the given number of bytes from the
    -- start of the slot is the expected one; an error is never UNCERTAIN.
    pub hash_flash-Ends :
        (slot size : ℕ) (expected : List ℕ) (w : W) (v : Device)
        → view w ≡ v
        → Ends
            (λ _ w'. (view w' ≡ v) × Hashed sha256 g v slot size expected)
            (Clean view v)
            (hash_flash io psa g slot size expected w)
    unfolding hash_flash
    hash_flash-Ends slot size expected w v h =
        elim (Bool-cases
          (leb slot_count slot || size == 0 || ltb (slot_at g slot).size_bytes size)) [
            | inl bad ↦ rw bad (failed (h, λ q. cc))
            | inr good ↦ rw good (
                seq (start_digest-Ends w v h)
                  (λ op w1 p.
                    seq
                      (hash_loop-Ends size (slot_at g slot).offset_bytes size 0 op w1 v p.0
                        (omega arith) (omega arith))
                      (λ op' w2 q.
                        seq (finish_digest-Ends op' w2 v q.0)
                          (λ actual w3 r.
                            weaken (require-Ends (bytes_eq actual expected) untrusted w3)
                              (λ _ w4 s. (
                                ap view s.0 ∙ r.0,
                                accepted slot size v q.1 p.1 r.1
                                    (bytes_eq_sound actual expected s.1),
                              ))
                              (λ e w4 s. (ap view s.0 ∙ r.0, λ u. cc)))
                          (λ e w3 r. r))
                      (λ e w2 q. q))
                  (λ e w1 p. p))
          ]

    check_binding-Ends :
        (b : Binding) (w : W) (v : Device)
        → view w ≡ v
        → Ends
            (λ _ w'. (view w' ≡ v) × BindingIntact sha256 g v b)
            (Clean view v)
            (check_binding io psa g b w)
    unfolding check_binding
    check_binding-Ends b w v h = elim (Bool-cases b.package_present) [
      | inl e ↦ rw e (
          weaken (hash_flash-Ends b.slot b.package_size_bytes b.package_sha256 w v h)
            (λ _ w' p. (p.0, λ _. p.1)) (λ e w' p. p))
      | inr e ↦ rw e (done (h, λ x. false_true x))
    ]

    -- With callbacks that keep their laws and a digest that keeps its own: check_references leaves
    -- the device alone; it accepts only if every package that the bindings refer to has its
    -- recorded SHA-256, and the candidate has its own where it was to be checked and is complete;
    -- an error is never UNCERTAIN.
    pub check_references-Ends :
        (s : SlotsState) (c : Bool) (w : W) (v : Device)
        → view w ≡ v
        → Ends
            (λ _ w'. (view w' ≡ v) × Intact sha256 g v s × CandidateHashed sha256 g v s c)
            (Clean view v)
            (check_references io psa g s c w)
    unfolding check_references hash_candidate
    check_references-Ends s c w v h =
        seq (check_binding-Ends s.binding0 w v h)
          (λ _ w1 p.
            seq (check_binding-Ends s.binding1 w1 v p.0)
              (λ _ w2 q. elim (Bool-cases (c && has_candidate s.phase)) [
                | inl e ↦ rw e (
                    weaken
                      (hash_flash-Ends s.operation.slot s.operation.package_size_bytes
                        s.operation.package_sha256 w2 v q.0)
                      (λ _ w3 r. (r.0, record { binding0 = p.1; binding1 = q.1 }, λ _. r.1))
                      (λ e w3 r. r))
                | inr e ↦
                    rw e (done (q.0, record { binding0 = p.1; binding1 = q.1 }, λ x. false_true x))
              ])
              (λ e w2 q. q))
          (λ e w1 p. p)
