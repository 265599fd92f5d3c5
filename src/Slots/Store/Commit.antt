-- ===== src/Slots/Store/Commit.antt =====
-- Loading, committing and locking, over the laws of the callbacks.
use esp_container.Common.{
  ℕ, ◌≡◌, refl, sym, ap, ◌∙◌, ◌≢◌, ◌⊎◌, inl, inr, Bool, true, false, ◌==◌, List, Option, none, some,
  arith, Bool-cases, Option-cases, ==_iff,
}
use mathlib.Core.Option.{some-injective}
use mathlib.Core.Path.{subst}
use esp_container.Common.Bytes.{bytes_eq, bytes_eq_refl, IsBytes}
use esp_container.Slots.Types.{Geometry, SlotsState, u32_max}
use esp_container.Slots.Valid.{state_valid}
use esp_container.Slots.Codec.{encode_state, decode_state}
use esp_container.Slots.Io.{
  SlotsIo, SlotsError, BlobResult, Result, M, err, found, not_found, read_failed, uncertain, busy,
  conflict,
}
use esp_container.Slots.Io.Post.{Ends, done, failed, seq, require-Ends}
use esp_container.Slots.Flash.Laws.{Device, SlotsIoLaws}
use esp_container.Slots.Flash.Hash.{Clean}
use esp_container.Slots.Steps.{Stored, committed, Commits, Failed, kept, doubtful, numbered}
use esp_container.Slots.Store.{
  decoded, settle, load_locked, persist_locked, commit_next, begin_locked, with_lock,
}

pub BlobResult-cases :
    (r : BlobResult) → (r ≡ not_found) ⊎ (r ≡ read_failed) ⊎ ((b : List ℕ) × (r ≡ found b))
BlobResult-cases (found b) = inr (inr (b, refl))
BlobResult-cases not_found = inl refl
BlobResult-cases read_failed = inr (inl refl)

module _ {W : Type 0} (io : SlotsIo W) (view : W → Device) (laws : SlotsIoLaws io view) where
  decoded-Ends :
      (g : Geometry) (b : List ℕ) (w : W) (v : Device)
      → view w ≡ v
      → v.blob ≡ some b
      → IsBytes 288 b
      → Ends (λ s w'. (view w' ≡ v) × Stored g v s) (Clean view v) (decoded (decode_state b g), w)
  unfolding decoded
  decoded-Ends g b w v h e z = elim (Option-cases (decode_state b g)) [
    | inl n ↦ rw n (failed (h, λ q. cc))
    | inr (s, n) ↦ rw n (done (h, (b, e, z, n)))
  ]

  pub load_locked-Ends :
      (g : Geometry) (w : W) (v : Device)
      → view w ≡ v
      → Ends (λ s w'. (view w' ≡ v) × Stored g v s) (Clean view v) (load_locked io g w)
  unfolding load_locked
  load_locked-Ends g w v h = elim (BlobResult-cases (io.read_blob w).0) [
    | inl e ↦ rw (e, load_locked) (failed (laws.read_blob_keeps w ∙ h, λ q. cc))
    | inr (inl e) ↦ rw (e, load_locked) (failed (laws.read_blob_keeps w ∙ h, λ q. cc))
    | inr (inr (b, e)) ↦
        rw (e, load_locked)
          (decoded-Ends g b _ v (laws.read_blob_keeps w ∙ h)
            (ap (λ (d : Device). d.blob) (sym h) ∙ (laws.read_blob_found w b e).0)
            (laws.read_blob_found w b e).1)
  ]

  pub begin_locked-Ends :
      (g : Geometry) (expected_sequence : ℕ) (w : W) (v : Device)
      → view w ≡ v
      → Ends
          (λ s w'. (view w' ≡ v) × Stored g v s × (s.sequence ≡ expected_sequence))
          (Clean view v)
          (begin_locked io g expected_sequence w)
  unfolding begin_locked
  begin_locked-Ends g n w v h =
      seq (load_locked-Ends g w v h)
        (λ s w1 p.
          seq (require-Ends (s.sequence == n) conflict w1)
            (λ _ w2 q. done (ap view q.0 ∙ p.0, p.1, (==_iff s.sequence n).0 q.1))
            (λ e w2 q. (ap view q.0 ∙ p.0, λ u. cc)))
        (λ e w1 p. p)

  -- The new blob is in place: OK, or UNCERTAIN where the write did not say so.
  settle_new :
      (committed_flag : Bool) (observed : List ℕ) (before : Option SlotsState) (after : SlotsState)
      (T : SlotsState → Type 0) (w : W) (v : Device)
      → T after
      → view w ≡ committed v after
      → observed ≡ encode_state after
      → Ends
          (λ s w'. Commits v T s (view w'))
          (λ e w'. Failed v T e (view w'))
          (settle committed_flag observed (encode_state after) before after, w)
  unfolding settle
  settle_new true observed before after T w v t h e =
      rw (e, bytes_eq_refl (encode_state after)) (done (t, h))
  settle_new false observed before after T w v t h e =
      rw (e, bytes_eq_refl (encode_state after)) (failed (doubtful after refl t h))

  -- The write failed: whatever is read back, the answer is an error.
  settle_old :
      (observed desired : List ℕ) (before : Option SlotsState) (after : SlotsState)
      → (e : SlotsError) × (settle false observed desired before after ≡ err e)
  unfolding settle
  settle_old observed desired none after = elim (Bool-cases (bytes_eq observed desired)) [
    | inl e ↦ (uncertain, rw e)
    | inr e ↦ (uncertain, rw e)
  ]
  settle_old observed desired (some old) after = elim (Bool-cases (bytes_eq observed desired)) [
    | inl e ↦ (uncertain, rw e)
    | inr e ↦ elim (Bool-cases (bytes_eq observed (encode_state old))) [
      | inl f ↦ (SlotsError.io_failed, rw (e, f))
      | inr f ↦ (uncertain, rw (e, f))
    ]
  ]

  -- With callbacks that keep their laws, for any property T of the new state: persist_locked
  -- succeeds only if the new blob is committed; where it fails, the device is unchanged, or the
  -- answer is UNCERTAIN and the new blob is committed.
  pub persist_locked-Ends :
      (before : Option SlotsState) (after : SlotsState) (T : SlotsState → Type 0) (w : W)
      (v : Device)
      → view w ≡ v
      → T after
      → Ends
          (λ s w'. Commits v T s (view w'))
          (λ e w'. Failed v T e (view w'))
          (persist_locked io before after w)
  unfolding persist_locked
  persist_locked-Ends before after T w v h t =
      let desired = encode_state after in
      let w1 = (io.write_blob desired w).1 in
      elim (laws.write_blob_commits desired w) [
        | inl wrote ↦
            (let new : view w1 ≡ committed v after =
                wrote ∙ ap (λ (d : Device). committed d after) h in
              elim (BlobResult-cases (io.read_blob w1).0) [
                | inl e ↦
                    rw (e, persist_locked)
                      (failed (doubtful after refl t (laws.read_blob_keeps w1 ∙ new)))
                | inr (inl e) ↦
                    rw (e, persist_locked)
                      (failed (doubtful after refl t (laws.read_blob_keeps w1 ∙ new)))
                | inr (inr (b, e)) ↦
                    rw (e, persist_locked)
                      (settle_new _ b before after T _ v t (laws.read_blob_keeps w1 ∙ new) (
                        some-injective _ _
                          (sym (laws.read_blob_found w1 b e).0 ∙ ap (λ (d : Device). d.blob) new)))
              ])
        | inr (no_commit, same) ↦ elim (BlobResult-cases (io.read_blob w1).0) [
          | inl e ↦ rw (e, persist_locked) (failed (kept (laws.read_blob_keeps w1 ∙ same ∙ h)))
          | inr (inl e) ↦
              rw (e, persist_locked) (failed (kept (laws.read_blob_keeps w1 ∙ same ∙ h)))
          | inr (inr (b, e)) ↦
              rw (e, no_commit, persist_locked)
                (let (x, f) = settle_old b desired before after in
                  rw f (failed (kept (laws.read_blob_keeps w1 ∙ same ∙ h))))
        ]
      ]

  pub commit_next-Ends :
      (g : Geometry) (before after : SlotsState) (T : SlotsState → Type 0) (w : W) (v : Device)
      → view w ≡ v
      → (before.sequence ≢ u32_max
          → state_valid (numbered before after) g ≡ true
          → T (numbered before after))
      → Ends
          (λ s w'. Commits v T s (view w'))
          (λ e w'. Failed v T e (view w'))
          (commit_next io g before after w)
  unfolding commit_next
  commit_next-Ends g before after T w v h t = elim (Bool-cases (before.sequence == u32_max)) [
    | inl e ↦ rw e (failed (kept h))
    | inr e ↦ elim (Bool-cases (state_valid (numbered before after) g)) [
      | inl f ↦
          rw (e, f)
            (persist_locked-Ends (some before) (numbered before after) T w v h
              (t (λ q. ground arith) f))
      | inr f ↦ rw (e, f) (failed (kept h))
    ]
  ]

  -- What holds of a body at every world with the same device holds under the lock, given that it
  -- holds of BUSY.
  pub with_lock-Ends :
      {A : Type 0} (body : M W A) (Q : A → Device → Type 0) (E : SlotsError → Device → Type 0)
      (w : W) (v : Device)
      → view w ≡ v
      → ((w1 : W) → view w1 ≡ v → Ends (λ a w'. Q a (view w')) (λ e w'. E e (view w')) (body w1))
      → E busy v
      → Ends (λ a w'. Q a (view w')) (λ e w'. E e (view w')) (with_lock io body w)
  unfolding with_lock
  with_lock-Ends {A} body Q E w v h k b = elim (Bool-cases (io.lock w).0) [
    | inl e ↦ rw (e, with_lock) (unlocked (k (io.lock w).1 (laws.lock_keeps w ∙ h)))
    | inr e ↦ rw (e, with_lock) (failed (subst (E busy) (sym (laws.lock_keeps w ∙ h)) b))
  ]
    where
      unlocked :
          {x : Result A × W}
          → Ends (λ a w'. Q a (view w')) (λ e w'. E e (view w')) x
          → Ends (λ a w'. Q a (view w')) (λ e w'. E e (view w')) (x.0, io.unlock x.1)
      unlocked (done p) = done (subst (Q _) (sym (laws.unlock_keeps _)) p)
      unlocked (failed p) = failed (subst (E _) (sym (laws.unlock_keeps _)) p)
