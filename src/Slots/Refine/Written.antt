-- ===== src/Slots/Refine/Written.antt =====
-- `write_and_prepare` of slots.c as a whole.
use esp_container.Common.{
  ℕ, suc, zero, ◌*◌, ◌/◌, ◌%◌, ◌≤◌, ◌<◌, ◌≡◌, refl, ap, ◌∙◌, inl, inr, Bool, true, false, not, ◌==◌,
  List, arith, Bool-cases, ==_iff,
}
use mathlib.Core.Path.{subst}
use esp_container.Crypto.{Psa}
use esp_container.Slots.Types.{
  Geometry, Region, SlotsState, Operation, slot_at, slot_io_bytes, writing, prepared,
}
use esp_container.Slots.Geometry.{geometry_valid, units_invalid, region_invalid}
use esp_container.Slots.Codec.RoundTrip.{decode_state-valid}
use esp_container.Slots.Io.{
  SlotsIo, SlotsError, ReadFn, ValidateFn, ValidationResult, validation_ok, validation_untrusted,
  validation_io_failed, next, conflict,
}
use esp_container.Slots.Io.Post.{Ends, done, failed, seq, weaken, require-Ends}
use esp_container.Slots.Flash.{flash_relative_read, hash_candidate}
use esp_container.Slots.Flash.Laws.{Device, OnlyWithin, SlotsIoLaws, PsaLaws, Intact}
use esp_container.Slots.Flash.Hash.{
  check_references-Ends, hash_flash-Ends, flash_relative_read_keeps,
}
use esp_container.Slots.Store.Commit.{begin_locked-Ends, commit_next-Ends, with_lock-Ends}
use esp_container.Slots.Steps.{
  Stored, written, Admissible, kept, numbered, numbered-IsSized, phase-IsSized, Stored-IsSized,
}
use esp_container.Slots.Store.{commit_next}
use esp_container.Slots.Write.{write_package, validate_package, judge, erase_slot}
use esp_container.Slots.Operations.{write_and_prepare}
use esp_container.Slots.Refine.{
  Succeeds, Fails, Becomes, Reads, Validates, Framed, untouched, reserved_only,
}
use esp_container.Slots.Refine.Prepare.{multiple_of, write_loop-Ends}
use esp_container.Slots.Refine.Frame.{reserved_slot, reserved-Intact}

-- What a valid geometry says of the units of a slot.
slot_units :
    (g : Geometry) (r : Region)
    → units_invalid g ≡ false
    → region_invalid g r ≡ false
    → (0 < g.write_unit_bytes)
      × (slot_io_bytes % g.write_unit_bytes ≡ 0)
      × (g.erase_unit_bytes % g.write_unit_bytes ≡ 0)
      × (r.size_bytes % g.erase_unit_bytes ≡ 0)
unfolding units_invalid region_invalid
slot_units g r u v = (ground arith, ground arith, ground arith, ground arith)

regions_valid :
    (g : Geometry) (i : ℕ)
    → geometry_valid g ≡ true
    → (units_invalid g ≡ false) × (region_invalid g (slot_at g i) ≡ false)
unfolding geometry_valid
regions_valid g zero v = (ground arith, ground arith)
regions_valid g (suc zero) v = (ground arith, ground arith)
regions_valid g (suc (suc i)) v = (ground arith, ground arith)

-- The size of a slot is a multiple of the write unit, since the erase unit is.
slot_multiple : (size e u : ℕ) → e % u ≡ 0 → size % e ≡ 0 → size ≡ size / e * (e / u) * u
slot_multiple size e u p q =
    omega (arith, multiple_of size e q, ap (λ (x : ℕ). size / e * x) (multiple_of e u p))

-- What an operation hands out as a postcondition once it may have written.
abbrev pub Written : (List ℕ → List ℕ) → Geometry → Device → ℕ → SlotsState → Device → Type 0
Written sha256 g v n s d =
    (v1 : Device) × Framed g v v1
    × Succeeds sha256 g v1 n (Becomes (λ t. record t { phase = prepared })) s d

abbrev pub WriteFails : (List ℕ → List ℕ) → Geometry → Device → ℕ → SlotsError → Device → Type 0
WriteFails sha256 g v n e d =
    (v1 : Device) × Framed g v v1
    × Fails sha256 g v1 n (Becomes (λ t. record t { phase = prepared })) e d

module _ {W Op : Type 0} (io : SlotsIo W) (psa : Psa W Op) (view : W → Device)
    (absorbed : Op → List ℕ) (sha256 : List ℕ → List ℕ) (laws : SlotsIoLaws io view)
    (hashes : PsaLaws psa view absorbed sha256) (g : Geometry) where
  erase_slot-Ends :
      (r : Region) (w : W) (v : Device)
      → view w ≡ v
      → Ends
          (λ _ w'. OnlyWithin r.offset_bytes r.size_bytes v (view w'))
          (λ _ w'. OnlyWithin r.offset_bytes r.size_bytes v (view w'))
          (erase_slot io r w)
  unfolding erase_slot
  erase_slot-Ends r w v h =
      let frame =
        subst
          (λ (d : Device).
            OnlyWithin r.offset_bytes r.size_bytes d
              (view (io.flash_erase r.offset_bytes r.size_bytes w).1))
          h (laws.flash_erase_within r.offset_bytes r.size_bytes w) in
      elim (Bool-cases (io.flash_erase r.offset_bytes r.size_bytes w).0) [
        | inl e ↦ rw e (done frame)
        | inr e ↦ rw e (failed frame)
      ]

  write_package-Ends :
      (o : Operation) (source : ReadFn W) (w : W) (v : Device)
      → Reads view source
      → geometry_valid g ≡ true
      → o.package_size_bytes ≤ (slot_at g o.slot).size_bytes
      → view w ≡ v
      → let r = slot_at g o.slot in
        Ends
          (λ _ w'. OnlyWithin r.offset_bytes r.size_bytes v (view w'))
          (λ _ w'. OnlyWithin r.offset_bytes r.size_bytes v (view w'))
          (write_package io g o source w)
  unfolding write_package
  write_package-Ends o source w v reads gv fits h =
      let r = slot_at g o.slot in
      let (uv, rv) = regions_valid g o.slot gv in
      let (pos, io_unit, erase_unit, size_unit) = slot_units g r uv rv in
      seq (erase_slot-Ends r w v h)
        (λ _ w1 p.
          write_loop-Ends io view laws source reads o.package_size_bytes g.write_unit_bytes
            r.offset_bytes r.size_bytes o.package_size_bytes 0 0
            (r.size_bytes / g.erase_unit_bytes * (g.erase_unit_bytes / g.write_unit_bytes))
            (slot_io_bytes / g.write_unit_bytes) w1 v pos
            (slot_multiple r.size_bytes g.erase_unit_bytes g.write_unit_bytes erase_unit size_unit)
            (multiple_of slot_io_bytes g.write_unit_bytes io_unit) fits (inl (omega arith)) p)
        (λ _ w1 p. p)

  validate_package-Ends :
      (o : Operation) (validate : ValidateFn W Operation) (w : W) (v : Device)
      → Validates view validate
      → view w ≡ v
      → Ends (λ _ w'. view w' ≡ v) (λ _ w'. view w' ≡ v) (validate_package io g o validate w)
  unfolding validate_package judge
  validate_package-Ends o validate w v validates h =
      let base = (slot_at g o.slot).offset_bytes in
      let read = flash_relative_read io base o.package_size_bytes in
      let same =
        validates o read o.package_size_bytes w (λ a n w1.
          flash_relative_read_keeps io psa view absorbed sha256 laws hashes base
            o.package_size_bytes a n w1)
        ∙ h in
      judged (validate o read o.package_size_bytes w) same
    where
      judged :
          (x : ValidationResult × W)
          → view x.1 ≡ v
          → Ends (λ _ w'. view w' ≡ v) (λ _ w'. view w' ≡ v) (judge io x.0 x.1)
      judged (validation_ok, w1) e = done e
      judged (validation_untrusted, w1) e = failed e
      judged (validation_io_failed, w1) e = failed e

  -- From the moment that Flash is touched: `s` is the stored state, and all writes so far lie in
  -- its reserved slot.
  prepare_tail :
      (n : ℕ) (s : SlotsState) (source : ReadFn W) (validate : ValidateFn W Operation) (w : W)
      (v : Device)
      → geometry_valid g ≡ true
      → Reads view source
      → Validates view validate
      → view w ≡ v
      → Stored g v s
      → s.sequence ≡ n
      → s.phase ≡ writing
      → Intact sha256 g v s
      → Ends
          (λ s' w'. Written sha256 g v n s' (view w'))
          (λ e w'. WriteFails sha256 g v n e (view w'))
          (next (write_package io g s.operation source w) (λ _. λ w1.
            next (hash_candidate io psa g s.operation w1) (λ _. λ w2.
              next
                (validate_package io g s.operation validate w2)
                (λ _. commit_next io g s (record s { phase = prepared })))))
  unfolding hash_candidate
  prepare_tail n s source validate w v gv reads validates h st e p intact =
      let valid = decode_state-valid st.0 g st.3 in
      let frame : (d : Device)
          → OnlyWithin (slot_at g s.operation.slot).offset_bytes
              (slot_at g s.operation.slot).size_bytes v d
          → Framed g v d =
        λ d q. reserved_only s st p q in
      seq (write_package-Ends s.operation source w v reads gv (reserved_slot s g valid p).1 h)
        (λ _ w1 q.
          seq
            (hash_flash-Ends io psa view absorbed sha256 laws hashes g s.operation.slot
              s.operation.package_size_bytes s.operation.package_sha256 w1 (view w1) refl)
            (λ _ w2 r.
              seq (validate_package-Ends s.operation validate w2 (view w1) validates r.0)
                (λ _ w3 t.
                  weaken
                    (commit_next-Ends io view laws g s (record s { phase = prepared })
                      (Admissible sha256 g (view w1) n
                        (Becomes (λ t. record t { phase = prepared })))
                      w3 (view w1) t
                      (λ below ok_next. record {
                        current = s;
                        stored = (st.0, q.0 ∙ st.1, st.2, st.3);
                        expected = e;
                        step = written p refl;
                        related = refl;
                        valid = ok_next;
                        sized =
                            (let z = Stored-IsSized g v s st in
                              numbered-IsSized s _ z (phase-IsSized s prepared (omega arith) z)
                                below);
                        intact =
                            next_intact
                              (reserved-Intact sha256 g s v (view w1) gv valid p q intact);
                      }))
                    (λ s' w4 u. (view w1, frame (view w1) q, u))
                    (λ e' w4 u. (view w1, frame (view w1) q, u)))
                (λ e' w3 t. (view w1, frame (view w1) q, kept t)))
            (λ e' w2 r. (view w1, frame (view w1) q, kept r.0)))
        (λ e' w1 q. (view w1, frame (view w1) q, kept refl))
    where
      next_intact :
          {d : Device}
          → Intact sha256 g d s
          → Intact sha256 g d (numbered s (record s { phase = prepared }))
      next_intact i = record { binding0 = i.binding0; binding1 = i.binding1 }

  -- With callbacks that keep their laws and a digest that keeps its own: for a source and a
  -- validator that leave the storage alone, write_and_prepare changes at most bytes of the slot
  -- that a stored WRITING state reserves, and then either commits the stored state with phase
  -- PREPARED, the next sequence number and intact packages, or fails; a failure leaves the blob,
  -- or, under UNCERTAIN only, has committed that same state.
  pub write_and_prepare-Ends :
      (n : ℕ) (source : ReadFn W) (validate : ValidateFn W Operation) (w : W) (v : Device)
      → Reads view source
      → Validates view validate
      → view w ≡ v
      → Ends
          (λ s' w'. Written sha256 g v n s' (view w'))
          (λ e w'. WriteFails sha256 g v n e (view w'))
          (write_and_prepare io psa g n source validate w)
  unfolding write_and_prepare
  write_and_prepare-Ends n source validate w v reads validates h =
      elim (Bool-cases (not (geometry_valid g))) [
        | inl bad ↦ rw bad (failed (v, untouched refl, kept h))
        | inr good ↦ rw good (
            with_lock-Ends io view laws _ (Written sha256 g v n) (WriteFails sha256 g v n) w v h
              (λ w1 h1.
                seq (begin_locked-Ends io view laws g n w1 v h1)
                  (λ s w2 p.
                    seq (require-Ends (s.phase == writing) conflict w2)
                      (λ _ w3 q.
                        seq
                          (check_references-Ends io psa view absorbed sha256 laws hashes g s false
                            w3 v (ap view q.0 ∙ p.0))
                          (λ _ w4 r.
                            prepare_tail n s source validate w4 v (not_not good) reads validates r.0
                              p.1 p.2 ((==_iff _ _).0 q.1) r.1)
                          (λ e w4 r. (v, untouched refl, kept r.0)))
                      (λ e w3 q. (v, untouched refl, kept (ap view q.0 ∙ p.0))))
                  (λ e w2 p. (v, untouched refl, kept p.0)))
              (v, untouched refl, kept refl))
      ]
    where
      not_not : {b : Bool} → not b ≡ false → b ≡ true
      not_not {b} x = ground arith
