-- ===== src/Slots/Refine/Reserve.antt =====
-- `reserve` of slots.c.
use esp_container.Common.{
  ℕ, ◌<◌, ◌≡◌, refl, ap, ◌∙◌, inl, inr, Bool, true, false, not, ◌&&◌, ◌||◌, ◌==◌, List, some, arith,
  Bool-cases, Option-cases,
}
use esp_container.Common.Bytes.{bytes_eq}
use esp_container.Crypto.{Psa}
use esp_container.Slots.Types.{
  Geometry, SlotsState, StateIsSized, Operation, OperationIsSized, FirmwareSet, idle,
}
use esp_container.Slots.Geometry.{geometry_valid}
use esp_container.Slots.Firmware.{firmware_set_valid}
use esp_container.Slots.Io.{SlotsIo, SlotsError, M, next, require, busy, conflict}
use esp_container.Slots.Io.Post.{Ends, done, failed, seq}
use esp_container.Slots.Flash.Laws.{Device, SlotsIoLaws, PsaLaws}
use esp_container.Slots.Flash.Hash.{check_references-Ends}
use esp_container.Slots.Store.Commit.{commit_next-Ends}
use esp_container.Slots.Steps.{reserved, Admissible, kept, numbered-IsSized, Stored-IsSized}
use esp_container.Slots.Operations.{
  request_invalid, not_repeated, slot_usable, select_slot, reserved_state, reserve,
}
use esp_container.Slots.Refine.{Reserves, Succeeds, Fails}
use esp_container.Slots.Refine.Trial.{locked_from, guarded}

not_repeated-Ends :
    {W : Type 0} (s : SlotsState) (o : Operation) (w : W)
    → Ends (λ _ w'. w' ≡ w) (λ _ w'. w' ≡ w) (not_repeated s o w)
unfolding not_repeated
not_repeated-Ends s o w =
    elim (Bool-cases (not (s.phase == idle) && bytes_eq s.operation.operation_id o.operation_id)) [
      | inl e ↦ rw e (failed refl)
      | inr e ↦ rw e (done refl)
    ]

not-false : (b : Bool) → not b ≡ true → b ≡ false
not-false true e = cc
not-false false e = refl

-- The selected slot is one of the three, is free and holds the package.
pub select_slot-some :
    (g : Geometry) (s : SlotsState) (size i : ℕ)
    → select_slot g s size ≡ some i
    → (i < 3) × (slot_usable g s size i ≡ true)
unfolding select_slot
select_slot-some g s size i e = ground arith

reserved_state-IsSized :
    (g : Geometry) (s : SlotsState) (o : Operation) (i : ℕ)
    → select_slot g s o.package_size_bytes ≡ some i
    → OperationIsSized o
    → StateIsSized s
    → StateIsSized (reserved_state s o i)
unfolding reserved_state
reserved_state-IsSized g s o i x y z = record {
  sequence = z.sequence;
  binding0 = z.binding0;
  binding1 = z.binding1;
  phase = omega arith;
  operation = record {
    id = y.id;
    firmware_digest = y.firmware_digest;
    package_digest = y.package_digest;
    slot = omega (arith, (select_slot-some g s o.package_size_bytes i x).0);
    size = y.size;
    abi = y.abi;
    schema = y.schema;
    boot = y.boot;
  };
}

module _ {W Op : Type 0} (io : SlotsIo W) (psa : Psa W Op) (view : W → Device)
    (absorbed : Op → List ℕ) (sha256 : List ℕ → List ℕ) (laws : SlotsIoLaws io view)
    (hashes : PsaLaws psa view absorbed sha256) (g : Geometry) where
  -- With callbacks that keep their laws and a digest that keeps its own: for a request that fits
  -- its C types, reserve either commits, to a device that is otherwise unchanged, the stored state
  -- of the expected sequence number with phase WRITING and the request on the slot that select_slot
  -- picks, with intact packages, or fails; a failure leaves the device, or, under UNCERTAIN only,
  -- has committed such a state.
  pub reserve-Ends :
      (n : ℕ) (f : FirmwareSet) (o : Operation) (w : W) (v : Device)
      → OperationIsSized o
      → view w ≡ v
      → Ends
          (λ s w'. Succeeds sha256 g v n (Reserves g o) s (view w'))
          (λ e w'. Fails sha256 g v n (Reserves g o) e (view w'))
          (reserve io psa g n f o w)
  unfolding reserve reserved_state
  reserve-Ends n f o w v oz h =
      elim (Bool-cases
        (not (geometry_valid g) || not (firmware_set_valid f) || request_invalid f o)) [
          | inl bad ↦ rw bad (failed (kept h))
          | inr good ↦ rw good (
              locked_from io psa view absorbed sha256 laws hashes g n _ _ w v h (λ s w1 h1 st e.
                guard n _ _ conflict _ w1 v h1 (λ _ w2 h2.
                  guard n _ _ conflict _ w2 v h2 (λ _ w3 h3.
                    seq
                      (check_references-Ends io psa view absorbed sha256 laws hashes g s true w3 v
                        h3)
                      (λ _ w4 p.
                        seq (not_repeated-Ends s o w4)
                          (λ _ w5 q. guard n _ _ busy _ w5 v (ap view q ∙ p.0) (λ c w6 h6.
                            elim (Option-cases (select_slot g s o.package_size_bytes)) [
                              | inl x ↦ rw x (failed (kept h6))
                              | inr (i, x) ↦ rw x (
                                  commit_next-Ends io view laws g s (reserved_state s o i)
                                    (Admissible sha256 g v n (Reserves g o)) w6 v h6
                                    (λ below valid. record {
                                      current = s;
                                      stored = st;
                                      expected = e;
                                      step = reserved o i (not-false _ c) x refl;
                                      related = (i, x, refl);
                                      valid = valid;
                                      sized =
                                          (let z = Stored-IsSized g v s st in
                                            numbered-IsSized s (reserved_state s o i) z
                                              (reserved_state-IsSized g s o i x oz z) below);
                                      intact = record {
                                        binding0 = p.1.binding0;
                                        binding1 = p.1.binding1;
                                      };
                                    }))
                            ]))
                          (λ _ w5 q. kept (ap view q ∙ p.0)))
                      (λ _ w4 p. kept p.0)))))
        ]
    where
      guard :
          (n : ℕ) (R : SlotsState → SlotsState → Type 0) (c : Bool) (e : SlotsError)
          (rest : M W SlotsState) (w : W) (v : Device)
          → view w ≡ v
          → (c ≡ true
              → (w1 : W) → view w1 ≡ v
              → Ends
                  (λ s w'. Succeeds sha256 g v n R s (view w'))
                  (λ e w'. Fails sha256 g v n R e (view w'))
                  (rest w1))
          → Ends
              (λ s w'. Succeeds sha256 g v n R s (view w'))
              (λ e w'. Fails sha256 g v n R e (view w'))
              (next (require c e w) (λ _. rest))
      guard = guarded io psa view absorbed sha256 laws hashes g
