-- ===== src/Slots/Refine/Reconcile.antt =====
-- `reconcile` of slots.c: when start-up is allowed, and on which packages.
use esp_container.Common.{
  ℕ, ◌≡◌, ap, ◌∙◌, inl, inr, Bool, true, false, not, ◌||◌, List, none, some, Bool-cases,
}
use esp_container.Crypto.{Psa}
use esp_container.Slots.Types.{Geometry, SlotsState, FirmwareSet}
use esp_container.Slots.Geometry.{geometry_valid}
use esp_container.Slots.Valid.{has_candidate}
use esp_container.Slots.Firmware.{firmware_set_valid, firmware_set_matches}
use esp_container.Slots.Io.{SlotsIo, SlotsError, Result, ok, err, conflict}
use esp_container.Slots.Io.Post.{Ends, done, failed, seq, weaken, require-Ends}
use esp_container.Slots.Flash.{hash_candidate}
use esp_container.Slots.Flash.Laws.{Device, SlotsIoLaws, PsaLaws, Intact, CandidateHashed}
use esp_container.Slots.Flash.Hash.{Clean, check_references-Ends, hash_flash-Ends}
use esp_container.Slots.Store.Commit.{load_locked-Ends}
use esp_container.Slots.Steps.{Stored}
use esp_container.Slots.Boot.{
  confirmed_part, decide, candidate_decision, reconcile, Reconciled, refused,
  recover_candidate_invalid, decision_of,
}

-- The stored state, matched with the firmware and with every confirmed package hashed.
pub record Trusted (sha256 : List ℕ → List ℕ) (g : Geometry) (v : Device) (f : FirmwareSet)
    (s : SlotsState) : Type 0 where
  pub stored : Stored g v s
  pub bootable : firmware_set_matches s f ≡ true
  pub intact : Intact sha256 g v s

-- The three kinds of answer. Nothing is handed out with a refusal; with a damaged candidate only
-- the confirmed packages are vouched for.
pub data BootOutcome (sha256 : List ℕ → List ℕ) (g : Geometry) (v : Device) (f : FirmwareSet)
    : Reconciled → Type 0 where
  blocks : (e : SlotsError) → BootOutcome sha256 g v f (refused e)
  boots :
      (s : SlotsState)
      → Trusted sha256 g v f s
      → CandidateHashed sha256 g v s true
      → BootOutcome sha256 g v f
          (record { error = none; state = some s; decision = decision_of s.phase })
  recovers :
      (s : SlotsState) (e : SlotsError)
      → Trusted sha256 g v f s
      → has_candidate s.phase ≡ true
      → BootOutcome sha256 g v f
          (record { error = some e; state = some s; decision = recover_candidate_invalid })

module _ {W Op : Type 0} (io : SlotsIo W) (psa : Psa W Op) (view : W → Device)
    (absorbed : Op → List ℕ) (sha256 : List ℕ → List ℕ) (laws : SlotsIoLaws io view)
    (hashes : PsaLaws psa view absorbed sha256) (g : Geometry) where
  confirmed_part-Ends :
      (f : FirmwareSet) (w : W) (v : Device)
      → view w ≡ v
      → Ends
          (λ s w'. (view w' ≡ v) × Trusted sha256 g v f s)
          (λ _ w'. view w' ≡ v)
          (confirmed_part io psa g f w)
  unfolding confirmed_part
  confirmed_part-Ends f w v h =
      seq (load_locked-Ends io view laws g w v h)
        (λ s w1 p.
          seq (require-Ends (firmware_set_matches s f) conflict w1)
            (λ _ w2 q.
              seq
                (check_references-Ends io psa view absorbed sha256 laws hashes g s false w2 v
                  (ap view q.0 ∙ p.0))
                (λ _ w3 r. done (r.0, record { stored = p.1; bootable = q.1; intact = r.1 }))
                (λ e w3 r. r.0))
            (λ e w2 q. ap view q.0 ∙ p.0))
        (λ e w1 p. p.0)

  candidate-BootOutcome :
      (f : FirmwareSet) (s : SlotsState) (v : Device) (x : Result (Unit {0}) × W)
      → Trusted sha256 g v f s
      → has_candidate s.phase ≡ true
      → Ends (λ _ w'. (view w' ≡ v) × CandidateHashed sha256 g v s true) (Clean view v) x
      → BootOutcome sha256 g v f (candidate_decision s x).0 × (view (candidate_decision s x).1 ≡ v)
  unfolding candidate_decision
  candidate-BootOutcome f s v (ok _, w) t c (done p) = (boots s t p.1, p.0)
  candidate-BootOutcome f s v (err e, w) t c (failed p) = (recovers s e t c, p.0)

  decide-BootOutcome :
      (f : FirmwareSet) (v : Device) (x : Result SlotsState × W)
      → Ends (λ s w'. (view w' ≡ v) × Trusted sha256 g v f s) (λ _ w'. view w' ≡ v) x
      → BootOutcome sha256 g v f (decide io psa g x).0 × (view (decide io psa g x).1 ≡ v)
  unfolding decide hash_candidate
  decide-BootOutcome f v (err e, w) (failed p) = (blocks e, p)
  decide-BootOutcome f v (ok s, w) (done p) = elim (Bool-cases (has_candidate s.phase)) [
    | inl c ↦ rw c (
        candidate-BootOutcome f s v _ p.1 c (
          weaken
            (hash_flash-Ends io psa view absorbed sha256 laws hashes g s.operation.slot
              s.operation.package_size_bytes s.operation.package_sha256 w v p.0)
            (λ _ w' q. (q.0, λ _. q.1)) (λ e w' q. q)))
    | inr c ↦ rw c (boots s p.1 (λ x. true_false c x), p.0)
  ]
    where
      true_false : {A : Type 0} {b : Bool} → b ≡ false → b ≡ true → A
      true_false p q = cc

  -- With callbacks that keep their laws and a digest that keeps its own: reconcile changes nothing
  -- on the device, and its answer has one of three forms: a refusal with an error, no state and
  -- BLOCKED; the stored state with the decision of its phase, where it matches the firmware set,
  -- its packages are intact and a complete candidate has its SHA-256; or the stored state with an
  -- error and CANDIDATE_INVALID, where all of that holds but for the candidate.
  pub reconcile-BootOutcome :
      (f : FirmwareSet) (w : W) (v : Device)
      → view w ≡ v
      → BootOutcome sha256 g v f (reconcile io psa g f w).0 × (view (reconcile io psa g f w).1 ≡ v)
  unfolding reconcile
  reconcile-BootOutcome f w v h =
      elim (Bool-cases (not (geometry_valid g) || not (firmware_set_valid f))) [
        | inl bad ↦ rw bad (blocks _, h)
        | inr good ↦ elim (Bool-cases (io.lock w).0) [
          | inr e ↦ rw (good, e, reconcile) (blocks _, laws.lock_keeps w ∙ h)
          | inl e ↦
              (let w1 = (io.lock w).1 in
                let (outcome, kept_view) =
                  decide-BootOutcome f v (confirmed_part io psa g f w1)
                    (confirmed_part-Ends f w1 v (laws.lock_keeps w ∙ h)) in
                rw (good, e, reconcile) (outcome, laws.unlock_keeps _ ∙ kept_view))
        ]
      ]
