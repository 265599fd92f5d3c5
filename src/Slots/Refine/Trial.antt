-- ===== src/Slots/Refine/Trial.antt =====
-- `begin_trial`, `mark_healthy`, `confirm` and `abandon` of slots.c.
use esp_container.Common.{
  ℕ, ◌≡◌, refl, ap, ◌∙◌, inl, inr, Bool, true, false, not, ◌&&◌, ◌||◌, ◌==◌, leb, List, Option,
  none, some, arith, Bool-cases, Option-cases, ==_iff, and_parts,
}
use esp_container.Common.Bytes.{IsBytes, bytes_eq, all_zero, bytes_eq_sound}
use esp_container.Crypto.{Psa}
use esp_container.Slots.Types.{
  Geometry, SlotsState, StateIsSized, Binding, BindingIsSized, Operation, OperationIsSized,
  trial_started, health_verified, aborted,
}
use esp_container.Slots.Geometry.{geometry_valid}
use esp_container.Slots.Firmware.{binding_for_firmware}
use esp_container.Slots.Io.{SlotsIo, SlotsError, M, next, require, conflict}
use esp_container.Slots.Io.Post.{Ends, done, failed, seq, require-Ends}
use esp_container.Slots.Flash.Laws.{Device, SlotsIoLaws, PsaLaws, Intact, CandidateHashed}
use esp_container.Slots.Flash.{check_references}
use esp_container.Slots.Flash.Hash.{check_references-Ends}
use esp_container.Slots.Store.{commit_next, with_lock, begin_locked}
use esp_container.Slots.Store.Commit.{begin_locked-Ends, commit_next-Ends, with_lock-Ends}
use esp_container.Slots.Steps.{
  Step, tried, healthy, confirms, abandons, Stored, Admissible, kept, numbered, numbered-IsSized,
  phase-IsSized, Stored-IsSized,
}
use esp_container.Slots.Operations.{
  trial_state, confirmed_state, bind_package, confirm_target, trial_is_stopped, begin_trial,
  mark_healthy, confirm, abandon,
}
use esp_container.Slots.Refine.{Succeeds, Fails, Observes, Becomes, Confirms}

trial_state-IsSized :
    (s : SlotsState) (boot_id : List ℕ)
    → IsBytes 16 boot_id
    → StateIsSized s
    → StateIsSized (trial_state s boot_id)
unfolding trial_state
trial_state-IsSized s boot_id b z = record {
  sequence = z.sequence;
  binding0 = z.binding0;
  binding1 = z.binding1;
  phase = omega arith;
  operation = record {
    id = z.operation.id;
    firmware_digest = z.operation.firmware_digest;
    package_digest = z.operation.package_digest;
    slot = z.operation.slot;
    size = z.operation.size;
    abi = z.operation.abi;
    schema = z.operation.schema;
    boot = b;
  };
}

bind_package-IsSized :
    (b : Binding) (o : Operation)
    → BindingIsSized b
    → OperationIsSized o
    → BindingIsSized (bind_package b o)
unfolding bind_package
bind_package-IsSized b o z y = record {
  slot = y.slot;
  firmware_digest = z.firmware_digest;
  package_digest = y.package_digest;
  size = y.size;
  abi = y.abi;
  schema = y.schema;
}

confirmed_state-IsSized :
    (s : SlotsState) (i : ℕ) → StateIsSized s → StateIsSized (confirmed_state s i)
unfolding confirmed_state
confirmed_state-IsSized s i z = elim (Bool-cases (i == 0)) [
  | inl e ↦ rw e (record {
    sequence = z.sequence;
    binding0 = bind_package-IsSized s.binding0 s.operation z.binding0 z.operation;
    binding1 = z.binding1;
    phase = omega arith;
    operation = z.operation;
  })
  | inr e ↦ rw e (record {
    sequence = z.sequence;
    binding0 = z.binding0;
    binding1 = bind_package-IsSized s.binding1 s.operation z.binding1 z.operation;
    phase = omega arith;
    operation = z.operation;
  })
]

module _ {W Op : Type 0} (io : SlotsIo W) (psa : Psa W Op) (view : W → Device)
    (absorbed : Op → List ℕ) (sha256 : List ℕ → List ℕ) (laws : SlotsIoLaws io view)
    (hashes : PsaLaws psa view absorbed sha256) (g : Geometry) where
  -- The end of every operation: the references are checked, then the next state is committed.
  pub check_commit :
      (c : Bool) (n : ℕ) (R : SlotsState → SlotsState → Type 0) (current after : SlotsState) (w : W)
      (v : Device)
      → view w ≡ v
      → Stored g v current
      → current.sequence ≡ n
      → Step g current (numbered current after)
      → R current (numbered current after)
      → (StateIsSized current → StateIsSized after)
      → (Intact sha256 g v current
          → CandidateHashed sha256 g v current c
          → Intact sha256 g v (numbered current after))
      → Ends
          (λ s w'. Succeeds sha256 g v n R s (view w'))
          (λ e w'. Fails sha256 g v n R e (view w'))
          (next (check_references io psa g current c w) (λ _. commit_next io g current after))
  check_commit c n R current after w v h st e step related sized intact =
      seq (check_references-Ends io psa view absorbed sha256 laws hashes g current c w v h)
        (λ _ w1 p.
          commit_next-Ends io view laws g current after (Admissible sha256 g v n R) w1 v p.0
            (λ below valid. record {
              current = current;
              stored = st;
              expected = e;
              step = step;
              related = related;
              valid = valid;
              sized =
                  (let z = Stored-IsSized g v current st in
                    numbered-IsSized current after z (sized z) below);
              intact = intact p.1 p.2;
            }))
        (λ e w1 p. kept p.0)

  -- What follows `begin_locked` under the lock, for an operation that rests on sequence `n`.
  pub locked_from :
      (n : ℕ) (R : SlotsState → SlotsState → Type 0) (rest : SlotsState → M W SlotsState) (w : W)
      (v : Device)
      → view w ≡ v
      → ((s : SlotsState) (w1 : W)
          → view w1 ≡ v
          → Stored g v s
          → s.sequence ≡ n
          → Ends
              (λ s' w'. Succeeds sha256 g v n R s' (view w'))
              (λ e w'. Fails sha256 g v n R e (view w'))
              (rest s w1))
      → Ends
          (λ s w'. Succeeds sha256 g v n R s (view w'))
          (λ e w'. Fails sha256 g v n R e (view w'))
          (with_lock io (λ w1. next (begin_locked io g n w1) rest) w)
  locked_from n R rest w v h k =
      with_lock-Ends io view laws _ (Succeeds sha256 g v n R) (Fails sha256 g v n R) w v h
        (λ w1 h1.
          seq (begin_locked-Ends io view laws g n w1 v h1) (λ s w2 p. k s w2 p.0 p.1 p.2)
            (λ e w2 p. kept p.0))
        (kept refl)

  -- A guard in front of the rest.
  pub guarded :
      (n : ℕ) (R : SlotsState → SlotsState → Type 0) (c : Bool) (e : SlotsError)
      (rest : M W SlotsState) (w : W) (v : Device)
      → view w ≡ v
      → (c ≡ true
          → (w1 : W) → view w1 ≡ v
          → Ends
              (λ s w'. Succeeds sha256 g v n R s (view w'))
              (λ e w'. Fails sha256 g v n R e (view w'))
              (rest w1))
      → Ends
          (λ s w'. Succeeds sha256 g v n R s (view w'))
          (λ e w'. Fails sha256 g v n R e (view w'))
          (next (require c e w) (λ _. rest))
  guarded n R c e rest w v h k =
      seq (require-Ends c e w) (λ _ w1 q. k q.1 w1 (ap view q.0 ∙ h))
        (λ e' w1 q. kept (ap view q.0 ∙ h))

  -- With callbacks that keep their laws and a digest that keeps its own: for a boot id of 16 bytes,
  -- begin_trial either commits, to a device that is otherwise unchanged, the stored state of the
  -- expected sequence number with phase TRIAL_STARTED and the boot id, from PREPARED and with
  -- intact packages, or fails; a failure leaves the device, or, under UNCERTAIN only, has committed
  -- such a state.
  pub begin_trial-Ends :
      (n : ℕ) (running boot_id : List ℕ) (w : W) (v : Device)
      → IsBytes 16 boot_id
      → view w ≡ v
      → Ends
          (λ s w'. Succeeds sha256 g v n (Becomes (λ t. trial_state t boot_id)) s (view w'))
          (λ e w'. Fails sha256 g v n (Becomes (λ t. trial_state t boot_id)) e (view w'))
          (begin_trial io psa g n running boot_id w)
  unfolding begin_trial trial_state
  begin_trial-Ends n running boot_id w v b h =
      elim (Bool-cases (not (geometry_valid g) || all_zero boot_id)) [
        | inl bad ↦ rw bad (failed (kept h))
        | inr good ↦ rw good (
            locked_from n _ _ w v h (λ s w1 h1 st e. guarded n _ _ conflict _ w1 v h1 (λ c w2 h2.
              check_commit true n _ s (trial_state s boot_id) w2 v h2 st e
                (tried boot_id ((==_iff _ _).0 (and_parts _ _ c).0) refl) refl
                (λ z. trial_state-IsSized s boot_id b z)
                (λ i _. record { binding0 = i.binding0; binding1 = i.binding1 }))))
      ]

  -- With callbacks that keep their laws and a digest that keeps its own: mark_healthy either
  -- commits, to a device that is otherwise unchanged, the stored state of the expected sequence
  -- number with phase HEALTH_VERIFIED and intact packages, or fails; a failure leaves the device,
  -- or, under UNCERTAIN only, has committed such a state.
  pub mark_healthy-Ends :
      (n : ℕ) (boot_id : List ℕ) (w : W) (v : Device)
      → view w ≡ v
      → Ends
          (λ s w'.
            Succeeds sha256 g v n (Becomes (λ t. record t { phase = health_verified })) s (view w'))
          (λ e w'.
            Fails sha256 g v n (Becomes (λ t. record t { phase = health_verified })) e (view w'))
          (mark_healthy io psa g n boot_id w)
  unfolding mark_healthy
  mark_healthy-Ends n boot_id w v h = elim (Bool-cases (not (geometry_valid g))) [
    | inl bad ↦ rw bad (failed (kept h))
    | inr good ↦ rw good (
        locked_from n _ _ w v h (λ s w1 h1 st e. guarded n _ _ conflict _ w1 v h1 (λ c w2 h2.
          check_commit true n _ s (record s { phase = health_verified }) w2 v h2 st e
            (healthy ((==_iff _ _).0 (and_parts _ _ c).0) refl) refl
            (phase-IsSized s health_verified (omega arith))
            (λ i _. record { binding0 = i.binding0; binding1 = i.binding1 }))))
  ]

  -- What the tests of `confirm` have established of the current state.
  confirm_target-some :
      (s : SlotsState) (running boot_id : List ℕ) (i : ℕ)
      → confirm_target s running boot_id ≡ some i
      → (s.phase ≡ health_verified)
        × (binding_for_firmware s s.operation.target_firmware_sha256 ≡ some i)
  unfolding confirm_target
  confirm_target-some s running boot_id i e =
      elim (Bool-cases (
        s.phase == health_verified
        && bytes_eq s.operation.target_firmware_sha256 running
        && bytes_eq s.operation.trial_boot_id boot_id)) [
          | inr no_match ↦ none-some (rw no_match at e)
          | inl match' ↦
              (let (front, _) = and_parts _ _ match' in
                let (phase, firmware) = and_parts _ _ front in
                (
                  (==_iff _ _).0 phase,
                  ap (binding_for_firmware s) (bytes_eq_sound _ _ firmware) ∙ (rw match' at e),
                ))
        ]
    where
      none-some : {A : Type 0} → none ≡ some i → A
      none-some q = cc

  confirmed-Intact :
      (v : Device) (s : SlotsState) (i : ℕ)
      → s.phase ≡ health_verified
      → Intact sha256 g v s
      → CandidateHashed sha256 g v s true
      → Intact sha256 g v (numbered s (confirmed_state s i))
  unfolding confirmed_state bind_package
  confirmed-Intact v s i p a c =
      let candidate = c (rw p refl) in
      elim (Bool-cases (i == 0)) [
        | inl e ↦ rw e (record { binding0 = λ _. candidate; binding1 = a.binding1 })
        | inr e ↦ rw e (record { binding0 = a.binding0; binding1 = λ _. candidate })
      ]

  -- With callbacks that keep their laws and a digest that keeps its own: confirm either commits, to
  -- a device that is otherwise unchanged, a valid state that follows the stored one of the expected
  -- sequence number by confirming the binding that its tests find, with intact packages, or fails;
  -- a failure leaves the device, or, under UNCERTAIN only, has committed such a state.
  pub confirm-Ends :
      (n : ℕ) (running boot_id : List ℕ) (w : W) (v : Device)
      → view w ≡ v
      → Ends
          (λ s w'. Succeeds sha256 g v n (Confirms running boot_id) s (view w'))
          (λ e w'. Fails sha256 g v n (Confirms running boot_id) e (view w'))
          (confirm io psa g n running boot_id w)
  unfolding confirm
  confirm-Ends n running boot_id w v h = elim (Bool-cases (not (geometry_valid g))) [
    | inl bad ↦ rw bad (failed (kept h))
    | inr good ↦ rw good (
        locked_from n _ _ w v h (λ s w1 h1 st e.
          elim (Option-cases (confirm_target s running boot_id)) [
            | inl q ↦ rw q (failed (kept h1))
            | inr (i, q) ↦ rw q (
                let (phase, target) = confirm_target-some s running boot_id i q in
                check_commit true n _ s (confirmed_state s i) w1 v h1 st e
                  (confirms i phase target refl) (i, q, refl) (confirmed_state-IsSized s i)
                  (λ a c. confirmed-Intact v s i phase a c))
          ]))
  ]

  trial_is_stopped-Ends :
      (s : SlotsState) (boot_id : List ℕ) (stopped : Option (List ℕ → W → Bool × W)) (w : W)
      (v : Device)
      → Observes view stopped
      → view w ≡ v
      → Ends (λ _ w'. view w' ≡ v) (λ _ w'. view w' ≡ v) (trial_is_stopped s boot_id stopped w)
  unfolding trial_is_stopped
  trial_is_stopped-Ends s boot_id none w v o h =
      elim (Bool-cases (leb trial_started s.phase && bytes_eq s.operation.trial_boot_id boot_id)) [
        | inl e ↦ rw e (failed h)
        | inr e ↦ rw e (done h)
      ]
  trial_is_stopped-Ends s boot_id (some f) w v o h =
      elim (Bool-cases (leb trial_started s.phase && bytes_eq s.operation.trial_boot_id boot_id)) [
        | inl e ↦ elim (Bool-cases (f s.operation.operation_id w).0) [
          | inl t ↦ rw (e, t) (done (o _ w ∙ h))
          | inr t ↦ rw (e, t) (failed (o _ w ∙ h))
        ]
        | inr e ↦ rw e (done h)
      ]

  -- With callbacks that keep their laws and a digest that keeps its own: with a stop callback that
  -- leaves the storage alone, abandon either commits, to a device that is otherwise unchanged, the
  -- stored state of the expected sequence number with phase ABORTED and intact packages, or fails;
  -- a failure leaves the device, or, under UNCERTAIN only, has committed such a state.
  pub abandon-Ends :
      (n : ℕ) (boot_id : List ℕ) (stopped : Option (List ℕ → W → Bool × W)) (w : W) (v : Device)
      → Observes view stopped
      → view w ≡ v
      → Ends
          (λ s w'. Succeeds sha256 g v n (Becomes (λ t. record t { phase = aborted })) s (view w'))
          (λ e w'. Fails sha256 g v n (Becomes (λ t. record t { phase = aborted })) e (view w'))
          (abandon io psa g n boot_id stopped w)
  unfolding abandon
  abandon-Ends n boot_id stopped w v o h = elim (Bool-cases (not (geometry_valid g))) [
    | inl bad ↦ rw bad (failed (kept h))
    | inr good ↦ rw good (
        locked_from n _ _ w v h (λ s w1 h1 st e. guarded n _ _ conflict _ w1 v h1 (λ c w2 h2.
          seq (trial_is_stopped-Ends s boot_id stopped w2 v o h2)
            (λ _ w3 h3.
              check_commit false n _ s (record s { phase = aborted }) w3 v h3 st e (abandons c refl)
                refl (phase-IsSized s aborted (omega arith))
                (λ i _. record { binding0 = i.binding0; binding1 = i.binding1 }))
            (λ e' w3 h3. kept h3))))
  ]
