-- ===== src/Slots/Boot.antt =====
-- First installation and start-up: `econtainer_slots_initialize` and `econtainer_slots_reconcile`.
use esp_container.Common.{ℕ, true, false, not, ◌||◌, if◌then◌else◌, Option, none, some, replicate}
use esp_container.Crypto.{Psa}
use esp_container.Slots.Types.{Geometry, Binding, Operation, SlotsState, FirmwareSet, idle}
use esp_container.Slots.Geometry.{geometry_valid}
use esp_container.Slots.Valid.{state_valid, in_progress, has_candidate}
use esp_container.Slots.Io.{
  SlotsIo, SlotsError, Result, M, ok, err, ◌>>=◌, ◌>>◌, pure, fail, require, empty, invalid, busy,
  conflict,
}
use esp_container.Slots.Flash.{hash_candidate, check_references}
use esp_container.Slots.Firmware.{firmware_set_valid, firmware_set_matches}
use esp_container.Slots.Store.{load_locked, persist_locked, with_lock}

abbrev pub zeroed_operation : Operation
zeroed_operation = record {
  operation_id = replicate 16 0;
  target_firmware_sha256 = replicate 32 0;
  package_sha256 = replicate 32 0;
  slot = 0;
  package_size_bytes = 0;
  guest_abi_version = 0;
  data_schema_version = 0;
  trial_boot_id = replicate 16 0;
}

unfoldable pub initial_state : Binding → Binding → SlotsState
initial_state b0 b1 = record {
  sequence = 1;
  binding0 = b0;
  binding1 = b1;
  phase = idle;
  operation = zeroed_operation;
}

-- Only an absent blob may be initialised.
unfoldable pub if_empty :
    {W : Type 0} → Result SlotsState × W → M W SlotsState → Result SlotsState × W
if_empty (ok s, w) install = (err conflict, w)
if_empty (err empty, w) install = install w
if_empty (err e, w) install = (err e, w)

-- `econtainer_slot_boot_decision_t`
pub data BootDecision : Type 0 where
  blocked boot_confirmed recover_confirmed recover_candidate_invalid : BootDecision

-- What `reconcile` leaves in its out parameters; no state is a zeroed one, no error is OK.
pub record Reconciled : Type 0 where
  pub error : Option SlotsError
  pub state : Option SlotsState
  pub decision : BootDecision

abbrev pub refused : SlotsError → Reconciled
refused e = record { error = some e; state = none; decision = blocked }

abbrev pub decision_of : ℕ → BootDecision
decision_of phase = if in_progress phase then recover_confirmed else boot_confirmed

unfoldable pub candidate_decision :
    {W : Type 0} → SlotsState → Result (Unit {0}) × W → Reconciled × W
candidate_decision s (ok _, w) =
    (record { error = none; state = some s; decision = decision_of s.phase }, w)
candidate_decision s (err e, w) =
    (record { error = some e; state = some s; decision = recover_candidate_invalid }, w)

module _ {W Op : Type 0} (io : SlotsIo W) (psa : Psa W Op) (g : Geometry) where
  unfoldable pub install : FirmwareSet → Binding → Binding → M W SlotsState
  install f b0 b1 =
      let initial = initial_state b0 b1 in
      if not (state_valid initial g) || not (firmware_set_matches initial f)
      then fail invalid
      else (check_references io psa g initial false >> persist_locked io none initial)

  unfoldable pub initialize : FirmwareSet → Binding → Binding → M W SlotsState
  initialize f b0 b1 =
      if not (geometry_valid g) || not (firmware_set_valid f)
      then fail invalid
      else with_lock io (λ w. if_empty (load_locked io g w) (install f b0 b1))

  -- The state, once its confirmed packages are checked.
  unfoldable pub confirmed_part : FirmwareSet → M W SlotsState
  confirmed_part f = do
    s ← load_locked io g
    require (firmware_set_matches s f) conflict
    check_references io psa g s false
    pure s

  unfoldable pub decide : Result SlotsState × W → Reconciled × W
  decide (err e, w) = (refused e, w)
  decide (ok s, w) =
      if has_candidate s.phase
      then candidate_decision s (hash_candidate io psa g s.operation w)
      else (record { error = none; state = some s; decision = decision_of s.phase }, w)

  unfoldable pub reconcile : FirmwareSet → W → Reconciled × W
  reconcile f w =
      if not (geometry_valid g) || not (firmware_set_valid f)
      then (refused invalid, w)
      else let (taken, w1) = io.lock w in
        elim taken [
          | false ↦ (refused busy, w1)
          | true ↦ (let (outcome, w2) = decide (confirmed_part f w1) in (outcome, io.unlock w2))
        ]
