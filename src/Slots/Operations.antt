-- ===== src/Slots/Operations.antt =====
-- The public operations of slots.c. A NULL argument has no counterpart: the code answers INVALID
-- to it before it does anything. On an error no state is handed out.
use esp_container.Common.{
  ℕ, Bool, true, false, not, ◌&&◌, ◌||◌, leb, ◌==◌, if◌then◌else◌, List, Option, none, some,
}
use esp_container.Common.Bytes.{bytes_eq, all_zero}
use esp_container.Crypto.{Psa}
use esp_container.Slots.Types.{
  Geometry, Binding, Operation, SlotsState, FirmwareSet, slot_at, idle, writing, prepared,
  trial_started, health_verified, confirmed, aborted,
}
use esp_container.Slots.Geometry.{geometry_valid}
use esp_container.Slots.Valid.{in_progress}
use esp_container.Slots.Io.{
  SlotsIo, ReadFn, ValidateFn, M, ok, err, ◌>>=◌, ◌>>◌, pure, fail, require, invalid, busy,
  no_space, conflict,
}
use esp_container.Slots.Flash.{hash_candidate, check_references}
use esp_container.Slots.Firmware.{binding_for_firmware, firmware_set_valid, firmware_set_matches}
use esp_container.Slots.Store.{load_locked, commit_next, begin_locked, with_lock}
use esp_container.Slots.Write.{write_package, validate_package}

-- The tests of `reserve` on its arguments.
unfoldable pub request_invalid : FirmwareSet → Operation → Bool
request_invalid f o =
    all_zero o.operation_id
    || all_zero o.package_sha256
    || not (bytes_eq o.target_firmware_sha256 f.running_firmware_sha256)
    || not (o.slot == 0)
    || o.package_size_bytes == 0
    || o.guest_abi_version == 0
    || o.data_schema_version == 0
    || not (all_zero o.trial_boot_id)

-- The schema of the package that the running firmware is bound to, if any, must stay.
unfoldable pub keeps_schema : Operation → Binding → Bool
keeps_schema o b = not b.package_present || b.data_schema_version == o.data_schema_version

unfoldable pub schema_compatible : SlotsState → FirmwareSet → Operation → Bool
schema_compatible s f o = elim (binding_for_firmware s f.running_firmware_sha256) [
  | none ↦ false
  | some i ↦ if i == 0 then keeps_schema o s.binding0 else keeps_schema o s.binding1
]

unfoldable pub same_request : Operation → Operation → Bool
same_request c o =
    bytes_eq c.target_firmware_sha256 o.target_firmware_sha256
    && bytes_eq c.package_sha256 o.package_sha256
    && c.package_size_bytes == o.package_size_bytes
    && c.guest_abi_version == o.guest_abi_version
    && c.data_schema_version == o.data_schema_version

-- A repeated operation id answers BUSY for the same request and CONFLICT for another.
unfoldable pub not_repeated : {W : Type 0} → SlotsState → Operation → M W (Unit {0})
not_repeated s o =
    if not (s.phase == idle) && bytes_eq s.operation.operation_id o.operation_id
    then fail (if same_request s.operation o then busy else conflict)
    else pure tt

-- `protected_slot[index]`
unfoldable pub slot_protected : SlotsState → ℕ → Bool
slot_protected s i =
    (s.binding0.package_present && s.binding0.slot == i)
    || (s.binding1.package_present && s.binding1.slot == i)

unfoldable pub slot_usable : Geometry → SlotsState → ℕ → ℕ → Bool
slot_usable g s size i = not (slot_protected s i) && leb size (slot_at g i).size_bytes

-- The loop that selects the first usable slot; `none` for `selected == ECONTAINER_SLOT_COUNT`.
unfoldable pub select_slot : Geometry → SlotsState → ℕ → Option ℕ
select_slot g s size =
    if slot_usable g s size 0
    then some 0
    else if slot_usable g s size 1
    then some 1
    else if slot_usable g s size 2
    then some 2
    else none

-- The states that the operations ask to be committed; `commit_next` gives the sequence number.
unfoldable pub reserved_state : SlotsState → Operation → ℕ → SlotsState
reserved_state s o i = record s { phase = writing; operation = record o { slot = i } }

unfoldable pub trial_state : SlotsState → List ℕ → SlotsState
trial_state s boot_id = record s {
  phase = trial_started;
  operation = record (s.operation) { trial_boot_id = boot_id };
}

-- What `confirm` writes to the binding of the running firmware.
unfoldable pub bind_package : Binding → Operation → Binding
bind_package b o = record b {
  package_present = true;
  slot = o.slot;
  package_sha256 = o.package_sha256;
  package_size_bytes = o.package_size_bytes;
  guest_abi_version = o.guest_abi_version;
  data_schema_version = o.data_schema_version;
}

unfoldable pub confirmed_state : SlotsState → ℕ → SlotsState
confirmed_state s i =
    if i == 0
    then record s { phase = confirmed; binding0 = bind_package s.binding0 s.operation }
    else record s { phase = confirmed; binding1 = bind_package s.binding1 s.operation }

-- The index of the binding that `confirm` changes, if its tests pass.
unfoldable pub confirm_target : SlotsState → List ℕ → List ℕ → Option ℕ
confirm_target s running boot_id =
    if s.phase == health_verified
      && bytes_eq s.operation.target_firmware_sha256 running
      && bytes_eq s.operation.trial_boot_id boot_id
    then binding_for_firmware s running
    else none

-- A trial of this boot must have been stopped; `none` is a NULL callback.
unfoldable pub trial_is_stopped :
    {W : Type 0} → SlotsState → List ℕ → Option (List ℕ → W → Bool × W) → M W (Unit {0})
trial_is_stopped s boot_id stopped w =
    if leb trial_started s.phase && bytes_eq s.operation.trial_boot_id boot_id
    then elim stopped [
      | none ↦ (err busy, w)
      | some f ↦
          (let (stops, w1) = f s.operation.operation_id w in
            if stops then (ok tt, w1) else (err busy, w1))
    ]
    else (ok tt, w)

module _ {W Op : Type 0} (io : SlotsIo W) (psa : Psa W Op) (g : Geometry) where
  unfoldable pub load : M W SlotsState
  load = if not (geometry_valid g) then fail invalid else with_lock io (load_locked io g)

  unfoldable pub reserve : ℕ → FirmwareSet → Operation → M W SlotsState
  reserve expected_sequence f o =
      if not (geometry_valid g) || not (firmware_set_valid f) || request_invalid f o
      then fail invalid
      else with_lock io (do
        current ← begin_locked io g expected_sequence
        require (firmware_set_matches current f) conflict
        require (schema_compatible current f o) conflict
        check_references io psa g current true
        not_repeated current o
        require (not (in_progress current.phase)) busy
        elim (select_slot g current o.package_size_bytes) [
          | none ↦ fail no_space
          | some i ↦ commit_next io g current (reserved_state current o i)
        ])

  unfoldable pub write_and_prepare : ℕ → ReadFn W → ValidateFn W Operation → M W SlotsState
  write_and_prepare expected_sequence source validate =
      if not (geometry_valid g)
      then fail invalid
      else with_lock io (do
        current ← begin_locked io g expected_sequence
        require (current.phase == writing) conflict
        check_references io psa g current false
        write_package io g current.operation source
        hash_candidate io psa g current.operation
        validate_package io g current.operation validate
        commit_next io g current (record current { phase = prepared }))

  unfoldable pub begin_trial : ℕ → List ℕ → List ℕ → M W SlotsState
  begin_trial expected_sequence running boot_id =
      if not (geometry_valid g) || all_zero boot_id
      then fail invalid
      else with_lock io (do
        current ← begin_locked io g expected_sequence
        require
            (current.phase == prepared && bytes_eq current.operation.target_firmware_sha256 running)
            conflict
        check_references io psa g current true
        commit_next io g current (trial_state current boot_id))

  unfoldable pub mark_healthy : ℕ → List ℕ → M W SlotsState
  mark_healthy expected_sequence boot_id =
      if not (geometry_valid g)
      then fail invalid
      else with_lock io (do
        current ← begin_locked io g expected_sequence
        require (current.phase == trial_started && bytes_eq current.operation.trial_boot_id boot_id)
            conflict
        check_references io psa g current true
        commit_next io g current (record current { phase = health_verified }))

  unfoldable pub confirm : ℕ → List ℕ → List ℕ → M W SlotsState
  confirm expected_sequence running boot_id =
      if not (geometry_valid g)
      then fail invalid
      else with_lock io (do
        current ← begin_locked io g expected_sequence
        elim (confirm_target current running boot_id) [
          | none ↦ fail conflict
          | some i ↦
              (check_references io psa g current true
                >> commit_next io g current (confirmed_state current i))
        ])

  unfoldable pub abandon : ℕ → List ℕ → Option (List ℕ → W → Bool × W) → M W SlotsState
  abandon expected_sequence boot_id stopped =
      if not (geometry_valid g)
      then fail invalid
      else with_lock io (do
        current ← begin_locked io g expected_sequence
        require (in_progress current.phase) conflict
        trial_is_stopped current boot_id stopped
        check_references io psa g current false
        commit_next io g current (record current { phase = aborted }))
