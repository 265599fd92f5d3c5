-- ===== src/Examples/Data.antt =====
-- A device of three slots of 16 bytes, one firmware, and a first package of 5 bytes.
use esp_container.Common.{ℕ, true, false, List, [], ◌∷◌, none, some, replicate, take, drop}
use esp_container.Slots.Types.{
  Geometry, Binding, Operation, SlotsState, FirmwareSet, idle, health_verified,
}
use esp_container.Slots.Io.{ReadFn, ValidateFn, validation_ok}
use esp_container.Slots.Flash.Laws.{Device}
use esp_container.Slots.Boot.{zeroed_operation}
use esp_container.Slots.Codec.{encode_state}
use esp_container.Slots.Steps.{numbered}
use esp_container.Slots.Operations.{confirmed_state}
use esp_container.Slots.History.{
  Call, initializes, reserves, writes, tries, marks_healthy, confirms,
}
use esp_container.Examples.World.{byte_sum}

abbrev pub small : Geometry
small = record {
  partition_offset_bytes = 0;
  partition_size_bytes = 48;
  erase_unit_bytes = 16;
  write_unit_bytes = 4;
  slot0 = record { offset_bytes = 0; size_bytes = 16 };
  slot1 = record { offset_bytes = 16; size_bytes = 16 };
  slot2 = record { offset_bytes = 32; size_bytes = 16 };
}

abbrev pub firmware : List ℕ
firmware = replicate 32 7

abbrev pub one_firmware : FirmwareSet
one_firmware = record {
  bootable_count = 1;
  bootable0 = firmware;
  bootable1 = replicate 32 0;
  running_firmware_sha256 = firmware;
}

abbrev pub package_bytes : List ℕ
package_bytes = 1 ∷ 2 ∷ 3 ∷ 4 ∷ 5 ∷ []

abbrev pub absent : Binding
absent = record {
  present = false;
  package_present = false;
  slot = 0;
  firmware_sha256 = replicate 32 0;
  package_sha256 = replicate 32 0;
  package_size_bytes = 0;
  guest_abi_version = 0;
  data_schema_version = 0;
}

abbrev pub unpacked : Binding
unpacked = record absent { present = true; firmware_sha256 = firmware }

abbrev pub request : Operation
request = record {
  operation_id = replicate 16 1;
  target_firmware_sha256 = firmware;
  package_sha256 = byte_sum package_bytes;
  slot = 0;
  package_size_bytes = 5;
  guest_abi_version = 1;
  data_schema_version = 1;
  trial_boot_id = replicate 16 0;
}

abbrev pub boot_id : List ℕ
boot_id = replicate 16 9

abbrev pub source : ReadFn Device
source a n w = (some (take n (drop a package_bytes)), w)

abbrev pub validate : ValidateFn Device Operation
validate o read n w = (validation_ok, (read 0 n w).1)

-- No blob, and erased Flash.
abbrev pub blank : Device
blank = record { blob = none; flash = λ x. 255 }

-- From a blank device to the confirmed package.
abbrev pub later_calls : List (Call Device)
later_calls =
    reserves 1 one_firmware request
    ∷ writes 2 source validate
    ∷ tries 3 firmware boot_id
    ∷ marks_healthy 4 boot_id
    ∷ confirms 5 firmware boot_id
    ∷ []

abbrev pub first_package : List (Call Device)
first_package = initializes one_firmware unpacked absent ∷ later_calls

abbrev pub no_boot_id : List ℕ
no_boot_id = replicate 16 0

-- The states behind those calls.
abbrev pub installed_state : SlotsState
installed_state = record {
  sequence = 1;
  binding0 = unpacked;
  binding1 = absent;
  phase = idle;
  operation = zeroed_operation;
}

abbrev pub in_phase : ℕ → ℕ → List ℕ → SlotsState
in_phase n phase boot = record {
  sequence = n;
  binding0 = unpacked;
  binding1 = absent;
  phase = phase;
  operation = record request { trial_boot_id = boot };
}

abbrev pub healthy_state : SlotsState
healthy_state = in_phase 5 health_verified boot_id

abbrev pub bound_state : SlotsState
bound_state = numbered healthy_state (confirmed_state healthy_state 0)

abbrev pub holding : SlotsState → Device
holding s = record { blob = some (encode_state s); flash = λ x. 255 }
