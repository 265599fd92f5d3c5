-- ===== src/Examples/Facts.antt =====
-- What holds of the small device's data, and the run from a blank device to a confirmed package.
use esp_container.Common.{
  ℕ, zero, suc, ◌≡◌, ◌<◌, refl, List, true, false, none, some, replicate, All, length-replicate,
  arith,
}
use esp_container.Common.Bytes.{IsByte, IsBytes, bytes_eq, all_zero}
use esp_container.Slots.Types.{StateIsSized, BindingIsSized, OperationIsSized, writing}
use esp_container.Slots.Valid.{
  state_valid, bindings_invalid, binding_valid, package_fields_zero, operation_valid,
  operation_fields_invalid, occupies_reserved, is_target, trial_boot_id_valid, same_firmware,
  same_slot_differs, operation_empty, package_fields_valid, holds_operation,
}
use esp_container.Slots.Geometry.{geometry_valid, units_invalid, region_invalid, overlaps}
use esp_container.Slots.Flash.Laws.{Device, Intact}
use esp_container.Slots.History.{Safe, AllProper}
use esp_container.Examples.World.{byte_sum, viewed}
use esp_container.Examples.Data.{
  small, blank, unpacked, absent, request, in_phase, no_boot_id, boot_id, installed_state,
  bound_state, later_calls,
}
use esp_container.Slots.Boot.{zeroed_operation}
use esp_container.Slots.Operations.{bind_package, confirmed_state}

pub small_valid : geometry_valid small ≡ true
unfolding geometry_valid units_invalid region_invalid overlaps
small_valid = refl

All-replicate : (n b : ℕ) → b < 256 → All IsByte (replicate n b)
All-replicate zero b h = tt
All-replicate (suc n) b h = (h, All-replicate n b h)

pub replicate-IsBytes : (n b : ℕ) → b < 256 → IsBytes n (replicate n b)
replicate-IsBytes n b h = (length-replicate n b, All-replicate n b h)

pub absent-IsSized : BindingIsSized absent
absent-IsSized = record {
  slot = omega arith;
  firmware_digest = replicate-IsBytes 32 0 (omega arith);
  package_digest = replicate-IsBytes 32 0 (omega arith);
  size = omega arith;
  abi = omega arith;
  schema = omega arith;
}

pub unpacked-IsSized : BindingIsSized unpacked
unpacked-IsSized = record {
  slot = omega arith;
  firmware_digest = replicate-IsBytes 32 7 (omega arith);
  package_digest = replicate-IsBytes 32 0 (omega arith);
  size = omega arith;
  abi = omega arith;
  schema = omega arith;
}

operation_IsSized :
    (boot : List ℕ) → IsBytes 16 boot → OperationIsSized (record request { trial_boot_id = boot })
operation_IsSized boot b = record {
  id = replicate-IsBytes 16 1 (omega arith);
  firmware_digest = replicate-IsBytes 32 7 (omega arith);
  package_digest = (refl, (omega arith, All-replicate 31 1 (omega arith)));
  slot = omega arith;
  size = omega arith;
  abi = omega arith;
  schema = omega arith;
  boot = b;
}

pub request-IsSized : OperationIsSized request
request-IsSized = operation_IsSized no_boot_id (replicate-IsBytes 16 0 (omega arith))

zeroed-IsSized : OperationIsSized zeroed_operation
zeroed-IsSized = record {
  id = replicate-IsBytes 16 0 (omega arith);
  firmware_digest = replicate-IsBytes 32 0 (omega arith);
  package_digest = replicate-IsBytes 32 0 (omega arith);
  slot = omega arith;
  size = omega arith;
  abi = omega arith;
  schema = omega arith;
  boot = replicate-IsBytes 16 0 (omega arith);
}

pub reserved_sized : StateIsSized (in_phase 2 writing no_boot_id)
reserved_sized = record {
  sequence = omega arith;
  binding0 = unpacked-IsSized;
  binding1 = absent-IsSized;
  phase = omega arith;
  operation = request-IsSized;
}

pub installed_sized : StateIsSized installed_state
installed_sized = record {
  sequence = omega arith;
  binding0 = unpacked-IsSized;
  binding1 = absent-IsSized;
  phase = omega arith;
  operation = zeroed-IsSized;
}

pub installed_valid : state_valid installed_state small ≡ true
unfolding state_valid bindings_invalid binding_valid package_fields_zero operation_empty
    operation_valid operation_fields_invalid occupies_reserved is_target trial_boot_id_valid
    same_firmware same_slot_differs all_zero bytes_eq
installed_valid = refl

pub bound_sized : StateIsSized bound_state
unfolding confirmed_state bind_package
bound_sized = record {
  sequence = omega arith;
  binding0 = record {
    slot = omega arith;
    firmware_digest = replicate-IsBytes 32 7 (omega arith);
    package_digest = request-IsSized.package_digest;
    size = omega arith;
    abi = omega arith;
    schema = omega arith;
  };
  binding1 = absent-IsSized;
  phase = omega arith;
  operation = operation_IsSized boot_id (replicate-IsBytes 16 9 (omega arith));
}

pub bound_valid : state_valid bound_state small ≡ true
unfolding state_valid bindings_invalid binding_valid package_fields_zero package_fields_valid
    operation_valid operation_fields_invalid occupies_reserved is_target trial_boot_id_valid
    same_firmware same_slot_differs all_zero bytes_eq confirmed_state bind_package holds_operation
bound_valid = refl

pub reserved_valid : state_valid (in_phase 2 writing no_boot_id) small ≡ true
unfolding state_valid bindings_invalid binding_valid package_fields_zero operation_valid
    operation_fields_invalid occupies_reserved is_target trial_boot_id_valid same_firmware
    same_slot_differs all_zero bytes_eq
reserved_valid = refl

true_of_false : {A : Type 0} → false ≡ true → A
true_of_false e = cc

-- No package is bound yet, so none can be damaged.
pub in_phase-Intact : (v : Device) → Intact byte_sum small v (in_phase 2 writing no_boot_id)
in_phase-Intact v = record { binding0 = λ e. true_of_false e; binding1 = λ e. true_of_false e }

no_blob : {b : List ℕ} → none ≡ some b → ⊥
no_blob e = cc

-- Nothing is stored on a blank device.
pub blank-Safe : Safe byte_sum small blank
blank-Safe s st = absurd (no_blob st.1)

pub later_proper : AllProper viewed later_calls
later_proper = (
  request-IsSized,
  (
    (λ a n w. refl, λ o read n w r. r 0 n w),
    (replicate-IsBytes 16 9 (omega arith), (tt, (tt, tt))),
  ),
)
