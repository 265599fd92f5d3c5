-- ===== src/Examples/Runs.antt =====
-- The operations run on the small device: a package goes from a blank device to its confirmation.
use esp_container.Common.{◌+◌, ◌≤◌, ◌≡◌, refl, some, slice}
use esp_container.Slots.Types.{confirmed}
use esp_container.Examples.Data.{
  small, blank, first_package, later_calls, holding, installed_state, bound_state,
}
use esp_container.Common.Bytes.{bytes_eq, all_zero, store_u32, load_u32}
use esp_container.Crypto.{digest_abort, digest_start, digest_update, digest_finish}
use esp_container.Slots.Geometry.{units_invalid, region_invalid, overlaps, geometry_valid}
use esp_container.Slots.Valid.{
  package_fields_zero, package_fields_valid, binding_valid, operation_empty,
  operation_fields_invalid, is_target, occupies_reserved, trial_boot_id_valid, operation_valid,
  bindings_invalid, same_firmware, same_slot_differs, holds_operation, state_valid,
}
use esp_container.Slots.Codec.{
  crc_bit, crc_bits, crc_loop, blob_crc32, encode_binding, encode_operation, encode_body,
  encode_state, decode_binding, decode_operation, header_valid, decode_rest, decode_fields, checked,
  decode_state,
}
use esp_container.Slots.Io.{require}
use esp_container.Slots.Flash.{
  flash_relative_read, chunk, absorb, start_digest, finish_digest, read_chunk, hash_loop,
  hash_flash, check_binding, hash_candidate, check_references,
}
use esp_container.Slots.Flash.Laws.{flash_bytes}
use esp_container.Slots.Firmware.{
  is_bound_to, binding_for_firmware, first_entry_valid, second_entry_valid, running_found,
  firmware_set_valid, is_bootable, firmware_set_matches,
}
use esp_container.Slots.Store.{
  decoded, settle, load_locked, persist_locked, commit_next, begin_locked, with_lock,
}
use esp_container.Slots.Write.{
  aligned_size, buffer, write_chunk, write_loop, erase_slot, write_package, judge, validate_package,
}
use esp_container.Slots.Operations.{
  request_invalid, keeps_schema, schema_compatible, same_request, not_repeated, slot_protected,
  slot_usable, select_slot, reserved_state, trial_state, bind_package, confirmed_state,
  confirm_target, trial_is_stopped, reserve, write_and_prepare, begin_trial, mark_healthy, confirm,
  abandon,
}
use esp_container.Slots.Boot.{
  initial_state, if_empty, candidate_decision, install, initialize, confirmed_part, decide,
  reconcile,
}
use esp_container.Slots.History.{run_call, run_calls}
use esp_container.Examples.World.{
  all_bytes, stored_blob, memory, summing, viewed, fed, byte_sum, memory-SlotsIoLaws,
  summing-PsaLaws,
}
use esp_container.Examples.Facts.{
  installed_sized, installed_valid, bound_sized, bound_valid, later_proper,
}
use esp_container.Slots.Steps.{Stored}
use esp_container.Slots.Codec.Sized.{encode_state-IsBytes}
use esp_container.Slots.Codec.RoundTrip.{decode_state-encode_state}
use esp_container.Slots.Progress.{committed-Stored, run_calls-confirmed}

-- From a blank device, and from one that holds the installed state.
first_package_confirmed :
    ((run_calls memory summing small first_package blank).blob ≡ some (encode_state bound_state))
    × ((run_calls memory summing small later_calls (holding installed_state)).blob
        ≡ some (encode_state bound_state))
unfolding bytes_eq all_zero store_u32 load_u32 digest_abort digest_start digest_update digest_finish
    units_invalid region_invalid overlaps geometry_valid package_fields_zero package_fields_valid
    binding_valid operation_empty operation_fields_invalid is_target occupies_reserved
    trial_boot_id_valid operation_valid bindings_invalid same_firmware same_slot_differs
    holds_operation state_valid crc_bit crc_bits crc_loop blob_crc32 encode_binding encode_operation
    encode_body encode_state decode_binding decode_operation header_valid decode_rest decode_fields
    checked decode_state require flash_relative_read chunk absorb start_digest finish_digest
    read_chunk hash_loop hash_flash check_binding hash_candidate check_references flash_bytes
    is_bound_to binding_for_firmware first_entry_valid second_entry_valid running_found
    firmware_set_valid is_bootable firmware_set_matches decoded settle load_locked persist_locked
    commit_next begin_locked with_lock aligned_size buffer write_chunk write_loop erase_slot
    write_package judge validate_package request_invalid keeps_schema schema_compatible same_request
    not_repeated slot_protected slot_usable select_slot reserved_state trial_state bind_package
    confirmed_state confirm_target trial_is_stopped reserve write_and_prepare begin_trial
    mark_healthy confirm abandon initial_state if_empty candidate_decision install initialize
    confirmed_part decide reconcile run_call run_calls all_bytes stored_blob slice
first_package_confirmed = (refl, refl)

bound_Stored :
    Stored small (run_calls memory summing small later_calls (holding installed_state)) bound_state
bound_Stored = (
  encode_state bound_state,
  first_package_confirmed.1,
  encode_state-IsBytes bound_state bound_sized,
  decode_state-encode_state bound_state small bound_sized bound_valid,
)

bound_phase : bound_state.phase ≡ confirmed
unfolding confirmed_state
bound_phase = refl

run_calls-confirmed_example : installed_state.sequence + 5 ≤ bound_state.sequence
run_calls-confirmed_example =
    run_calls-confirmed memory summing viewed fed byte_sum memory-SlotsIoLaws summing-PsaLaws small
      later_calls (holding installed_state) installed_state bound_state later_proper
      (committed-Stored small blank installed_state installed_sized installed_valid) refl
      bound_Stored bound_phase
