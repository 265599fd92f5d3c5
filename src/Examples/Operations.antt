-- ===== src/Examples/Operations.antt =====
-- The theorems on the operations, on the small device.
use esp_container.Common.{arith, ◌≡◌, refl, true, none}
use esp_container.Slots.Types.{
  SlotsState, writing, prepared, trial_started, health_verified, aborted,
}
use esp_container.Slots.Codec.{encode_state}
use esp_container.Slots.Io.Post.{Ends}
use esp_container.Slots.Flash.{hash_flash, check_references}
use esp_container.Slots.Flash.Hash.{Clean, hash_flash-Ends, check_references-Ends}
use esp_container.Slots.Flash.Laws.{Hashed, Intact, CandidateHashed}
use esp_container.Slots.Store.{persist_locked}
use esp_container.Slots.Store.Commit.{persist_locked-Ends}
use esp_container.Slots.Progress.{Moved, run_call-Moved, committed-Stored}
use esp_container.Slots.Steps.{Stored, Commits, Failed}
use esp_container.Slots.Operations.{
  trial_state, reserve, write_and_prepare, begin_trial, mark_healthy, confirm, abandon,
}
use esp_container.Slots.Boot.{initialize, reconcile}
use esp_container.Slots.Refine.{Succeeds, Fails, Becomes, Confirms, Reserves}
use esp_container.Slots.Refine.Trial.{
  begin_trial-Ends, mark_healthy-Ends, confirm-Ends, abandon-Ends,
}
use esp_container.Slots.Refine.Reserve.{reserve-Ends}
use esp_container.Slots.Refine.Written.{write_and_prepare-Ends, Written, WriteFails}
use esp_container.Slots.Refine.Install.{Founding, initialize-Ends, initialize_occupied}
use esp_container.Slots.Refine.Reconcile.{BootOutcome, reconcile-BootOutcome}
use esp_container.Slots.History.{run_call, reserves, run_calls, run_calls-Safe, Safe}
use esp_container.Examples.World.{
  memory, summing, viewed, fed, byte_sum, memory-SlotsIoLaws, summing-PsaLaws,
}
use esp_container.Examples.Data.{
  small, blank, first_package, one_firmware, unpacked, absent, request, boot_id, firmware, source,
  validate, installed_state, in_phase, holding, package_bytes, no_boot_id,
}
use esp_container.Examples.Facts.{
  small_valid, unpacked-IsSized, absent-IsSized, request-IsSized, replicate-IsBytes, blank-Safe,
  later_proper, installed_sized, installed_valid,
}

run_calls-Safe_example :
    Safe byte_sum small (viewed (run_calls memory summing small first_package blank))
run_calls-Safe_example =
    run_calls-Safe memory summing viewed fed byte_sum memory-SlotsIoLaws summing-PsaLaws small
      small_valid first_package blank ((unpacked-IsSized, absent-IsSized), later_proper) blank-Safe

write_and_prepare-Ends_example :
    Ends
      (λ s w'. Written byte_sum small (holding (in_phase 2 writing no_boot_id)) 2 s (viewed w'))
      (λ e w'. WriteFails byte_sum small (holding (in_phase 2 writing no_boot_id)) 2 e (viewed w'))
      (write_and_prepare memory summing small 2 source validate
        (holding (in_phase 2 writing no_boot_id)))
write_and_prepare-Ends_example =
    write_and_prepare-Ends memory summing viewed fed byte_sum memory-SlotsIoLaws summing-PsaLaws
      small 2 source validate (holding (in_phase 2 writing no_boot_id))
      (holding (in_phase 2 writing no_boot_id)) (λ a n w. refl) (λ o read n w r. r 0 n w) refl

confirm-Ends_example :
    Ends
      (λ s w'.
        Succeeds byte_sum small
          (holding (in_phase 5 health_verified boot_id))
          5
          (Confirms firmware boot_id)
          s
          (viewed w'))
      (λ e w'.
        Fails byte_sum small
          (holding (in_phase 5 health_verified boot_id))
          5
          (Confirms firmware boot_id)
          e
          (viewed w'))
      (confirm memory summing small 5 firmware boot_id
        (holding (in_phase 5 health_verified boot_id)))
confirm-Ends_example =
    confirm-Ends memory summing viewed fed byte_sum memory-SlotsIoLaws summing-PsaLaws small 5
      firmware boot_id (holding (in_phase 5 health_verified boot_id))
      (holding (in_phase 5 health_verified boot_id)) refl

begin_trial-Ends_example :
    Ends
      (λ s w'.
        Succeeds byte_sum small
          (holding (in_phase 3 prepared no_boot_id))
          3
          (Becomes (λ t. trial_state t boot_id))
          s
          (viewed w'))
      (λ e w'.
        Fails byte_sum small
          (holding (in_phase 3 prepared no_boot_id))
          3
          (Becomes (λ t. trial_state t boot_id))
          e
          (viewed w'))
      (begin_trial memory summing small 3 firmware boot_id
        (holding (in_phase 3 prepared no_boot_id)))
begin_trial-Ends_example =
    begin_trial-Ends memory summing viewed fed byte_sum memory-SlotsIoLaws summing-PsaLaws small 3
      firmware boot_id (holding (in_phase 3 prepared no_boot_id))
      (holding (in_phase 3 prepared no_boot_id)) (replicate-IsBytes 16 9 (omega arith)) refl

mark_healthy-Ends_example :
    Ends
      (λ s w'.
        Succeeds byte_sum small
          (holding (in_phase 4 trial_started boot_id))
          4
          (Becomes (λ t. record t { phase = health_verified }))
          s
          (viewed w'))
      (λ e w'.
        Fails byte_sum small
          (holding (in_phase 4 trial_started boot_id))
          4
          (Becomes (λ t. record t { phase = health_verified }))
          e
          (viewed w'))
      (mark_healthy memory summing small 4 boot_id (holding (in_phase 4 trial_started boot_id)))
mark_healthy-Ends_example =
    mark_healthy-Ends memory summing viewed fed byte_sum memory-SlotsIoLaws summing-PsaLaws small 4
      boot_id (holding (in_phase 4 trial_started boot_id))
      (holding (in_phase 4 trial_started boot_id)) refl

abandon-Ends_example :
    Ends
      (λ s w'.
        Succeeds byte_sum small
          (holding (in_phase 4 trial_started boot_id))
          4
          (Becomes (λ t. record t { phase = aborted }))
          s
          (viewed w'))
      (λ e w'.
        Fails byte_sum small
          (holding (in_phase 4 trial_started boot_id))
          4
          (Becomes (λ t. record t { phase = aborted }))
          e
          (viewed w'))
      (abandon memory summing small 4 boot_id none (holding (in_phase 4 trial_started boot_id)))
abandon-Ends_example =
    abandon-Ends memory summing viewed fed byte_sum memory-SlotsIoLaws summing-PsaLaws small 4
      boot_id none (holding (in_phase 4 trial_started boot_id))
      (holding (in_phase 4 trial_started boot_id)) tt refl

reserve-Ends_example :
    Ends
      (λ s w'.
        Succeeds byte_sum small
          (holding (installed_state))
          1
          (Reserves small request)
          s
          (viewed w'))
      (λ e w'.
        Fails byte_sum small (holding (installed_state)) 1 (Reserves small request) e (viewed w'))
      (reserve memory summing small 1 one_firmware request (holding (installed_state)))
reserve-Ends_example =
    reserve-Ends memory summing viewed fed byte_sum memory-SlotsIoLaws summing-PsaLaws small 1
      one_firmware request (holding (installed_state)) (holding (installed_state)) request-IsSized
      refl

initialize-Ends_example :
    Ends
      (λ s w'.
        Commits blank (Founding byte_sum small blank one_firmware unpacked absent) s (viewed w'))
      (λ e w'.
        Failed blank (Founding byte_sum small blank one_firmware unpacked absent) e (viewed w'))
      (initialize memory summing small one_firmware unpacked absent blank)
initialize-Ends_example =
    initialize-Ends memory summing viewed fed byte_sum memory-SlotsIoLaws summing-PsaLaws small
      one_firmware unpacked absent blank blank unpacked-IsSized absent-IsSized refl

reconcile-BootOutcome_example :
    BootOutcome byte_sum small
      (holding (in_phase 3 prepared no_boot_id))
      one_firmware
      (reconcile memory summing small one_firmware (holding (in_phase 3 prepared no_boot_id))).0
    × (viewed
          (reconcile memory summing small one_firmware (holding (in_phase 3 prepared no_boot_id))).1
        ≡ holding (in_phase 3 prepared no_boot_id))
reconcile-BootOutcome_example =
    reconcile-BootOutcome memory summing viewed fed byte_sum memory-SlotsIoLaws summing-PsaLaws
      small one_firmware (holding (in_phase 3 prepared no_boot_id))
      (holding (in_phase 3 prepared no_boot_id)) refl

persist_locked-Ends_example :
    Ends
      (λ s w'. Commits blank (λ t. t ≡ installed_state) s (viewed w'))
      (λ e w'. Failed blank (λ t. t ≡ installed_state) e (viewed w'))
      (persist_locked memory none installed_state blank)
persist_locked-Ends_example =
    persist_locked-Ends memory viewed memory-SlotsIoLaws none installed_state
      (λ t. t ≡ installed_state) blank blank refl refl

hash_flash-Ends_example :
    Ends
      (λ _ w'. (viewed w' ≡ blank) × Hashed byte_sum small blank 1 5 (byte_sum package_bytes))
      (Clean viewed blank)
      (hash_flash memory summing small 1 5 (byte_sum package_bytes) blank)
hash_flash-Ends_example =
    hash_flash-Ends memory summing viewed fed byte_sum memory-SlotsIoLaws summing-PsaLaws small 1 5
      (byte_sum package_bytes) blank blank refl

check_references-Ends_example :
    Ends
      (λ _ w'.
        (viewed w' ≡ blank)
        × Intact byte_sum small blank (in_phase 3 prepared no_boot_id)
        × CandidateHashed byte_sum small blank (in_phase 3 prepared no_boot_id) true)
      (Clean viewed blank)
      (check_references memory summing small (in_phase 3 prepared no_boot_id) true blank)
check_references-Ends_example =
    check_references-Ends memory summing viewed fed byte_sum memory-SlotsIoLaws summing-PsaLaws
      small (in_phase 3 prepared no_boot_id) true blank blank refl

initialize_occupied_example :
    Ends
      (λ _ _. ⊥)
      (λ e w'. viewed w' ≡ holding installed_state)
      (initialize memory summing small one_firmware unpacked absent (holding installed_state))
initialize_occupied_example =
    initialize_occupied memory summing viewed fed byte_sum memory-SlotsIoLaws summing-PsaLaws small
      one_firmware unpacked absent (holding installed_state) (holding installed_state)
      (encode_state installed_state) refl refl

run_call-Moved_example :
    (t : SlotsState) × Stored small
      (viewed
        (run_call memory summing small (reserves 1 one_firmware request) (holding installed_state)))
      t
    × Moved installed_state t
run_call-Moved_example =
    run_call-Moved memory summing viewed fed byte_sum memory-SlotsIoLaws summing-PsaLaws small
      (reserves 1 one_firmware request) (holding installed_state) installed_state request-IsSized
      (committed-Stored small blank installed_state installed_sized installed_valid)
