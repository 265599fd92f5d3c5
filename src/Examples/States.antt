-- ===== src/Examples/States.antt =====
-- The theorems on states, geometry and the blob, on the small device.
use esp_container.Common.{ℕ, arith, ◌≤◌, ◌<◌, ◌≡◌, refl, false, none, some, ltb, if◌then◌else◌}
use esp_container.Slots.Types.{slot_at, writing}
use esp_container.Slots.Geometry.{slots_disjoint, Inside}
use esp_container.Slots.Codec.{encode_state, decode_state}
use esp_container.Slots.Codec.RoundTrip.{decode_state-encode_state}
use esp_container.Slots.Flash.Laws.{Intact}
use esp_container.Slots.Operations.{select_slot, slot_protected}
use esp_container.Slots.Machine.{select_slot_lem}
use esp_container.Slots.Refine.Frame.{reserved-Intact}
use esp_container.Examples.World.{byte_sum}
use esp_container.Examples.Data.{small, blank, in_phase, healthy_state, no_boot_id}
use esp_container.Examples.Facts.{small_valid, reserved_sized, reserved_valid, in_phase-Intact}

decode_state-encode_state_example :
    decode_state (encode_state (in_phase 2 writing no_boot_id)) small
    ≡ some (in_phase 2 writing no_boot_id)
decode_state-encode_state_example =
    decode_state-encode_state (in_phase 2 writing no_boot_id) small reserved_sized reserved_valid

slots_disjoint_example : ¬ Inside (slot_at small 1) 5
slots_disjoint_example =
    slots_disjoint small 0 1 5 small_valid (omega arith) (omega arith) (λ e. omega arith)
      (omega arith, omega arith)

reserved-Intact_example :
    Intact byte_sum small
      (record { blob = none; flash = λ x. if ltb x 16 then 0 else 255 })
      (in_phase 2 writing no_boot_id)
reserved-Intact_example =
    reserved-Intact byte_sum small (in_phase 2 writing no_boot_id) blank
      (record { blob = none; flash = λ x. if ltb x 16 then 0 else 255 }) small_valid reserved_valid
      refl (refl, λ x out. ground arith) (in_phase-Intact blank)

select_slot_lem_example :
    ((i : ℕ)
      → select_slot small healthy_state 17 ≡ some i
      → (i < 3) × (slot_protected healthy_state i ≡ false) × (17 ≤ (slot_at small i).size_bytes))
    × (select_slot small healthy_state 17 ≡ none
        → (i : ℕ) × (i < 3)
          × (slot_protected healthy_state i ≡ false)
          × ((slot_at small i).size_bytes < 17))
select_slot_lem_example = select_slot_lem small healthy_state 17
