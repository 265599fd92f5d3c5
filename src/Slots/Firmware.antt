-- ===== src/Slots/Firmware.antt =====
-- The tests of slots.c on the set of bootable firmware images.
use esp_container.Common.{
  ℕ, ◌+◌, Bool, false, not, ◌&&◌, ◌||◌, ltb, leb, ◌==◌, if◌then◌else◌, List, Option, none, some,
}
use esp_container.Common.Bytes.{bytes_eq, all_zero}
use esp_container.Slots.Types.{Binding, SlotsState, FirmwareSet}

-- `binding_for_firmware`, with `none` for -1. The index of a binding is 0 or 1.
unfoldable pub is_bound_to : Binding → List ℕ → Bool
is_bound_to b firmware = b.present && bytes_eq b.firmware_sha256 firmware

unfoldable pub binding_for_firmware : SlotsState → List ℕ → Option ℕ
binding_for_firmware s firmware =
    if is_bound_to s.binding0 firmware
    then some 0
    else if is_bound_to s.binding1 firmware
    then some 1
    else none

-- The rounds of `firmware_set_valid`: entry 0 always counts, since `bootable_count` is not 0.
unfoldable pub first_entry_valid : FirmwareSet → Bool
first_entry_valid f = not (all_zero f.bootable0)

unfoldable pub second_entry_valid : FirmwareSet → Bool
second_entry_valid f =
    if leb f.bootable_count 1
    then all_zero f.bootable1
    else not (all_zero f.bootable1) && not (bytes_eq f.bootable1 f.bootable0)

unfoldable pub running_found : FirmwareSet → Bool
running_found f =
    bytes_eq f.bootable0 f.running_firmware_sha256
    || (ltb 1 f.bootable_count && bytes_eq f.bootable1 f.running_firmware_sha256)

unfoldable pub firmware_set_valid : FirmwareSet → Bool
firmware_set_valid f =
    if f.bootable_count == 0 || ltb 2 f.bootable_count || all_zero f.running_firmware_sha256
    then false
    else if not (first_entry_valid f)
    then false
    else if not (second_entry_valid f)
    then false
    else running_found f

-- The inner loop of `firmware_set_matches`.
unfoldable pub is_bootable : FirmwareSet → List ℕ → Bool
is_bootable f firmware =
    (ltb 0 f.bootable_count && bytes_eq firmware f.bootable0)
    || (ltb 1 f.bootable_count && bytes_eq firmware f.bootable1)

abbrev present_count : Binding → ℕ
present_count b = if b.present then 1 else 0

unfoldable pub firmware_set_matches : SlotsState → FirmwareSet → Bool
firmware_set_matches s f =
    if s.binding0.present && not (is_bootable f s.binding0.firmware_sha256)
    then false
    else if s.binding1.present && not (is_bootable f s.binding1.firmware_sha256)
    then false
    else present_count s.binding0 + present_count s.binding1 == f.bootable_count
