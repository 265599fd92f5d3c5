-- ===== src/Slots/Valid.antt =====
-- `binding_valid`, `operation_valid` and `state_valid` of slots.c.
use esp_container.Common.{ℕ, Bool, true, false, not, ◌&&◌, ◌||◌, ltb, leb, ◌==◌, if◌then◌else◌}
use esp_container.Common.Bytes.{bytes_eq, all_zero}
use esp_container.Slots.Types.{
  Geometry, Binding, Operation, SlotsState, slot_at, slot_count, idle, writing, prepared,
  trial_started, health_verified, confirmed, aborted,
}

-- No package: every field that describes one is zero.
unfoldable pub package_fields_zero : Binding → Bool
package_fields_zero b =
    b.slot == 0
    && all_zero b.package_sha256
    && b.package_size_bytes == 0
    && b.guest_abi_version == 0
    && b.data_schema_version == 0

unfoldable pub package_fields_valid : Binding → Geometry → Bool
package_fields_valid b g =
    ltb b.slot slot_count
    && not (all_zero b.package_sha256)
    && ltb 0 b.package_size_bytes
    && leb b.package_size_bytes (slot_at g b.slot).size_bytes
    && ltb 0 b.guest_abi_version
    && ltb 0 b.data_schema_version

unfoldable pub binding_valid : Binding → Geometry → Bool
binding_valid b g =
    if not b.present
    then not b.package_present && all_zero b.firmware_sha256 && package_fields_zero b
    else if all_zero b.firmware_sha256
    then false
    else if not b.package_present
    then package_fields_zero b
    else package_fields_valid b g

-- `memcmp` with a zeroed operation. Padding is zero too: states come from `memset` or a copy.
unfoldable pub operation_empty : Operation → Bool
operation_empty o =
    all_zero o.operation_id
    && all_zero o.target_firmware_sha256
    && all_zero o.package_sha256
    && o.slot == 0
    && o.package_size_bytes == 0
    && o.guest_abi_version == 0
    && o.data_schema_version == 0
    && all_zero o.trial_boot_id

-- From WRITING to HEALTH_VERIFIED: a candidate is on its way.
abbrev pub in_progress : ℕ → Bool
in_progress phase = leb writing phase && leb phase health_verified

-- From PREPARED to HEALTH_VERIFIED: the candidate's bytes are complete.
abbrev pub has_candidate : ℕ → Bool
has_candidate phase = leb prepared phase && leb phase health_verified

unfoldable pub operation_fields_invalid : SlotsState → Geometry → Bool
operation_fields_invalid s g =
    let o = s.operation in
    ltb s.phase writing
    || ltb aborted s.phase
    || all_zero o.operation_id
    || all_zero o.target_firmware_sha256
    || all_zero o.package_sha256
    || leb slot_count o.slot
    || o.package_size_bytes == 0
    || ltb (slot_at g o.slot).size_bytes o.package_size_bytes
    || o.guest_abi_version == 0
    || o.data_schema_version == 0

-- The loop's two tests on one binding.
unfoldable pub is_target : Operation → Binding → Bool
is_target o b = b.present && bytes_eq b.firmware_sha256 o.target_firmware_sha256

unfoldable pub occupies_reserved : SlotsState → Binding → Bool
occupies_reserved s b = in_progress s.phase && b.package_present && b.slot == s.operation.slot

unfoldable pub trial_boot_id_valid : SlotsState → Bool
trial_boot_id_valid s =
    if s.phase == writing || s.phase == prepared
    then all_zero s.operation.trial_boot_id
    else if s.phase == trial_started || s.phase == health_verified || s.phase == confirmed
    then not (all_zero s.operation.trial_boot_id)
    else true

unfoldable pub operation_valid : SlotsState → Geometry → Bool
operation_valid s g =
    if s.phase == idle
    then operation_empty s.operation
    else if operation_fields_invalid s g
    then false
    else if occupies_reserved s s.binding0 || occupies_reserved s s.binding1
    then false
    else if not (is_target s.operation s.binding0 || is_target s.operation s.binding1)
    then false
    else trial_boot_id_valid s

-- The tests of `state_valid` that relate the two bindings.
unfoldable pub bindings_invalid : SlotsState → Geometry → Bool
bindings_invalid s g =
    s.sequence == 0
    || not (binding_valid s.binding0 g)
    || not (binding_valid s.binding1 g)
    || (not s.binding0.present && not s.binding1.present)

unfoldable pub same_firmware : Binding → Binding → Bool
same_firmware first second =
    first.present && second.present && bytes_eq first.firmware_sha256 second.firmware_sha256

unfoldable pub same_slot_differs : Binding → Binding → Bool
same_slot_differs first second =
    first.package_present
    && second.package_present
    && first.slot == second.slot
    && (not (first.package_size_bytes == second.package_size_bytes)
        || not (bytes_eq first.package_sha256 second.package_sha256)
        || not (first.guest_abi_version == second.guest_abi_version)
        || not (first.data_schema_version == second.data_schema_version))

-- The test of a CONFIRMED state on one binding: it holds the operation's package.
unfoldable pub holds_operation : Operation → Binding → Bool
holds_operation o b =
    b.present
    && b.package_present
    && bytes_eq b.firmware_sha256 o.target_firmware_sha256
    && b.slot == o.slot
    && b.package_size_bytes == o.package_size_bytes
    && bytes_eq b.package_sha256 o.package_sha256
    && b.guest_abi_version == o.guest_abi_version
    && b.data_schema_version == o.data_schema_version

unfoldable pub state_valid : SlotsState → Geometry → Bool
state_valid s g =
    if bindings_invalid s g
    then false
    else if same_firmware s.binding0 s.binding1
    then false
    else if same_slot_differs s.binding0 s.binding1
    then false
    else if not (operation_valid s g)
    then false
    else if s.phase == confirmed
    then holds_operation s.operation s.binding0 || holds_operation s.operation s.binding1
    else true
