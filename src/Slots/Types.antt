-- ===== src/Slots/Types.antt =====
-- The data of include/esp_container_slots.h. An array of two bindings or three regions is a field
-- for each element; a digest is a list of bytes.
use esp_container.Common.{ℕ, zero, suc, List, Bool, ◌<◌}
use esp_container.Common.Bytes.{IsBytes, IsU32}

-- `econtainer_slot_phase_t`. The decoder casts a byte to it unchecked, so it stays a number.
abbrev pub idle : ℕ
idle = 0

abbrev pub writing : ℕ
writing = 1

abbrev pub prepared : ℕ
prepared = 2

abbrev pub trial_started : ℕ
trial_started = 3

abbrev pub health_verified : ℕ
health_verified = 4

abbrev pub confirmed : ℕ
confirmed = 5

abbrev pub aborted : ℕ
aborted = 6

abbrev pub slot_count : ℕ
slot_count = 3

abbrev pub slot_io_bytes : ℕ
slot_io_bytes = 256

abbrev pub u32_max : ℕ
u32_max = 0xffff_ffff

pub record Region : Type 0 where
  pub offset_bytes : ℕ
  pub size_bytes : ℕ

pub record Geometry : Type 0 where
  pub partition_offset_bytes : ℕ
  pub partition_size_bytes : ℕ
  pub erase_unit_bytes : ℕ
  pub write_unit_bytes : ℕ
  pub slot0 : Region
  pub slot1 : Region
  pub slot2 : Region

-- `geometry->slots[index]`, for an index below 3.
abbrev pub slot_at : Geometry → ℕ → Region
slot_at g zero = g.slot0
slot_at g (suc zero) = g.slot1
slot_at g (suc (suc i)) = g.slot2

pub record Binding : Type 0 where
  pub present : Bool
  pub package_present : Bool
  pub slot : ℕ
  pub firmware_sha256 : List ℕ
  pub package_sha256 : List ℕ
  pub package_size_bytes : ℕ
  pub guest_abi_version : ℕ
  pub data_schema_version : ℕ

pub record Operation : Type 0 where
  pub operation_id : List ℕ
  pub target_firmware_sha256 : List ℕ
  pub package_sha256 : List ℕ
  pub slot : ℕ
  pub package_size_bytes : ℕ
  pub guest_abi_version : ℕ
  pub data_schema_version : ℕ
  pub trial_boot_id : List ℕ

pub record SlotsState : Type 0 where
  pub sequence : ℕ
  pub binding0 : Binding
  pub binding1 : Binding
  pub phase : ℕ
  pub operation : Operation

pub record FirmwareSet : Type 0 where
  pub bootable_count : ℕ
  pub bootable0 : List ℕ
  pub bootable1 : List ℕ
  pub running_firmware_sha256 : List ℕ

-- What the C types of the fields allow.
pub record BindingIsSized (b : Binding) : Type 0 where
  pub slot : b.slot < 256
  pub firmware_digest : IsBytes 32 b.firmware_sha256
  pub package_digest : IsBytes 32 b.package_sha256
  pub size : IsU32 b.package_size_bytes
  pub abi : IsU32 b.guest_abi_version
  pub schema : IsU32 b.data_schema_version

pub record OperationIsSized (o : Operation) : Type 0 where
  pub id : IsBytes 16 o.operation_id
  pub firmware_digest : IsBytes 32 o.target_firmware_sha256
  pub package_digest : IsBytes 32 o.package_sha256
  pub slot : o.slot < 256
  pub size : IsU32 o.package_size_bytes
  pub abi : IsU32 o.guest_abi_version
  pub schema : IsU32 o.data_schema_version
  pub boot : IsBytes 16 o.trial_boot_id

pub record StateIsSized (s : SlotsState) : Type 0 where
  pub sequence : IsU32 s.sequence
  pub binding0 : BindingIsSized s.binding0
  pub binding1 : BindingIsSized s.binding1
  pub phase : s.phase < 256
  pub operation : OperationIsSized s.operation
