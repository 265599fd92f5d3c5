-- ===== src/Idf/Bind.antt =====
-- `econtainer_slots_idf_bind` of slots_idf.c.
use esp_container.Common.{◌+◌, Bool, not, ◌&&◌, ◌||◌, ltb, ◌==◌, if◌then◌else◌, Option, none, some}
use esp_container.Slots.Types.{Geometry}
use esp_container.Slots.Geometry.{geometry_valid}
use esp_container.Idf.Names.{name_valid}
use esp_container.Idf.Types.{Idf, Config, Provider, Partition, data_undefined, data_nvs}

-- The first test of the function, but for the lock.
unfoldable pub config_invalid : {S : Type 0} → Config S → Bool
config_invalid c =
    not (name_valid c.package_partition_label)
    || not (name_valid c.nvs_partition_label)
    || not (name_valid c.nvs_namespace)
    || not (name_valid c.nvs_key)
    || c.package_partition_offset_bytes == 0
    || c.package_partition_size_bytes == 0
    || c.nvs_partition_size_bytes == 0

-- The test on the partitions that were found. Sums are taken in 64 bits there.
unfoldable pub partitions_invalid : {S : Type 0} → Config S → Partition → Partition → Bool
partitions_invalid c package_part nvs =
    package_part.ident == nvs.ident
    || package_part.readonly
    || nvs.readonly
    || not (package_part.address == c.package_partition_offset_bytes)
    || not (package_part.size == c.package_partition_size_bytes)
    || not (nvs.address == c.nvs_partition_offset_bytes)
    || not (nvs.size == c.nvs_partition_size_bytes)
    || (ltb package_part.address (nvs.address + nvs.size)
        && ltb nvs.address (package_part.address + package_part.size))
    || package_part.erase_size == 0

unfoldable pub geometry_of : {S : Type 0} → Config S → Partition → Geometry
geometry_of c package_part = record {
  partition_offset_bytes = package_part.address;
  partition_size_bytes = package_part.size;
  erase_unit_bytes = package_part.erase_size;
  write_unit_bytes = if package_part.encrypted then 16 else 4;
  slot0 = c.slot0;
  slot1 = c.slot1;
  slot2 = c.slot2;
}

-- From the two lookups on; `none` is false, with an empty provider.
unfoldable pub provider_of :
    {S : Type 0} → Config S → S → Option Partition → Option Partition → Option (Provider S)
provider_of c lock none nvs = none
provider_of c lock (some package_part) none = none
provider_of c lock (some package_part) (some nvs) =
    if partitions_invalid c package_part nvs
    then none
    else if not (geometry_valid (geometry_of c package_part))
    then none
    else some (record {
      geometry = geometry_of c package_part;
      package_partition = package_part;
      storage_lock = lock;
      nvs_partition_label = c.nvs_partition_label;
      nvs_namespace = c.nvs_namespace;
      nvs_key = c.nvs_key;
    })

module _ {W H S : Type 0} (idf : Idf W H S) where
  unfoldable pub bind_locked : Config S → S → W → Option (Provider S) × W
  bind_locked c lock w =
      if config_invalid c
      then (none, w)
      else let (package_part, w1) = idf.find_first data_undefined c.package_partition_label w in
        let (nvs, w2) = idf.find_first data_nvs c.nvs_partition_label w1 in
        (provider_of c lock package_part nvs, w2)

  unfoldable pub bind : Config S → W → Option (Provider S) × W
  bind c w = elim c.storage_lock [ none ↦ (none, w) | some lock ↦ bind_locked c lock w ]
