-- ===== src/Idf/Provider.antt =====
-- The callbacks of slots_idf.c: `range_valid` and the `provider_` functions.
use esp_container.Common.{
  ℕ, ◌-◌, ◌%◌, Bool, false, not, ◌&&◌, ltb, leb, ◌==◌, if◌then◌else◌, List, Option, none, length,
}
use esp_container.Slots.Io.{SlotsIo, BlobResult, found, not_found, read_failed}
use esp_container.Idf.Types.{
  Idf, Provider, Partition, nvs_ok, nvs_not_found, nvs_failed, nvs_readonly, nvs_readwrite,
}

-- `offset_bytes - partition->address` is not taken where it would wrap.
unfoldable pub range_valid : Partition → ℕ → ℕ → Bool
range_valid partition offset size =
    ltb 0 size
    && leb size partition.size
    && leb partition.address offset
    && leb (offset - partition.address) (partition.size - size)

module _ {W H S : Type 0} (idf : Idf W H S) (provider : Provider S) where
  unfoldable pub provider_lock : W → Bool × W
  provider_lock w = idf.semaphore_take provider.storage_lock w

  unfoldable pub provider_unlock : W → W
  provider_unlock w = idf.semaphore_give provider.storage_lock w

  -- From the second `nvs_get_blob` on.
  unfoldable pub fetch_blob : H → W → BlobResult × W
  fetch_blob handle w =
      let (result, w1) = idf.nvs_get_blob handle provider.nvs_key 288 w in
      let w2 = idf.nvs_close handle w1 in
      elim result [
        | nvs_ok blob ↦ (if length blob == 288 then found blob else read_failed, w2)
        | nvs_not_found ↦ (read_failed, w2)
        | nvs_failed ↦ (read_failed, w2)
      ]

  -- From the first `nvs_get_blob` on.
  unfoldable pub measure_blob : H → W → BlobResult × W
  measure_blob handle w =
      let (result, w1) = idf.nvs_blob_size handle provider.nvs_key w in
      elim result [
        | nvs_not_found ↦ (not_found, idf.nvs_close handle w1)
        | nvs_failed ↦ (read_failed, idf.nvs_close handle w1)
        | nvs_ok size ↦
            if not (size == 288)
            then (read_failed, idf.nvs_close handle w1)
            else fetch_blob handle w1
      ]

  unfoldable pub provider_read_blob : W → BlobResult × W
  provider_read_blob w =
      let (result, w1) =
        idf.nvs_open provider.nvs_partition_label provider.nvs_namespace nvs_readonly w in
      elim result [
        | nvs_not_found ↦ (not_found, w1)
        | nvs_failed ↦ (read_failed, w1)
        | nvs_ok handle ↦ measure_blob handle w1
      ]

  -- With the handle open.
  unfoldable pub store_blob : H → List ℕ → W → Bool × W
  store_blob handle blob w =
      let (set, w1) = idf.nvs_set_blob handle provider.nvs_key blob w in
      let committed = idf.nvs_commit handle w1 in
      if set
      then (committed.0, idf.nvs_close handle committed.1)
      else (false, idf.nvs_close handle w1)

  unfoldable pub provider_write_blob : List ℕ → W → Bool × W
  provider_write_blob blob w =
      let (result, w1) =
        idf.nvs_open provider.nvs_partition_label provider.nvs_namespace nvs_readwrite w in
      elim result [
        | nvs_not_found ↦ (false, w1)
        | nvs_failed ↦ (false, w1)
        | nvs_ok handle ↦ store_blob handle blob w1
      ]

  unfoldable pub provider_flash_read : ℕ → ℕ → W → Option (List ℕ) × W
  provider_flash_read offset size w =
      let partition = provider.package_partition in
      if range_valid partition offset size
      then idf.partition_read partition (offset - partition.address) size w
      else (none, w)

  unfoldable pub provider_flash_erase : ℕ → ℕ → W → Bool × W
  provider_flash_erase offset size w =
      let partition = provider.package_partition in
      let erase_size = provider.geometry.erase_unit_bytes in
      if range_valid partition offset size && offset % erase_size == 0 && size % erase_size == 0
      then idf.partition_erase_range partition (offset - partition.address) size w
      else (false, w)

  unfoldable pub provider_flash_write : ℕ → List ℕ → W → Bool × W
  provider_flash_write offset source w =
      let partition = provider.package_partition in
      let write_size = provider.geometry.write_unit_bytes in
      let size = length source in
      if range_valid partition offset size && offset % write_size == 0 && size % write_size == 0
      then idf.partition_write partition (offset - partition.address) source w
      else (false, w)

  -- `provider->io`
  abbrev pub provider_io : SlotsIo W
  provider_io = record {
    lock = provider_lock;
    unlock = provider_unlock;
    read_blob = provider_read_blob;
    write_blob = provider_write_blob;
    flash_read = provider_flash_read;
    flash_erase = provider_flash_erase;
    flash_write = provider_flash_write;
  }
