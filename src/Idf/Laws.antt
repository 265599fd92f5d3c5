-- ===== src/Idf/Laws.antt =====
-- What slots_idf.c relies on of ESP-IDF, seen through the device: the committed blob at the
-- provider's key, and the bytes of the Flash by their absolute address.
use esp_container.Common.{ℕ, ◌+◌, ◌≡◌, ◌⊎◌, true, false, List, Option, none, some, length, All}
use esp_container.Common.Bytes.{IsByte}
use esp_container.Slots.Flash.Laws.{Device, flash_bytes, OnlyWithin}
use esp_container.Idf.Types.{Idf, Provider, OpenMode, nvs_ok, nvs_not_found}

-- `Ours` holds of the handles that are open on the provider's namespace; `pending` is what was set
-- last through a handle and is to be committed.
pub record IdfLaws {W H S : Type 0} (idf : Idf W H S) (p : Provider S) (view : W → Device)
    (Ours : H → Type 0) (pending : H → W → Option (List ℕ)) : Type 0 where
  pub take_keeps : (w : W) → view (idf.semaphore_take p.storage_lock w).1 ≡ view w
  pub give_keeps : (w : W) → view (idf.semaphore_give p.storage_lock w) ≡ view w
  pub open_keeps :
      (m : OpenMode) (w : W)
      → view (idf.nvs_open p.nvs_partition_label p.nvs_namespace m w).1 ≡ view w
  pub open_ours :
      (m : OpenMode) (w : W) (h : H)
      → (idf.nvs_open p.nvs_partition_label p.nvs_namespace m w).0 ≡ nvs_ok h
      → Ours h
  -- There is no such namespace, so there is no key in it.
  pub open_not_found :
      (m : OpenMode) (w : W)
      → (idf.nvs_open p.nvs_partition_label p.nvs_namespace m w).0 ≡ nvs_not_found
      → (view w).blob ≡ none
  pub size_keeps : (h : H) (w : W) → Ours h → view (idf.nvs_blob_size h p.nvs_key w).1 ≡ view w
  pub size_not_found :
      (h : H) (w : W)
      → Ours h
      → (idf.nvs_blob_size h p.nvs_key w).0 ≡ nvs_not_found
      → (view w).blob ≡ none
  pub get_keeps :
      (h : H) (n : ℕ) (w : W) → Ours h → view (idf.nvs_get_blob h p.nvs_key n w).1 ≡ view w
  pub get_found :
      (h : H) (n : ℕ) (w : W) (b : List ℕ)
      → Ours h
      → (idf.nvs_get_blob h p.nvs_key n w).0 ≡ nvs_ok b
      → ((view w).blob ≡ some b) × All IsByte b
  -- A value that is set may be stored at once or stay pending.
  pub set_stores :
      (h : H) (b : List ℕ) (w : W)
      → Ours h
      → (view (idf.nvs_set_blob h p.nvs_key b w).1 ≡ view w)
        ⊎ (view (idf.nvs_set_blob h p.nvs_key b w).1 ≡ record (view w) { blob = some b })
  pub set_pending :
      (h : H) (b : List ℕ) (w : W)
      → Ours h
      → (idf.nvs_set_blob h p.nvs_key b w).0 ≡ true
      → pending h (idf.nvs_set_blob h p.nvs_key b w).1 ≡ some b
  -- A commit stores what is pending; one that fails may have stored it or not.
  pub commit_stores :
      (h : H) (b : List ℕ) (w : W)
      → Ours h
      → pending h w ≡ some b
      → (view (idf.nvs_commit h w).1 ≡ record (view w) { blob = some b })
        ⊎ (((idf.nvs_commit h w).0 ≡ false) × (view (idf.nvs_commit h w).1 ≡ view w))
  pub close_keeps : (h : H) (w : W) → Ours h → view (idf.nvs_close h w) ≡ view w
  pub read_keeps :
      (a n : ℕ) (w : W) → view (idf.partition_read p.package_partition a n w).1 ≡ view w
  pub read_bytes :
      (a n : ℕ) (w : W) (bs : List ℕ)
      → (idf.partition_read p.package_partition a n w).0 ≡ some bs
      → bs ≡ flash_bytes (view w).flash (p.package_partition.address + a) n
  pub erase_within :
      (a n : ℕ) (w : W)
      → OnlyWithin
          (p.package_partition.address + a)
          n
          (view w)
          (view (idf.partition_erase_range p.package_partition a n w).1)
  pub write_within :
      (a : ℕ) (bs : List ℕ) (w : W)
      → OnlyWithin
          (p.package_partition.address + a)
          (length bs)
          (view w)
          (view (idf.partition_write p.package_partition a bs w).1)
