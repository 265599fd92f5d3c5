-- ===== src/Idf/Types.antt =====
-- What slots_idf.c uses of ESP-IDF, as functions on a world, and the structs of
-- include/esp_container_slots_idf.h.
use esp_container.Common.{ℕ, Bool, List, Option}
use esp_container.Slots.Types.{Region, Geometry}

-- The fields of `esp_partition_t` that the code reads; `ident` stands for its address.
pub record Partition : Type 0 where
  pub ident : ℕ
  pub address : ℕ
  pub size : ℕ
  pub erase_size : ℕ
  pub encrypted : Bool
  pub readonly : Bool

-- ESP_PARTITION_SUBTYPE_DATA_UNDEFINED and ESP_PARTITION_SUBTYPE_DATA_NVS
pub data Subtype : Type 0 where
  data_undefined data_nvs : Subtype

pub data OpenMode : Type 0 where
  nvs_readonly nvs_readwrite : OpenMode

-- `esp_err_t` of the NVS calls: ESP_OK, ESP_ERR_NVS_NOT_FOUND and the others.
pub data NvsResult (A : Type 0) : Type 0 where
  nvs_ok : A → NvsResult A
  nvs_not_found nvs_failed : NvsResult A

-- `H` is nvs_handle_t and `S` SemaphoreHandle_t. A Boolean says ESP_OK or pdTRUE.
pub record Idf (W H S : Type 0) : Type 0 where
  pub semaphore_take : S → W → Bool × W
  pub semaphore_give : S → W → W
  pub nvs_open : List ℕ → List ℕ → OpenMode → W → NvsResult H × W
  -- `nvs_get_blob` with NULL, which asks for the size, and with a buffer of the given size.
  pub nvs_blob_size : H → List ℕ → W → NvsResult ℕ × W
  pub nvs_get_blob : H → List ℕ → ℕ → W → NvsResult (List ℕ) × W
  pub nvs_set_blob : H → List ℕ → List ℕ → W → Bool × W
  pub nvs_commit : H → W → Bool × W
  pub nvs_close : H → W → W
  pub find_first : Subtype → List ℕ → W → Option Partition × W
  pub partition_read : Partition → ℕ → ℕ → W → Option (List ℕ) × W
  pub partition_erase_range : Partition → ℕ → ℕ → W → Bool × W
  pub partition_write : Partition → ℕ → List ℕ → W → Bool × W

-- `none` for the lock is NULL. Texts are their bytes, without the 0 at the end.
pub record Config (S : Type 0) : Type 0 where
  pub package_partition_label : List ℕ
  pub package_partition_offset_bytes : ℕ
  pub package_partition_size_bytes : ℕ
  pub slot0 : Region
  pub slot1 : Region
  pub slot2 : Region
  pub nvs_partition_label : List ℕ
  pub nvs_partition_offset_bytes : ℕ
  pub nvs_partition_size_bytes : ℕ
  pub nvs_namespace : List ℕ
  pub nvs_key : List ℕ
  pub storage_lock : Option S

-- Without `io`, which is a function of the others (Idf/Provider).
pub record Provider (S : Type 0) : Type 0 where
  pub geometry : Geometry
  pub package_partition : Partition
  pub storage_lock : S
  pub nvs_partition_label : List ℕ
  pub nvs_namespace : List ℕ
  pub nvs_key : List ℕ
