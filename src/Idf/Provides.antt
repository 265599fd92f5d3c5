-- ===== src/Idf/Provides.antt =====
-- The provider keeps the laws that slots.c relies on.
use esp_container.Common.{ℕ, List, Option}
use esp_container.Slots.Flash.Laws.{Device, SlotsIoLaws}
use esp_container.Idf.Types.{Idf, Provider}
use esp_container.Idf.Laws.{IdfLaws}
use esp_container.Idf.Provider.{provider_io, provider_lock, provider_unlock}
use esp_container.Idf.Blob.{read_blob-ReadsBlob, write_blob-commits}
use esp_container.Idf.Flash.{
  flash_read-keeps, flash_read-bytes, flash_erase-within, flash_write-within,
}

module _ {W H S : Type 0} (idf : Idf W H S) (p : Provider S) (view : W → Device) (Ours : H → Type 0)
    (pending : H → W → Option (List ℕ)) (laws : IdfLaws idf p view Ours pending) where
  -- With ESP-IDF calls that keep their laws for the provider, its callbacks keep the laws that
  -- slots.c relies on.
  pub provider_io-SlotsIoLaws : SlotsIoLaws (provider_io idf p) view
  unfolding provider_lock provider_unlock
  provider_io-SlotsIoLaws = record {
    lock_keeps = laws.take_keeps;
    unlock_keeps = laws.give_keeps;
    read_blob_keeps = λ w. (read_blob-ReadsBlob idf p view Ours pending laws w).keeps;
    read_blob_found = λ w b e. (read_blob-ReadsBlob idf p view Ours pending laws w).found_blob b e;
    read_blob_not_found = λ w e. (read_blob-ReadsBlob idf p view Ours pending laws w).no_blob e;
    write_blob_commits = write_blob-commits idf p view Ours pending laws;
    flash_read_keeps = flash_read-keeps idf p view Ours pending laws;
    flash_read_bytes = flash_read-bytes idf p view Ours pending laws;
    flash_erase_within = flash_erase-within idf p view Ours pending laws;
    flash_write_within = flash_write-within idf p view Ours pending laws;
  }
