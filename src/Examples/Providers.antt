-- ===== src/Examples/Providers.antt =====
-- The provider of slots_idf.c on ESP-IDF calls over a device in memory.
use esp_container.Common.{
  ℕ, ◌+◌, ◌≡◌, refl, sym, ap, inl, inr, Bool, true, false, if◌then◌else◌, List, [], ◌∷◌, Option,
  none, some, replicate, arith, ◌↔◌, none-some,
}
use mathlib.Core.Option.{some-injective}
use esp_container.Slots.Geometry.{units_invalid, region_invalid, overlaps, geometry_valid}
use esp_container.Slots.Flash.Laws.{Device, SlotsIoLaws, flash_bytes}
use esp_container.Slots.History.{run_calls, Safe}
use esp_container.Idf.Types.{
  Idf, Config, Provider, Partition, Subtype, data_undefined, data_nvs, NvsResult, nvs_ok,
  nvs_not_found, nvs_failed,
}
use esp_container.Idf.Names.{name_char, name_rest, name_valid, IsName, name_valid_iff}
use esp_container.Idf.Provider.{provider_io}
use esp_container.Idf.Bind.{
  config_invalid, partitions_invalid, geometry_of, provider_of, bind_locked, bind,
}
use esp_container.Idf.Laws.{IdfLaws}
use esp_container.Idf.Provides.{provider_io-SlotsIoLaws}
use esp_container.Idf.Ready.{IsBound, bind-IsBound, bind-Safe}
use esp_container.Examples.World.{
  all_bytes, all_bytes_sound, overwritten, overwritten_within, erased_within, summing, viewed, fed,
  byte_sum, summing-PsaLaws,
}
use esp_container.Examples.Data.{blank, first_package}
use esp_container.Examples.Facts.{
  unpacked-IsSized, absent-IsSized, request-IsSized, replicate-IsBytes,
}

abbrev packages : Partition
packages = record {
  ident = 1;
  address = 16;
  size = 48;
  erase_size = 16;
  encrypted = false;
  readonly = false;
}

abbrev settings : Partition
settings = record packages { ident = 2; address = 64; size = 16 }

abbrev held_size : Option (List ℕ) → NvsResult ℕ
held_size none = nvs_not_found
held_size (some b) = nvs_ok 288

abbrev held_blob : Option (List ℕ) → NvsResult (List ℕ)
held_blob none = nvs_not_found
held_blob (some b) = if all_bytes b then nvs_ok b else nvs_failed

abbrev partition_of : Subtype → Option Partition
partition_of data_undefined = some packages
partition_of data_nvs = some settings

-- One handle, 0; a blob is stored when it is set. The lock is a number.
abbrev memory_idf : Idf Device ℕ ℕ
memory_idf = record {
  semaphore_take = λ s w. (true, w);
  semaphore_give = λ s w. w;
  nvs_open = λ label name m w. (nvs_ok 0, w);
  nvs_blob_size = λ h key w. (held_size w.blob, w);
  nvs_get_blob = λ h key n w. (held_blob w.blob, w);
  nvs_set_blob = λ h key b w. (true, record w { blob = some b });
  nvs_commit = λ h w. (true, w);
  nvs_close = λ h w. w;
  find_first = λ subtype label w. (partition_of subtype, w);
  partition_read = λ p a n w. (some (flash_bytes w.flash (p.address + a) n), w);
  partition_erase_range =
      λ p a n w. (true, record w { flash = overwritten w.flash (p.address + a) (replicate n 255) });
  partition_write = λ p a bs w. (true, record w { flash = overwritten w.flash (p.address + a) bs });
}

-- `slots`
abbrev label : List ℕ
label = b's' ∷ b'l' ∷ b'o' ∷ b't' ∷ b's' ∷ []

abbrev config : Config ℕ
config = record {
  package_partition_label = label;
  package_partition_offset_bytes = 16;
  package_partition_size_bytes = 48;
  slot0 = record { offset_bytes = 16; size_bytes = 16 };
  slot1 = record { offset_bytes = 32; size_bytes = 16 };
  slot2 = record { offset_bytes = 48; size_bytes = 16 };
  nvs_partition_label = label;
  nvs_partition_offset_bytes = 64;
  nvs_partition_size_bytes = 16;
  nvs_namespace = label;
  nvs_key = label;
  storage_lock = some 0;
}

abbrev provider : Provider ℕ
provider = record {
  geometry = record {
    partition_offset_bytes = 16;
    partition_size_bytes = 48;
    erase_unit_bytes = 16;
    write_unit_bytes = 4;
    slot0 = config.slot0;
    slot1 = config.slot1;
    slot2 = config.slot2;
  };
  package_partition = packages;
  storage_lock = 0;
  nvs_partition_label = label;
  nvs_namespace = label;
  nvs_key = label;
}

provider_bound : (bind memory_idf config blank).0 ≡ some provider
unfolding bind bind_locked config_invalid provider_of partitions_invalid geometry_of geometry_valid
    units_invalid region_invalid overlaps name_valid name_rest name_char
provider_bound = refl

held_size-not_found : (o : Option (List ℕ)) → held_size o ≡ nvs_not_found → o ≡ none
held_size-not_found none e = refl
held_size-not_found (some b) e = absurd cc

held_blob-ok :
    (o : Option (List ℕ)) (b : List ℕ)
    → held_blob o ≡ nvs_ok b
    → (o ≡ some b) × (all_bytes b ≡ true)
held_blob-ok none b e = absurd cc
held_blob-ok (some x) b e = chosen (all_bytes x) refl e
  where
    chosen :
        (c : Bool)
        → all_bytes x ≡ c
        → (if c then nvs_ok x else nvs_failed) ≡ nvs_ok b
        → (some x ≡ some b) × (all_bytes b ≡ true)
    chosen true p q = (cc, cc)
    chosen false p q = absurd cc

abbrev AnyHandle : ℕ → Type 0
AnyHandle h = Unit {0}

abbrev held : ℕ → Device → Option (List ℕ)
held h w = w.blob

memory_idf-IdfLaws : IdfLaws memory_idf provider viewed AnyHandle held
memory_idf-IdfLaws = record {
  take_keeps = λ w. refl;
  give_keeps = λ w. refl;
  open_keeps = λ m w. refl;
  open_ours = λ m w h e. tt;
  open_not_found = λ m w e. absurd cc;
  size_keeps = λ h w o. refl;
  size_not_found = λ h w o e. held_size-not_found w.blob e;
  get_keeps = λ h n w o. refl;
  get_found = λ h n w b o e. let (p, q) = held_blob-ok w.blob b e in (p, all_bytes_sound b q);
  set_stores = λ h b w o. inr refl;
  set_pending = λ h b w o e. refl;
  commit_stores = λ h b w o e. inl (ap (λ x. record w { blob = x }) e);
  close_keeps = λ h w o. refl;
  read_keeps = λ a n w. refl;
  read_bytes = λ a n w bs e. sym (some-injective _ _ e);
  erase_within = λ a n w. erased_within (16 + a) n w;
  write_within = λ a bs w. overwritten_within (16 + a) bs w;
}

provider_io-SlotsIoLaws_example : SlotsIoLaws (provider_io memory_idf provider) viewed
provider_io-SlotsIoLaws_example =
    provider_io-SlotsIoLaws memory_idf provider viewed AnyHandle held memory_idf-IdfLaws

no_blob-Safe : Safe byte_sum provider.geometry (viewed blank)
no_blob-Safe s st = none-some st.1

bind-Safe_example : Safe byte_sum provider.geometry (
    viewed
      (run_calls (provider_io memory_idf provider) summing provider.geometry first_package blank))
bind-Safe_example =
    bind-Safe memory_idf config blank provider viewed AnyHandle held summing fed byte_sum
      first_package blank provider_bound memory_idf-IdfLaws summing-PsaLaws
      (
        (unpacked-IsSized, absent-IsSized),
        (
          request-IsSized,
          (
            (λ a n w. refl, λ o read n w r. r 0 n w),
            (replicate-IsBytes 16 9 (omega arith), (tt, (tt, tt))),
          ),
        ),
      )
      no_blob-Safe

bind-IsBound_example : IsBound config provider
bind-IsBound_example = bind-IsBound memory_idf config blank provider provider_bound

name_valid_iff_example : (name_valid label ≡ true) ↔ IsName label
name_valid_iff_example =
    name_valid_iff label
      (omega arith, (omega arith, (omega arith, (omega arith, (omega arith, tt)))))
