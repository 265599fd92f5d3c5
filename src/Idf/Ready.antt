-- ===== src/Idf/Ready.antt =====
-- What a bound provider is: its geometry is valid, its partitions are those of the configuration.
use esp_container.Common.{
  ℕ, zero, suc, ◌+◌, ◌≤◌, ◌<◌, ◌≡◌, refl, inl, inr, true, false, List, Option, none, some, arith,
  Bool-cases, Option-cases, none-some,
}
use mathlib.Core.Path.{subst}
use mathlib.Core.Option.{some-injective}
use esp_container.Crypto.{Psa}
use esp_container.Slots.Types.{Geometry, Region, slot_at}
use esp_container.Slots.Geometry.{geometry_valid, region_invalid}
use esp_container.Slots.Flash.Laws.{Device, PsaLaws}
use esp_container.Slots.History.{Call, AllProper, Safe, run_calls, run_calls-Safe}
use esp_container.Idf.Names.{name_valid}
use esp_container.Idf.Types.{Idf, Config, Provider, Partition}
use esp_container.Idf.Provider.{range_valid, provider_io}
use esp_container.Idf.Flash.{range_valid_iff}
use esp_container.Idf.Laws.{IdfLaws}
use esp_container.Idf.Provides.{provider_io-SlotsIoLaws}
use esp_container.Idf.Bind.{
  config_invalid, partitions_invalid, geometry_of, provider_of, bind_locked, bind,
}

-- The package partition is the configured one, apart from the configured NVS partition.
pub record IsBound {S : Type 0} (c : Config S) (p : Provider S) : Type 0 where
  pub valid : geometry_valid p.geometry ≡ true
  pub offset : p.geometry.partition_offset_bytes ≡ c.package_partition_offset_bytes
  pub size : p.geometry.partition_size_bytes ≡ c.package_partition_size_bytes
  pub address : p.package_partition.address ≡ p.geometry.partition_offset_bytes
  pub extent : p.package_partition.size ≡ p.geometry.partition_size_bytes
  pub writable : p.package_partition.readonly ≡ false
  pub slots :
      (p.geometry.slot0 ≡ c.slot0) × (p.geometry.slot1 ≡ c.slot1) × (p.geometry.slot2 ≡ c.slot2)
  pub names :
      (p.nvs_partition_label ≡ c.nvs_partition_label)
      × (p.nvs_namespace ≡ c.nvs_namespace)
      × (p.nvs_key ≡ c.nvs_key)
  pub apart :
      (a : ℕ)
      → c.package_partition_offset_bytes ≤ a
      → a < c.package_partition_offset_bytes + c.package_partition_size_bytes
      → c.nvs_partition_offset_bytes ≤ a
      → c.nvs_partition_offset_bytes + c.nvs_partition_size_bytes ≤ a
  pub named :
      (name_valid c.nvs_partition_label ≡ true)
      × (name_valid c.nvs_namespace ≡ true)
      × (name_valid c.nvs_key ≡ true)

apart_of :
    {S : Type 0} (c : Config S) (part nvs : Partition)
    → partitions_invalid c part nvs ≡ false
    → (a : ℕ) → c.package_partition_offset_bytes ≤ a
    → a < c.package_partition_offset_bytes + c.package_partition_size_bytes
    → c.nvs_partition_offset_bytes ≤ a
    → c.nvs_partition_offset_bytes + c.nvs_partition_size_bytes ≤ a
unfolding partitions_invalid
apart_of c part nvs h a lo hi n = ground arith

matches_of :
    {S : Type 0} (c : Config S) (part nvs : Partition)
    → partitions_invalid c part nvs ≡ false
    → (part.address ≡ c.package_partition_offset_bytes)
      × (part.size ≡ c.package_partition_size_bytes)
      × (part.readonly ≡ false)
unfolding partitions_invalid
matches_of c part nvs h = (ground arith, ground arith, ground arith)

named_of :
    {S : Type 0} (c : Config S)
    → config_invalid c ≡ false
    → (name_valid c.nvs_partition_label ≡ true)
      × (name_valid c.nvs_namespace ≡ true)
      × (name_valid c.nvs_key ≡ true)
unfolding config_invalid
named_of c h = (ground arith, ground arith, ground arith)

provider_of-IsBound :
    {S : Type 0} (c : Config S) (lock : S) (part nvs : Option Partition) (p : Provider S)
    → config_invalid c ≡ false
    → provider_of c lock part nvs ≡ some p
    → IsBound c p
unfolding provider_of
provider_of-IsBound c lock none nvs p k e = none-some e
provider_of-IsBound c lock (some part) none p k e = none-some e
provider_of-IsBound c lock (some part) (some nvs) p k e =
    elim (Bool-cases (partitions_invalid c part nvs)) [
      | inl bad ↦ none-some (rw bad at e)
      | inr good ↦ elim (Bool-cases (geometry_valid (geometry_of c part))) [
        | inr bad ↦ none-some (rw (good, bad) at e)
        | inl valid ↦ subst (IsBound c) (some-injective _ _ (rw (good, valid) at e)) (
            unfold geometry_of in
            record {
              valid = valid;
              offset = (matches_of c part nvs good).0;
              size = (matches_of c part nvs good).1;
              address = refl;
              extent = refl;
              writable = (matches_of c part nvs good).2;
              slots = (refl, refl, refl);
              names = (refl, refl, refl);
              apart = apart_of c part nvs good;
              named = named_of c k;
            })
      ]
    ]

region_inside :
    (g : Geometry) (r : Region)
    → region_invalid g r ≡ false
    → (g.partition_offset_bytes ≤ r.offset_bytes)
      × (r.offset_bytes + r.size_bytes ≤ g.partition_offset_bytes + g.partition_size_bytes)
unfolding region_invalid
region_inside g r h = (ground arith, ground arith)

region_of :
    (g : Geometry) (i : ℕ) → geometry_valid g ≡ true → region_invalid g (slot_at g i) ≡ false
unfolding geometry_valid
region_of g zero h = ground arith
region_of g (suc zero) h = ground arith
region_of g (suc (suc i)) h = ground arith

-- A slot of a valid geometry lies in the partition.
slot_inside :
    (g : Geometry) (i : ℕ)
    → geometry_valid g ≡ true
    → (g.partition_offset_bytes ≤ (slot_at g i).offset_bytes)
      × ((slot_at g i).offset_bytes + (slot_at g i).size_bytes
          ≤ g.partition_offset_bytes + g.partition_size_bytes)
slot_inside g i h = region_inside g (slot_at g i) (region_of g i h)

-- For a provider that is bound, range_valid accepts every range of at least one byte within a slot.
slot_range_valid :
    {S : Type 0} (c : Config S) (p : Provider S) (i a n : ℕ)
    → IsBound c p
    → 0 < n
    → (slot_at p.geometry i).offset_bytes ≤ a
    → a + n ≤ (slot_at p.geometry i).offset_bytes + (slot_at p.geometry i).size_bytes
    → range_valid p.package_partition a n ≡ true
slot_range_valid c p i a n b pos lo hi =
    let (start, stop) = slot_inside p.geometry i b.valid in
    let address = b.address in
    let extent = b.extent in
    (range_valid_iff p.package_partition a n).1 (pos, omega arith, omega arith)

module _ {W H S : Type 0} (idf : Idf W H S) where
  -- Where bind succeeds, the provider has a valid geometry with the configured slots and names,
  -- over a writable partition of the configured offset and size, and no address is in it and in the
  -- configured NVS partition; the three NVS names are valid.
  pub bind-IsBound :
      (c : Config S) (w : W) (p : Provider S) → (bind idf c w).0 ≡ some p → IsBound c p
  unfolding bind bind_locked
  bind-IsBound c w p e = elim (Option-cases c.storage_lock) [
    | inl q ↦ none-some (rw (q, bind) at e)
    | inr (lock, q) ↦ elim (Bool-cases (config_invalid c)) [
      | inl bad ↦ none-some (rw (q, bad, bind, bind_locked) at e)
      | inr good ↦ provider_of-IsBound c lock _ _ p good (rw (q, good, bind, bind_locked) at e)
    ]
  ]

  -- Where bind succeeds, ESP-IDF keeps its laws for the provider, and the digest keeps its own: the
  -- operations of slots.c over the provider's callbacks keep every package that the stored bindings
  -- refer to intact, in any sequence of calls with proper arguments.
  pub bind-Safe :
      {Op : Type 0} (c : Config S) (w : W) (p : Provider S) (view : W → Device) (Ours : H → Type 0)
      (pending : H → W → Option (List ℕ)) (psa : Psa W Op) (absorbed : Op → List ℕ)
      (sha256 : List ℕ → List ℕ) (cs : List (Call W)) (u : W)
      → (bind idf c w).0 ≡ some p
      → IdfLaws idf p view Ours pending
      → PsaLaws psa view absorbed sha256
      → AllProper view cs
      → Safe sha256 p.geometry (view u)
      → Safe sha256 p.geometry (view (run_calls (provider_io idf p) psa p.geometry cs u))
  bind-Safe c w p view Ours pending psa absorbed sha256 cs u e laws hashes proper safe =
      run_calls-Safe (provider_io idf p) psa view absorbed sha256
        (provider_io-SlotsIoLaws idf p view Ours pending laws) hashes p.geometry
        (bind-IsBound c w p e).valid cs u proper safe
