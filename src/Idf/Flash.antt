-- ===== src/Idf/Flash.antt =====
-- The Flash callbacks of slots_idf.c reach the addresses that they are asked for, and no other.
use esp_container.Common.{
  ℕ, ◌+◌, ◌-◌, ◌%◌, ◌≤◌, ◌<◌, ◌≡◌, refl, ap, ◌∙◌, ◌↔◌, inl, inr, true, ◌&&◌, ◌==◌, List, Option,
  some, length, arith, Bool-cases, none-some,
}
use mathlib.Core.Path.{subst}
use esp_container.Slots.Flash.Laws.{Device, flash_bytes, OnlyWithin}
use esp_container.Idf.Types.{Idf, Provider, Partition}
use esp_container.Idf.Laws.{IdfLaws}
use esp_container.Idf.Provider.{
  range_valid, provider_flash_read, provider_flash_erase, provider_flash_write,
}

-- A range is valid exactly when it is not empty and lies in the partition.
pub range_valid_iff :
    (partition : Partition) (offset size : ℕ)
    → (range_valid partition offset size ≡ true) ↔ (
        (0 < size)
        × (partition.address ≤ offset)
        × (offset + size ≤ partition.address + partition.size))
unfolding range_valid
range_valid_iff partition offset size = ground arith

module _ {W H S : Type 0} (idf : Idf W H S) (p : Provider S) (view : W → Device) (Ours : H → Type 0)
    (pending : H → W → Option (List ℕ)) (laws : IdfLaws idf p view Ours pending) where
  -- An access behind `range_valid` hits the addresses that it was asked for.
  address_back :
      (offset size : ℕ)
      → range_valid p.package_partition offset size ≡ true
      → p.package_partition.address + (offset - p.package_partition.address) ≡ offset
  address_back offset size r =
      omega (arith, ((range_valid_iff p.package_partition offset size).0 r).1)

  untouched : (a n : ℕ) (v : Device) → OnlyWithin a n v v
  untouched a n v = (refl, λ x out. refl)

  pub flash_read-keeps : (a n : ℕ) (w : W) → view (provider_flash_read idf p a n w).1 ≡ view w
  unfolding provider_flash_read
  flash_read-keeps a n w = elim (Bool-cases (range_valid p.package_partition a n)) [
    | inl r ↦ rw r (laws.read_keeps (a - p.package_partition.address) n w)
    | inr r ↦ rw r refl
  ]

  pub flash_read-bytes :
      (a n : ℕ) (w : W) (bs : List ℕ)
      → (provider_flash_read idf p a n w).0 ≡ some bs
      → bs ≡ flash_bytes (view w).flash a n
  unfolding provider_flash_read
  flash_read-bytes a n w bs e = elim (Bool-cases (range_valid p.package_partition a n)) [
    | inl r ↦
        laws.read_bytes (a - p.package_partition.address) n w bs (rw r at e)
        ∙ ap (λ (x : ℕ). flash_bytes (view w).flash x n) (address_back a n r)
    | inr r ↦ none-some (rw r at e)
  ]

  pub flash_erase-within :
      (a n : ℕ) (w : W) → OnlyWithin a n (view w) (view (provider_flash_erase idf p a n w).1)
  unfolding provider_flash_erase
  flash_erase-within a n w =
      let aligned = a % p.geometry.erase_unit_bytes == 0 && n % p.geometry.erase_unit_bytes == 0 in
      elim (Bool-cases (
        range_valid p.package_partition a n
        && a % p.geometry.erase_unit_bytes == 0
        && n % p.geometry.erase_unit_bytes == 0)) [
          | inl c ↦ rw c (
              subst
                (λ (x : ℕ). OnlyWithin x n (view w) (
                  view
                    (idf.partition_erase_range p.package_partition (a - p.package_partition.address)
                      n w).1))
                (address_back a n (ground arith))
                (laws.erase_within (a - p.package_partition.address) n w))
          | inr c ↦ rw c (untouched a n (view w))
        ]

  pub flash_write-within :
      (a : ℕ) (bs : List ℕ) (w : W)
      → OnlyWithin a (length bs) (view w) (view (provider_flash_write idf p a bs w).1)
  unfolding provider_flash_write
  flash_write-within a bs w =
      elim (Bool-cases (
        range_valid p.package_partition a (length bs)
        && a % p.geometry.write_unit_bytes == 0
        && length bs % p.geometry.write_unit_bytes == 0)) [
          | inl c ↦ rw c (
              subst
                (λ (x : ℕ). OnlyWithin x (length bs) (view w) (
                  view
                    (idf.partition_write p.package_partition (a - p.package_partition.address) bs
                      w).1))
                (address_back a (length bs) (ground arith))
                (laws.write_within (a - p.package_partition.address) bs w))
          | inr c ↦ rw c (untouched a (length bs) (view w))
        ]
