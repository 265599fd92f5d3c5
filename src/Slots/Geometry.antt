-- ===== src/Slots/Geometry.antt =====
-- `econtainer_slots_geometry_valid`: three slots inside the partition that do not overlap.
use Prim.Native.Nat.{bit_and}
use esp_container.Common.{
  ℕ, ◌+◌, ◌-◌, ◌%◌, ◌≤◌, ◌<◌, ◌≡◌, ◌≢◌, Bool, true, false, not, ◌&&◌, ◌||◌, ltb, ◌==◌,
  if◌then◌else◌, arith, zero, suc,
}
use esp_container.Slots.Types.{Region, Geometry, slot_at, slot_io_bytes, u32_max}

-- The first test of the function: sizes and units. Sums are taken in 64 bits there, so they are
-- not cut off here.
unfoldable pub units_invalid : Geometry → Bool
units_invalid g =
    g.partition_size_bytes == 0
    || g.erase_unit_bytes == 0
    || g.write_unit_bytes == 0
    || ltb slot_io_bytes g.write_unit_bytes
    || not (slot_io_bytes % g.write_unit_bytes == 0)
    || not (g.erase_unit_bytes % g.write_unit_bytes == 0)
    || not (bit_and g.erase_unit_bytes (g.erase_unit_bytes - 1) == 0)
    || not (bit_and g.write_unit_bytes (g.write_unit_bytes - 1) == 0)
    || ltb u32_max (g.partition_offset_bytes + g.partition_size_bytes)

-- The test on one slot in the loop.
unfoldable pub region_invalid : Geometry → Region → Bool
region_invalid g r =
    r.size_bytes == 0
    || ltb r.offset_bytes g.partition_offset_bytes
    || not (r.offset_bytes % g.erase_unit_bytes == 0)
    || not (r.size_bytes % g.erase_unit_bytes == 0)
    || ltb (g.partition_offset_bytes + g.partition_size_bytes) (r.offset_bytes + r.size_bytes)

-- The test of a slot against an earlier one, in the inner loop.
unfoldable pub overlaps : Region → Region → Bool
overlaps slot previous =
    ltb slot.offset_bytes (previous.offset_bytes + previous.size_bytes)
    && ltb previous.offset_bytes (slot.offset_bytes + slot.size_bytes)

-- The two loops, written out for their three and at most two rounds.
unfoldable pub geometry_valid : Geometry → Bool
geometry_valid g =
    if units_invalid g
    then false
    else if region_invalid g g.slot0
    then false
    else if region_invalid g g.slot1
    then false
    else if overlaps g.slot1 g.slot0
    then false
    else if region_invalid g g.slot2
    then false
    else if overlaps g.slot2 g.slot0
    then false
    else not (overlaps g.slot2 g.slot1)

-- An address inside a region.
abbrev pub Inside : Region → ℕ → Type 0
Inside r a = (r.offset_bytes ≤ a) × (a < r.offset_bytes + r.size_bytes)

-- The end of a region stays within the 32 bits of a Flash address.
region_end :
    (g : Geometry) (r : Region)
    → units_invalid g ≡ false
    → region_invalid g r ≡ false
    → r.offset_bytes + r.size_bytes ≤ u32_max
unfolding units_invalid region_invalid
region_end g r u h = ground arith

pub region_end_le :
    (g : Geometry) (i : ℕ)
    → geometry_valid g ≡ true
    → (slot_at g i).offset_bytes + (slot_at g i).size_bytes ≤ u32_max
unfolding geometry_valid
region_end_le g zero h = ground (arith, region_end g g.slot0)
region_end_le g (suc zero) h = ground (arith, region_end g g.slot1)
region_end_le g (suc (suc i)) h = ground (arith, region_end g g.slot2)

overlaps-Inside : (r q : Region) (a : ℕ) → overlaps r q ≡ false → Inside r a → Inside q a → ⊥
unfolding overlaps
overlaps-Inside r q a h x y = ground arith

-- No address lies in two different slots of a valid geometry.
pub slots_disjoint :
    (g : Geometry) (i j a : ℕ)
    → geometry_valid g ≡ true
    → i < 3
    → j < 3
    → i ≢ j
    → Inside (slot_at g i) a
    → ¬ Inside (slot_at g j) a
unfolding geometry_valid
slots_disjoint g zero zero a v hi hj ne x y = absurd (omega arith)
slots_disjoint g zero (suc zero) a v hi hj ne x y =
    overlaps-Inside g.slot1 g.slot0 a (ground arith) y x
slots_disjoint g zero (suc (suc zero)) a v hi hj ne x y =
    overlaps-Inside g.slot2 g.slot0 a (ground arith) y x
slots_disjoint g zero (suc (suc (suc j))) a v hi hj ne x y = absurd (omega arith)
slots_disjoint g (suc zero) zero a v hi hj ne x y =
    overlaps-Inside g.slot1 g.slot0 a (ground arith) x y
slots_disjoint g (suc zero) (suc zero) a v hi hj ne x y = absurd (omega arith)
slots_disjoint g (suc zero) (suc (suc zero)) a v hi hj ne x y =
    overlaps-Inside g.slot2 g.slot1 a (ground arith) y x
slots_disjoint g (suc zero) (suc (suc (suc j))) a v hi hj ne x y = absurd (omega arith)
slots_disjoint g (suc (suc zero)) zero a v hi hj ne x y =
    overlaps-Inside g.slot2 g.slot0 a (ground arith) x y
slots_disjoint g (suc (suc zero)) (suc zero) a v hi hj ne x y =
    overlaps-Inside g.slot2 g.slot1 a (ground arith) x y
slots_disjoint g (suc (suc zero)) (suc (suc zero)) a v hi hj ne x y = absurd (omega arith)
slots_disjoint g (suc (suc zero)) (suc (suc (suc j))) a v hi hj ne x y = absurd (omega arith)
slots_disjoint g (suc (suc (suc i))) j a v hi hj ne x y = absurd (omega arith)
