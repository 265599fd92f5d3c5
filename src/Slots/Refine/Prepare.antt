-- ===== src/Slots/Refine/Prepare.antt =====
-- `write_and_prepare` of slots.c writes only within the reserved slot.
use esp_container.Common.{
  ℕ, suc, zero, ◌+◌, ◌-◌, ◌*◌, ◌/◌, ◌%◌, ◌≤◌, ◌<◌, ◌≡◌, refl, sym, ◌∙◌, ◌⊎◌, inl, inr, ltb, List,
  [], ◌∷◌, take, length, arith, Bool-cases, Option-cases, ltb→lt,
}
use mathlib.Core.Path.{subst}
use native.Mathlib.Nat.{div-mul-le_self, div-add-mod'}
use native.Mathlib.Decide.{dec_le}
use esp_container.Slots.Io.{SlotsIo, ReadFn}
use esp_container.Slots.Io.Post.{Ends, done, failed, seq}
use esp_container.Slots.Flash.{chunk}
use esp_container.Slots.Flash.Laws.{Device, OnlyWithin, SlotsIoLaws}
use esp_container.Slots.Flash.Hash.{chunk_bounds}
use esp_container.Slots.Write.{aligned_size, buffer, write_chunk, write_loop}
use esp_container.Slots.Refine.{Reads}

pub OnlyWithin-refl : (a n : ℕ) (v : Device) → OnlyWithin a n v v
OnlyWithin-refl a n v = (refl, λ x p. refl)

-- A further write within a smaller range.
pub OnlyWithin-trans :
    (a n b m : ℕ) (v v1 v2 : Device)
    → a ≤ b
    → b + m ≤ a + n
    → OnlyWithin a n v v1
    → OnlyWithin b m v1 v2
    → OnlyWithin a n v v2
OnlyWithin-trans a n b m v v1 v2 p q r s = (s.0 ∙ r.0, λ x out. s.1 x (narrow x out) ∙ r.1 x out)
  where
    narrow : (x : ℕ) → (x < a) ⊎ (a + n ≤ x) → (x < b) ⊎ (b + m ≤ x)
    narrow x (inl h) = inl (omega arith)
    narrow x (inr h) = inr (omega arith)

length-take-le : (n : ℕ) (xs : List ℕ) → length (take n xs) ≤ n
length-take-le zero xs = omega arith
length-take-le (suc n) [] = omega arith
length-take-le (suc n) (x ∷ xs) = omega (arith, length-take-le n xs)

-- Multiples of the write unit: a chunk rounded up ends within a slot that holds the chunk.
scale_le : (x y u : ℕ) → x ≤ y → x * u ≤ y * u
scale_le x y u h = grind arith

multiple_bound : (x c u : ℕ) → 0 < u → x * u < c * u + u → x * u ≤ c * u
multiple_bound x c u p h = elim (dec_le x c) [
  | yes q ↦ scale_le x c u q
  | no q ↦ absurd (omega (arith, scale_le (c + 1) x u (omega arith)))
]

quotient_le : (n u : ℕ) → n / u * u ≤ n
quotient_le n u = div-mul-le_self n u

aligned_fits :
    (a c u actual slot_size : ℕ)
    → 0 < u
    → slot_size ≡ c * u
    → a * u + actual ≤ slot_size
    → a * u + aligned_size u actual ≤ slot_size
unfolding aligned_size
aligned_fits a c u actual s p e h = omega (
  arith,
  e,
  multiple_bound (a + (actual + u - 1) / u) c u p
      (omega (arith, e, quotient_le (actual + u - 1) u)),
)

chunk_cases : (size offset : ℕ) → (chunk size offset ≡ 256) ⊎ (chunk size offset ≡ size - offset)
unfolding chunk
chunk_cases size offset = ground arith

-- What a valid geometry gives the write loop.
pub multiple_of : (x u : ℕ) → x % u ≡ 0 → x ≡ x / u * u
multiple_of x u h = omega (arith, div-add-mod' x u)

module _ {W : Type 0} (io : SlotsIo W) (view : W → Device) (laws : SlotsIoLaws io view)
    (source : ReadFn W) (reads : Reads view source) where
  -- The device differs from `v` within the slot at most.
  abbrev Within : ℕ → ℕ → Device → W → Type 0
  Within base n v w = OnlyWithin base n v (view w)

  write_chunk-Ends :
      (u base slot_size offset actual : ℕ) (w : W) (v : Device)
      → OnlyWithin base slot_size v (view w)
      → offset + aligned_size u actual ≤ slot_size
      → Ends
          (λ _ w'. OnlyWithin base slot_size v (view w'))
          (λ _ w'. OnlyWithin base slot_size v (view w'))
          (write_chunk io source u base offset actual w)
  unfolding write_chunk
  write_chunk-Ends u base n offset actual w v h fits =
      elim (Option-cases (source offset actual w).0) [
        | inl e ↦ rw (e, write_chunk) (failed (after_source h))
        | inr (bytes, e) ↦
            (let out = take (aligned_size u actual) (buffer bytes actual) in
              let w1 = (source offset actual w).1 in
              let written =
                OnlyWithin-trans base n (base + offset) (length out) v (view w1)
                  (view (io.flash_write (base + offset) out w1).1) (omega arith)
                  (omega
                    (arith, fits, length-take-le (aligned_size u actual) (buffer bytes actual)))
                  (after_source h) (laws.flash_write_within (base + offset) out w1) in
              elim (Bool-cases (io.flash_write (base + offset) out w1).0) [
                | inl f ↦ rw (e, f, write_chunk) (done written)
                | inr f ↦ rw (e, f, write_chunk) (failed written)
              ])
      ]
    where
      after_source :
          OnlyWithin base n v (view w) → OnlyWithin base n v (view (source offset actual w).1)
      after_source k = subst (OnlyWithin base n v) (sym (reads offset actual w)) k

  -- While chunks of 256 bytes are left, the offset is a multiple of the write unit.
  pub write_loop-Ends :
      (fuel u base slot_size size offset a c k : ℕ) (w : W) (v : Device)
      → 0 < u
      → slot_size ≡ c * u
      → 256 ≡ k * u
      → size ≤ slot_size
      → ((offset ≡ a * u) ⊎ (size ≤ offset))
      → OnlyWithin base slot_size v (view w)
      → Ends
          (λ _ w'. OnlyWithin base slot_size v (view w'))
          (λ _ w'. OnlyWithin base slot_size v (view w'))
          (write_loop io fuel source u base size offset w)
  unfolding write_loop
  write_loop-Ends zero u base n size offset a c k w v p s t le at h = done h
  write_loop-Ends (suc fuel) u base n size offset a c k w v p s t le at h =
      elim (Bool-cases (ltb offset size)) [
        | inr e ↦ rw e (done h)
        | inl e ↦
            (let more = ltb→lt offset size e in
              let here = multiple at more in
              rw e (
                seq
                  (write_chunk-Ends u base n offset (chunk size offset) w v h (
                    subst (λ (x : ℕ). x + aligned_size u (chunk size offset) ≤ n) (sym here)
                      (aligned_fits a c u (chunk size offset) n p s
                        (omega (arith, here, (chunk_bounds size offset more).1)))))
                  (λ _ w1 q.
                    write_loop-Ends fuel u base n size (offset + chunk size offset) (a + k) c k w1 v
                      p s t le (next_offset here more) q)
                  (λ _ w1 q. q)))
      ]
    where
      multiple : (offset ≡ a * u) ⊎ (size ≤ offset) → offset < size → offset ≡ a * u
      multiple (inl x) y = x
      multiple (inr x) y = absurd (omega arith)

      next_offset :
          offset ≡ a * u
          → offset < size
          → (offset + chunk size offset ≡ (a + k) * u) ⊎ (size ≤ offset + chunk size offset)
      next_offset x y = elim (chunk_cases size offset) [
        | inl z ↦ inl (omega (arith, x, t, z))
        | inr z ↦ inr (omega (arith, z))
      ]
