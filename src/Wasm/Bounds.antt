-- ===== src/Wasm/Bounds.antt =====
-- The reads of wasm_scan.c stay within their bounds, and the walk over the sections ends.
use esp_container.Common.{
  ℕ, zero, suc, ◌+◌, ◌-◌, ◌*◌, ◌%◌, ◌^◌, ◌≤◌, ◌<◌, ◌≡◌, refl, sym, ap, ◌⊎◌, inl, inr, Bool, true,
  false, not, ◌&&◌, ltb, leb, ◌==◌, if◌then◌else◌, List, Option, none, some, arith, Bool-cases,
  Option-cases, none-some,
}
use mathlib.Core.Path.{subst}
use mathlib.Core.Option.{some-injective}
use esp_container.Wasm.Read.{
  WasmError, read_groups, read_u32, byte_at, Scan, accepted, rejected, wasm_invalid,
}
use esp_container.Wasm.Sections.{
  Sections, scan_sections, scan_section, enter_section, passed, and_then, scan_exports,
}

-- The three tests of a round, taken apart.
tests_passed :
    {A : Type 0} (a b d : Bool) (x y : Option A) {z : A}
    → (if a then none else if b then none else if d then x else y) ≡ some z
    → (a ≡ false) × (b ≡ false) × (((d ≡ true) × (x ≡ some z)) ⊎ (y ≡ some z))
tests_passed true b d x y e = none-some e
tests_passed false true d x y e = none-some e
tests_passed false false true x y e = (refl, refl, inl (refl, e))
tests_passed false false false x y e = (refl, refl, inr e)

-- The shift of each of the five rounds.
shift_cases :
    (rounds shift : ℕ)
    → shift + 7 * suc rounds ≡ 35
    → (shift ≡ 0) ⊎ (shift ≡ 7) ⊎ (shift ≡ 14) ⊎ (shift ≡ 21) ⊎ (shift ≡ 28)
shift_cases rounds shift s = ground arith

-- Seven more bits fit below the next shift, and in the last round, with four bits, in 32.
abbrev Fits : ℕ → Type 0
Fits shift =
    (result byte : ℕ)
    → result < 2 ^ shift
    → (shift == 28 && leb 16 byte) ≡ false
    → (result + byte % 128 * 2 ^ shift < 2 ^ (shift + 7))
      × (result + byte % 128 * 2 ^ shift < 2 ^ 32)

all_fit :
    (shift : ℕ)
    → (shift ≡ 0) ⊎ (shift ≡ 7) ⊎ (shift ≡ 14) ⊎ (shift ≡ 21) ⊎ (shift ≡ 28)
    → Fits shift
all_fit shift (inl e) = subst Fits (sym e) (λ r b lt s. (omega arith, omega arith))
all_fit shift (inr (inl e)) = subst Fits (sym e) (λ r b lt s. (omega arith, omega arith))
all_fit shift (inr (inr (inl e))) = subst Fits (sym e) (λ r b lt s. (omega arith, omega arith))
all_fit shift (inr (inr (inr (inl e)))) =
    subst Fits (sym e) (λ r b lt s. (omega arith, omega arith))
all_fit shift (inr (inr (inr (inr e)))) =
    subst Fits (sym e) (λ r b lt s. (omega arith, ground arith))

-- The value and the cursor of a read, from the round at `shift` on.
read_groups-bounds :
    (rounds : ℕ) (wasm : List ℕ) (end shift result cursor : ℕ) (r : ℕ × ℕ)
    → shift + 7 * rounds ≡ 35
    → result < 2 ^ shift
    → read_groups rounds wasm end shift result cursor ≡ some r
    → (r.0 < 2 ^ 32) × (cursor < r.1) × (r.1 ≤ end) × (r.1 ≤ cursor + rounds)
unfolding read_groups
read_groups-bounds zero wasm end shift result cursor r s lt e = none-some e
read_groups-bounds (suc rounds) wasm end shift result cursor r s lt e =
    let sum = result + byte_at wasm cursor % 128 * 2 ^ shift in
    let (inside, small, which) =
      tests_passed (leb end cursor) (shift == 28 && leb 16 (byte_at wasm cursor))
        (ltb (byte_at wasm cursor) 128) (some (sum, cursor + 1))
        (read_groups rounds wasm end (shift + 7) sum (cursor + 1)) e in
    let (next_fits, fits) =
      all_fit shift (shift_cases rounds shift s) result (byte_at wasm cursor) lt small in
    elim which [
      | inl (last, q) ↦
          subst
            (λ (x : ℕ × ℕ).
              (x.0 < 2 ^ 32) × (cursor < x.1) × (x.1 ≤ end) × (x.1 ≤ cursor + suc rounds))
            (some-injective _ _ q) (fits, omega arith, ground arith, omega arith)
      | inr q ↦
          (let (v, above, below, near) =
              read_groups-bounds rounds wasm end (shift + 7) sum (cursor + 1) r (omega arith)
                next_fits q in
            (v, omega arith, below, omega arith))
    ]

-- Where read_u32 reads a value, the value fits 32 bits, and the cursor has moved on by one to five
-- bytes and not past the end.
pub read_u32-bounds :
    (wasm : List ℕ) (end cursor : ℕ) (r : ℕ × ℕ)
    → read_u32 wasm end cursor ≡ some r
    → (r.0 < 2 ^ 32) × (cursor < r.1) × (r.1 ≤ end) × (r.1 ≤ cursor + 5)
unfolding read_u32
read_u32-bounds wasm end cursor r e =
    read_groups-bounds 5 wasm end 0 0 cursor r (omega arith) (omega arith) e

rejected-accepted : {A : Type 0} {e : WasmError} {a : A} → rejected e ≡ accepted a → ⊥
rejected-accepted e = cc

accepted-injective : {A : Type 0} (a b : A) → accepted a ≡ accepted b → a ≡ b
accepted-injective a b e = cc

-- A section that is entered and accepted is passed.
after_test :
    {A : Type 0} (b : Bool) (e : WasmError) (x : Scan A) {a : A}
    → (if b then rejected e else x) ≡ accepted a
    → (b ≡ false) × (x ≡ accepted a)
after_test true e x h = absurd (rejected-accepted h)
after_test false e x h = (refl, h)

after_exports :
    (x : Scan (Unit {0})) (s s' : Sections) → and_then x (λ _. accepted s) ≡ accepted s' → s ≡ s'
unfolding and_then
after_exports (accepted u) s s' h = accepted-injective s s' h
after_exports (rejected e) s s' h = absurd (rejected-accepted h)

enter_section-passed :
    (wasm : List ℕ) (section start end : ℕ) (s s' : Sections)
    → enter_section wasm section start end s ≡ accepted s'
    → passed section start end s ≡ s'
unfolding enter_section
enter_section-passed wasm section start end s s' e =
    let (_, e1) = after_test (ltb 12 section) _ _ e in
    let (_, e2) = after_test (not (section == 0) && leb section s.last_section) _ _ e1 in
    let (_, e3) = after_test (section == 8) _ _ e2 in
    elim (Bool-cases (section == 7)) [
      | inl seven ↦ after_exports (scan_exports wasm end start) _ s' (rw seven at e3)
      | inr other ↦ accepted-injective _ s' (rw other at e3)
    ]

-- An accepted section moves the cursor on, and not past the module's end.
scan_section-cursor :
    (wasm : List ℕ) (size : ℕ) (s s' : Sections)
    → scan_section wasm size s ≡ accepted s'
    → (s.cursor < s'.cursor) × (s'.cursor ≤ size)
unfolding scan_section passed
scan_section-cursor wasm size s s' e = elim (Option-cases (read_u32 wasm size (s.cursor + 1))) [
  | inl q ↦ absurd (rejected-accepted (rw (q, scan_section) at e))
  | inr ((length, start), q) ↦
      (let (_, above, below, _) = read_u32-bounds wasm size (s.cursor + 1) (length, start) q in
        let (fits, e1) =
          after_test (ltb (size - start) length) wasm_invalid
            (enter_section wasm (byte_at wasm s.cursor) start (start + length) s)
            (rw (q, scan_section) at e) in
        let behind : start + length ≡ s'.cursor =
          ap (λ (x : Sections). x.cursor)
            (enter_section-passed wasm (byte_at wasm s.cursor) start (start + length) s s' e1) in
        (omega arith, ground arith))
]

and_then-accepted :
    {A B : Type 0} (x : Scan A) (f : A → Scan B) {b : B}
    → and_then x f ≡ accepted b
    → (a : A) × (x ≡ accepted a) × (f a ≡ accepted b)
unfolding and_then
and_then-accepted (accepted a) f e = (a, refl, e)
and_then-accepted (rejected x) f e = absurd (rejected-accepted e)

-- From a cursor within the module, and with at least as much fuel as there are bytes left, the walk
-- over the sections ends at the end of the module, or rejects.
pub scan_sections-cursor :
    (fuel : ℕ) (wasm : List ℕ) (size : ℕ) (s s' : Sections)
    → s.cursor ≤ size
    → size ≤ s.cursor + fuel
    → scan_sections fuel wasm size s ≡ accepted s'
    → s'.cursor ≡ size
unfolding scan_sections
scan_sections-cursor zero wasm size s s' lo hi e =
    let same : s.cursor ≡ s'.cursor = ap (λ (x : Sections). x.cursor) (accepted-injective s s' e) in
    omega arith
scan_sections-cursor (suc fuel) wasm size s s' lo hi e = elim (Bool-cases (ltb s.cursor size)) [
  | inl more ↦
      (let (t, one, others) =
          and_then-accepted (scan_section wasm size s) (scan_sections fuel wasm size)
            (rw more at e) in
        let (on, within) = scan_section-cursor wasm size s t one in
        scan_sections-cursor fuel wasm size t s' within (omega arith) others)
  | inr over ↦
      (let same : s.cursor ≡ s'.cursor =
          ap (λ (x : Sections). x.cursor) (accepted-injective s s' (rw over at e)) in
        ground arith)
]
