-- ===== src/Idf/Names.antt =====
-- `name_valid` of slots_idf.c: the labels, namespaces and keys that it accepts.
use esp_container.Common.{
  ℕ, zero, suc, ◌+◌, ◌≤◌, ◌<◌, ◌≡◌, refl, ◌⊎◌, ◌↔◌, Bool, true, false, not, ◌&&◌, ◌||◌, ltb, leb,
  ◌==◌, if◌then◌else◌, List, [], ◌∷◌, length, get_or, All, arith,
}

unfoldable pub name_char : ℕ → Bool
name_char c = (leb b'a' c && leb c b'z') || (leb b'0' c && leb c b'9') || c == b'_'

-- The loop, for the rounds that are left. The byte behind the end of a text is 0.
unfoldable pub name_rest : ℕ → ℕ → List ℕ → Bool
name_rest zero index value = false
name_rest (suc rounds) index value =
    let character = get_or value index 0 in
    let rest = name_rest rounds (index + 1) value in
    if character == 0 then true else if not (name_char character) then false else rest

unfoldable pub name_valid : List ℕ → Bool
name_valid value =
    let first = get_or value 0 0 in
    if ltb first b'a' || ltb b'z' first then false else name_rest 15 1 value

-- A name: a letter, and up to fourteen letters, digits and underscores.
abbrev IsNameChar : ℕ → Type 0
IsNameChar c = ((b'a' ≤ c) × (c ≤ b'z')) ⊎ ((b'0' ≤ c) × (c ≤ b'9')) ⊎ (c ≡ b'_')

abbrev pub IsName : List ℕ → Type 0
IsName [] = ⊥
IsName (c ∷ cs) = (b'a' ≤ c) × (c ≤ b'z') × (length cs ≤ 14) × All IsNameChar cs

-- The loop looks at a list behind its head as at the list.
name_rest_shift :
    (rounds index : ℕ) (c : ℕ) (cs : List ℕ)
    → name_rest rounds (suc index) (c ∷ cs) ≡ name_rest rounds index cs
unfolding name_rest
name_rest_shift zero index c cs = refl
name_rest_shift (suc rounds) index c cs =
    let step : suc index + 1 ≡ suc (index + 1) = omega arith in
    let ih : name_rest rounds (suc index + 1) (c ∷ cs) ≡ name_rest rounds (index + 1) cs =
      rw step (name_rest_shift rounds (index + 1) c cs) in
    rw ih

name_rest_iff :
    (rounds : ℕ) (cs : List ℕ)
    → All (λ c. 0 < c) cs
    → (name_rest rounds 0 cs ≡ true) ↔ ((length cs < rounds) × All IsNameChar cs)
unfolding name_rest name_char
name_rest_iff zero cs h = ground arith
name_rest_iff (suc rounds) [] h = ground arith
name_rest_iff (suc rounds) (c ∷ cs) (p, h) =
    ground (arith, name_rest_shift rounds 0 c cs, name_rest_iff rounds cs h)

-- A text of non-zero bytes is accepted by name_valid just when it is a lower-case letter with up to
-- fourteen lower-case letters, digits and underscores behind it.
pub name_valid_iff :
    (value : List ℕ) → All (λ c. 0 < c) value → (name_valid value ≡ true) ↔ IsName value
unfolding name_valid
name_valid_iff [] h = ground arith
name_valid_iff (c ∷ cs) (p, h) = ground (arith, name_rest_shift 15 0 c cs, name_rest_iff 15 cs h)
