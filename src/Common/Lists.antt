-- ===== src/Common/Lists.antt =====
-- Lists measured and cut by native numbers, under the library's names.
use Prim.Native.Nat.{ℕ, zero, suc, ◌+◌, ◌-◌, ◌≤◌}
use mathlib.Core.Path.{◌≡◌, refl, ap, ◌∙◌}
use mathlib.Core.List.{List, [], ◌∷◌, ◌++◌}
use native.Mathlib.Omega.{arith}
use native.Mathlib.Nat.{suc-add}

module _ {ℓ} {A : Type ℓ} where
  abbrev pub length : List A → ℕ
  length [] = 0
  length (x ∷ xs) = suc (length xs)

  abbrev pub get_or : List A → ℕ → A → A
  get_or [] i d = d
  get_or (x ∷ xs) zero d = x
  get_or (x ∷ xs) (suc i) d = get_or xs i d

  abbrev pub take : ℕ → List A → List A
  take zero xs = []
  take (suc n) [] = []
  take (suc n) (x ∷ xs) = x ∷ take n xs

  abbrev pub drop : ℕ → List A → List A
  drop zero xs = xs
  drop (suc n) [] = []
  drop (suc n) (x ∷ xs) = drop n xs

  abbrev pub replicate : ℕ → A → List A
  replicate zero a = []
  replicate (suc n) a = a ∷ replicate n a

  abbrev pub All {κ} : (A → Type κ) → List A → Type κ
  All P [] = Unit {κ}
  All P (x ∷ xs) = P x × All P xs

  -- The `n` elements from `offset` on.
  unfoldable pub slice : ℕ → ℕ → List A → List A
  slice offset n xs = take n (drop offset xs)

module _ {ℓ} {A : Type ℓ} where
  pub length-append : (xs ys : List A) → length (xs ++ ys) ≡ length xs + length ys
  length-append [] ys = omega arith
  length-append (x ∷ xs) ys = omega (arith, length-append xs ys)

  pub length-replicate : (n : ℕ) (a : A) → length (replicate n a) ≡ n
  length-replicate zero a = refl
  length-replicate (suc n) a = ap suc (length-replicate n a)

  pub length-take : (n : ℕ) (xs : List A) → n ≤ length xs → length (take n xs) ≡ n
  length-take zero xs h = refl
  length-take (suc n) [] h = absurd (omega arith)
  length-take (suc n) (x ∷ xs) h = ap suc (length-take n xs (omega arith))

  pub length-drop : (n : ℕ) (xs : List A) → length (drop n xs) ≡ length xs - n
  length-drop zero xs = omega arith
  length-drop (suc n) [] = omega arith
  length-drop (suc n) (x ∷ xs) = omega (arith, length-drop n xs)

  pub take-append_exact : (xs ys : List A) (n : ℕ) → length xs ≡ n → take n (xs ++ ys) ≡ xs
  take-append_exact [] ys zero h = refl
  take-append_exact [] ys (suc n) h = absurd (omega arith)
  take-append_exact (x ∷ xs) ys zero h = absurd (omega arith)
  take-append_exact (x ∷ xs) ys (suc n) h = ap (◌∷◌ x) (take-append_exact xs ys n (omega arith))

  -- Skipping a whole block of `k` elements leaves the rest of the skip to what follows it.
  pub drop-append_past :
      (xs ys : List A) (k n : ℕ) → length xs ≡ k → drop (k + n) (xs ++ ys) ≡ drop n ys
  drop-append_past [] ys zero n h = ground arith
  drop-append_past [] ys (suc k) n h = absurd (omega arith)
  drop-append_past (x ∷ xs) ys zero n h = absurd (omega arith)
  drop-append_past (x ∷ xs) ys (suc k) n h = rw suc-add (drop-append_past xs ys k n (omega arith))

  pub All-take {κ} : (P : A → Type κ) (n : ℕ) (xs : List A) → All P xs → All P (take n xs)
  All-take P zero xs h = tt
  All-take P (suc n) [] h = tt
  All-take P (suc n) (x ∷ xs) (p, h) = (p, All-take P n xs h)

  pub All-drop {κ} : (P : A → Type κ) (n : ℕ) (xs : List A) → All P xs → All P (drop n xs)
  All-drop P zero xs h = h
  All-drop P (suc n) [] h = tt
  All-drop P (suc n) (x ∷ xs) (p, h) = All-drop P n xs h

  pub All-append {κ} : (P : A → Type κ) (xs ys : List A) → All P xs → All P ys → All P (xs ++ ys)
  All-append P [] ys h k = k
  All-append P (x ∷ xs) ys (p, h) k = (p, All-append P xs ys h k)

  -- A slice that starts with the first part of an append, and one that starts behind it.
  pub slice-append_here : (xs ys : List A) (n : ℕ) → length xs ≡ n → slice 0 n (xs ++ ys) ≡ xs
  unfolding slice
  slice-append_here xs ys n h = take-append_exact xs ys n h

  pub slice-append_past :
      (xs ys : List A) (k m n : ℕ) {zs : List A}
      → length xs ≡ k
      → slice m n ys ≡ zs
      → slice (k + m) n (xs ++ ys) ≡ zs
  unfolding slice
  slice-append_past xs ys k m n h e = ap (take n) (drop-append_past xs ys k m h) ∙ e

  pub slice_whole : (xs : List A) (n : ℕ) → length xs ≡ n → slice 0 n xs ≡ xs
  unfolding slice
  slice_whole [] zero h = refl
  slice_whole [] (suc n) h = refl
  slice_whole (x ∷ xs) zero h = absurd (omega arith)
  slice_whole (x ∷ xs) (suc n) h = ap (◌∷◌ x) (slice_whole xs n (omega arith))

  -- A slice that ends within the first part of an append.
  pub slice-append_within :
      (xs ys : List A) (m n : ℕ) → m + n ≤ length xs → slice m n (xs ++ ys) ≡ slice m n xs
  unfolding slice
  slice-append_within [] ys zero zero h = refl
  slice-append_within [] ys zero (suc n) h = absurd (omega arith)
  slice-append_within [] ys (suc m) n h = absurd (omega arith)
  slice-append_within (x ∷ xs) ys zero zero h = refl
  slice-append_within (x ∷ xs) ys zero (suc n) h =
      ap (◌∷◌ x) (unfold slice in slice-append_within xs ys zero n (omega arith))
  slice-append_within (x ∷ xs) ys (suc m) n h = slice-append_within xs ys m n (omega arith)
