-- ===== src/Common/Bytes.antt =====
-- Byte strings as lists of numbers: memcmp, all_zero and the little-endian words of slots.c.
use esp_container.Common.Tests.{◌==◌, ==_iff, and_parts}
use esp_container.Common.Lists.{length, get_or, All}
use Prim.Native.Nat.{ℕ, ◌+◌, ◌*◌, ◌/◌, ◌%◌, ◌^◌, ◌<◌}
use mathlib.Core.Path.{◌≡◌, refl, ap₂}
use mathlib.Core.Bool.{Bool, true, false, ◌&&◌}
use mathlib.Core.List.{List, [], ◌∷◌}
use native.Mathlib.Omega.{arith}

abbrev pub IsByte : ℕ → Type 0
IsByte b = b < 256

abbrev pub IsU32 : ℕ → Type 0
IsU32 v = v < 2 ^ 32

-- A byte array of `n` bytes.
abbrev pub IsBytes : ℕ → List ℕ → Type 0
IsBytes n bs = (length bs ≡ n) × All IsByte bs

-- `memcmp(a, b, n) == 0` for two arrays of `n` bytes.
unfoldable pub bytes_eq : List ℕ → List ℕ → Bool
bytes_eq [] [] = true
bytes_eq [] (b ∷ bs) = false
bytes_eq (a ∷ as') [] = false
bytes_eq (a ∷ as') (b ∷ bs) = a == b && bytes_eq as' bs

-- The OR of all bytes is 0 exactly when each byte is.
unfoldable pub all_zero : List ℕ → Bool
all_zero [] = true
all_zero (b ∷ bs) = b == 0 && all_zero bs

-- The bytes of a word by shifts; a shift by 8 is a division by 256.
unfoldable pub store_u32 : ℕ → List ℕ
store_u32 v = (v % 256) ∷ (v / 256 % 256) ∷ (v / 65536 % 256) ∷ (v / 16777216 % 256) ∷ []

-- The OR of four shifted bytes has no common bits, so it is their sum.
unfoldable pub load_u32 : List ℕ → ℕ
load_u32 bs = get_or bs 0 0 + get_or bs 1 0 * 256 + get_or bs 2 0 * 65536 + get_or bs 3 0 * 16777216

pub bytes_eq_sound : (xs ys : List ℕ) → bytes_eq xs ys ≡ true → xs ≡ ys
unfolding bytes_eq
bytes_eq_sound [] [] h = refl
bytes_eq_sound [] (y ∷ ys) h = cc
bytes_eq_sound (x ∷ xs) [] h = cc
bytes_eq_sound (x ∷ xs) (y ∷ ys) h =
    let (p, q) = and_parts (x == y) (bytes_eq xs ys) h in
    ap₂ ◌∷◌ ((==_iff x y).0 p) (bytes_eq_sound xs ys q)

pub bytes_eq_refl : (xs : List ℕ) → bytes_eq xs xs ≡ true
unfolding bytes_eq
bytes_eq_refl [] = refl
bytes_eq_refl (x ∷ xs) = ground (arith, bytes_eq_refl xs)

pub load_u32-store_u32 : (v : ℕ) → IsU32 v → load_u32 (store_u32 v) ≡ v
unfolding load_u32 store_u32
load_u32-store_u32 v h = omega arith

pub store_u32-IsBytes : (v : ℕ) → IsBytes 4 (store_u32 v)
unfolding store_u32
store_u32-IsBytes v = (refl, omega arith)

pub store_u32-load_u32 : (bs : List ℕ) → IsBytes 4 bs → store_u32 (load_u32 bs) ≡ bs
unfolding load_u32 store_u32
store_u32-load_u32 [] (n, h) = absurd (omega arith)
store_u32-load_u32 (a ∷ []) (n, h) = absurd (omega arith)
store_u32-load_u32 (a ∷ b ∷ []) (n, h) = absurd (omega arith)
store_u32-load_u32 (a ∷ b ∷ c ∷ []) (n, h) = absurd (omega arith)
store_u32-load_u32 (a ∷ b ∷ c ∷ d ∷ []) (n, h) = ground arith
store_u32-load_u32 (a ∷ b ∷ c ∷ d ∷ e ∷ r) (n, h) = absurd (omega arith)

-- Bytes read as a word stay within 32 bits.
pub load_u32-IsU32 : (bs : List ℕ) → All IsByte bs → IsU32 (load_u32 bs)
unfolding load_u32
load_u32-IsU32 [] h = omega arith
load_u32-IsU32 (a ∷ []) h = omega arith
load_u32-IsU32 (a ∷ b ∷ []) h = omega arith
load_u32-IsU32 (a ∷ b ∷ c ∷ []) h = omega arith
load_u32-IsU32 (a ∷ b ∷ c ∷ d ∷ r) h = omega arith
