-- ===== src/Slots/Io.antt =====
-- `econtainer_slots_io_t`: what slots.c calls through function pointers, as functions on a world,
-- and the results of the operations, as a monad of state and error.
pub mod Post
use esp_container.Common.{ℕ, ◌≡◌, Bool, List, Option}

-- `econtainer_slots_result_t` without OK.
pub data SlotsError : Type 0 where
  empty invalid io_failed uncertain busy no_space conflict untrusted : SlotsError

pub data BlobResult : Type 0 where
  found : List ℕ → BlobResult
  not_found read_failed : BlobResult

pub data ValidationResult : Type 0 where
  validation_ok validation_untrusted validation_io_failed : ValidationResult

-- `econtainer_slot_read_fn` and `econtainer_slot_source_fn`: offset and count; `none` is false.
abbrev pub ReadFn : Type 0 → Type 0
ReadFn W = ℕ → ℕ → W → Option (List ℕ) × W

abbrev pub ValidateFn : Type 0 → Type 0 → Type 0
ValidateFn W Operation = Operation → ReadFn W → ℕ → W → ValidationResult × W

pub record SlotsIo (W : Type 0) : Type 0 where
  pub lock : W → Bool × W
  pub unlock : W → W
  pub read_blob : W → BlobResult × W
  pub write_blob : List ℕ → W → Bool × W
  pub flash_read : ReadFn W
  pub flash_erase : ℕ → ℕ → W → Bool × W
  pub flash_write : ℕ → List ℕ → W → Bool × W

pub data Result {ℓ} (A : Type ℓ) : Type ℓ where
  ok : A → Result A
  err : SlotsError → Result A

-- A step of an operation: on `err` the rest is not run, as after `result != OK`.
abbrev pub M : Type 0 → Type 0 → Type 0
M W A = W → Result A × W

abbrev pub next : {W A B : Type 0} → Result A × W → (A → M W B) → Result B × W
next (ok a, w) f = f a w
next (err e, w) f = (err e, w)

infixl 5 ◌>>=◌ ◌>>◌
abbrev pub ◌>>=◌ : {W A B : Type 0} → M W A → (A → M W B) → M W B
◌>>=◌ m f w = next (m w) f

abbrev pub ◌>>◌ : {W B : Type 0} → M W (Unit {0}) → M W B → M W B
m >> k = m >>= λ _. k

abbrev pub pure : {W A : Type 0} → A → M W A
pure a w = (ok a, w)

abbrev pub fail : {W A : Type 0} → SlotsError → M W A
fail e w = (err e, w)

-- `if (result == OK && !test) result = e`
unfoldable pub require : {W : Type 0} → Bool → SlotsError → M W (Unit {0})
require Bool.true e w = (ok tt, w)
require Bool.false e w = (err e, w)
