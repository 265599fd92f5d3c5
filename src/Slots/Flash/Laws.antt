-- ===== src/Slots/Flash/Laws.antt =====
-- What slots.c relies on of its callbacks and of the digest, seen through a device: the committed
-- blob and the bytes of the Flash.
use esp_container.Common.{
  ℕ, zero, suc, ◌+◌, ◌≤◌, ◌<◌, ◌≡◌, refl, ap, ◌&&◌, Bool, ◌∙◌, ◌⊎◌, true, false, List, [], ◌∷◌,
  ◌++◌, Option, none, some, length, arith,
}
use mathlib.Core.Path.{ap₂}
use native.Mathlib.Nat.{suc-add}
use esp_container.Common.Bytes.{IsBytes}
use esp_container.Crypto.{Psa}
use esp_container.Slots.Types.{Geometry, slot_at, Binding, SlotsState}
use esp_container.Slots.Valid.{has_candidate}
use esp_container.Slots.Io.{SlotsIo, found, not_found}

pub record Device : Type 0 where
  pub blob : Option (List ℕ)
  pub flash : ℕ → ℕ

-- The `n` bytes from address `a` on.
unfoldable pub flash_bytes : (ℕ → ℕ) → ℕ → ℕ → List ℕ
flash_bytes flash a zero = []
flash_bytes flash a (suc n) = flash a ∷ flash_bytes flash (a + 1) n

-- Nothing outside the `n` bytes from `a` on differs.
abbrev pub OnlyWithin : ℕ → ℕ → Device → Device → Type 0
OnlyWithin a n v v' =
    (v'.blob ≡ v.blob) × ((x : ℕ) → (x < a) ⊎ (a + n ≤ x) → v'.flash x ≡ v.flash x)

-- `view` shows the device in a world. Every call but a write, an erase and a blob write leaves it.
pub record SlotsIoLaws {W : Type 0} (io : SlotsIo W) (view : W → Device) : Type 0 where
  pub lock_keeps : (w : W) → view (io.lock w).1 ≡ view w
  pub unlock_keeps : (w : W) → view (io.unlock w) ≡ view w
  pub read_blob_keeps : (w : W) → view (io.read_blob w).1 ≡ view w
  -- A blob is read from the committed view and has the length of the array.
  pub read_blob_found :
      (w : W) (b : List ℕ) → (io.read_blob w).0 ≡ found b → ((view w).blob ≡ some b) × IsBytes 288 b
  pub read_blob_not_found : (w : W) → (io.read_blob w).0 ≡ not_found → (view w).blob ≡ none
  -- One NVS key is replaced as a whole or not at all; true means that it was.
  pub write_blob_commits :
      (b : List ℕ) (w : W)
      → (view (io.write_blob b w).1 ≡ record (view w) { blob = some b })
        ⊎ (((io.write_blob b w).0 ≡ false) × (view (io.write_blob b w).1 ≡ view w))
  pub flash_read_keeps : (a n : ℕ) (w : W) → view (io.flash_read a n w).1 ≡ view w
  pub flash_read_bytes :
      (a n : ℕ) (w : W) (bs : List ℕ)
      → (io.flash_read a n w).0 ≡ some bs
      → bs ≡ flash_bytes (view w).flash a n
  -- An erase or a write, finished or not, touches its own range only.
  pub flash_erase_within :
      (a n : ℕ) (w : W) → OnlyWithin a n (view w) (view (io.flash_erase a n w).1)
  pub flash_write_within :
      (a : ℕ) (bs : List ℕ) (w : W)
      → OnlyWithin a (length bs) (view w) (view (io.flash_write a bs w).1)

-- The digest sees the bytes that it was updated with, and touches no storage.
pub record PsaLaws {W Op : Type 0} (psa : Psa W Op) (view : W → Device) (absorbed : Op → List ℕ)
    (sha256 : List ℕ → List ℕ) : Type 0 where
  pub init_keeps : (w : W) → view (psa.crypto_init w).1 ≡ view w
  pub setup_keeps : (op : Op) (w : W) → view (psa.hash_setup op w).world ≡ view w
  pub setup_absorbs :
      (op : Op) (w : W) → (psa.hash_setup op w).fine ≡ true → absorbed (psa.hash_setup op w).op ≡ []
  pub update_keeps : (op : Op) (bs : List ℕ) (w : W) → view (psa.hash_update op bs w).world ≡ view w
  pub update_absorbs :
      (op : Op) (bs : List ℕ) (w : W)
      → (psa.hash_update op bs w).fine ≡ true
      → absorbed (psa.hash_update op bs w).op ≡ absorbed op ++ bs
  pub finish_keeps : (op : Op) (w : W) → view (psa.hash_finish op w).world ≡ view w
  pub finish_output :
      (op : Op) (w : W)
      → (psa.hash_finish op w).fine ≡ true
      → (psa.hash_finish op w).output ≡ sha256 (absorbed op)
  pub abort_keeps : (op : Op) (w : W) → view (psa.hash_abort op w) ≡ view w

pub flash_bytes-add :
    (f : ℕ → ℕ) (a m n : ℕ) → flash_bytes f a (m + n) ≡ flash_bytes f a m ++ flash_bytes f (a + m) n
unfolding flash_bytes
flash_bytes-add f a zero n = ground arith
flash_bytes-add f a (suc m) n = rw suc-add (
    ap (◌∷◌ (f a)) (
      flash_bytes-add f (a + 1) m n
      ∙ ap (λ (x : ℕ). flash_bytes f (a + 1) m ++ flash_bytes f x n) (omega arith)))

-- Two Flash contents that agree on a range show the same bytes there.
pub flash_bytes-agree :
    (f h : ℕ → ℕ) (a n : ℕ)
    → ((x : ℕ) → a ≤ x → x < a + n → f x ≡ h x)
    → flash_bytes f a n ≡ flash_bytes h a n
unfolding flash_bytes
flash_bytes-agree f h a zero e = refl
flash_bytes-agree f h a (suc n) e =
    ap₂ ◌∷◌ (e a (omega arith) (omega arith))
      (flash_bytes-agree f h (a + 1) n (λ x p q. e x (omega arith) (omega arith)))

-- The `size` bytes at the start of a slot hash to `expected`.
abbrev pub Hashed : (List ℕ → List ℕ) → Geometry → Device → ℕ → ℕ → List ℕ → Type 0
Hashed sha256 g v slot size expected =
    sha256 (flash_bytes v.flash (slot_at g slot).offset_bytes size) ≡ expected

abbrev pub BindingIntact : (List ℕ → List ℕ) → Geometry → Device → Binding → Type 0
BindingIntact sha256 g v b =
    b.package_present ≡ true → Hashed sha256 g v b.slot b.package_size_bytes b.package_sha256

-- Every package that the bindings refer to has its recorded digest.
pub record Intact (sha256 : List ℕ → List ℕ) (g : Geometry) (v : Device) (s : SlotsState)
    : Type 0 where
  pub binding0 : BindingIntact sha256 g v s.binding0
  pub binding1 : BindingIntact sha256 g v s.binding1

-- The complete candidate of an operation has its recorded digest, where it was to be checked.
abbrev pub CandidateHashed : (List ℕ → List ℕ) → Geometry → Device → SlotsState → Bool → Type 0
CandidateHashed sha256 g v s c =
    (c && has_candidate s.phase) ≡ true
    → Hashed sha256 g v s.operation.slot s.operation.package_size_bytes s.operation.package_sha256
