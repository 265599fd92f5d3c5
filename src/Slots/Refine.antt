-- ===== src/Slots/Refine.antt =====
-- The operations of slots.c implement the steps of the state machine: each commits an admissible
-- state or fails and leaves the device alone, but for an UNCERTAIN commit.
pub mod Trial
pub mod Reserve
pub mod Prepare
pub mod Frame
pub mod Written
pub mod Install
pub mod Reconcile
use esp_container.Common.{List, ℕ, Bool, Option, none, some, ◌≡◌}
use esp_container.Slots.Types.{Geometry, SlotsState, Operation, slot_at, writing}
use esp_container.Slots.Io.{SlotsError, ReadFn, ValidateFn}
use esp_container.Slots.Io.Post.{Ends}
use esp_container.Slots.Flash.Laws.{Device, OnlyWithin}
use esp_container.Slots.Steps.{Admissible, Commits, Failed, Stored, numbered}
use esp_container.Slots.Operations.{confirm_target, confirmed_state, select_slot, reserved_state}

-- The postconditions of an operation that is asked to follow `expected_sequence`.
abbrev pub Succeeds :
    (List ℕ → List ℕ)
    → Geometry
    → Device
    → ℕ
    → (SlotsState → SlotsState → Type 0)
    → SlotsState
    → Device
    → Type 0
Succeeds sha256 g v expected_sequence R = Commits v (Admissible sha256 g v expected_sequence R)

abbrev pub Fails :
    (List ℕ → List ℕ)
    → Geometry
    → Device
    → ℕ
    → (SlotsState → SlotsState → Type 0)
    → SlotsError
    → Device
    → Type 0
Fails sha256 g v expected_sequence R = Failed v (Admissible sha256 g v expected_sequence R)

-- The new state is the numbered result of `f` on the old one.
abbrev pub Becomes : (SlotsState → SlotsState) → SlotsState → SlotsState → Type 0
Becomes f s s' = s' ≡ numbered s (f s)

-- The new state is the confirmation of the binding that the tests of `confirm` find.
abbrev pub Confirms : List ℕ → List ℕ → SlotsState → SlotsState → Type 0
Confirms running boot_id s s' =
    (i : ℕ) × (confirm_target s running boot_id ≡ some i) × (s' ≡ numbered s (confirmed_state s i))

-- The new state holds the requested operation on the first slot that can take it.
abbrev pub Reserves : Geometry → Operation → SlotsState → SlotsState → Type 0
Reserves g o s s' =
    (i : ℕ) × (select_slot g s o.package_size_bytes ≡ some i)
    × (s' ≡ numbered s (reserved_state s o i))

-- A callback of the caller that reports on the running trial and changes no storage.
abbrev pub Observes : {W : Type 0} → (W → Device) → Option (List ℕ → W → Bool × W) → Type 0
Observes view none = Unit {0}
Observes view (some f) = (id : List ℕ) (w : _) → view (f id w).1 ≡ view w

-- A source of bytes, and a validator that reads through the function it is given.
abbrev pub Reads : {W : Type 0} → (W → Device) → ReadFn W → Type 0
Reads view read = (a n : ℕ) (w : _) → view (read a n w).1 ≡ view w

abbrev pub Validates : {W : Type 0} → (W → Device) → ValidateFn W Operation → Type 0
Validates view validate =
    (o : Operation) (read : ReadFn _) (n : ℕ) (w : _)
    → Reads view read
    → view (validate o read n w).1 ≡ view w

-- What an operation may have done to the Flash: nothing, or writes within the slot that the stored
-- state reserves for its operation.
pub data Framed (g : Geometry) (v v1 : Device) : Type 0 where
  untouched : v1 ≡ v → Framed g v v1
  reserved_only :
      (s : SlotsState)
      → Stored g v s
      → s.phase ≡ writing
      → OnlyWithin
          (slot_at g s.operation.slot).offset_bytes
          (slot_at g s.operation.slot).size_bytes
          v
          v1
      → Framed g v v1
