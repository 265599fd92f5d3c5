-- ===== src/Slots/Machine.antt =====
-- What the steps of the state machine of slots.c guarantee, one by one and in sequence.
use esp_container.Common.{
  ℕ, ◌+◌, ◌≤◌, ◌<◌, ◌≡◌, ◌⊎◌, inl, inr, true, false, leb, ◌==◌, if◌then◌else◌, none, some, arith,
  Bool-cases,
}
use esp_container.Slots.Types.{Geometry, SlotsState, slot_at, health_verified, confirmed}
use esp_container.Slots.Operations.{
  slot_protected, slot_usable, select_slot, reserved_state, trial_state, bind_package,
  confirmed_state,
}
use esp_container.Slots.Refine.Reserve.{select_slot-some}
use esp_container.Slots.Steps.{
  Step, reserved, written, tried, healthy, confirms, abandons, numbered,
}

-- Both bindings, kept or with the operation's package bound to one of them.
pub data BindingsAfter (s s' : SlotsState) : Type 0 where
  both_kept : s'.binding0 ≡ s.binding0 → s'.binding1 ≡ s.binding1 → BindingsAfter s s'
  first_bound :
      s.phase ≡ health_verified
      → s'.phase ≡ confirmed
      → s'.binding0 ≡ bind_package s.binding0 s.operation
      → s'.binding1 ≡ s.binding1
      → BindingsAfter s s'
  second_bound :
      s.phase ≡ health_verified
      → s'.phase ≡ confirmed
      → s'.binding0 ≡ s.binding0
      → s'.binding1 ≡ bind_package s.binding1 s.operation
      → BindingsAfter s s'

confirmed-BindingsAfter :
    (s s' : SlotsState) (i : ℕ)
    → s.phase ≡ health_verified
    → s' ≡ numbered s (confirmed_state s i)
    → BindingsAfter s s'
unfolding confirmed_state
confirmed-BindingsAfter s s' i p e = elim (Bool-cases (i == 0)) [
  | inl q ↦ first_bound p (ground arith) (ground arith) (ground arith)
  | inr q ↦ second_bound p (ground arith) (ground arith) (ground arith)
]

-- Every step of the state machine raises the sequence number by one, and keeps both bindings, but
-- for a step from HEALTH_VERIFIED to CONFIRMED that binds the operation's package to one of them
-- and keeps the other.
pub Step-bindings :
    (g : Geometry) (s s' : SlotsState)
    → Step g s s'
    → (s'.sequence ≡ s.sequence + 1) × BindingsAfter s s'
unfolding reserved_state trial_state
Step-bindings g s s' (reserved o i _ _ e) = (ground arith, both_kept (ground arith) (ground arith))
Step-bindings g s s' (written _ e) = (ground arith, both_kept (ground arith) (ground arith))
Step-bindings g s s' (tried b _ e) = (ground arith, both_kept (ground arith) (ground arith))
Step-bindings g s s' (healthy _ e) = (ground arith, both_kept (ground arith) (ground arith))
Step-bindings g s s' (confirms i p _ e) =
    (unfold confirmed_state in ground arith, confirmed-BindingsAfter s s' i p e)
Step-bindings g s s' (abandons _ e) = (ground arith, both_kept (ground arith) (ground arith))

-- How many steps a phase lies behind the last reservation.
abbrev pub steps_behind : ℕ → ℕ
steps_behind phase = if leb phase confirmed then phase else 0

pub Step-steps_behind :
    (g : Geometry) (s s' : SlotsState)
    → Step g s s'
    → (s'.sequence ≡ s.sequence + 1)
      × ((steps_behind s'.phase ≡ 0)
          ⊎ (steps_behind s'.phase ≡ 1)
          ⊎ (steps_behind s'.phase ≡ steps_behind s.phase + 1))
unfolding reserved_state trial_state confirmed_state
Step-steps_behind g s s' (reserved o i _ _ e) = (ground arith, inr (inl (ground arith)))
Step-steps_behind g s s' (written p e) = (ground arith, inr (inr (ground arith)))
Step-steps_behind g s s' (tried b p e) = (ground arith, inr (inr (ground arith)))
Step-steps_behind g s s' (healthy p e) = (ground arith, inr (inr (ground arith)))
Step-steps_behind g s s' (confirms i p _ e) = (ground arith, inr (inr (ground arith)))
Step-steps_behind g s s' (abandons _ e) = (ground arith, inl (ground arith))

-- Two bindings protect at most two of the three slots.
free_slot :
    (s : SlotsState)
    → (slot_protected s 0 ≡ false) ⊎ (slot_protected s 1 ≡ false) ⊎ (slot_protected s 2 ≡ false)
unfolding slot_protected
free_slot s = ground arith

slot_usable_parts :
    (g : Geometry) (s : SlotsState) (size i : ℕ)
    → slot_usable g s size i ≡ true
    → (slot_protected s i ≡ false) × (size ≤ (slot_at g i).size_bytes)
unfolding slot_usable
slot_usable_parts g s size i u = (ground arith, ground arith)

-- A slot that select_slot picks is one of the three, is protected by no binding and holds the size;
-- where it picks none, one of the three is unprotected and smaller than the size.
pub select_slot_lem :
    (g : Geometry) (s : SlotsState) (size : ℕ)
    → ((i : ℕ)
        → select_slot g s size ≡ some i
        → (i < 3) × (slot_protected s i ≡ false) × (size ≤ (slot_at g i).size_bytes))
      × (select_slot g s size ≡ none
          → (i : ℕ) × (i < 3) × (slot_protected s i ≡ false) × ((slot_at g i).size_bytes < size))
select_slot_lem g s size = (selected, refused)
  where
    selected :
        (i : ℕ)
        → select_slot g s size ≡ some i
        → (i < 3) × (slot_protected s i ≡ false) × (size ≤ (slot_at g i).size_bytes)
    selected i e =
        let (lt, u) = select_slot-some g s size i e in
        let (free, fits) = slot_usable_parts g s size i u in (lt, free, fits)

    refused :
        select_slot g s size ≡ none
        → (i : ℕ) × (i < 3) × (slot_protected s i ≡ false) × ((slot_at g i).size_bytes < size)
    refused e =
        unfold select_slot slot_usable in
        elim (free_slot s) [
          | inl f ↦ (0, omega arith, f, ground arith)
          | inr (inl f) ↦ (1, omega arith, f, ground arith)
          | inr (inr f) ↦ (2, omega arith, f, ground arith)
        ]
