-- ===== src/Slots/Refine/Frame.antt =====
-- The slot that a valid state reserves, apart from every confirmed package.
use esp_container.Common.{
  ℕ, ◌+◌, ◌≤◌, ◌<◌, ◌≡◌, ap, ◌∙◌, ◌≢◌, ◌⊎◌, inl, inr, true, false, List, arith,
}
use native.Mathlib.Decide.{dec_lt}
use esp_container.Slots.Types.{Geometry, SlotsState, slot_at, writing, Binding}
use esp_container.Slots.Geometry.{geometry_valid, slots_disjoint, Inside}
use esp_container.Slots.Valid.{
  state_valid, operation_valid, operation_fields_invalid, occupies_reserved, binding_valid,
  bindings_invalid, package_fields_valid,
}
use esp_container.Slots.Flash.Laws.{Device, OnlyWithin, Intact, BindingIntact, flash_bytes-agree}

-- What validity says of its parts.
pub state_parts :
    (s : SlotsState) (g : Geometry)
    → state_valid s g ≡ true
    → (operation_valid s g ≡ true)
      × (binding_valid s.binding0 g ≡ true)
      × (binding_valid s.binding1 g ≡ true)
unfolding state_valid bindings_invalid
state_parts s g v = (ground arith, ground arith, ground arith)

operation_parts :
    (s : SlotsState) (g : Geometry)
    → operation_valid s g ≡ true
    → s.phase ≡ writing
    → (operation_fields_invalid s g ≡ false)
      × (occupies_reserved s s.binding0 ≡ false)
      × (occupies_reserved s s.binding1 ≡ false)
unfolding operation_valid
operation_parts s g v p = (ground arith, ground arith, ground arith)

fields_parts :
    (s : SlotsState) (g : Geometry)
    → operation_fields_invalid s g ≡ false
    → (s.operation.slot < 3)
      × (s.operation.package_size_bytes ≤ (slot_at g s.operation.slot).size_bytes)
unfolding operation_fields_invalid
fields_parts s g v = (ground arith, ground arith)

-- What validity says of a state in progress: its operation's slot exists and holds the package.
pub reserved_slot :
    (s : SlotsState) (g : Geometry)
    → state_valid s g ≡ true
    → s.phase ≡ writing
    → (s.operation.slot < 3)
      × (s.operation.package_size_bytes ≤ (slot_at g s.operation.slot).size_bytes)
reserved_slot s g v p = fields_parts s g (operation_parts s g (state_parts s g v).0 p).0

not_occupied :
    (s : SlotsState) (b : Binding)
    → occupies_reserved s b ≡ false
    → s.phase ≡ writing
    → b.package_present ≡ true
    → b.slot ≢ s.operation.slot
unfolding occupies_reserved
not_occupied s b h p e q = ground arith

binding_region :
    (b : Binding) (g : Geometry)
    → binding_valid b g ≡ true
    → b.package_present ≡ true
    → (b.slot < 3) × (b.package_size_bytes ≤ (slot_at g b.slot).size_bytes)
unfolding binding_valid package_fields_valid
binding_region b g v p = ground arith

-- Writes within the reserved slot leave the package of a binding that lies elsewhere.
framed_binding :
    (sha256 : List ℕ → List ℕ) (g : Geometry) (b : Binding) (slot : ℕ) (v v1 : Device)
    → geometry_valid g ≡ true
    → binding_valid b g ≡ true
    → slot < 3
    → (b.package_present ≡ true → b.slot ≢ slot)
    → OnlyWithin (slot_at g slot).offset_bytes (slot_at g slot).size_bytes v v1
    → BindingIntact sha256 g v b
    → BindingIntact sha256 g v1 b
framed_binding sha256 g b slot v v1 gv bv hs ne within i p =
    let (bs, bz) = binding_region b g bv p in
    ap sha256 (
      flash_bytes-agree v1.flash v.flash (slot_at g b.slot).offset_bytes b.package_size_bytes
        (λ x lo hi.
          within.1 x
            (outside x (slots_disjoint g b.slot slot x gv bs hs (ne p) (lo, omega (arith, bz))))))
    ∙ i p
  where
    outside :
        (x : ℕ)
        → ¬ Inside (slot_at g slot) x
        → (x < (slot_at g slot).offset_bytes)
          ⊎ ((slot_at g slot).offset_bytes + (slot_at g slot).size_bytes ≤ x)
    outside x n = elim (dec_lt x (slot_at g slot).offset_bytes) [
      | yes l ↦ inl l
      | no l ↦ elim (dec_lt x ((slot_at g slot).offset_bytes + (slot_at g slot).size_bytes)) [
        | yes r ↦ absurd (n (omega arith, r))
        | no r ↦ inr (omega arith)
      ]
    ]

-- On a valid geometry and for a valid state in WRITING, changes of the Flash within the slot of its
-- operation leave every package that its bindings refer to intact.
pub reserved-Intact :
    (sha256 : List ℕ → List ℕ) (g : Geometry) (s : SlotsState) (v v1 : Device)
    → geometry_valid g ≡ true
    → state_valid s g ≡ true
    → s.phase ≡ writing
    → OnlyWithin
        (slot_at g s.operation.slot).offset_bytes
        (slot_at g s.operation.slot).size_bytes
        v
        v1
    → Intact sha256 g v s
    → Intact sha256 g v1 s
reserved-Intact sha256 g s v v1 gv sv p within i =
    let (ov, b0, b1) = state_parts s g sv in
    let (f, o0, o1) = operation_parts s g ov p in
    let slot = (fields_parts s g f).0 in
    record {
      binding0 =
          framed_binding sha256 g s.binding0 s.operation.slot v v1 gv b0 slot
            (not_occupied s s.binding0 o0 p) within i.binding0;
      binding1 =
          framed_binding sha256 g s.binding1 s.operation.slot v v1 gv b1 slot
            (not_occupied s s.binding1 o1 p) within i.binding1;
    }
