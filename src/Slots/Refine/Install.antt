-- ===== src/Slots/Refine/Install.antt =====
-- `econtainer_slots_initialize` of slots.c.
use esp_container.Common.{
  ℕ, ◌≡◌, refl, inl, inr, Bool, true, false, not, ◌||◌, List, none, some, sym, ap, ◌∙◌, arith,
  Bool-cases, Option-cases,
}
use esp_container.Crypto.{Psa}
use esp_container.Slots.Types.{
  Geometry, SlotsState, StateIsSized, Binding, BindingIsSized, FirmwareSet,
}
use esp_container.Slots.Geometry.{geometry_valid}
use esp_container.Slots.Valid.{state_valid}
use esp_container.Slots.Firmware.{firmware_set_valid, firmware_set_matches}
use esp_container.Slots.Io.{SlotsIo, Result, ok, err, empty}
use esp_container.Slots.Io.Post.{Ends, done, failed, seq}
use esp_container.Slots.Flash.Laws.{Device, SlotsIoLaws, PsaLaws, Intact}
use esp_container.Slots.Flash.Hash.{Clean, check_references-Ends}
use esp_container.Slots.Store.{load_locked, decoded}
use esp_container.Slots.Codec.{decode_state}
use esp_container.Slots.Store.Commit.{
  BlobResult-cases, load_locked-Ends, persist_locked-Ends, with_lock-Ends,
}
use esp_container.Slots.Steps.{Stored, Commits, Failed, kept}
use esp_container.Slots.Boot.{initial_state, if_empty, install, initialize}

-- The first state of a device: the given bindings, hashed, and no operation.
pub record Founding (sha256 : List ℕ → List ℕ) (g : Geometry) (v : Device) (f : FirmwareSet)
    (b0 b1 : Binding) (s : SlotsState) : Type 0 where
  pub is_initial : s ≡ initial_state b0 b1
  pub valid : state_valid s g ≡ true
  pub bootable : firmware_set_matches s f ≡ true
  pub sized : StateIsSized s
  pub intact : Intact sha256 g v s

initial_state-IsSized :
    (b0 b1 : Binding) → BindingIsSized b0 → BindingIsSized b1 → StateIsSized (initial_state b0 b1)
unfolding initial_state
initial_state-IsSized b0 b1 z0 z1 = record {
  sequence = omega arith;
  binding0 = z0;
  binding1 = z1;
  phase = omega arith;
  operation = record {
    id = (refl, omega arith);
    firmware_digest = (refl, omega arith);
    package_digest = (refl, omega arith);
    slot = omega arith;
    size = omega arith;
    abi = omega arith;
    schema = omega arith;
    boot = (refl, omega arith);
  };
}

or_parts : (a b : Bool) → (not a || not b) ≡ false → (a ≡ true) × (b ≡ true)
or_parts a b h = (ground arith, ground arith)

none-some : {A : Type 0} {a : A} → none ≡ some a → ⊥
none-some e = cc

module _ {W Op : Type 0} (io : SlotsIo W) (psa : Psa W Op) (view : W → Device)
    (absorbed : Op → List ℕ) (sha256 : List ℕ → List ℕ) (laws : SlotsIoLaws io view)
    (hashes : PsaLaws psa view absorbed sha256) (g : Geometry) where
  install-Ends :
      (f : FirmwareSet) (b0 b1 : Binding) (w : W) (v : Device)
      → BindingIsSized b0
      → BindingIsSized b1
      → view w ≡ v
      → Ends
          (λ s w'. Commits v (Founding sha256 g v f b0 b1) s (view w'))
          (λ e w'. Failed v (Founding sha256 g v f b0 b1) e (view w'))
          (install io psa g f b0 b1 w)
  unfolding install
  install-Ends f b0 b1 w v z0 z1 h =
      elim (Bool-cases (
        not (state_valid (initial_state b0 b1) g)
        || not (firmware_set_matches (initial_state b0 b1) f))) [
          | inl bad ↦ rw bad (failed (kept h))
          | inr good ↦
              (let (valid, bootable) = or_parts _ _ good in
                rw good (
                  seq
                    (check_references-Ends io psa view absorbed sha256 laws hashes g
                      (initial_state b0 b1) false w v h)
                    (λ _ w1 p.
                      persist_locked-Ends io view laws none (initial_state b0 b1)
                        (Founding sha256 g v f b0 b1) w1 v p.0
                        (record {
                          is_initial = refl;
                          valid = valid;
                          bootable = bootable;
                          sized = initial_state-IsSized b0 b1 z0 z1;
                          intact = p.1;
                        }))
                    (λ e w1 p. kept p.0)))
        ]

  -- With callbacks that keep their laws and a digest that keeps its own: for bindings that fit
  -- their C types, initialize either commits, to a device that is otherwise unchanged, the initial
  -- state of the two bindings, which is valid, matches the firmware set and has intact packages, or
  -- fails; a failure leaves the device, or, under UNCERTAIN only, has committed such a state.
  pub initialize-Ends :
      (f : FirmwareSet) (b0 b1 : Binding) (w : W) (v : Device)
      → BindingIsSized b0
      → BindingIsSized b1
      → view w ≡ v
      → Ends
          (λ s w'. Commits v (Founding sha256 g v f b0 b1) s (view w'))
          (λ e w'. Failed v (Founding sha256 g v f b0 b1) e (view w'))
          (initialize io psa g f b0 b1 w)
  unfolding initialize
  initialize-Ends f b0 b1 w v z0 z1 h =
      elim (Bool-cases (not (geometry_valid g) || not (firmware_set_valid f))) [
        | inl bad ↦ rw bad (failed (kept h))
        | inr good ↦ rw good (
            with_lock-Ends io view laws _ (Commits v (Founding sha256 g v f b0 b1))
              (Failed v (Founding sha256 g v f b0 b1)) w v h
              (λ w1 h1. branch (load_locked io g w1) (load_locked-Ends io view laws g w1 v h1))
              (kept refl))
      ]
    where
      branch :
          (x : Result SlotsState × W)
          → Ends (λ s w'. (view w' ≡ v) × Stored g v s) (Clean view v) x
          → Ends
              (λ s w'. Commits v (Founding sha256 g v f b0 b1) s (view w'))
              (λ e w'. Failed v (Founding sha256 g v f b0 b1) e (view w'))
              (if_empty x (install io psa g f b0 b1))
      branch (ok s, w1) (done p) = unfold if_empty in failed (kept p.0)
      branch (err empty, w1) (failed p) = unfold if_empty in install-Ends f b0 b1 w1 v z0 z1 p.0
      branch (err e, w1) (failed p) = unfold if_empty in failed (kept p.0)

  -- Where there is a blob, what `load_locked` answers is not EMPTY.
  occupied_branch :
      (f : FirmwareSet) (b0 b1 : Binding) (w : W) (v : Device) (b : List ℕ)
      → view w ≡ v
      → v.blob ≡ some b
      → Ends
          (λ _ _. ⊥)
          (λ e w'. view w' ≡ v)
          (if_empty (load_locked io g w) (install io psa g f b0 b1))
  unfolding if_empty decoded load_locked
  occupied_branch f b0 b1 w v b h o = elim (BlobResult-cases (io.read_blob w).0) [
    | inl e ↦
        absurd (none-some (sym (laws.read_blob_not_found w e) ∙ ap (λ (d : Device). d.blob) h ∙ o))
    | inr (inl e) ↦ rw (e, load_locked, if_empty) (failed (laws.read_blob_keeps w ∙ h))
    | inr (inr (x, e)) ↦ elim (Option-cases (decode_state x g)) [
      | inl n ↦ rw (e, n, load_locked, if_empty) (failed (laws.read_blob_keeps w ∙ h))
      | inr (s, n) ↦ rw (e, n, load_locked, if_empty) (failed (laws.read_blob_keeps w ∙ h))
    ]
  ]

  -- With callbacks that keep their laws and a digest that keeps its own: where the device holds a
  -- blob, of whatever content, initialize fails and changes nothing on the device.
  pub initialize_occupied :
      (f : FirmwareSet) (b0 b1 : Binding) (w : W) (v : Device) (b : List ℕ)
      → view w ≡ v
      → v.blob ≡ some b
      → Ends (λ _ _. ⊥) (λ e w'. view w' ≡ v) (initialize io psa g f b0 b1 w)
  unfolding initialize
  initialize_occupied f b0 b1 w v b h o =
      elim (Bool-cases (not (geometry_valid g) || not (firmware_set_valid f))) [
        | inl bad ↦ rw bad (failed h)
        | inr good ↦ rw good (
            with_lock-Ends io view laws _ (λ _ _. ⊥) (λ _ d. d ≡ v) w v h
              (λ w1 h1. occupied_branch f b0 b1 w1 v b h1 o) refl)
      ]
