-- ===== src/Slots/Progress.antt =====
-- What the calls of slots.c do to the stored state, one by one and in sequence.
use esp_container.Common.{
  ℕ, ◌+◌, ◌≤◌, ◌≡◌, refl, sym, ◌∙◌, ◌⊎◌, inl, inr, true, List, [], ◌∷◌, arith,
}
use mathlib.Core.Path.{subst}
use esp_container.Crypto.{Psa}
use esp_container.Slots.Types.{Geometry, SlotsState, StateIsSized, idle, confirmed}
use esp_container.Slots.Valid.{state_valid}
use esp_container.Slots.Codec.{encode_state}
use esp_container.Slots.Codec.RoundTrip.{decode_state-encode_state}
use esp_container.Slots.Codec.Sized.{encode_state-IsBytes}
use esp_container.Slots.Io.{SlotsIo, Result}
use esp_container.Slots.Io.Post.{Ends, done, failed}
use esp_container.Slots.Flash.Laws.{Device, SlotsIoLaws, PsaLaws}
use esp_container.Slots.Steps.{Step, Stored, committed, Admissible, Commits, kept, doubtful}
use esp_container.Slots.Machine.{BindingsAfter, Step-bindings, steps_behind, Step-steps_behind}
use esp_container.Slots.Refine.{Succeeds, Fails, Framed, untouched, reserved_only}
use esp_container.Slots.Refine.Trial.{
  begin_trial-Ends, mark_healthy-Ends, confirm-Ends, abandon-Ends,
}
use esp_container.Slots.Refine.Reserve.{reserve-Ends}
use esp_container.Slots.Refine.Written.{write_and_prepare-Ends, Written, WriteFails}
use esp_container.Slots.Refine.Install.{initialize_occupied}
use esp_container.Slots.Refine.Reconcile.{reconcile-BootOutcome}
use esp_container.Slots.History.{
  Call, initializes, reconciles, reserves, writes, tries, marks_healthy, confirms, abandons,
  IsProper, AllProper, Stored-unique, run_call, run_calls,
}

-- The stored state after a call: the same, or one step further.
abbrev Follows : Geometry → SlotsState → Device → Type 0
Follows g s d = (t : SlotsState) × Stored g d t × ((t ≡ s) ⊎ Step g s t)

-- The stored state is the same; or its sequence number has risen by one, and its bindings are kept
-- but for the one that a confirmation binds.
pub data Moved (s t : SlotsState) : Type 0 where
  stayed : t ≡ s → Moved s t
  advanced : t.sequence ≡ s.sequence + 1 → BindingsAfter s t → Moved s t

-- The blob of a valid state that fits its C types is read back.
pub committed-Stored :
    (g : Geometry) (v : Device) (s : SlotsState)
    → StateIsSized s
    → state_valid s g ≡ true
    → Stored g (committed v s) s
committed-Stored g v s z valid =
    (encode_state s, refl, encode_state-IsBytes s z, decode_state-encode_state s g z valid)

same-Follows : (g : Geometry) (s : SlotsState) (v d : Device) → Stored g v s → d ≡ v → Follows g s d
same-Follows g s v d st e = (s, subst (λ x. Stored g x s) (sym e) st, inl refl)

module _ (sha256 : List ℕ → List ℕ) (g : Geometry) (s : SlotsState) where
  Commits-Follows :
      (v : Device) (n : ℕ) (R : SlotsState → SlotsState → Type 0) (t : SlotsState) (d : Device)
      → Stored g v s
      → Commits v (Admissible sha256 g v n R) t d
      → Follows g s d
  Commits-Follows v n R t d st (a, e) = (
    t,
    subst (λ x. Stored g x t) (sym e) (committed-Stored g v t a.sized a.valid),
    inr (subst (λ x. Step g x t) (Stored-unique g v a.current s a.stored st) a.step),
  )

  Ends-Follows :
      {W : Type 0} (view : W → Device) (v : Device) (n : ℕ) (R : SlotsState → SlotsState → Type 0)
      (x : Result SlotsState × W)
      → Stored g v s
      → Ends
          (λ t w'. Succeeds sha256 g v n R t (view w'))
          (λ e w'. Fails sha256 g v n R e (view w'))
          x
      → Follows g s (view x.1)
  Ends-Follows view v n R (x, w) st (done p) = Commits-Follows v n R _ (view w) st p
  Ends-Follows view v n R (x, w) st (failed (kept e)) = same-Follows g s v (view w) st e
  Ends-Follows view v n R (x, w) st (failed (doubtful t _ a e)) =
      Commits-Follows v n R t (view w) st (a, e)

  -- The writes within a slot leave the blob alone.
  Framed-Stored : (v v1 : Device) → Framed g v v1 → Stored g v s → Stored g v1 s
  Framed-Stored v v1 (untouched e) st = subst (λ x. Stored g x s) (sym e) st
  Framed-Stored v v1 (reserved_only _ _ _ within) (b, e, z, d) = (b, within.0 ∙ e, z, d)

  writing-Follows :
      {W : Type 0} (view : W → Device) (v : Device) (n : ℕ) (x : Result SlotsState × W)
      → Stored g v s
      → Ends
          (λ t w'. Written sha256 g v n t (view w'))
          (λ e w'. WriteFails sha256 g v n e (view w'))
          x
      → Follows g s (view x.1)
  writing-Follows view v n (x, w) st (done (v1, framed, p)) =
      Commits-Follows v1 n _ _ (view w) (Framed-Stored v v1 framed st) p
  writing-Follows view v n (x, w) st (failed (v1, framed, kept e)) =
      same-Follows g s v1 (view w) (Framed-Stored v v1 framed st) e
  writing-Follows view v n (x, w) st (failed (v1, framed, doubtful t _ a e)) =
      Commits-Follows v1 n _ t (view w) (Framed-Stored v v1 framed st) (a, e)

-- An operation that cannot succeed and leaves the device alone.
occupied-Follows :
    {W : Type 0} (view : W → Device) (g : Geometry) (s : SlotsState) (v : Device)
    (x : Result SlotsState × W)
    → Stored g v s
    → Ends (λ _ _. ⊥) (λ e w'. view w' ≡ v) x
    → Follows g s (view x.1)
occupied-Follows view g s v (x, w) st (done p) = absurd p
occupied-Follows view g s v (x, w) st (failed e) = same-Follows g s v (view w) st e

module _ {W Op : Type 0} (io : SlotsIo W) (psa : Psa W Op) (view : W → Device)
    (absorbed : Op → List ℕ) (sha256 : List ℕ → List ℕ) (laws : SlotsIoLaws io view)
    (hashes : PsaLaws psa view absorbed sha256) (g : Geometry) where
  run_call-Follows :
      (c : Call W) (w : W) (s : SlotsState)
      → IsProper view c
      → Stored g (view w) s
      → Follows g s (view (run_call io psa g c w))
  unfolding run_call
  run_call-Follows (initializes f b0 b1) w s p st = occupied-Follows view g s (view w) _ st (
      initialize_occupied io psa view absorbed sha256 laws hashes g f b0 b1 w (view w) st.0 refl
        st.1)
  run_call-Follows (reconciles f) w s p st =
      same-Follows g s (view w) _ st
        (reconcile-BootOutcome io psa view absorbed sha256 laws hashes g f w (view w) refl).1
  run_call-Follows (reserves n f o) w s z st =
      Ends-Follows sha256 g s view (view w) n _ _ st
        (reserve-Ends io psa view absorbed sha256 laws hashes g n f o w (view w) z refl)
  run_call-Follows (writes n source validate) w s (r, k) st =
      writing-Follows sha256 g s view (view w) n _ st (
        write_and_prepare-Ends io psa view absorbed sha256 laws hashes g n source validate w
          (view w) r k refl)
  run_call-Follows (tries n running boot_id) w s b st =
      Ends-Follows sha256 g s view (view w) n _ _ st (
        begin_trial-Ends io psa view absorbed sha256 laws hashes g n running boot_id w (view w) b
          refl)
  run_call-Follows (marks_healthy n boot_id) w s p st =
      Ends-Follows sha256 g s view (view w) n _ _ st
        (mark_healthy-Ends io psa view absorbed sha256 laws hashes g n boot_id w (view w) refl)
  run_call-Follows (confirms n running boot_id) w s p st =
      Ends-Follows sha256 g s view (view w) n _ _ st
        (confirm-Ends io psa view absorbed sha256 laws hashes g n running boot_id w (view w) refl)
  run_call-Follows (abandons n boot_id stopped) w s o st =
      Ends-Follows sha256 g s view (view w) n _ _ st
        (abandon-Ends io psa view absorbed sha256 laws hashes g n boot_id stopped w (view w) o refl)

  -- With callbacks that keep their laws and a digest that keeps its own: where the device holds a
  -- state, it holds one after any call to initialize, reconcile, reserve, write_and_prepare,
  -- begin_trial, mark_healthy, confirm or abandon, whatever the call answers, and that is the same
  -- state; or its sequence number is higher by one, and it keeps both bindings, or has gone from
  -- HEALTH_VERIFIED to CONFIRMED, has bound the operation's package to one of them and keeps the
  -- other. The digests and ids among the arguments fit their C types, and the caller's sources,
  -- validators and stop callbacks leave the storage alone.
  pub run_call-Moved :
      (c : Call W) (w : W) (s : SlotsState)
      → IsProper view c
      → Stored g (view w) s
      → (t : SlotsState) × Stored g (view (run_call io psa g c w)) t × Moved s t
  run_call-Moved c w s p st = let (t, now, k) = run_call-Follows c w s p st in (t, now, moved t k)
    where
      moved : (t : SlotsState) → (t ≡ s) ⊎ Step g s t → Moved s t
      moved t (inl e) = stayed e
      moved t (inr k) = let (more, after) = Step-bindings g s t k in advanced more after

  -- A state whose number exceeds `n` by the steps that its phase lies behind a reservation.
  run_calls-steps_behind :
      (cs : List (Call W)) (w : W) (n : ℕ) (s : SlotsState)
      → AllProper view cs
      → Stored g (view w) s
      → n + steps_behind s.phase ≤ s.sequence
      → (t : SlotsState) × Stored g (view (run_calls io psa g cs w)) t
        × (n + steps_behind t.phase ≤ t.sequence)
  unfolding run_calls
  run_calls-steps_behind [] w n s p st le = (s, st, le)
  run_calls-steps_behind (c ∷ cs) w n s (p, ps) st le =
      let (t, now, k) = run_call-Follows c w s p st in
      run_calls-steps_behind cs (run_call io psa g c w) n t ps now (bound t k)
    where
      bound : (t : SlotsState) → (t ≡ s) ⊎ Step g s t → n + steps_behind t.phase ≤ t.sequence
      bound t (inl e) = subst (λ x. n + steps_behind x.phase ≤ x.sequence) (sym e) le
      bound t (inr k) = omega (arith, Step-steps_behind g s t k, le)

  -- With callbacks that keep their laws and a digest that keeps its own: where the device holds an
  -- IDLE state and, after any sequence of those calls of slots.c, a CONFIRMED one, the sequence
  -- number has risen by at least five, one for each of the steps from the reservation to the
  -- confirmation. The digests and ids among the arguments fit their C types, and the caller's
  -- sources, validators and stop callbacks leave the storage alone.
  pub run_calls-confirmed :
      (cs : List (Call W)) (w : W) (s t : SlotsState)
      → AllProper view cs
      → Stored g (view w) s
      → s.phase ≡ idle
      → Stored g (view (run_calls io psa g cs w)) t
      → t.phase ≡ confirmed
      → s.sequence + 5 ≤ t.sequence
  run_calls-confirmed cs w s t p st i now c =
      let (u, now', le) = run_calls-steps_behind cs w s.sequence s p st (ground arith) in
      confirmed_bound u (Stored-unique g (view (run_calls io psa g cs w)) u t now' now) le
    where
      confirmed_bound :
          (u : SlotsState)
          → u ≡ t
          → s.sequence + steps_behind u.phase ≤ u.sequence
          → s.sequence + 5 ≤ t.sequence
      confirmed_bound u e le = ground (arith, e)
