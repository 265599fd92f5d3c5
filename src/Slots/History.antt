-- ===== src/Slots/History.antt =====
-- Any sequence of calls of slots.c, whatever each answers: the confirmed packages stay intact.
use esp_container.Common.{ℕ, ◌≡◌, refl, sym, ap, ◌∙◌, List, [], ◌∷◌, Option, Bool, true}
use mathlib.Core.Path.{subst}
use mathlib.Core.Option.{some-injective}
use esp_container.Common.Bytes.{IsBytes}
use esp_container.Crypto.{Psa}
use esp_container.Slots.Types.{
  Geometry, SlotsState, StateIsSized, Operation, OperationIsSized, Binding, BindingIsSized,
  FirmwareSet,
}
use esp_container.Slots.Geometry.{geometry_valid}
use esp_container.Slots.Valid.{state_valid}
use esp_container.Slots.Codec.{decode_state}
use esp_container.Slots.Codec.RoundTrip.{decode_state-encode_state, decode_state-valid}
use esp_container.Slots.Io.{SlotsIo, SlotsError, Result, ReadFn, ValidateFn}
use esp_container.Slots.Io.Post.{Ends, done, failed}
use esp_container.Slots.Flash.Laws.{Device, SlotsIoLaws, PsaLaws, Intact}
use esp_container.Slots.Steps.{Stored, committed, Commits, Failed, kept, doubtful, Admissible}
use esp_container.Slots.Operations.{
  reserve, write_and_prepare, begin_trial, mark_healthy, confirm, abandon,
}
use esp_container.Slots.Boot.{initialize, reconcile}
use esp_container.Slots.Refine.{Observes, Reads, Validates, Framed, untouched, reserved_only}
use esp_container.Slots.Refine.Trial.{
  begin_trial-Ends, mark_healthy-Ends, confirm-Ends, abandon-Ends,
}
use esp_container.Slots.Refine.Reserve.{reserve-Ends}
use esp_container.Slots.Refine.Written.{write_and_prepare-Ends, Written, WriteFails}
use esp_container.Slots.Refine.Install.{initialize-Ends}
use esp_container.Slots.Refine.Frame.{reserved-Intact}
use esp_container.Slots.Refine.Reconcile.{reconcile-BootOutcome}

-- A call with its arguments.
pub data Call (W : Type 0) : Type 0 where
  initializes : FirmwareSet → Binding → Binding → Call W
  reconciles : FirmwareSet → Call W
  reserves : ℕ → FirmwareSet → Operation → Call W
  writes : ℕ → ReadFn W → ValidateFn W Operation → Call W
  tries : ℕ → List ℕ → List ℕ → Call W
  marks_healthy : ℕ → List ℕ → Call W
  confirms : ℕ → List ℕ → List ℕ → Call W
  abandons : ℕ → List ℕ → Option (List ℕ → W → Bool × W) → Call W

-- The arguments fit their C types, and callbacks of the caller change no storage.
abbrev pub IsProper : {W : Type 0} → (W → Device) → Call W → Type 0
IsProper view (initializes f b0 b1) = BindingIsSized b0 × BindingIsSized b1
IsProper view (reconciles f) = Unit {0}
IsProper view (reserves n f o) = OperationIsSized o
IsProper view (writes n source validate) = Reads view source × Validates view validate
IsProper view (tries n running boot_id) = IsBytes 16 boot_id
IsProper view (marks_healthy n boot_id) = Unit {0}
IsProper view (confirms n running boot_id) = Unit {0}
IsProper view (abandons n boot_id stopped) = Observes view stopped

abbrev pub AllProper : {W : Type 0} → (W → Device) → List (Call W) → Type 0
AllProper view [] = Unit {0}
AllProper view (c ∷ cs) = IsProper view c × AllProper view cs

-- Whatever state the device holds, the packages that its bindings refer to are intact.
abbrev pub Safe : (List ℕ → List ℕ) → Geometry → Device → Type 0
Safe sha256 g v = (s : SlotsState) → Stored g v s → Intact sha256 g v s

pub Stored-unique :
    (g : Geometry) (v : Device) (s t : SlotsState) → Stored g v s → Stored g v t → s ≡ t
Stored-unique g v s t (b, e, _, d) (b', e', _, d') =
    some-injective _ _
      (sym d ∙ ap (λ (x : List ℕ). decode_state x g) (some-injective _ _ (sym e ∙ e')) ∙ d')

committed-Safe :
    (sha256 : List ℕ → List ℕ) (g : Geometry) (v : Device) (s : SlotsState)
    → StateIsSized s
    → state_valid s g ≡ true
    → Intact sha256 g v s
    → Safe sha256 g (committed v s)
committed-Safe sha256 g v s z valid i t (b, e, _, d) =
    subst (Intact sha256 g (committed v s)) same
      (record { binding0 = i.binding0; binding1 = i.binding1 })
  where
    same : s ≡ t
    same = some-injective _ _ (
        sym (decode_state-encode_state s g z valid)
        ∙ ap (λ (x : List ℕ). decode_state x g) (some-injective _ _ e)
        ∙ d)

-- Success and failure of a commit both end in a safe device.
Commits-Safe :
    (sha256 : List ℕ → List ℕ) (g : Geometry) (v d : Device) (T : SlotsState → Type 0)
    (s : SlotsState)
    → ((t : SlotsState) → T t → StateIsSized t × (state_valid t g ≡ true) × Intact sha256 g v t)
    → Commits v T s d
    → Safe sha256 g d
Commits-Safe sha256 g v d T s facts (t, e) =
    let (z, valid, i) = facts s t in
    subst (Safe sha256 g) (sym e) (committed-Safe sha256 g v s z valid i)

Failed-Safe :
    (sha256 : List ℕ → List ℕ) (g : Geometry) (v d : Device) (T : SlotsState → Type 0)
    (e : SlotsError)
    → ((t : SlotsState) → T t → StateIsSized t × (state_valid t g ≡ true) × Intact sha256 g v t)
    → Safe sha256 g v
    → Failed v T e d
    → Safe sha256 g d
Failed-Safe sha256 g v d T e facts safe (kept p) = subst (Safe sha256 g) (sym p) safe
Failed-Safe sha256 g v d T e facts safe (doubtful s _ t p) =
    Commits-Safe sha256 g v d T s facts (t, p)

Admissible-facts :
    (sha256 : List ℕ → List ℕ) (g : Geometry) (v : Device) (n : ℕ)
    (R : SlotsState → SlotsState → Type 0) (t : SlotsState)
    → Admissible sha256 g v n R t
    → StateIsSized t × (state_valid t g ≡ true) × Intact sha256 g v t
Admissible-facts sha256 g v n R t a = (a.sized, a.valid, a.intact)

Framed-Safe :
    (sha256 : List ℕ → List ℕ) (g : Geometry) (v v1 : Device)
    → geometry_valid g ≡ true
    → Safe sha256 g v
    → Framed g v v1
    → Safe sha256 g v1
Framed-Safe sha256 g v v1 gv safe (untouched p) = subst (Safe sha256 g) (sym p) safe
Framed-Safe sha256 g v v1 gv safe (reserved_only s st p within) = λ t new.
    let old : Stored g v t = (new.0, sym within.0 ∙ new.1, new.2, new.3) in
    subst (Intact sha256 g v1) (Stored-unique g v s t st old)
      (reserved-Intact sha256 g s v v1 gv (decode_state-valid st.0 g st.3) p within (safe s st))

module _ {W Op : Type 0} (io : SlotsIo W) (psa : Psa W Op) (g : Geometry) where
  -- One call; only the world after it matters here.
  unfoldable pub run_call : Call W → W → W
  run_call (initializes f b0 b1) w = (initialize io psa g f b0 b1 w).1
  run_call (reconciles f) w = (reconcile io psa g f w).1
  run_call (reserves n f o) w = (reserve io psa g n f o w).1
  run_call (writes n source validate) w = (write_and_prepare io psa g n source validate w).1
  run_call (tries n running boot_id) w = (begin_trial io psa g n running boot_id w).1
  run_call (marks_healthy n boot_id) w = (mark_healthy io psa g n boot_id w).1
  run_call (confirms n running boot_id) w = (confirm io psa g n running boot_id w).1
  run_call (abandons n boot_id stopped) w = (abandon io psa g n boot_id stopped w).1

  unfoldable pub run_calls : List (Call W) → W → W
  run_calls [] w = w
  run_calls (c ∷ cs) w = run_calls cs (run_call c w)

module _ {W Op : Type 0} (io : SlotsIo W) (psa : Psa W Op) (view : W → Device)
    (absorbed : Op → List ℕ) (sha256 : List ℕ → List ℕ) (laws : SlotsIoLaws io view)
    (hashes : PsaLaws psa view absorbed sha256) (g : Geometry)
    (valid : geometry_valid g ≡ true) where
  committing-Safe :
      (v : Device) (T : SlotsState → Type 0) (x : Result SlotsState × W)
      → ((t : SlotsState) → T t → StateIsSized t × (state_valid t g ≡ true) × Intact sha256 g v t)
      → Safe sha256 g v
      → Ends (λ s w'. Commits v T s (view w')) (λ e w'. Failed v T e (view w')) x
      → Safe sha256 g (view x.1)
  committing-Safe v T (x, w) facts safe (done p) = Commits-Safe sha256 g v (view w) T _ facts p
  committing-Safe v T (x, w) facts safe (failed p) =
      Failed-Safe sha256 g v (view w) T _ facts safe p

  writing-Safe :
      (v : Device) (n : ℕ) (x : Result SlotsState × W)
      → Safe sha256 g v
      → Ends
          (λ s w'. Written sha256 g v n s (view w'))
          (λ e w'. WriteFails sha256 g v n e (view w'))
          x
      → Safe sha256 g (view x.1)
  writing-Safe v n (x, w) safe (done (v1, framed, p)) =
      Commits-Safe sha256 g v1 (view w) _ _ (Admissible-facts sha256 g v1 n _) p
  writing-Safe v n (x, w) safe (failed (v1, framed, p)) =
      Failed-Safe sha256 g v1 (view w) _ _ (Admissible-facts sha256 g v1 n _)
        (Framed-Safe sha256 g v v1 valid safe framed) p

  run_call-Safe :
      (c : Call W) (w : W)
      → IsProper view c
      → Safe sha256 g (view w)
      → Safe sha256 g (view (run_call io psa g c w))
  unfolding run_call
  run_call-Safe (initializes f b0 b1) w (z0, z1) safe =
      committing-Safe (view w) _ _ (λ t p. (p.sized, p.valid, p.intact)) safe
        (initialize-Ends io psa view absorbed sha256 laws hashes g f b0 b1 w (view w) z0 z1 refl)
  run_call-Safe (reconciles f) w p safe =
      subst (Safe sha256 g)
        (sym (reconcile-BootOutcome io psa view absorbed sha256 laws hashes g f w (view w) refl).1)
        safe
  run_call-Safe (reserves n f o) w z safe =
      committing-Safe (view w) _ _ (Admissible-facts sha256 g (view w) n _) safe
        (reserve-Ends io psa view absorbed sha256 laws hashes g n f o w (view w) z refl)
  run_call-Safe (writes n source validate) w (r, s) safe = writing-Safe (view w) n _ safe (
      write_and_prepare-Ends io psa view absorbed sha256 laws hashes g n source validate w (view w)
        r s refl)
  run_call-Safe (tries n running boot_id) w b safe =
      committing-Safe (view w) _ _ (Admissible-facts sha256 g (view w) n _) safe (
        begin_trial-Ends io psa view absorbed sha256 laws hashes g n running boot_id w (view w) b
          refl)
  run_call-Safe (marks_healthy n boot_id) w p safe =
      committing-Safe (view w) _ _ (Admissible-facts sha256 g (view w) n _) safe
        (mark_healthy-Ends io psa view absorbed sha256 laws hashes g n boot_id w (view w) refl)
  run_call-Safe (confirms n running boot_id) w p safe =
      committing-Safe (view w) _ _ (Admissible-facts sha256 g (view w) n _) safe
        (confirm-Ends io psa view absorbed sha256 laws hashes g n running boot_id w (view w) refl)
  run_call-Safe (abandons n boot_id stopped) w o safe =
      committing-Safe (view w) _ _ (Admissible-facts sha256 g (view w) n _) safe
        (abandon-Ends io psa view absorbed sha256 laws hashes g n boot_id stopped w (view w) o refl)

  -- With callbacks that keep their laws and a digest that keeps its own: on a valid geometry, where
  -- the packages that the stored bindings refer to have their recorded SHA-256, they still have it
  -- after any sequence of calls to initialize, reconcile, reserve, write_and_prepare, begin_trial,
  -- mark_healthy, confirm and abandon, whatever each answers, provided that digests and ids in
  -- their arguments fit their C types and that the caller's sources, validators and stop callbacks
  -- leave the storage alone.
  pub run_calls-Safe :
      (cs : List (Call W)) (w : W)
      → AllProper view cs
      → Safe sha256 g (view w)
      → Safe sha256 g (view (run_calls io psa g cs w))
  unfolding run_calls
  run_calls-Safe [] w p safe = safe
  run_calls-Safe (c ∷ cs) w (p, ps) safe =
      run_calls-Safe cs (run_call io psa g c w) ps (run_call-Safe c w p safe)
