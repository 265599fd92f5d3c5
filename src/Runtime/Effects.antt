-- ===== src/Runtime/Effects.antt =====
-- What each call of the owner does to a runtime: its state, its timers and its handles.
use esp_container.Common.{ℕ, ◌≤◌, ◌≡◌, refl, ◌∙◌, ◌⊎◌, inl, inr, true, false, arith, Bool-cases}
use esp_container.Runtime.Types.{
  Host, Limits, RuntimeState, loaded, running, stopped, failed, is_loaded, is_running, Outcome,
}
use esp_container.Runtime.Table.{handle_limit}
use esp_container.Runtime.Frame.{IsHost}
use esp_container.Runtime.Settled.{IsSettled, IsFinal, IsEntry, EntryState, fine, lost}

-- The moves of the state in one call.
pub data Lifecycle (s s' : RuntimeState) : Type 0 where
  stays : s' ≡ s → Lifecycle s s'
  begins : s ≡ loaded → s' ≡ running → Lifecycle s s'
  fails : (s ≡ loaded) ⊎ (s ≡ running) → s' ≡ failed → Lifecycle s s'
  finishes : s ≡ running → s' ≡ stopped → Lifecycle s s'

-- The effect of a call.
pub record IsCall (l : Limits) (h h' : Host) : Type 0 where
  pub settled : IsSettled l h'
  pub call_active : h'.runtime.call_active ≡ h.runtime.call_active
  pub handles : handle_limit h.next_timer_handle ≤ handle_limit h'.next_timer_handle
  pub life : Lifecycle h.runtime.state h'.runtime.state

abbrev pub IsGoing : RuntimeState → Type 0
IsGoing s = (s ≡ loaded) ⊎ (s ≡ running)

pub loaded_of : (s : RuntimeState) → is_loaded s ≡ true → s ≡ loaded
loaded_of loaded h = refl
loaded_of running h = absurd (ground arith)
loaded_of stopped h = absurd (ground arith)
loaded_of failed h = absurd (ground arith)

pub running_of : (s : RuntimeState) → is_running s ≡ true → s ≡ running
running_of running h = refl
running_of loaded h = absurd (ground arith)
running_of stopped h = absurd (ground arith)
running_of failed h = absurd (ground arith)

going_not_final : (s : RuntimeState) → IsGoing s → IsFinal s → ⊥
going_not_final s (inl a) (inl b) = ground arith
going_not_final s (inl a) (inr b) = ground arith
going_not_final s (inr a) (inl b) = ground arith
going_not_final s (inr a) (inr b) = ground arith

-- Before it begins to stop, a runtime is loaded or runs.
pub not_stopping :
    (l : Limits) (h : Host) → IsSettled l h → IsGoing h.runtime.state → h.runtime.stopping ≡ false
not_stopping l h k g = elim (Bool-cases h.runtime.stopping) [
  | inr e ↦ e
  | inl e ↦ absurd (going_not_final h.runtime.state g (k.final e))
]

pub unchanged-IsCall : (l : Limits) (h : Host) → IsSettled l h → IsCall l h h
unchanged-IsCall l h k = record {
  settled = k;
  call_active = refl;
  handles = omega arith;
  life = stays refl;
}

-- A host in order that has not begun to stop is settled.
going-IsSettled :
    (l : Limits) (h : Host)
    → IsHost l h
    → h.runtime.guest_active ≡ false
    → h.runtime.stopping ≡ false
    → (h.runtime.state ≡ stopped → ⊥)
    → IsSettled l h
going-IsSettled l h k out e n = record {
  host = k;
  guest_out = out;
  quiet = λ p. absurd (ground arith);
  final = λ p. absurd (ground arith);
  begun = λ p. absurd (n p);
}

-- An entry of a runtime that is loaded or runs.
entry_life :
    (s s' : RuntimeState) (o : Outcome ℕ)
    → IsGoing s
    → EntryState o s s'
    → Lifecycle s s' × (s' ≡ stopped → ⊥)
entry_life s s' o g (lost x e q) = (fails g q, λ p. ground arith)
entry_life s s' o (inl g) (fine v e q) = (stays q, λ p. ground arith)
entry_life s s' o (inr g) (fine v e q) = (stays q, λ p. ground arith)

pub IsEntry-IsCall :
    (l : Limits) (h h' : Host) (o : Outcome ℕ)
    → IsGoing h.runtime.state
    → h.runtime.stopping ≡ false
    → IsEntry l h o h'
    → IsCall l h h'
IsEntry-IsCall l h h' o g e k =
    let (life, n) = entry_life h.runtime.state h'.runtime.state o g k.state in
    record {
      settled = going-IsSettled l h' k.host k.guest_out (k.stopping ∙ e) n;
      call_active = k.call_active;
      handles = k.handles;
      life = life;
    }
