-- ===== src/Runtime/Settled.antt =====
-- The state of a runtime between the calls of its owner, and what one entry makes of it.
use esp_container.Common.{ℕ, ◌≤◌, ◌≡◌, refl, sym, ◌⊎◌, true, false, All, take, arith}
use mathlib.Core.Path.{subst}
use esp_container.Runtime.Types.{
  Engine, Host, Limits, RuntimeState, stopped, failed, Outcome, success, failure, RuntimeError,
  engine_failure, entry_expired,
}
use esp_container.Runtime.Timers.{deactivate_all}
use esp_container.Runtime.Entry.{mark_failed, clear_timers, expire_entry, entered, left}
use esp_container.Runtime.Steps.{HostSteps}
use esp_container.Runtime.Ended.{EntryRun, refused, overran, faulted, returned}
use esp_container.Runtime.Table.{
  handle_limit, IsIdle, AllFewer, AllFewer-refl, AllFewer-trans, AllFewer-IsTable, AllFewer-beyond,
  deactivate_all-AllFewer, All-split, deactivate_all-IsIdle,
}
use esp_container.Runtime.Frame.{IsHost, HostSteps-IsHost}
use esp_container.Runtime.Framed.{IsFramed, HostSteps-IsFramed}

abbrev pub IsFinal : RuntimeState → Type 0
IsFinal s = (s ≡ stopped) ⊎ (s ≡ failed)

-- No guest runs. A runtime that has begun to stop has no active timer and ends in `stopped` or
-- `failed`; one that is stopped has begun to stop.
pub record IsSettled (l : Limits) (h : Host) : Type 0 where
  pub host : IsHost l h
  pub guest_out : h.runtime.guest_active ≡ false
  pub quiet : h.runtime.stopping ≡ true → All IsIdle h.runtime.timers
  pub final : h.runtime.stopping ≡ true → IsFinal h.runtime.state
  pub begun : h.runtime.state ≡ stopped → h.runtime.stopping ≡ true

-- What an entry makes of the state.
pub data EntryState (o : Outcome ℕ) (s s' : RuntimeState) : Type 0 where
  fine : (v : ℕ) → o ≡ success v → s' ≡ s → EntryState o s s'
  lost : (e : RuntimeError) → o ≡ failure e → s' ≡ failed → EntryState o s s'

-- What an entry leaves: the invariant, no running guest, and no new timer once the runtime stops.
pub record IsEntry (l : Limits) (h : Host) (o : Outcome ℕ) (h' : Host) : Type 0 where
  pub host : IsHost l h'
  pub guest_out : h'.runtime.guest_active ≡ false
  pub call_active : h'.runtime.call_active ≡ h.runtime.call_active
  pub stopping : h'.runtime.stopping ≡ h.runtime.stopping
  pub handles : handle_limit h.next_timer_handle ≤ handle_limit h'.next_timer_handle
  pub no_start : h.runtime.stopping ≡ true → AllFewer h.runtime.timers h'.runtime.timers
  pub state : EntryState o h.runtime.state h'.runtime.state

entered-IsHost : (l : Limits) (h : Host) (began : ℕ) → IsHost l h → IsHost l (entered h began)
unfolding entered
entered-IsHost l h began k = record {
  limits = k.limits;
  table = k.table;
  beyond = k.beyond;
  next_bounded = k.next_bounded;
  log_fits = k.log_fits;
}

pub mark_failed-IsHost : (l : Limits) (h : Host) → IsHost l h → IsHost l (mark_failed h)
unfolding mark_failed
mark_failed-IsHost l h k = record {
  limits = k.limits;
  table = k.table;
  beyond = k.beyond;
  next_bounded = k.next_bounded;
  log_fits = k.log_fits;
}

left-IsHost : (l : Limits) (h : Host) → IsHost l h → IsHost l (left h)
unfolding left
left-IsHost l h k = record {
  limits = k.limits;
  table = k.table;
  beyond = k.beyond;
  next_bounded = k.next_bounded;
  log_fits = k.log_fits;
}

pub clear_timers-IsHost : (l : Limits) (h : Host) → IsHost l h → IsHost l (clear_timers h)
unfolding clear_timers
clear_timers-IsHost l h k = record {
  limits = k.limits;
  table = AllFewer-IsTable _ _ _ (deactivate_all-AllFewer _ h.runtime.timers) k.table;
  beyond = AllFewer-beyond l.max_timers _ _ (deactivate_all-AllFewer _ h.runtime.timers) k.beyond;
  next_bounded = k.next_bounded;
  log_fits = k.log_fits;
}

-- No timer is left: none up to the limit, and there was none past it.
pub clear_timers-IsIdle :
    (l : Limits) (h : Host) → IsHost l h → All IsIdle (clear_timers h).runtime.timers
unfolding clear_timers
clear_timers-IsIdle l h k =
    let ts = deactivate_all h.runtime.limits.max_timers h.runtime.timers in
    All-split IsIdle l.max_timers ts
      (subst (λ m. All IsIdle (take m.max_timers ts)) k.limits (deactivate_all-IsIdle _ _))
      (AllFewer-beyond l.max_timers _ _ (deactivate_all-AllFewer _ h.runtime.timers) k.beyond)

expire_entry-IsHost :
    (l : Limits) (h : Host) (n : ℕ) → n ≤ l.max_log_bytes → IsHost l h → IsHost l (expire_entry h n)
unfolding expire_entry
expire_entry-IsHost l h n b k = clear_timers-IsHost l _ (record {
  limits = k.limits;
  table = k.table;
  beyond = k.beyond;
  next_bounded = k.next_bounded;
  log_fits = b;
})

module _ {W : Type 0} {engine : Engine W} (l : Limits) (h : Host) (began : ℕ) (t : Host)
    (k : IsHost l h) (r : HostSteps engine (entered h began) t) where
  pub guest_IsHost : IsHost l t
  guest_IsHost = HostSteps-IsHost l (entered h began) t r (entered-IsHost l h began k)

  pub guest_IsFramed : IsFramed (entered h began) t
  guest_IsFramed = HostSteps-IsFramed l (entered h began) t (entered-IsHost l h began k) r

  overran-IsEntry :
      (o : Outcome ℕ)
      → o ≡ failure entry_expired
      → IsEntry l h o (expire_entry (left t) h.runtime.pending_log_size)
  unfolding expire_entry clear_timers left entered
  overran-IsEntry o e = record {
    host =
        expire_entry-IsHost l (left t) h.runtime.pending_log_size k.log_fits
          (left-IsHost l t guest_IsHost);
    guest_out = refl;
    call_active = guest_IsFramed.call_active;
    stopping = guest_IsFramed.stopping;
    handles = guest_IsFramed.handles;
    no_start = λ p.
        AllFewer-trans _ _ _ (guest_IsFramed.no_start p)
          (deactivate_all-AllFewer _ t.runtime.timers);
    state = lost entry_expired e refl;
  }

  broke-IsEntry :
      (o : Outcome ℕ) (x : RuntimeError) → o ≡ failure x → IsEntry l h o (mark_failed (left t))
  unfolding mark_failed left entered
  broke-IsEntry o x e = record {
    host = mark_failed-IsHost l (left t) (left-IsHost l t guest_IsHost);
    guest_out = refl;
    call_active = guest_IsFramed.call_active;
    stopping = guest_IsFramed.stopping;
    handles = guest_IsFramed.handles;
    no_start = guest_IsFramed.no_start;
    state = lost x e refl;
  }

  returned-IsEntry : (o : Outcome ℕ) (v : ℕ) → o ≡ success v → IsEntry l h o (left t)
  unfolding left entered
  returned-IsEntry o v e = record {
    host = left-IsHost l t guest_IsHost;
    guest_out = refl;
    call_active = guest_IsFramed.call_active;
    stopping = guest_IsFramed.stopping;
    handles = guest_IsFramed.handles;
    no_start = guest_IsFramed.no_start;
    state = fine v e guest_IsFramed.state;
  }

not_entered-IsEntry :
    (l : Limits) (h : Host) (o : Outcome ℕ)
    → IsHost l h
    → h.runtime.guest_active ≡ false
    → o ≡ failure engine_failure
    → IsEntry l h o (mark_failed h)
unfolding mark_failed
not_entered-IsEntry l h o k out e = record {
  host = mark_failed-IsHost l h k;
  guest_out = out;
  call_active = refl;
  stopping = refl;
  handles = omega arith;
  no_start = λ p. AllFewer-refl h.runtime.timers;
  state = lost engine_failure e refl;
}

-- Every way in which an entry ends leaves the runtime in order.
pub EntryRun-IsEntry :
    {W : Type 0} {engine : Engine W} (l : Limits) (h : Host) (o : Outcome ℕ) (h' : Host)
    → IsHost l h
    → h.runtime.guest_active ≡ false
    → EntryRun engine h o h'
    → IsEntry l h o h'
EntryRun-IsEntry l h o h' k out (refused e q) =
    subst (IsEntry l h o) (sym q) (not_entered-IsEntry l h o k out e)
EntryRun-IsEntry l h o h' k out (overran began t r e q) =
    subst (IsEntry l h o) (sym q) (overran-IsEntry l h began t k r o e)
EntryRun-IsEntry l h o h' k out (faulted began t x r e _ q) =
    subst (IsEntry l h o) (sym q) (broke-IsEntry l h began t k r o x e)
EntryRun-IsEntry l h o h' k out (returned began t v r e q) =
    subst (IsEntry l h o) (sym q) (returned-IsEntry l h began t k r o v e)
