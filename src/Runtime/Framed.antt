-- ===== src/Runtime/Framed.antt =====
-- What an entry leaves alone in its host.
use esp_container.Common.{ℕ, ◌≤◌, ◌≡◌, ◌≢◌, refl, sym, ◌∙◌, true, arith}
use mathlib.Core.Path.{subst}
use esp_container.Runtime.Types.{Engine, Host, Limits, u64_max}
use esp_container.Runtime.Host.{may_start, start_timer, log_bytes}
use esp_container.Runtime.Steps.{
  HostStep, HostSteps, keeps, expires, logs, starts, cancels, here, step,
}
use esp_container.Runtime.Table.{
  handle_limit, AllFewer, AllFewer-refl, deactivate-AllFewer, AllFewer-trans,
}
use esp_container.Runtime.Frame.{IsHost, limit_next, may_start-handle, HostStep-IsHost}

-- From an entry's first state to a later one: only the timers, the log and the flag of a passed
-- deadline may differ. A log that was pending stays as it is. The handles that are still to come
-- shrink. Once the runtime stops, no timer starts.
pub record IsFramed (h h' : Host) : Type 0 where
  pub limits : h'.runtime.limits ≡ h.runtime.limits
  pub state : h'.runtime.state ≡ h.runtime.state
  pub stopping : h'.runtime.stopping ≡ h.runtime.stopping
  pub call_active : h'.runtime.call_active ≡ h.runtime.call_active
  pub guest_active : h'.runtime.guest_active ≡ h.runtime.guest_active
  pub deadline : h'.runtime.entry_deadline_ms ≡ h.runtime.entry_deadline_ms
  pub handles : handle_limit h.next_timer_handle ≤ handle_limit h'.next_timer_handle
  pub log_kept :
      h.runtime.pending_log_size ≢ 0
      → (h'.runtime.pending_log_size ≡ h.runtime.pending_log_size)
        × (h'.runtime.pending_log ≡ h.runtime.pending_log)
  pub no_start : h.runtime.stopping ≡ true → AllFewer h.runtime.timers h'.runtime.timers

IsFramed-refl : (h : Host) → IsFramed h h
IsFramed-refl h = record {
  limits = refl;
  state = refl;
  stopping = refl;
  call_active = refl;
  guest_active = refl;
  deadline = refl;
  handles = omega arith;
  log_kept = λ p. (refl, refl);
  no_start = λ p. AllFewer-refl h.runtime.timers;
}

IsFramed-trans : (h t u : Host) → IsFramed h t → IsFramed t u → IsFramed h u
IsFramed-trans h t u a b = record {
  limits = b.limits ∙ a.limits;
  state = b.state ∙ a.state;
  stopping = b.stopping ∙ a.stopping;
  call_active = b.call_active ∙ a.call_active;
  guest_active = b.guest_active ∙ a.guest_active;
  deadline = b.deadline ∙ a.deadline;
  handles = omega (arith, a.handles, b.handles);
  log_kept = λ p.
      let (e, q) = a.log_kept p in
      let (e', q') = b.log_kept (λ z. p (sym e ∙ z)) in (e' ∙ e, q' ∙ q);
  no_start = λ p. AllFewer-trans _ _ _ (a.no_start p) (b.no_start (a.stopping ∙ p));
}

start-IsFramed :
    (h : Host) (slot now delay_ms period_ms : ℕ)
    → h.next_timer_handle ≤ u64_max
    → may_start h.runtime h.next_timer_handle delay_ms period_ms ≡ true
    → IsFramed h (start_timer h slot now delay_ms period_ms)
unfolding start_timer
start-IsFramed h slot now delay_ms period_ms b may =
    let (some_handle, going) =
      may_start-handle h.runtime h.next_timer_handle delay_ms period_ms may in
    record {
      limits = refl;
      state = refl;
      stopping = refl;
      call_active = refl;
      guest_active = refl;
      deadline = refl;
      handles = omega (arith, limit_next h.next_timer_handle some_handle b);
      log_kept = λ p. (refl, refl);
      no_start = λ p. ground arith;
    }

HostStep-IsFramed :
    {W : Type 0} {engine : Engine W} (h t : Host)
    → h.next_timer_handle ≤ u64_max
    → HostStep engine h t
    → IsFramed h t
HostStep-IsFramed h t b (keeps e) = subst (IsFramed h) (sym e) (IsFramed-refl h)
HostStep-IsFramed h t b (expires _ e) = subst (IsFramed h) (sym e) (record {
  limits = refl;
  state = refl;
  stopping = refl;
  call_active = refl;
  guest_active = refl;
  deadline = refl;
  handles = omega arith;
  log_kept = λ p. (refl, refl);
  no_start = λ p. AllFewer-refl h.runtime.timers;
})
HostStep-IsFramed h t b (logs size bytes _ a free pos fits e) = subst (IsFramed h) (sym e) (
    unfold log_bytes in
    record {
      limits = refl;
      state = refl;
      stopping = refl;
      call_active = refl;
      guest_active = refl;
      deadline = refl;
      handles = omega arith;
      log_kept = λ p. absurd (p free);
      no_start = λ p. AllFewer-refl h.runtime.timers;
    })
HostStep-IsFramed h t b (starts slot now delay_ms period_ms _ a may free fits e) =
    subst (IsFramed h) (sym e) (start-IsFramed h slot now delay_ms period_ms b may)
HostStep-IsFramed h t b (cancels slot handle _ a going found e) =
    subst (IsFramed h) (sym e) (record {
      limits = refl;
      state = refl;
      stopping = refl;
      call_active = refl;
      guest_active = refl;
      deadline = refl;
      handles = omega arith;
      log_kept = λ p. (refl, refl);
      no_start = λ p. deactivate-AllFewer h.runtime.timers slot;
    })

pub HostSteps-IsFramed :
    {W : Type 0} {engine : Engine W} (l : Limits) (h t : Host)
    → IsHost l h
    → HostSteps engine h t
    → IsFramed h t
HostSteps-IsFramed l h t k here = IsFramed-refl h
HostSteps-IsFramed l h t k (step {t = u} s r) =
    IsFramed-trans h u t (HostStep-IsFramed h u k.next_bounded s)
      (HostSteps-IsFramed l u t (HostStep-IsHost l h u s k) r)
