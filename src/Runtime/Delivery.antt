-- ===== src/Runtime/Delivery.antt =====
-- The delivery of timers: what `poll_timer` answers once a deadline has passed, and when the guest
-- has no memory.
use esp_container.Common.{
  ℕ, ◌≡◌, refl, sym, ap, ◌∙◌, inl, inr, true, false, not, none, some, Option-cases, if_split,
}
use esp_container.Runtime.Types.{Engine, Host, is_running, failure, no_memory, Timer, u64_max}
use esp_container.Runtime.Timers.{select_due, rearmed, skipped_periods}
use esp_container.Runtime.Host.{monotonic_ms}
use esp_container.Runtime.Entry.{Done, call_event}
use esp_container.Runtime.Calls.{
  TimerEvent, with_call_active, refuse, claimed, timer_bytes, fire_timer, poll_at, poll_body,
  runtime_poll_timer,
}
use esp_container.Runtime.Start.{timer_at}
use esp_container.Runtime.Due.{select_due-IsDue}
use esp_container.Runtime.Events.{
  Evented-no_memory, call_event-Evented, with_timer, with_timer-again, after_timer-host,
}

-- Where a call answers that there is no memory, it has changed nothing.
abbrev Restores : {W A : Type 0} → Host → Done W A → Type 0
Restores h d = d.outcome ≡ failure no_memory → d.host ≡ h

free_again : (h : Host) → h.runtime.call_active ≡ false → with_call_active false h ≡ h
unfolding with_call_active
free_again h free =
    ap (λ b. record h { runtime = record (h.runtime) { call_active = b } }) (sym free)

module _ {W : Type 0} (engine : Engine W) where
  fire_timer-Restores :
      (slot : ℕ) (t : Timer) (now : ℕ) (h : Host) (w : W)
      → timer_at h.runtime.timers slot ≡ some t
      → Restores h (fire_timer engine slot t now h w)
  unfolding fire_timer with_timer
  fire_timer-Restores slot t now h w at e =
      let fired = with_timer h slot (rearmed now t) in
      let event = timer_bytes t.handle (skipped_periods now t) in
      let d = call_event engine event fired w in
      elim (after_timer-host slot t (skipped_periods now t) d.outcome d.host d.world) [
        | inl (n, _) ↦ absurd (n e)
        | inr (none_left, q) ↦
            let same =
              Evented-no_memory fired d.outcome d.host (call_event-Evented engine event fired w)
                none_left in
            q ∙ ap (λ x. with_timer x slot t) same ∙ with_timer-again h slot t _ at
      ]

  poll_at-Restores : (now : ℕ) (h : Host) (w : W) → Restores h (poll_at engine now h w)
  unfolding poll_at refuse
  poll_at-Restores now h w =
      elim (Option-cases
        (select_due h.runtime.limits.max_timers now 0 none u64_max h.runtime.timers)) [
          | inl e ↦ rw (poll_at, e) (λ p. refl)
          | inr ((slot, timer), e) ↦
              rw (poll_at, e)
                (fire_timer-Restores slot timer now h w
                  (select_due-IsDue _ now h.runtime.timers slot timer e).0.place)
        ]

  poll_body-Restores : (h : Host) (w : W) → Restores h (poll_body engine h w)
  unfolding poll_body refuse
  poll_body-Restores h w =
      if_split (not (is_running h.runtime.state)) _ _ (λ (d : Done W TimerEvent). Restores h d)
        (λ other p. refl)
        (λ on. elim (Option-cases (monotonic_ms engine w).0) [
          | inl e ↦ rw e (λ p. refl)
          | inr (now, e) ↦ rw e (poll_at-Restores now h _)
        ])

  -- For every guest, clock and memory behind WAMR: where no call is active, a poll_timer that
  -- answers NO_MEMORY has changed nothing, so that the timer is still due.
  pub runtime_poll_timer-no_memory :
      (h : Host) (w : W)
      → h.runtime.call_active ≡ false
      → (runtime_poll_timer engine h w).outcome ≡ failure no_memory
      → (runtime_poll_timer engine h w).host ≡ h
  unfolding runtime_poll_timer claimed refuse
  runtime_poll_timer-no_memory h w free e =
      if_split h.runtime.call_active _ _ (λ (d : Done W TimerEvent). Restores h d)
        (λ active p. refl)
        (λ idle p.
          ap (with_call_active false) (poll_body-Restores (with_call_active true h) w p)
          ∙ unfold with_call_active in free_again h free)
        e
