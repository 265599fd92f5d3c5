-- ===== src/Runtime/Poll.antt =====
-- The effect of `poll_timer`.
use esp_container.Common.{ℕ, ◌≡◌, sym, ap, ◌∙◌, inl, inr, not, none, some, Option-cases, if_split}
use mathlib.Core.Path.{subst}
use esp_container.Runtime.Types.{Engine, Host, Limits, running, is_running, u64_max, Timer}
use esp_container.Runtime.Timers.{rearmed, skipped_periods, select_due}
use esp_container.Runtime.Host.{monotonic_ms}
use esp_container.Runtime.Entry.{Done, call_event}
use esp_container.Runtime.Calls.{TimerEvent, refuse, timer_bytes, fire_timer, poll_at, poll_body}
use esp_container.Runtime.Start.{timer_at}
use esp_container.Runtime.Rearm.{rearmed-AllFewer}
use esp_container.Runtime.Due.{select_due-IsDue}
use esp_container.Runtime.Settled.{IsSettled}
use esp_container.Runtime.Effects.{IsCall, unchanged-IsCall}
use esp_container.Runtime.Events.{
  Evented-no_memory, call_event-Evented, with_timer, with_timer-again, after_timer-host,
}
use esp_container.Runtime.Bodies.{fewer-IsSettled, running_now, Evented-IsCall}

module _ {W : Type 0} (engine : Engine W) (l : Limits) where
  -- A fired timer: the event is delivered, or the timer is put back.
  fire_timer-IsCall :
      (slot : ℕ) (t : Timer) (now : ℕ) (h : Host) (w : W)
      → IsSettled l h
      → h.runtime.state ≡ running
      → timer_at h.runtime.timers slot ≡ some t
      → IsCall l h (fire_timer engine slot t now h w).host
  unfolding fire_timer with_timer
  fire_timer-IsCall slot t now h w k p at =
      let fired = with_timer h slot (rearmed now t) in
      let event = timer_bytes t.handle (skipped_periods now t) in
      let d = call_event engine event fired w in
      let evented = call_event-Evented engine event fired w in
      let moved = fewer-IsSettled l h _ (rearmed-AllFewer h.runtime.timers slot t now at) k in
      let delivered = Evented-IsCall engine l fired d.outcome d.host moved p evented in
      elim (after_timer-host slot t (skipped_periods now t) d.outcome d.host d.world) [
        | inl (_, e) ↦ subst (IsCall l h) (sym e) (record {
          settled = delivered.settled;
          call_active = delivered.call_active;
          handles = delivered.handles;
          life = delivered.life;
        })
        | inr (none_left, e) ↦
            let same = Evented-no_memory fired d.outcome d.host evented none_left in
            subst (IsCall l h)
              (sym (e ∙ ap (λ x. with_timer x slot t) same ∙ with_timer-again h slot t _ at))
              (unchanged-IsCall l h k)
      ]

  poll_at-IsCall :
      (now : ℕ) (h : Host) (w : W)
      → IsSettled l h
      → h.runtime.state ≡ running
      → IsCall l h (poll_at engine now h w).host
  unfolding poll_at
  poll_at-IsCall now h w k p =
      elim (Option-cases
        (select_due h.runtime.limits.max_timers now 0 none u64_max h.runtime.timers)) [
          | inl e ↦ rw (poll_at, e) (unfold refuse in unchanged-IsCall l h k)
          | inr ((slot, timer), e) ↦
              rw (poll_at, e)
                (fire_timer-IsCall slot timer now h w k p
                  (select_due-IsDue _ now h.runtime.timers slot timer e).0.place)
        ]

  pub poll_body-IsCall : (h : Host) (w : W) → IsSettled l h → IsCall l h (poll_body engine h w).host
  unfolding poll_body
  poll_body-IsCall h w k =
      if_split (not (is_running h.runtime.state)) _ _ (λ (d : Done W TimerEvent). IsCall l h d.host)
        (λ other. unfold refuse in unchanged-IsCall l h k)
        (λ on. elim (Option-cases (monotonic_ms engine w).0) [
          | inl e ↦ rw e (unfold refuse in unchanged-IsCall l h k)
          | inr (now, e) ↦ rw e (poll_at-IsCall now h _ k (running_now h on))
        ])
