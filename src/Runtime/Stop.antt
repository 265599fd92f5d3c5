-- ===== src/Runtime/Stop.antt =====
-- The effect of `stop`: the timers end before the guest's stop function runs.
use esp_container.Common.{
  ℕ, ◌≤◌, ◌≡◌, refl, sym, ◌∙◌, inl, inr, true, false, not, ◌==◌, All, if_split,
}
use esp_container.Runtime.Types.{
  Engine, Host, Limits, running, stopped, failed, is_running, is_stopped, Outcome, success, failure,
  RuntimeError,
}
use esp_container.Runtime.Entry.{Done, mark_failed, clear_timers}
use esp_container.Runtime.Calls.{refuse, enter_state, after_stop, stopping_host, stop_body}
use esp_container.Runtime.Table.{
  handle_limit, IsIdle, AllFewer-idle, AllFewer-beyond, AllFewer-IsTable, deactivate_all-AllFewer,
}
use esp_container.Runtime.Frame.{IsHost}
use esp_container.Runtime.Ended.{invoke-EntryRun}
use esp_container.Runtime.Settled.{
  IsSettled, IsEntry, EntryState, fine, lost, EntryRun-IsEntry, mark_failed-IsHost,
  clear_timers-IsIdle,
}
use esp_container.Runtime.Effects.{IsCall, fails, finishes, unchanged-IsCall}
use esp_container.Runtime.Bodies.{running_now}

stopping_host-IsHost : (l : Limits) (h : Host) → IsHost l h → IsHost l (stopping_host h)
unfolding stopping_host clear_timers
stopping_host-IsHost l h k = record {
  limits = k.limits;
  table =
      AllFewer-IsTable _ h.runtime.timers _
        (deactivate_all-AllFewer h.runtime.limits.max_timers h.runtime.timers) k.table;
  beyond =
      AllFewer-beyond l.max_timers h.runtime.timers _
        (deactivate_all-AllFewer h.runtime.limits.max_timers h.runtime.timers) k.beyond;
  next_bounded = k.next_bounded;
  log_fits = k.log_fits;
}

stopping_host-IsIdle :
    (l : Limits) (h : Host) → IsHost l h → All IsIdle (stopping_host h).runtime.timers
unfolding stopping_host
stopping_host-IsIdle l h k = clear_timers-IsIdle l _ (record {
  limits = k.limits;
  table = k.table;
  beyond = k.beyond;
  next_bounded = k.next_bounded;
  log_fits = k.log_fits;
})

-- The end of a stop, whichever it is.
module _ (l : Limits) (h h' : Host) (p : h.runtime.state ≡ running) (k : IsHost l h')
    (out : h'.runtime.guest_active ≡ false)
    (active : h'.runtime.call_active ≡ h.runtime.call_active)
    (stopping : h'.runtime.stopping ≡ true)
    (handles : handle_limit h.next_timer_handle ≤ handle_limit h'.next_timer_handle)
    (idle : All IsIdle h'.runtime.timers) where
  lost-IsCall : h'.runtime.state ≡ failed → IsCall l h h'
  lost-IsCall e = record {
    settled = record {
      host = k;
      guest_out = out;
      quiet = λ q. idle;
      final = λ q. inr e;
      begun = λ q. stopping;
    };
    call_active = active;
    handles = handles;
    life = fails (inr p) e;
  }

  stopped-IsCall : h'.runtime.state ≡ stopped → IsCall l h h'
  stopped-IsCall e = record {
    settled = record {
      host = k;
      guest_out = out;
      quiet = λ q. idle;
      final = λ q. inl e;
      begun = λ q. stopping;
    };
    call_active = active;
    handles = handles;
    life = finishes p e;
  }

stopped-IsHost :
    (l : Limits) (h : Host)
    → IsHost l h
    → IsHost l (record h { runtime = record (h.runtime) { state = stopped } })
stopped-IsHost l h k = record {
  limits = k.limits;
  table = k.table;
  beyond = k.beyond;
  next_bounded = k.next_bounded;
  log_fits = k.log_fits;
}

failed_of :
    (o : Outcome ℕ) (h h' : Host) (x : RuntimeError)
    → o ≡ failure x
    → EntryState o h.runtime.state h'.runtime.state
    → h'.runtime.state ≡ failed
failed_of o h h' x e (lost y q s) = s
failed_of o h h' x e (fine v q s) = absurd (clash (sym q ∙ e))
  where
    clash : success v ≡ failure x → ⊥
    clash c = cc

after_stop-IsCall :
    {W : Type 0} (l : Limits) (h : Host) (o : Outcome ℕ) (h' : Host) (w : W)
    → IsHost l h
    → h.runtime.state ≡ running
    → IsEntry l (stopping_host h) o h'
    → IsCall l h (after_stop (record { outcome = o; host = h'; world = w })).host
unfolding after_stop refuse enter_state stopping_host clear_timers
after_stop-IsCall {W} l h o h' w k p e = go o e
  where
    idle : (x : Outcome ℕ) → IsEntry l (stopping_host h) x h' → All IsIdle h'.runtime.timers
    idle x r = AllFewer-idle _ _ (r.no_start refl) (stopping_host-IsIdle l h k)

    go :
        (x : Outcome ℕ)
        → IsEntry l (stopping_host h) x h'
        → IsCall l h (after_stop (record { outcome = x; host = h'; world = w })).host
    go (failure x) r =
        lost-IsCall l h h' p r.host r.guest_out r.call_active r.stopping r.handles
          (idle (failure x) r) (failed_of (failure x) (stopping_host h) h' x refl r.state)
    go (success v) r =
        if_split (not (v == 0)) _ _ (λ (d : Done W (Unit {0})). IsCall l h d.host)
          (λ bad.
            unfold mark_failed in
            lost-IsCall l h (mark_failed h') p (mark_failed-IsHost l h' r.host) r.guest_out
              r.call_active r.stopping r.handles (idle (success v) r) refl)
          (λ zero_answer.
            stopped-IsCall l h _ p (stopped-IsHost l h' r.host) r.guest_out r.call_active r.stopping
              r.handles (idle (success v) r) refl)

pub stop_body-IsCall :
    {W : Type 0} (engine : Engine W) (l : Limits) (h : Host) (w : W)
    → IsSettled l h
    → IsCall l h (stop_body engine h w).host
unfolding stop_body
stop_body-IsCall {W} engine l h w k =
    if_split (is_stopped h.runtime.state) _ _ (λ (d : Done W (Unit {0})). IsCall l h d.host)
      (λ done. unfold enter_state in unchanged-IsCall l h k)
      (λ other.
        if_split (not (is_running h.runtime.state)) _ _
          (λ (d : Done W (Unit {0})). IsCall l h d.host)
          (λ off. unfold refuse in unchanged-IsCall l h k)
          (λ on. after_stop-IsCall l h _ _ _ k.host (running_now h on) (
            EntryRun-IsEntry l (stopping_host h) _ _ (stopping_host-IsHost l h k.host)
              (unfold stopping_host clear_timers in k.guest_out)
              (invoke-EntryRun engine _ _ _ (stopping_host h) w))))
