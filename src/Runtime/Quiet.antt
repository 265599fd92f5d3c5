-- ===== src/Runtime/Quiet.antt =====
-- A stop that succeeds.
use esp_container.Common.{ℕ, ◌≡◌, refl, true, not, ◌==◌, All, arith, if_split}
use esp_container.Runtime.Types.{
  Engine, Host, Limits, RuntimeState, loaded, running, stopped, failed, is_running, is_stopped,
  Outcome, success, failure,
}
use esp_container.Runtime.Entry.{Done}
use esp_container.Runtime.Calls.{
  with_call_active, refuse, claimed, enter_state, after_stop, stop_body, runtime_stop,
}
use esp_container.Runtime.Table.{IsIdle}
use esp_container.Runtime.Sequence.{IsReady, run_owner_call, stops, run_owner_call-IsOwned}

-- A call that succeeds only in the state `stopped`.
abbrev Stopped : {W : Type 0} → Done W (Unit {0}) → Type 0
Stopped d = d.outcome ≡ success tt → d.host.runtime.state ≡ stopped

stopped_of : (s : RuntimeState) → is_stopped s ≡ true → s ≡ stopped
stopped_of stopped h = refl
stopped_of loaded h = absurd (ground arith)
stopped_of running h = absurd (ground arith)
stopped_of failed h = absurd (ground arith)

after_stop-Stopped :
    {W : Type 0} (o : Outcome ℕ) (h : Host) (w : W)
    → Stopped (after_stop (record { outcome = o; host = h; world = w }))
unfolding after_stop refuse enter_state
after_stop-Stopped (failure e) h w p = absurd cc
after_stop-Stopped {W} (success v) h w p =
    if_split (not (v == 0)) _ _ (λ (d : Done W (Unit {0})). Stopped d) (λ bad q. absurd cc)
      (λ zero_answer q. refl) p

module _ {W : Type 0} (engine : Engine W) where
  stop_body-Stopped : (h : Host) (w : W) → Stopped (stop_body engine h w)
  unfolding stop_body refuse enter_state
  stop_body-Stopped h w =
      if_split (is_stopped h.runtime.state) _ _ (λ (d : Done W (Unit {0})). Stopped d)
        (λ e p. stopped_of h.runtime.state e)
        (λ other.
          if_split (not (is_running h.runtime.state)) _ _ (λ (d : Done W (Unit {0})). Stopped d)
            (λ off p. absurd cc) (λ on. after_stop-Stopped _ _ _))

  runtime_stop-Stopped : (h : Host) (w : W) → Stopped (runtime_stop engine h w)
  unfolding runtime_stop claimed refuse with_call_active
  runtime_stop-Stopped h w =
      if_split h.runtime.call_active _ _ (λ (d : Done W (Unit {0})). Stopped d)
        (λ active p. absurd cc)
        (λ free. unfold with_call_active in stop_body-Stopped (with_call_active true h) w)

  -- For every guest, clock and memory behind WAMR: after a stop of a ready runtime that succeeds,
  -- the runtime is stopped and none of the timers in its table is active.
  pub runtime_stop-quiet :
      (l : Limits) (h : Host) (w : W)
      → IsReady l h
      → (runtime_stop engine h w).outcome ≡ success tt
      → ((runtime_stop engine h w).host.runtime.state ≡ stopped)
        × All IsIdle (runtime_stop engine h w).host.runtime.timers
  unfolding run_owner_call
  runtime_stop-quiet l h w k e =
      let now_stopped = runtime_stop-Stopped h w e in
      let settled = (run_owner_call-IsOwned engine l stops h w k).ready.settled in
      (now_stopped, settled.quiet (settled.begun now_stopped))
