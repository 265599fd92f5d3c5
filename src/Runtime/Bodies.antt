-- ===== src/Runtime/Bodies.antt =====
-- The effect of `init`, `on_event`, `take_log` and `next_timer_deadline`.
use esp_container.Common.{
  ℕ, ◌≡◌, refl, sym, ◌∙◌, inl, inr, false, not, ◌==◌, ltb, List, arith, if_split,
}
use mathlib.Core.Path.{subst}
use esp_container.Runtime.Types.{
  Engine, Host, Limits, loaded, running, is_loaded, is_running, Outcome, success, failure, u64_max,
  Timer,
}
use esp_container.Runtime.Timers.{earliest_deadline}
use esp_container.Runtime.Entry.{Done, mark_failed, clear_timers}
use esp_container.Runtime.Calls.{
  refuse, enter_state, after_init, init_body, is_timer_event, event_body, hand_out_log,
  nearest_deadline,
}
use esp_container.Runtime.Table.{
  AllFewer, AllFewer-IsTable, AllFewer-idle, AllFewer-beyond, deactivate_all-AllFewer,
}
use esp_container.Runtime.Ended.{invoke-EntryRun}
use esp_container.Runtime.Settled.{IsSettled, IsEntry, EntryRun-IsEntry, mark_failed-IsHost}
use esp_container.Runtime.Effects.{
  IsCall, stays, begins, fails, IsGoing, loaded_of, running_of, not_stopping, unchanged-IsCall,
  IsEntry-IsCall,
}
use esp_container.Runtime.Events.{Evented, barred, reached, call_event-Evented}

-- Ended timers and moved ones keep a settled runtime settled.
pub fewer-IsSettled :
    (l : Limits) (h : Host) (ts : List Timer)
    → AllFewer h.runtime.timers ts
    → IsSettled l h
    → IsSettled l (record h { runtime = record (h.runtime) { timers = ts } })
fewer-IsSettled l h ts f k = record {
  host = record {
    limits = k.host.limits;
    table = AllFewer-IsTable _ h.runtime.timers ts f k.host.table;
    beyond = AllFewer-beyond l.max_timers h.runtime.timers ts f k.host.beyond;
    next_bounded = k.host.next_bounded;
    log_fits = k.host.log_fits;
  };
  guest_out = k.guest_out;
  quiet = λ p. AllFewer-idle h.runtime.timers ts f (k.quiet p);
  final = k.final;
  begun = k.begun;
}

clear_timers-IsCall : (l : Limits) (h h' : Host) → IsCall l h h' → IsCall l h (clear_timers h')
unfolding clear_timers
clear_timers-IsCall l h h' k = record {
  settled =
      fewer-IsSettled l h' _
        (deactivate_all-AllFewer h'.runtime.limits.max_timers h'.runtime.timers) k.settled;
  call_active = k.call_active;
  handles = k.handles;
  life = k.life;
}

mark_failed-IsCall :
    (l : Limits) (h h' : Host)
    → IsGoing h.runtime.state
    → IsCall l h h'
    → IsCall l h (mark_failed h')
unfolding mark_failed
mark_failed-IsCall l h h' g k = record {
  settled = record {
    host = unfold mark_failed in mark_failed-IsHost l h' k.settled.host;
    guest_out = k.settled.guest_out;
    quiet = k.settled.quiet;
    final = λ p. inr refl;
    begun = λ p. absurd (ground arith);
  };
  call_active = k.call_active;
  handles = k.handles;
  life = fails g refl;
}

-- A loaded runtime whose init succeeds runs.
begun-IsCall :
    (l : Limits) (h h' : Host)
    → h.runtime.state ≡ loaded
    → h'.runtime.stopping ≡ false
    → IsCall l h h'
    → IsCall l h (record h' { runtime = record (h'.runtime) { state = running } })
begun-IsCall l h h' p e k = record {
  settled = record {
    host = record {
      limits = k.settled.host.limits;
      table = k.settled.host.table;
      beyond = k.settled.host.beyond;
      next_bounded = k.settled.host.next_bounded;
      log_fits = k.settled.host.log_fits;
    };
    guest_out = k.settled.guest_out;
    quiet = k.settled.quiet;
    final = λ q. absurd (ground arith);
    begun = λ q. absurd (ground arith);
  };
  call_active = k.call_active;
  handles = k.handles;
  life = begins p refl;
}

after_init-IsCall :
    {W : Type 0} (l : Limits) (h : Host) (o : Outcome ℕ) (h' : Host) (w : W)
    → IsSettled l h
    → h.runtime.state ≡ loaded
    → IsEntry l h o h'
    → IsCall l h (after_init (record { outcome = o; host = h'; world = w })).host
unfolding after_init refuse enter_state
after_init-IsCall {W} l h o h' w k p e = go o e
  where
    entry : (x : Outcome ℕ) → IsEntry l h x h' → IsCall l h h'
    entry x r = IsEntry-IsCall l h h' x (inl p) (not_stopping l h k (inl p)) r

    go :
        (x : Outcome ℕ)
        → IsEntry l h x h'
        → IsCall l h (after_init (record { outcome = x; host = h'; world = w })).host
    go (failure x) r = clear_timers-IsCall l h h' (entry (failure x) r)
    go (success v) r =
        if_split (not (v == 0)) _ _ (λ (d : Done W (Unit {0})). IsCall l h d.host)
          (λ bad.
            clear_timers-IsCall l h _ (mark_failed-IsCall l h h' (inl p) (entry (success v) r)))
          (λ zero_answer.
            begun-IsCall l h h' p (r.stopping ∙ not_stopping l h k (inl p)) (entry (success v) r))

pub hand_out_log-IsCall :
    {W : Type 0} (l : Limits) (capacity : ℕ) (h : Host) (w : W)
    → IsSettled l h
    → IsCall l h (hand_out_log capacity h w).host
unfolding hand_out_log refuse
hand_out_log-IsCall {W} l capacity h w k =
    if_split (h.runtime.pending_log_size == 0) _ _ (λ (d : Done W (List ℕ)). IsCall l h d.host)
      (λ nil. unchanged-IsCall l h k)
      (λ more.
        if_split (ltb capacity h.runtime.pending_log_size) _ _
          (λ (d : Done W (List ℕ)). IsCall l h d.host) (λ short. unchanged-IsCall l h k)
          (λ fits. record {
            settled = record {
              host = record {
                limits = k.host.limits;
                table = k.host.table;
                beyond = k.host.beyond;
                next_bounded = k.host.next_bounded;
                log_fits = omega arith;
              };
              guest_out = k.guest_out;
              quiet = k.quiet;
              final = k.final;
              begun = k.begun;
            };
            call_active = refl;
            handles = omega arith;
            life = stays refl;
          }))

pub nearest_deadline-IsCall :
    {W : Type 0} (l : Limits) (h : Host) (w : W)
    → IsSettled l h
    → IsCall l h (nearest_deadline h w).host
unfolding nearest_deadline refuse
nearest_deadline-IsCall {W} l h w k =
    let earliest = earliest_deadline h.runtime.limits.max_timers u64_max h.runtime.timers in
    if_split (not (is_running h.runtime.state)) _ _ (λ (d : Done W ℕ). IsCall l h d.host)
      (λ other. unchanged-IsCall l h k)
      (λ running_now.
        if_split (earliest == u64_max) _ _ (λ (d : Done W ℕ). IsCall l h d.host)
          (λ e. unchanged-IsCall l h k) (λ e. unchanged-IsCall l h k))

pub running_now : (h : Host) → not (is_running h.runtime.state) ≡ false → h.runtime.state ≡ running
running_now h e = running_of h.runtime.state (ground arith)

module _ {W : Type 0} (engine : Engine W) (l : Limits) where
  pub init_body-IsCall : (h : Host) (w : W) → IsSettled l h → IsCall l h (init_body engine h w).host
  unfolding init_body
  init_body-IsCall h w k =
      if_split (not (is_loaded h.runtime.state)) _ _ (λ (d : Done W (Unit {0})). IsCall l h d.host)
        (λ other. unfold refuse in unchanged-IsCall l h k)
        (λ first.
          after_init-IsCall l h _ _ _ k (loaded_of h.runtime.state (ground arith))
            (EntryRun-IsEntry l h _ _ k.host k.guest_out (invoke-EntryRun engine _ _ _ h w)))

  -- An event of a running runtime, delivered or not.
  pub Evented-IsCall :
      (h : Host) (o : Outcome ℕ) (h' : Host)
      → IsSettled l h
      → h.runtime.state ≡ running
      → Evented engine h o h'
      → IsCall l h h'
  Evented-IsCall h o h' k p (barred e q _ same) =
      subst (IsCall l h) (sym same) (unchanged-IsCall l h k)
  Evented-IsCall h o h' k p (reached i) =
      IsEntry-IsCall l h h' o (inr p) (not_stopping l h k (inr p))
        (EntryRun-IsEntry l h o h' k.host k.guest_out i)

  pub event_body-IsCall :
      (event : List ℕ) (h : Host) (w : W)
      → IsSettled l h
      → IsCall l h (event_body engine event h w).host
  unfolding event_body
  event_body-IsCall event h w k =
      if_split (not (is_running h.runtime.state)) _ _ (λ (d : Done W ℕ). IsCall l h d.host)
        (λ other. unfold refuse in unchanged-IsCall l h k)
        (λ on.
          if_split (is_timer_event event) _ _ (λ (d : Done W ℕ). IsCall l h d.host)
            (λ forged. unfold refuse in unchanged-IsCall l h k)
            (λ plain.
              Evented-IsCall h _ _ k (running_now h on) (call_event-Evented engine event h w)))
