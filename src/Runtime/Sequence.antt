-- ===== src/Runtime/Sequence.antt =====
-- Any sequence of calls of the owner of a runtime.
use esp_container.Common.{
  ℕ, ◌≤◌, ◌≡◌, refl, ◌∙◌, inl, inr, Bool, true, false, List, [], ◌∷◌, Option, none, some, arith,
  if_split,
}
use esp_container.Runtime.Types.{
  Engine, Host, Limits, RuntimeState, Outcome, success, failure, RuntimeError,
}
use esp_container.Runtime.Entry.{Done}
use esp_container.Runtime.Calls.{
  with_call_active, refuse, claimed, runtime_init, runtime_on_event, runtime_stop, runtime_take_log,
  runtime_next_timer_deadline, runtime_poll_timer,
}
use esp_container.Runtime.Table.{handle_limit}
use esp_container.Runtime.Settled.{IsSettled, IsFinal}
use esp_container.Runtime.Effects.{IsCall, Lifecycle, stays, begins, fails, finishes}
use esp_container.Runtime.Bodies.{
  init_body-IsCall, event_body-IsCall, hand_out_log-IsCall, nearest_deadline-IsCall,
}
use esp_container.Runtime.Poll.{poll_body-IsCall}
use esp_container.Runtime.Stop.{stop_body-IsCall}

-- A call with its arguments.
pub data OwnerCall : Type 0 where
  inits : OwnerCall
  posts : List ℕ → OwnerCall
  stops : OwnerCall
  takes_log : ℕ → OwnerCall
  asks_deadline : OwnerCall
  polls_timer : OwnerCall

-- A settled runtime in which no call is active.
pub record IsReady (l : Limits) (h : Host) : Type 0 where
  pub settled : IsSettled l h
  pub free : h.runtime.call_active ≡ false

unfoldable pub error_of : {A : Type 0} → Outcome A → Option RuntimeError
error_of (success a) = none
error_of (failure e) = some e

-- The error of a call, the host and the world after it.
abbrev pub ended : {W A : Type 0} → Done W A → Option RuntimeError × Host × W
ended d = (error_of d.outcome, d.host, d.world)

module _ {W : Type 0} (engine : Engine W) where
  unfoldable pub run_owner_call : OwnerCall → Host → W → Option RuntimeError × Host × W
  run_owner_call inits h w = ended (runtime_init engine h w)
  run_owner_call (posts event) h w = ended (runtime_on_event engine event h w)
  run_owner_call stops h w = ended (runtime_stop engine h w)
  run_owner_call (takes_log capacity) h w = ended (runtime_take_log engine capacity h w)
  run_owner_call asks_deadline h w = ended (runtime_next_timer_deadline engine h w)
  run_owner_call polls_timer h w = ended (runtime_poll_timer engine h w)

  unfoldable pub run_owner_calls : List OwnerCall → Host → W → Host × W
  run_owner_calls [] h w = (h, w)
  run_owner_calls (c ∷ cs) h w =
      let (error, h1, w1) = run_owner_call c h w in run_owner_calls cs h1 w1

-- What a call leaves of a ready runtime.
pub record IsOwned (l : Limits) (h h' : Host) : Type 0 where
  pub ready : IsReady l h'
  pub handles : handle_limit h.next_timer_handle ≤ handle_limit h'.next_timer_handle
  pub life : Lifecycle h.runtime.state h'.runtime.state

with_call_active-IsSettled :
    (l : Limits) (active : Bool) (h : Host)
    → IsSettled l h
    → IsSettled l (with_call_active active h)
unfolding with_call_active
with_call_active-IsSettled l active h k = record {
  host = record {
    limits = k.host.limits;
    table = k.host.table;
    beyond = k.host.beyond;
    next_bounded = k.host.next_bounded;
    log_fits = k.host.log_fits;
  };
  guest_out = k.guest_out;
  quiet = k.quiet;
  final = k.final;
  begun = k.begun;
}

claimed-IsOwned :
    {W A : Type 0} (l : Limits) (body : Host → W → Done W A) (h : Host) (w : W)
    → ((t : Host) → IsSettled l t → IsCall l t (body t w).host)
    → IsReady l h
    → IsOwned l h (claimed body h w).host
unfolding claimed with_call_active refuse
claimed-IsOwned {W} {A} l body h w effect k =
    if_split h.runtime.call_active _ _ (λ (d : Done W A). IsOwned l h d.host)
      (λ active. record { ready = k; handles = omega arith; life = stays refl })
      (λ free.
        let claimed_host = with_call_active true h in
        let c = effect claimed_host (with_call_active-IsSettled l true h k.settled) in
        record {
          ready = record {
            settled = with_call_active-IsSettled l false (body claimed_host w).host c.settled;
            free = refl;
          };
          handles = c.handles;
          life = c.life;
        })

module _ {W : Type 0} (engine : Engine W) where
  module _ (l : Limits) where
    -- For every guest, clock and memory behind WAMR: each call of the owner leaves a ready runtime
    -- ready, and its state either stays, or goes from LOADED to RUNNING, from RUNNING to STOPPED,
    -- or from one of LOADED and RUNNING to FAILED.
    pub run_owner_call-IsOwned :
        (c : OwnerCall) (h : Host) (w : W)
        → IsReady l h
        → IsOwned l h (run_owner_call engine c h w).1
    unfolding run_owner_call runtime_init runtime_on_event runtime_stop runtime_take_log
        runtime_next_timer_deadline runtime_poll_timer
    run_owner_call-IsOwned inits h w k =
        claimed-IsOwned l _ h w (λ t. init_body-IsCall engine l t w) k
    run_owner_call-IsOwned (posts event) h w k =
        claimed-IsOwned l _ h w (λ t. event_body-IsCall engine l event t w) k
    run_owner_call-IsOwned stops h w k =
        claimed-IsOwned l _ h w (λ t. stop_body-IsCall engine l t w) k
    run_owner_call-IsOwned (takes_log capacity) h w k =
        claimed-IsOwned l _ h w (λ t. hand_out_log-IsCall l capacity t w) k
    run_owner_call-IsOwned asks_deadline h w k =
        claimed-IsOwned l _ h w (λ t. nearest_deadline-IsCall l t w) k
    run_owner_call-IsOwned polls_timer h w k =
        claimed-IsOwned l _ h w (λ t. poll_body-IsCall engine l t w) k

    -- For every guest, clock and memory behind WAMR: any sequence of calls of the owner keeps a
    -- ready runtime ready, whatever each call answers: its eight timers have different issued
    -- handles where they are active, none of them past the first max_timers is active, its log
    -- fits, no call and no guest is active, and once it has begun to stop it has no active timer
    -- and is stopped or failed; and the handles that are still to come never go back.
    pub run_owner_calls-IsReady :
        (cs : List OwnerCall) (h : Host) (w : W)
        → IsReady l h
        → IsReady l (run_owner_calls engine cs h w).0
          × (handle_limit h.next_timer_handle
              ≤ handle_limit (run_owner_calls engine cs h w).0.next_timer_handle)
    unfolding run_owner_calls
    run_owner_calls-IsReady [] h w k = (k, omega arith)
    run_owner_calls-IsReady (c ∷ cs) h w k =
        let first = run_owner_call-IsOwned c h w k in
        let (rest, le) = run_owner_calls-IsReady cs _ (run_owner_call engine c h w).2 first.ready in
        (rest, omega (arith, first.handles, le))

    -- For every guest, clock and memory behind WAMR: a ready runtime that is stopped or failed
    -- keeps its state in any sequence of calls.
    run_owner_calls-final :
        (cs : List OwnerCall) (h : Host) (w : W)
        → IsReady l h
        → IsFinal h.runtime.state
        → (run_owner_calls engine cs h w).0.runtime.state ≡ h.runtime.state
    unfolding run_owner_calls
    run_owner_calls-final [] h w k f = refl
    run_owner_calls-final (c ∷ cs) h w k f =
        let first = run_owner_call-IsOwned c h w k in
        let same = final_stays _ _ f first.life in
        run_owner_calls-final cs _ _ first.ready (final_same _ _ f same) ∙ same
      where
        final_stays : (s s' : RuntimeState) → IsFinal s → Lifecycle s s' → s' ≡ s
        final_stays s s' f (stays e) = e
        final_stays s s' f (begins a e) = absurd (ground arith)
        final_stays s s' f (fails a e) = absurd (ground arith)
        final_stays s s' f (finishes a e) = absurd (ground arith)

        final_same : (s s' : RuntimeState) → IsFinal s → s' ≡ s → IsFinal s'
        final_same s s' (inl a) e = inl (e ∙ a)
        final_same s s' (inr a) e = inr (e ∙ a)
