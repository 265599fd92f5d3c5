-- ===== src/Runtime/Calls.antt =====
-- The calls of the owner of a runtime: `econtainer_runtime_init`, `_on_event`, `_stop`,
-- `_take_log`, `_next_timer_deadline` and `_poll_timer`. A NULL argument has no counterpart.
use esp_container.Common.{
  ℕ, zero, suc, ◌/◌, ◌%◌, Bool, true, false, not, ◌&&◌, ltb, ◌==◌, if◌then◌else◌, List, [], ◌∷◌,
  ◌++◌, none, some, length, take,
}
use esp_container.Common.Bytes.{bytes_eq}
use esp_container.Runtime.Types.{
  Engine, Host, RuntimeError, running, stopped, is_loaded, is_running, is_stopped, success, failure,
  busy, invalid_state, invalid_input, no_memory, engine_failure, guest_failure, no_log, no_timer,
  Timer, init_function, stop_function, u64_max,
}
use esp_container.Runtime.Timers.{
  set_timer, earliest_deadline, select_due, skipped_periods, rearmed,
}
use esp_container.Runtime.Host.{monotonic_ms}
use esp_container.Runtime.Entry.{Done, mark_failed, clear_timers, invoke, call_event}

-- `econtainer_timer_event_t`, with the result of the guest.
pub record TimerEvent : Type 0 where
  pub handle : ℕ
  pub skipped_periods : ℕ
  pub guest_result : ℕ

unfoldable pub with_call_active : Bool → Host → Host
with_call_active active h = record h { runtime = record (h.runtime) { call_active = active } }

unfoldable pub refuse : {W A : Type 0} → RuntimeError → Host → W → Done W A
refuse e h w = record { outcome = failure e; host = h; world = w }

-- `claim_call`, and the store that ends each call: no call runs while another does.
unfoldable pub claimed : {W A : Type 0} → (Host → W → Done W A) → Host → W → Done W A
claimed body h w =
    if h.runtime.call_active
    then refuse busy h w
    else let done = body (with_call_active true h) w in
      record done { host = with_call_active false done.host }

unfoldable pub enter_state : {W : Type 0} → Host → W → Done W (Unit {0})
enter_state h w = record { outcome = success tt; host = h; world = w }

-- `uint8_t bytes[n]`, the low byte first.
unfoldable pub le_bytes : ℕ → ℕ → List ℕ
le_bytes zero v = []
le_bytes (suc n) v = (v % 256) ∷ le_bytes n (v / 256)

abbrev pub timer_magic : List ℕ
timer_magic = b'E' ∷ b'C' ∷ b'T' ∷ 1 ∷ []

unfoldable pub timer_bytes : ℕ → ℕ → List ℕ
timer_bytes handle skipped = timer_magic ++ (le_bytes 8 handle ++ le_bytes 4 skipped)

-- An event of the owner that looks like one of a timer.
unfoldable pub is_timer_event : List ℕ → Bool
is_timer_event event = length event == 16 && bytes_eq (take 4 event) timer_magic

-- The end of `init`: a failed one clears the timers.
unfoldable pub after_init : {W : Type 0} → Done W ℕ → Done W (Unit {0})
after_init done = elim done.outcome [
  | failure e ↦ refuse e (clear_timers done.host) done.world
  | success result ↦
      if not (result == 0)
      then refuse guest_failure (clear_timers (mark_failed done.host)) done.world
      else enter_state
          (record (done.host) { runtime = record (done.host.runtime) { state = running } })
          done.world
]

unfoldable pub after_stop : {W : Type 0} → Done W ℕ → Done W (Unit {0})
after_stop done = elim done.outcome [
  | failure e ↦ refuse e done.host done.world
  | success result ↦
      if not (result == 0)
      then refuse guest_failure (mark_failed done.host) done.world
      else enter_state
          (record (done.host) { runtime = record (done.host.runtime) { state = stopped } })
          done.world
]

-- The timer, and the answer, once the guest has had the event. Without memory for it nothing has
-- fired.
unfoldable pub after_timer : {W : Type 0} → ℕ → Timer → ℕ → Done W ℕ → Done W TimerEvent
after_timer slot previous skipped done = elim done.outcome [
  | success result ↦ record {
    outcome =
        success
          (record { handle = previous.handle; skipped_periods = skipped; guest_result = result });
    host = done.host;
    world = done.world;
  }
  | failure no_memory ↦
      refuse no_memory
        (record (done.host) {
          runtime = record (done.host.runtime) {
            timers = set_timer done.host.runtime.timers slot previous;
          };
        })
        done.world
  | failure e ↦ refuse e done.host done.world
]

unfoldable pub stopping_host : Host → Host
stopping_host h = clear_timers (record h { runtime = record (h.runtime) { stopping = true } })

-- The body of `take_log`: the log is handed out and forgotten, or stays.
unfoldable pub hand_out_log : {W : Type 0} → ℕ → Host → W → Done W (List ℕ)
hand_out_log output_capacity h w =
    let size = h.runtime.pending_log_size in
    if size == 0
    then refuse no_log h w
    else if ltb output_capacity size
    then refuse invalid_input h w
    else record {
      outcome = success (take size h.runtime.pending_log);
      host = record h { runtime = record (h.runtime) { pending_log_size = 0 } };
      world = w;
    }

unfoldable pub nearest_deadline : {W : Type 0} → Host → W → Done W ℕ
nearest_deadline h w =
    let earliest = earliest_deadline h.runtime.limits.max_timers u64_max h.runtime.timers in
    if not (is_running h.runtime.state)
    then refuse invalid_state h w
    else if earliest == u64_max
    then refuse no_timer h w
    else record { outcome = success earliest; host = h; world = w }

module _ {W : Type 0} (engine : Engine W) where
  unfoldable pub init_body : Host → W → Done W (Unit {0})
  init_body h w =
      if not (is_loaded h.runtime.state)
      then refuse invalid_state h w
      else after_init
          (invoke engine init_function h.runtime.limits.init_instruction_budget (0 ∷ 0 ∷ []) h w)

  unfoldable pub runtime_init : Host → W → Done W (Unit {0})
  runtime_init = claimed init_body

  unfoldable pub event_body : List ℕ → Host → W → Done W ℕ
  event_body event h w =
      if not (is_running h.runtime.state)
      then refuse invalid_state h w
      else if is_timer_event event
      then refuse invalid_input h w
      else call_event engine event h w

  unfoldable pub runtime_on_event : List ℕ → Host → W → Done W ℕ
  runtime_on_event event = claimed (event_body event)

  unfoldable pub stop_body : Host → W → Done W (Unit {0})
  stop_body h w =
      if is_stopped h.runtime.state
      then enter_state h w
      else if not (is_running h.runtime.state)
      then refuse invalid_state h w
      else after_stop (
          invoke engine stop_function h.runtime.limits.stop_instruction_budget (0 ∷ 0 ∷ [])
            (stopping_host h) w)

  unfoldable pub runtime_stop : Host → W → Done W (Unit {0})
  runtime_stop = claimed stop_body

  unfoldable pub runtime_take_log : ℕ → Host → W → Done W (List ℕ)
  runtime_take_log output_capacity = claimed (hand_out_log output_capacity)

  unfoldable pub runtime_next_timer_deadline : Host → W → Done W ℕ
  runtime_next_timer_deadline = claimed nearest_deadline

  -- The selected timer fires.
  unfoldable pub fire_timer : ℕ → Timer → ℕ → Host → W → Done W TimerEvent
  fire_timer slot timer now h w =
      let skipped = skipped_periods now timer in
      let fired = record h {
        runtime = record (h.runtime) {
          timers = set_timer h.runtime.timers slot (rearmed now timer);
        };
      } in
      after_timer slot timer skipped (call_event engine (timer_bytes timer.handle skipped) fired w)

  -- With the clock read: the loop, and what follows it.
  unfoldable pub poll_at : ℕ → Host → W → Done W TimerEvent
  poll_at now h w =
      elim (select_due h.runtime.limits.max_timers now 0 none u64_max h.runtime.timers) [
        | none ↦ refuse no_timer h w
        | some (slot, timer) ↦ fire_timer slot timer now h w
      ]

  unfoldable pub poll_body : Host → W → Done W TimerEvent
  poll_body h w =
      let (now, w1) = monotonic_ms engine w in
      if not (is_running h.runtime.state)
      then refuse invalid_state h w
      else elim now [ none ↦ refuse engine_failure h w1 | some now_ms ↦ poll_at now_ms h w1 ]

  unfoldable pub runtime_poll_timer : Host → W → Done W TimerEvent
  runtime_poll_timer = claimed poll_body
