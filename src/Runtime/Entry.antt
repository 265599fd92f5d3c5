-- ===== src/Runtime/Entry.antt =====
-- One entry into the guest: `invoke`, `expire_entry` and `call_event` of runtime.c.
use esp_container.Common.{
  ℕ, ◌+◌, ◌-◌, true, false, not, ◌||◌, ltb, leb, ◌==◌, if◌then◌else◌, List, [], ◌∷◌, Option, none,
  some, length,
}
use esp_container.Slots.Types.{u32_max}
use esp_container.Runtime.Types.{
  Engine, Host, failed, Outcome, success, failure, no_memory, invalid_input, engine_failure,
  instruction_limit, entry_expired, Exception, invalid_owner, clock_failed, entry_expired_reason,
  capability_missing, invalid_log_buffer, instruction_limit_exceeded, engine_exception,
  GuestFunction, event_function, u64_max,
}
use esp_container.Runtime.Timers.{deactivate_all}
use esp_container.Runtime.Host.{GuestEnd, monotonic_ms, run_guest}

-- What a call answers, the host and the world after it.
pub record Done (W A : Type 0) : Type 0 where
  pub outcome : Outcome A
  pub host : Host
  pub world : W

-- `runtime->state = ECONTAINER_RUNTIME_FAILED`
unfoldable pub mark_failed : Host → Host
mark_failed h = record h { runtime = record (h.runtime) { state = failed } }

-- The loop that clears the timers, at several places.
unfoldable pub clear_timers : Host → Host
clear_timers h = record h {
  runtime = record (h.runtime) {
    timers = deactivate_all h.runtime.limits.max_timers h.runtime.timers;
  };
}

unfoldable pub expire_entry : Host → ℕ → Host
expire_entry h prior_log_size = clear_timers (record h {
  runtime = record (h.runtime) { state = failed; pending_log_size = prior_log_size };
})

-- What a failed call of the guest means.
unfoldable pub call_error : Option Exception → Outcome ℕ
call_error none = failure engine_failure
call_error (some instruction_limit_exceeded) = failure instruction_limit
call_error (some invalid_owner) = failure engine_failure
call_error (some clock_failed) = failure engine_failure
call_error (some entry_expired_reason) = failure engine_failure
call_error (some capability_missing) = failure engine_failure
call_error (some invalid_log_buffer) = failure engine_failure
call_error (some engine_exception) = failure engine_failure

-- The host when the guest starts to run.
unfoldable pub entered : Host → ℕ → Host
entered h began_ms = record h {
  runtime = record (h.runtime) {
    entry_deadline_ms = began_ms + h.runtime.limits.max_entry_duration_ms;
    entry_expired = false;
    guest_active = true;
  };
}

unfoldable pub left : Host → Host
left h = record h { runtime = record (h.runtime) { guest_active = false } }

module _ {W : Type 0} (engine : Engine W) where
  -- The last test: the entry has ended in time.
  unfoldable pub end_in_time : ℕ → ℕ → Host → W → Done W ℕ
  end_in_time prior_log_size argument h w =
      let (ended, w1) = monotonic_ms engine w in
      elim ended [
        | none ↦ record { outcome = failure engine_failure; host = mark_failed h; world = w1 }
        | some ended_ms ↦
            if leb h.runtime.entry_deadline_ms ended_ms
            then record {
              outcome = failure entry_expired;
              host = expire_entry h prior_log_size;
              world = w1;
            }
            else record { outcome = success argument; host = h; world = w1 }
      ]

  -- The tests behind `wasm_runtime_call_wasm`.
  unfoldable pub after_guest : ℕ → GuestEnd W → Done W ℕ
  after_guest prior_log_size e =
      let h = left e.host in
      if h.runtime.entry_expired
      then record {
        outcome = failure entry_expired;
        host = expire_entry h prior_log_size;
        world = e.world;
      }
      else if not e.call_ok
      then record { outcome = call_error e.exception; host = mark_failed h; world = e.world }
      else elim e.exception [
        | some x ↦ record {
          outcome = failure engine_failure;
          host = mark_failed h;
          world = e.world;
        }
        | none ↦ end_in_time prior_log_size e.argument h e.world
      ]

  -- From the moment that the deadline is known.
  unfoldable pub enter_guest : GuestFunction → ℕ → List ℕ → ℕ → Host → W → Done W ℕ
  enter_guest function budget arguments began_ms h w =
      let (run, w1) = engine.call_wasm function budget arguments w in
      after_guest h.runtime.pending_log_size (run_guest engine run (entered h began_ms) w1)

  unfoldable pub invoke : GuestFunction → ℕ → List ℕ → Host → W → Done W ℕ
  invoke function budget arguments h w =
      let (began, w1) = monotonic_ms engine w in
      elim began [
        | none ↦ record { outcome = failure engine_failure; host = mark_failed h; world = w1 }
        | some began_ms ↦
            if ltb (u64_max - h.runtime.limits.max_entry_duration_ms) began_ms
            then record { outcome = failure engine_failure; host = mark_failed h; world = w1 }
            else enter_guest function budget arguments began_ms h w1
      ]

  -- With the event in the guest's memory, which is released whatever the guest does.
  unfoldable pub event_at : ℕ → List ℕ → Host → W → Done W ℕ
  event_at offset event h w =
      let done =
        invoke event_function h.runtime.limits.event_instruction_budget (offset ∷ length event ∷ [])
          h (engine.write_app offset event w) in
      record done { world = engine.module_free offset done.world }

  unfoldable pub place_event : List ℕ → Host → W → Done W ℕ
  place_event event h w =
      let (a, w1) = engine.module_malloc (length event) w in
      if a.offset == 0 || ltb u32_max a.offset || not a.has_address
      then record {
        outcome = failure no_memory;
        host = h;
        world = if a.offset == 0 then w1 else engine.module_free a.offset w1;
      }
      else event_at a.offset event h w1

  unfoldable pub call_event : List ℕ → Host → W → Done W ℕ
  call_event event h w =
      if ltb h.runtime.limits.max_event_bytes (length event)
      then record { outcome = failure invalid_input; host = h; world = w }
      else if length event == 0
      then invoke event_function h.runtime.limits.event_instruction_budget (0 ∷ 0 ∷ []) h w
      else place_event event h w
