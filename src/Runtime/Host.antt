-- ===== src/Runtime/Host.antt =====
-- The functions of runtime.c that a guest imports.
use esp_container.Common.{
  ℕ, ◌+◌, ◌-◌, ◌/◌, Bool, true, not, ◌&&◌, ◌||◌, ltb, leb, ◌==◌, if◌then◌else◌, List, ◌++◌, Option,
  none, some, take, drop,
}
use esp_container.Wasm.Names.{cap_monotonic_time, cap_log, cap_timer}
use esp_container.Runtime.Types.{
  Engine, Host, Runtime, is_loaded, is_running, Exception, invalid_owner, clock_failed,
  entry_expired_reason, capability_missing, invalid_log_buffer, AppBuffer, out_of_range, unmapped,
  mapped, HostCall, call_monotonic_ms, call_log, call_timer_start, call_timer_cancel, Reply, raised,
  value, GuestRun, ends, calls, timer_max_interval_ms, u64_max, issue_timer_handle,
}
use esp_container.Runtime.Limits.{allows}
use esp_container.Runtime.Timers.{set_timer, find_free, find_handle, deactivate}

-- -1 and -2 as an int32_t in 32 bits.
abbrev minus_one : ℕ
minus_one = 0xffff_ffff

abbrev minus_two : ℕ
minus_two = 0xffff_fffe

pub record Replied (W : Type 0) : Type 0 where
  pub reply : Reply
  pub host : Host
  pub world : W

-- What is left when the guest has ended.
pub record GuestEnd (W : Type 0) : Type 0 where
  pub call_ok : Bool
  pub exception : Option Exception
  pub argument : ℕ
  pub host : Host
  pub world : W

-- A timer may start while init or an event runs, before `stop`.
unfoldable pub may_start : Runtime → ℕ → ℕ → ℕ → Bool
may_start r next_handle delay_ms period_ms =
    not r.stopping
    && (is_loaded r.state || is_running r.state)
    && not (delay_ms == 0)
    && leb delay_ms timer_max_interval_ms
    && leb period_ms timer_max_interval_ms
    && not (next_handle == 0)

-- The timer goes to the free slot, under a new handle.
unfoldable pub start_timer : Host → ℕ → ℕ → ℕ → ℕ → Host
start_timer h slot now delay_ms period_ms =
    let (handle, next_handle) = issue_timer_handle h.next_timer_handle in
    record {
      runtime = record (h.runtime) {
        timers = set_timer h.runtime.timers slot (record {
          handle = handle;
          deadline_ms = now + delay_ms;
          period_ms = period_ms;
          active = true;
        });
      };
      next_timer_handle = next_handle;
    }

unfoldable pub log_bytes : Host → ℕ → List ℕ → Host
log_bytes h size bytes = record h {
  runtime = record (h.runtime) {
    pending_log = take size bytes ++ drop size h.runtime.pending_log;
    pending_log_size = size;
  };
}

module _ {W : Type 0} (engine : Engine W) where
  -- The milliseconds; `none` for false.
  unfoldable pub monotonic_ms : W → Option ℕ × W
  monotonic_ms w =
      let (now_us, w1) = engine.timer_get_time w in
      elim now_us [ none ↦ (none, w1) | some us ↦ (some (us / 1000), w1) ]

  -- From the second test of `native_owner` on.
  unfoldable pub owner_in_time : (Host → W → Replied W) → Host → W → Replied W
  owner_in_time body h w =
      let (now, w1) = monotonic_ms w in
      elim now [
        | none ↦ record { reply = raised clock_failed; host = h; world = w1 }
        | some now_ms ↦
            if leb h.runtime.entry_deadline_ms now_ms
            then record {
              reply = raised entry_expired_reason;
              host = record h { runtime = record (h.runtime) { entry_expired = true } };
              world = w1;
            }
            else body h w1
      ]

  -- `native_owner`, with what the caller does where it is not NULL.
  unfoldable pub native_owner : Bool → (Host → W → Replied W) → Host → W → Replied W
  native_owner owned body h w =
      if not owned || not h.runtime.guest_active || not h.runtime.call_active
      then record { reply = raised invalid_owner; host = h; world = w }
      else owner_in_time body h w

  -- The first test of each imported function.
  unfoldable pub authorized : ℕ → (Host → W → Replied W) → Host → W → Replied W
  authorized capability body h w =
      if not (allows h.runtime.limits.allowed_capabilities capability)
      then record { reply = raised capability_missing; host = h; world = w }
      else body h w

  unfoldable pub native_monotonic_ms : Host → W → Replied W
  native_monotonic_ms h w =
      let (now, w1) = monotonic_ms w in
      elim now [
        | none ↦ record { reply = raised clock_failed; host = h; world = w1 }
        | some now_ms ↦ record { reply = value now_ms; host = h; world = w1 }
      ]

  unfoldable pub copy_log : ℕ → AppBuffer → Host → W → Replied W
  copy_log size out_of_range h w = record { reply = value minus_one; host = h; world = w }
  copy_log size unmapped h w = record { reply = raised invalid_log_buffer; host = h; world = w }
  copy_log size (mapped bytes) h w = record {
    reply = value 0;
    host = log_bytes h size bytes;
    world = w;
  }

  unfoldable pub native_log : ℕ → AppBuffer → Host → W → Replied W
  native_log size buffer h w =
      if size == 0 || ltb h.runtime.limits.max_log_bytes size
      then record { reply = value minus_one; host = h; world = w }
      else if not (h.runtime.pending_log_size == 0)
      then record { reply = value minus_two; host = h; world = w }
      else copy_log size buffer h w

  -- With a free slot: the clock is read, and the timer starts.
  unfoldable pub arm_timer : ℕ → ℕ → ℕ → Host → W → Replied W
  arm_timer slot delay_ms period_ms h w =
      let (now, w1) = monotonic_ms w in
      elim now [
        | none ↦ record { reply = raised clock_failed; host = h; world = w1 }
        | some now_ms ↦
            if ltb (u64_max - delay_ms) now_ms
            then record { reply = value 0; host = h; world = w1 }
            else record {
              reply = value (issue_timer_handle h.next_timer_handle).0;
              host = start_timer h slot now_ms delay_ms period_ms;
              world = w1;
            }
      ]

  unfoldable pub native_timer_start : ℕ → ℕ → Host → W → Replied W
  native_timer_start delay_ms period_ms h w =
      if not (may_start h.runtime h.next_timer_handle delay_ms period_ms)
      then record { reply = value 0; host = h; world = w }
      else elim (find_free h.runtime.limits.max_timers h.runtime.timers) [
        | none ↦ record { reply = value 0; host = h; world = w }
        | some slot ↦ arm_timer slot delay_ms period_ms h w
      ]

  unfoldable pub native_timer_cancel : ℕ → Host → W → Replied W
  native_timer_cancel handle h w =
      if h.runtime.stopping || handle == 0
      then record { reply = value minus_one; host = h; world = w }
      else elim (find_handle h.runtime.limits.max_timers handle h.runtime.timers) [
        | none ↦ record { reply = value minus_one; host = h; world = w }
        | some slot ↦ record {
          reply = value 0;
          host = record h {
            runtime = record (h.runtime) { timers = deactivate h.runtime.timers slot };
          };
          world = w;
        }
      ]

  unfoldable pub host_function : HostCall → Host → W → Replied W
  host_function call_monotonic_ms = authorized cap_monotonic_time native_monotonic_ms
  host_function (call_log size buffer) = authorized cap_log (native_log size buffer)
  host_function (call_timer_start delay_ms period_ms) =
      authorized cap_timer (native_timer_start delay_ms period_ms)
  host_function (call_timer_cancel handle) = authorized cap_timer (native_timer_cancel handle)

  -- `wasm_runtime_call_wasm`, with the calls back into the host.
  unfoldable pub run_guest : GuestRun → Host → W → GuestEnd W
  run_guest (ends call_ok exception argument) h w = record {
    call_ok = call_ok;
    exception = exception;
    argument = argument;
    host = h;
    world = w;
  }
  run_guest (calls owned call rest) h w =
      let r = native_owner owned (host_function call) h w in run_guest (rest r.reply) r.host r.world
