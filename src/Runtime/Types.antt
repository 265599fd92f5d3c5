-- ===== src/Runtime/Types.antt =====
-- The data of runtime.c and runtime_internal.h, and what is used of WAMR and the clock.
use esp_container.Common.{ℕ, zero, suc, ◌+◌, ◌%◌, ◌^◌, Bool, true, false, List, Option}

abbrev pub timer_capacity : ℕ
timer_capacity = 8

abbrev pub timer_max_interval_ms : ℕ
timer_max_interval_ms = 86400000

abbrev pub u64_max : ℕ
u64_max = 0xffff_ffff_ffff_ffff

-- A budget is an int32_t; a negative one is refused as 0 is, and has no counterpart.
pub record Limits : Type 0 where
  pub max_wasm_bytes : ℕ
  pub max_memory_pages : ℕ
  pub stack_size_bytes : ℕ
  pub heap_size_bytes : ℕ
  pub max_event_bytes : ℕ
  pub allowed_capabilities : ℕ
  pub max_log_bytes : ℕ
  pub max_timers : ℕ
  pub init_instruction_budget : ℕ
  pub event_instruction_budget : ℕ
  pub stop_instruction_budget : ℕ
  pub max_entry_duration_ms : ℕ

-- `econtainer_runtime_result_t` without OK.
pub data RuntimeError : Type 0 where
  invalid_input busy invalid_state bad_wasm bad_abi no_memory engine_failure : RuntimeError
  instruction_limit guest_failure no_log no_timer not_authorized entry_expired : RuntimeError

pub data Outcome (A : Type 0) : Type 0 where
  success : A → Outcome A
  failure : RuntimeError → Outcome A

pub data RuntimeState : Type 0 where
  loaded running stopped failed : RuntimeState

abbrev pub is_loaded : RuntimeState → Bool
is_loaded loaded = true
is_loaded running = false
is_loaded stopped = false
is_loaded failed = false

abbrev pub is_running : RuntimeState → Bool
is_running running = true
is_running loaded = false
is_running stopped = false
is_running failed = false

abbrev pub is_stopped : RuntimeState → Bool
is_stopped stopped = true
is_stopped loaded = false
is_stopped running = false
is_stopped failed = false

pub record Timer : Type 0 where
  pub handle : ℕ
  pub deadline_ms : ℕ
  pub period_ms : ℕ
  pub active : Bool

-- The fields that the calls read and change. The first `pending_log_size` bytes of the buffer
-- `pending_log` are the log; `timers` has `timer_capacity` elements.
pub record Runtime : Type 0 where
  pub limits : Limits
  pub state : RuntimeState
  pub pending_log : List ℕ
  pub pending_log_size : ℕ
  pub call_active : Bool
  pub guest_active : Bool
  pub entry_expired : Bool
  pub entry_deadline_ms : ℕ
  pub stopping : Bool
  pub timers : List Timer

-- A runtime with the process-wide `next_timer_handle`.
pub record Host : Type 0 where
  pub runtime : Runtime
  pub next_timer_handle : ℕ

-- The exceptions that runtime.c sets, the one that it looks for, and the others.
pub data Exception : Type 0 where
  invalid_owner clock_failed entry_expired_reason capability_missing invalid_log_buffer : Exception
  instruction_limit_exceeded engine_exception : Exception

-- What WAMR says of a buffer in the guest's memory: out of range, without a native address, or
-- its bytes.
pub data AppBuffer : Type 0 where
  out_of_range unmapped : AppBuffer
  mapped : List ℕ → AppBuffer

-- A call of an imported function with its arguments.
pub data HostCall : Type 0 where
  call_monotonic_ms : HostCall
  call_log : ℕ → AppBuffer → HostCall
  call_timer_start : ℕ → ℕ → HostCall
  call_timer_cancel : ℕ → HostCall

-- What a host function leaves: an exception or its value, as an unsigned number.
pub data Reply : Type 0 where
  raised : Exception → Reply
  value : ℕ → Reply

-- What the guest and the interpreter do from one entry on: they end, with what the call answers,
-- the exception that is set and the first argument slot; or they call the host, where the flag says
-- whether the environment and the instance are those of the runtime.
pub data GuestRun : Type 0 where
  ends : Bool → Option Exception → ℕ → GuestRun
  calls : Bool → HostCall → (Reply → GuestRun) → GuestRun

pub data GuestFunction : Type 0 where
  init_function event_function stop_function : GuestFunction

-- An address in the guest's heap, and whether it has a native one.
pub record Allocation : Type 0 where
  pub offset : ℕ
  pub has_address : Bool

-- `esp_timer_get_time` in microseconds (`none` for a negative answer), and the WAMR calls.
pub record Engine (W : Type 0) : Type 0 where
  pub timer_get_time : W → Option ℕ × W
  pub call_wasm : GuestFunction → ℕ → List ℕ → W → GuestRun × W
  pub module_malloc : ℕ → W → Allocation × W
  pub write_app : ℕ → List ℕ → W → W
  pub module_free : ℕ → W → W

-- `econtainer_runtime_issue_timer_handle`: the handle and the next one. The sum wraps to 0, which
-- ends the handles.
unfoldable pub issue_timer_handle : ℕ → ℕ × ℕ
issue_timer_handle zero = (0, 0)
issue_timer_handle (suc n) = (suc n, (suc n + 1) % 2 ^ 64)
