-- ===== src/Examples/Entries.antt =====
-- Entries and timers of the small runtime.
use esp_container.Common.{ℕ, ◌≤◌, ◌≡◌, ◌↔◌, refl, [], ◌∷◌, none, some, All, arith}
use esp_container.Runtime.Types.{
  stopped, Timer, event_function, success, failure, no_memory, entry_expired, value, u64_max,
  issue_timer_handle,
}
use esp_container.Runtime.Limits.{allows}
use esp_container.Runtime.Timers.{
  find_free, find_handle, deactivate_all, earliest_deadline, select_due, skipped_periods, rearmed,
}
use esp_container.Runtime.Host.{
  may_start, start_timer, log_bytes, monotonic_ms, owner_in_time, native_owner, authorized,
  copy_log, native_log, arm_timer, native_timer_start, native_timer_cancel, host_function,
  run_guest,
}
use esp_container.Runtime.Entry.{
  clear_timers, expire_entry, entered, left, end_in_time, after_guest, enter_guest, invoke,
  event_at, place_event, call_event,
}
use esp_container.Runtime.Calls.{
  with_call_active, refuse, claimed, enter_state, le_bytes, timer_bytes, is_timer_event, after_init,
  after_stop, after_timer, stopping_host, hand_out_log, nearest_deadline, init_body, runtime_init,
  event_body, runtime_on_event, stop_body, runtime_stop, runtime_take_log,
  runtime_next_timer_deadline, fire_timer, poll_at, poll_body, runtime_poll_timer,
}
use esp_container.Runtime.Table.{IsIdle}
use esp_container.Runtime.Due.{IsDue, select_due-earliest_deadline}
use esp_container.Runtime.Expiry.{IsExpired, invoke-IsExpired}
use esp_container.Runtime.Delivery.{runtime_poll_timer-no_memory}
use esp_container.Runtime.Prompt.{
  runtime_poll_timer-delivers, runtime_next_timer_deadline-IsNext, IsNext,
}
use esp_container.Runtime.Handles.{
  IsStarted, native_timer_start-IsStarted, IsGone, native_timer_cancel-IsGone,
}
use esp_container.Runtime.Quiet.{runtime_stop-quiet}
use esp_container.Runtime.Sequence.{error_of, run_owner_call, run_owner_calls}
use esp_container.Examples.Runtimes.{quick, slow, full, limits, opened, day, on, on-IsReady}

invoke_late : (invoke slow event_function 100 (0 ∷ 0 ∷ []) on 0).outcome ≡ failure entry_expired
unfolding invoke enter_guest monotonic_ms run_guest entered left native_owner owner_in_time
    after_guest end_in_time expire_entry clear_timers
invoke_late = refl

invoke-IsExpired_example :
    IsExpired limits on (invoke slow event_function 100 (0 ∷ 0 ∷ []) on 0).host
invoke-IsExpired_example =
    invoke-IsExpired slow limits event_function 100 (0 ∷ 0 ∷ []) on 0 on-IsReady.settled.host
      invoke_late

poll_without_memory : (runtime_poll_timer full on 30).outcome ≡ failure no_memory
unfolding runtime_poll_timer claimed with_call_active poll_body monotonic_ms poll_at select_due
    fire_timer rearmed skipped_periods timer_bytes le_bytes call_event place_event after_timer
    refuse
poll_without_memory = refl

runtime_poll_timer-no_memory_example : (runtime_poll_timer full on 30).host ≡ on
runtime_poll_timer-no_memory_example =
    runtime_poll_timer-no_memory full on 30 refl poll_without_memory

deadline_20 : (runtime_next_timer_deadline quick on 0).outcome ≡ success 20
unfolding runtime_next_timer_deadline claimed with_call_active nearest_deadline earliest_deadline
    refuse
deadline_20 = refl

runtime_next_timer_deadline-IsNext_example : IsNext on 20
runtime_next_timer_deadline-IsNext_example =
    runtime_next_timer_deadline-IsNext quick limits on 0 20 on-IsReady.settled.host deadline_20

clock_30 : (monotonic_ms quick 30).0 ≡ some 30
unfolding monotonic_ms
clock_30 = refl

runtime_poll_timer-delivers_example :
    (i : ℕ) × (t : Timer) × IsDue 2 30 on.runtime.timers i t
    × (t.deadline_ms ≡ 20)
    × (runtime_poll_timer quick on 30
        ≡ claimed (fire_timer quick i t 30) on (monotonic_ms quick 30).1)
runtime_poll_timer-delivers_example =
    runtime_poll_timer-delivers quick on 30 0 20 30 refl deadline_20 clock_30 (omega arith)

earliest_20 : earliest_deadline 2 u64_max on.runtime.timers ≡ 20
unfolding earliest_deadline
earliest_20 = refl

select_due-earliest_deadline_example :
    (earliest_deadline 2 u64_max on.runtime.timers ≤ 30)
    ↔ ((i : ℕ) × (t : Timer) × (select_due 2 30 0 none u64_max on.runtime.timers ≡ some (i, t)))
select_due-earliest_deadline_example =
    select_due-earliest_deadline 2 30 on.runtime.timers (λ e. omega (arith, earliest_20, e))

started_2 : (native_timer_start quick 5 0 on 30).reply ≡ value 2
unfolding native_timer_start may_start find_free arm_timer monotonic_ms issue_timer_handle
started_2 = refl

native_timer_start-IsStarted_example : IsStarted on 5 0 2 (native_timer_start quick 5 0 on 30).host
native_timer_start-IsStarted_example =
    native_timer_start-IsStarted quick 5 0 on 30 2 (omega arith) started_2 (omega arith)

cancelled_1 : (native_timer_cancel quick 1 on 30).reply ≡ value 0
unfolding native_timer_cancel find_handle
cancelled_1 = refl

native_timer_cancel-IsGone_example :
    All (IsGone 1) (native_timer_cancel quick 1 on 30).host.runtime.timers
native_timer_cancel-IsGone_example =
    native_timer_cancel-IsGone quick limits 1 on 30 on-IsReady.settled.host cancelled_1

stopped_well : (runtime_stop quick on 0).outcome ≡ success tt
unfolding runtime_stop claimed with_call_active stop_body stopping_host clear_timers deactivate_all
    invoke enter_guest monotonic_ms run_guest entered left after_guest end_in_time after_stop refuse
    enter_state
stopped_well = refl

runtime_stop-quiet_example :
    ((runtime_stop quick on 0).host.runtime.state ≡ stopped)
    × All IsIdle (runtime_stop quick on 0).host.runtime.timers
runtime_stop-quiet_example = runtime_stop-quiet quick limits on 0 on-IsReady stopped_well

-- A day of the runtime: the init starts the timer, the event logs, and it stops.
day_stopped : (run_owner_calls quick day opened 0).0.runtime.state ≡ stopped
unfolding run_owner_calls run_owner_call error_of runtime_init runtime_on_event runtime_stop
    runtime_take_log runtime_next_timer_deadline runtime_poll_timer claimed with_call_active
    init_body event_body stop_body poll_body poll_at hand_out_log nearest_deadline refuse
    enter_state after_init after_stop after_timer stopping_host clear_timers deactivate_all invoke
    enter_guest monotonic_ms run_guest entered left after_guest end_in_time expire_entry call_event
    place_event event_at is_timer_event native_owner owner_in_time authorized allows host_function
    native_timer_start may_start find_free arm_timer start_timer issue_timer_handle native_log
    copy_log log_bytes earliest_deadline select_due fire_timer skipped_periods rearmed timer_bytes
    le_bytes
day_stopped = refl
