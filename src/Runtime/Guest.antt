-- ===== src/Runtime/Guest.antt =====
-- The imported functions are steps of the host, and a guest is a run of them.
use esp_container.Common.{
  ℕ, ◌-◌, ◌≤◌, ◌<◌, ◌≡◌, refl, inl, inr, Bool, true, false, not, ◌||◌, ltb, leb, ◌==◌, arith,
  Bool-cases, Option-cases,
}
use esp_container.Wasm.Names.{cap_log, cap_timer}
use esp_container.Runtime.Types.{
  Engine, Host, HostCall, call_monotonic_ms, call_log, call_timer_start, call_timer_cancel,
  AppBuffer, out_of_range, unmapped, mapped, GuestRun, ends, calls, u64_max,
}
use esp_container.Runtime.Limits.{allows}
use esp_container.Runtime.Timers.{find_free, find_handle}
use esp_container.Runtime.Host.{
  Replied, may_start, monotonic_ms, owner_in_time, native_owner, authorized, native_monotonic_ms,
  copy_log, native_log, arm_timer, native_timer_start, native_timer_cancel, host_function,
  run_guest,
}
use esp_container.Runtime.Steps.{
  InTime, HostStep, keeps, expires, logs, starts, cancels, HostSteps, here, step,
}

allowed_of : {b : Bool} → not b ≡ false → b ≡ true
allowed_of {b} h = ground arith

module _ {W : Type 0} (engine : Engine W) where
  monotonic_ms-HostStep :
      (h : Host) (w : W) → HostStep engine h (native_monotonic_ms engine h w).host
  unfolding native_monotonic_ms
  monotonic_ms-HostStep h w = elim (Option-cases (monotonic_ms engine w).0) [
    | inl e ↦ rw (e, native_monotonic_ms) (keeps refl)
    | inr (t, e) ↦ rw (e, native_monotonic_ms) (keeps refl)
  ]

  log-HostStep :
      (size : ℕ) (buffer : AppBuffer) (h : Host) (w : W)
      → InTime engine h
      → allows h.runtime.limits.allowed_capabilities cap_log ≡ true
      → HostStep engine h (native_log engine size buffer h w).host
  unfolding native_log copy_log
  log-HostStep size buffer h w early a =
      elim (Bool-cases (size == 0 || ltb h.runtime.limits.max_log_bytes size)) [
        | inl bad ↦ rw bad (keeps refl)
        | inr good ↦ elim (Bool-cases (h.runtime.pending_log_size == 0)) [
          | inr full ↦ rw (good, full) (keeps refl)
          | inl free ↦ rw (good, free) (copied buffer (ground arith) (ground arith) (ground arith))
        ]
      ]
    where
      copied :
          (b : AppBuffer)
          → h.runtime.pending_log_size ≡ 0
          → 0 < size
          → size ≤ h.runtime.limits.max_log_bytes
          → HostStep engine h (copy_log engine size b h w).host
      copied out_of_range p q r = keeps refl
      copied unmapped p q r = keeps refl
      copied (mapped bytes) p q r = logs size bytes early a p q r refl

  timer_start-HostStep :
      (delay_ms period_ms : ℕ) (h : Host) (w : W)
      → InTime engine h
      → allows h.runtime.limits.allowed_capabilities cap_timer ≡ true
      → HostStep engine h (native_timer_start engine delay_ms period_ms h w).host
  unfolding native_timer_start arm_timer
  timer_start-HostStep delay_ms period_ms h w early a =
      elim (Bool-cases (may_start h.runtime h.next_timer_handle delay_ms period_ms)) [
        | inr may_not ↦ rw may_not (keeps refl)
        | inl may ↦ elim (Option-cases (find_free h.runtime.limits.max_timers h.runtime.timers)) [
          | inl full ↦ rw (may, full, native_timer_start) (keeps refl)
          | inr (slot, free) ↦ elim (Option-cases (monotonic_ms engine w).0) [
            | inl e ↦ rw (may, free, native_timer_start, e, arm_timer) (keeps refl)
            | inr (now, e) ↦ elim (Bool-cases (ltb (u64_max - delay_ms) now)) [
              | inl late ↦ rw (may, free, native_timer_start, e, arm_timer, late) (keeps refl)
              | inr fits ↦
                  rw (may, free, native_timer_start, e, arm_timer, fits)
                    (starts slot now delay_ms period_ms early a may free
                      (unfold may_start in ground arith) refl)
            ]
          ]
        ]
      ]

  timer_cancel-HostStep :
      (handle : ℕ) (h : Host) (w : W)
      → InTime engine h
      → allows h.runtime.limits.allowed_capabilities cap_timer ≡ true
      → HostStep engine h (native_timer_cancel engine handle h w).host
  unfolding native_timer_cancel
  timer_cancel-HostStep handle h w early a = elim (Bool-cases (h.runtime.stopping || handle == 0)) [
    | inl bad ↦ rw bad (keeps refl)
    | inr good ↦
        elim (Option-cases (find_handle h.runtime.limits.max_timers handle h.runtime.timers)) [
          | inl e ↦ rw (good, e, native_timer_cancel) (keeps refl)
          | inr (slot, e) ↦
              rw (good, e, native_timer_cancel) (cancels slot handle early a (ground arith) e refl)
        ]
  ]

  authorized-HostStep :
      (capability : ℕ) (body : Host → W → Replied W) (h : Host) (w : W)
      → (allows h.runtime.limits.allowed_capabilities capability ≡ true
          → HostStep engine h (body h w).host)
      → HostStep engine h (authorized engine capability body h w).host
  unfolding authorized
  authorized-HostStep capability body h w k =
      elim (Bool-cases (allows h.runtime.limits.allowed_capabilities capability)) [
        | inl a ↦ rw a (k a)
        | inr a ↦ rw a (keeps refl)
      ]

  host_function-HostStep :
      (call : HostCall) (h : Host) (w : W)
      → InTime engine h
      → HostStep engine h (host_function engine call h w).host
  unfolding host_function
  host_function-HostStep call_monotonic_ms h w early =
      authorized-HostStep _ _ h w (λ _. monotonic_ms-HostStep h w)
  host_function-HostStep (call_log size buffer) h w early =
      authorized-HostStep _ _ h w (log-HostStep size buffer h w early)
  host_function-HostStep (call_timer_start delay_ms period_ms) h w early =
      authorized-HostStep _ _ h w (timer_start-HostStep delay_ms period_ms h w early)
  host_function-HostStep (call_timer_cancel handle) h w early =
      authorized-HostStep _ _ h w (timer_cancel-HostStep handle h w early)

  native_owner-HostStep :
      (owned : Bool) (call : HostCall) (h : Host) (w : W)
      → HostStep engine h (native_owner engine owned (host_function engine call) h w).host
  unfolding native_owner owner_in_time
  native_owner-HostStep owned call h w =
      elim (Bool-cases (not owned || not h.runtime.guest_active || not h.runtime.call_active)) [
        | inl bad ↦ rw bad (keeps refl)
        | inr good ↦ elim (Option-cases (monotonic_ms engine w).0) [
          | inl e ↦ rw (good, e, owner_in_time) (keeps refl)
          | inr (now, e) ↦ elim (Bool-cases (leb h.runtime.entry_deadline_ms now)) [
            | inl late ↦ rw (good, e, owner_in_time, late) (expires (w, now, e, ground arith) refl)
            | inr early ↦
                rw (good, e, owner_in_time, early)
                  (host_function-HostStep call h (monotonic_ms engine w).1
                    (w, now, e, ground arith))
          ]
        ]
      ]

  pub run_guest-HostSteps :
      (run : GuestRun) (h : Host) (w : W) → HostSteps engine h (run_guest engine run h w).host
  unfolding run_guest
  run_guest-HostSteps (ends ok exception argument) h w = here
  run_guest-HostSteps (calls owned call rest) h w =
      let r = native_owner engine owned (host_function engine call) h w in
      step (native_owner-HostStep owned call h w)
        (run_guest-HostSteps (rest r.reply) r.host r.world)
