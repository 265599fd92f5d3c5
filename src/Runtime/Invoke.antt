-- ===== src/Runtime/Invoke.antt =====
-- One entry into the guest, as the ways in which `invoke` ends.
use esp_container.Common.{
  ℕ, ◌+◌, ◌-◌, ◌≤◌, ◌<◌, ◌≡◌, refl, ◌⊎◌, inl, inr, true, false, not, ltb, leb, List, Option, none,
  some, Bool-cases, Option-cases, if_split, arith,
}
use esp_container.Runtime.Types.{
  Engine, Host, Outcome, success, failure, RuntimeError, engine_failure, instruction_limit,
  entry_expired, Exception, invalid_owner, clock_failed, entry_expired_reason, capability_missing,
  invalid_log_buffer, instruction_limit_exceeded, engine_exception, GuestFunction, u64_max,
}
use esp_container.Runtime.Host.{GuestEnd, monotonic_ms, run_guest}
use esp_container.Runtime.Entry.{
  Done, mark_failed, expire_entry, call_error, entered, left, end_in_time, after_guest, enter_guest,
  invoke,
}
use esp_container.Runtime.Steps.{HostSteps, IsLate, HostSteps-deadline, HostSteps-IsLate}
use esp_container.Runtime.Guest.{run_guest-HostSteps}

-- The guest with its calls back into the host, once the clock has been read.
abbrev pub guest_end :
    {W : Type 0} → Engine W → GuestFunction → ℕ → List ℕ → ℕ → Host → W → GuestEnd W
guest_end engine function budget arguments began h w =
    let (run, w1) = engine.call_wasm function budget arguments (monotonic_ms engine w).1 in
    run_guest engine run (entered h began) w1

-- How an entry ends that began at `began`: a host call or the last reading of the clock has shown
-- its deadline, and log size, timers and state are reset; the call failed, an exception is set or
-- the clock failed, and the runtime has failed; or the last reading lies before the deadline, and the
-- guest's first argument is the answer.
pub data EntryEnds {W : Type 0} (engine : Engine W) (h : Host) (began : ℕ) (g : GuestEnd W)
    (o : Outcome ℕ) (h' : Host) : Type 0 where
  late_call :
      (u : W) (now : ℕ)
      → g.host.runtime.entry_expired ≡ true
      → (monotonic_ms engine u).0 ≡ some now
      → began + h.runtime.limits.max_entry_duration_ms ≤ now
      → o ≡ failure entry_expired
      → h' ≡ expire_entry (left g.host) h.runtime.pending_log_size
      → EntryEnds engine h began g o h'
  late_end :
      (ended : ℕ)
      → (monotonic_ms engine g.world).0 ≡ some ended
      → began + h.runtime.limits.max_entry_duration_ms ≤ ended
      → o ≡ failure entry_expired
      → h' ≡ expire_entry (left g.host) h.runtime.pending_log_size
      → EntryEnds engine h began g o h'
  broke :
      (e : RuntimeError)
      → g.host.runtime.entry_expired ≡ false
      → (g.call_ok ≡ false)
        ⊎ ((x : Exception) × (g.exception ≡ some x))
        ⊎ ((monotonic_ms engine g.world).0 ≡ none)
      → o ≡ failure e
      → (e ≡ engine_failure) ⊎ (e ≡ instruction_limit)
      → h' ≡ mark_failed (left g.host)
      → EntryEnds engine h began g o h'
  in_time :
      (ended : ℕ)
      → g.host.runtime.entry_expired ≡ false
      → g.call_ok ≡ true
      → g.exception ≡ none
      → (monotonic_ms engine g.world).0 ≡ some ended
      → ended < began + h.runtime.limits.max_entry_duration_ms
      → o ≡ success g.argument
      → h' ≡ left g.host
      → EntryEnds engine h began g o h'

-- The entry is refused, since the clock failed or the deadline does not fit 64 bits, and the runtime
-- has failed; or the guest runs from the time that the clock shows.
pub data Invoked {W : Type 0} (engine : Engine W) (function : GuestFunction) (budget : ℕ)
    (arguments : List ℕ) (h : Host) (w : W) (o : Outcome ℕ) (h' : Host) : Type 0 where
  not_entered :
      ((monotonic_ms engine w).0 ≡ none)
        ⊎ ((began : ℕ) × ((monotonic_ms engine w).0 ≡ some began)
            × (u64_max - h.runtime.limits.max_entry_duration_ms < began))
      → o ≡ failure engine_failure
      → h' ≡ mark_failed h
      → Invoked engine function budget arguments h w o h'
  ran :
      (began : ℕ)
      → (monotonic_ms engine w).0 ≡ some began
      → began ≤ u64_max - h.runtime.limits.max_entry_duration_ms
      → HostSteps engine
          (entered h began)
          (guest_end engine function budget arguments began h w).host
      → EntryEnds engine h began (guest_end engine function budget arguments began h w) o h'
      → Invoked engine function budget arguments h w o h'

call_error-failure :
    (x : Option Exception)
    → (e : RuntimeError) × (call_error x ≡ failure e)
      × ((e ≡ engine_failure) ⊎ (e ≡ instruction_limit))
unfolding call_error
call_error-failure none = (engine_failure, refl, inl refl)
call_error-failure (some invalid_owner) = (engine_failure, refl, inl refl)
call_error-failure (some clock_failed) = (engine_failure, refl, inl refl)
call_error-failure (some entry_expired_reason) = (engine_failure, refl, inl refl)
call_error-failure (some capability_missing) = (engine_failure, refl, inl refl)
call_error-failure (some invalid_log_buffer) = (engine_failure, refl, inl refl)
call_error-failure (some engine_exception) = (engine_failure, refl, inl refl)
call_error-failure (some instruction_limit_exceeded) = (instruction_limit, refl, inr refl)

-- The deadline of an entry, after the guest's calls.
entry_deadline :
    {W : Type 0} (engine : Engine W) (h t : Host) (began : ℕ)
    → HostSteps engine (entered h began) t
    → (left t).runtime.entry_deadline_ms ≡ began + h.runtime.limits.max_entry_duration_ms
unfolding entered left
entry_deadline engine h t began r = HostSteps-deadline engine (entered h began) t r

-- The flag is clear when the guest starts.
flag-IsLate :
    {W : Type 0} (engine : Engine W) (h t : Host) (began : ℕ)
    → HostSteps engine (entered h began) t
    → t.runtime.entry_expired ≡ true
    → IsLate engine (entered h began)
unfolding entered
flag-IsLate engine h t began r e = elim (HostSteps-IsLate engine (entered h began) t r e) [
  | inl clear ↦ absurd (ground arith)
  | inr late ↦ late
]

module _ {W : Type 0} (engine : Engine W) where
  end_in_time-EntryEnds :
      (h : Host) (began : ℕ) (g : GuestEnd W)
      → HostSteps engine (entered h began) g.host
      → g.host.runtime.entry_expired ≡ false
      → g.call_ok ≡ true
      → g.exception ≡ none
      → let d = end_in_time engine h.runtime.pending_log_size g.argument (left g.host) g.world in
        EntryEnds engine h began g d.outcome d.host
  unfolding end_in_time
  end_in_time-EntryEnds h began g r q ok fine =
      let deadline = entry_deadline engine h g.host began r in
      elim (Option-cases (monotonic_ms engine g.world).0) [
        | inl e ↦ rw (e, end_in_time) (broke engine_failure q (inr (inr e)) refl (inl refl) refl)
        | inr (ended, e) ↦ elim (Bool-cases (leb (left g.host).runtime.entry_deadline_ms ended)) [
          | inl late ↦
              rw (e, end_in_time, late) (late_end ended e (at_deadline deadline late) refl refl)
          | inr early ↦
              rw (e, end_in_time, early)
                (in_time ended q ok fine e (before_deadline deadline early) refl refl)
        ]
      ]
    where
      at_deadline : {a b n : ℕ} → a ≡ b → leb a n ≡ true → b ≤ n
      at_deadline p e = ground arith

      before_deadline : {a b n : ℕ} → a ≡ b → leb a n ≡ false → n < b
      before_deadline p e = ground arith

  after_guest-EntryEnds :
      (h : Host) (began : ℕ) (g : GuestEnd W)
      → HostSteps engine (entered h began) g.host
      → let d = after_guest engine h.runtime.pending_log_size g in
        EntryEnds engine h began g d.outcome d.host
  unfolding after_guest
  after_guest-EntryEnds h began g r =
      if_split (left g.host).runtime.entry_expired _ _
        (λ (d : Done W ℕ). EntryEnds engine h began g d.outcome d.host)
        (λ late.
          let flag : g.host.runtime.entry_expired ≡ true = unfold left in late in
          let (u, now, clock, past) = flag-IsLate engine h g.host began r flag in
          late_call u now flag clock (unfold entered in past) refl refl)
        (λ early.
          if_split (not g.call_ok) _ _
            (λ (d : Done W ℕ). EntryEnds engine h began g d.outcome d.host)
            (λ bad.
              let (e, q, k) = call_error-failure g.exception in
              broke e (unfold left in early) (inl (ground arith)) q k refl)
            (λ fine. elim (Option-cases g.exception) [
              | inr (x, e) ↦ simp e (
                  broke engine_failure (unfold left in early) (inr (inl (x, e))) refl (inl refl)
                    refl)
              | inl e ↦
                  simp e (end_in_time-EntryEnds h began g r (unfold left in early) (ground arith) e)
            ]))

  -- For every guest, clock and memory behind WAMR: invoke does not enter the guest, answers
  -- ENGINE_FAILURE and has failed the runtime, where the clock fails or the deadline would not fit
  -- 64 bits. Else the guest makes a sequence of allowed steps from the time that the clock shows,
  -- and the entry ends in one of four ways. The flag of a passed deadline is set, at some reading
  -- of the clock the deadline has passed, and the entry has expired; or the last reading of the
  -- clock is not before the deadline, and the entry has expired: ENTRY_EXPIRED, with log size,
  -- timers and state reset. Or the flag is clear, and the call failed, an exception is set or the
  -- clock failed: ENGINE_FAILURE or INSTRUCTION_LIMIT, and the runtime has failed. Or the flag is
  -- clear, the call succeeded without exception, and the last reading of the clock is before the
  -- deadline: the answer is the guest's first argument, and the state is that after those steps.
  pub invoke-Invoked :
      (function : GuestFunction) (budget : ℕ) (arguments : List ℕ) (h : Host) (w : W)
      → let d = invoke engine function budget arguments h w in
        Invoked engine function budget arguments h w d.outcome d.host
  unfolding invoke enter_guest
  invoke-Invoked function budget arguments h w = elim (Option-cases (monotonic_ms engine w).0) [
    | inl e ↦ rw (e, invoke) (not_entered (inl e) refl refl)
    | inr (began, e) ↦
        elim (Bool-cases (ltb (u64_max - h.runtime.limits.max_entry_duration_ms) began)) [
          | inl late ↦ rw (e, invoke, late) (not_entered (inr (began, e, ground arith)) refl refl)
          | inr fits ↦
              let below : began ≤ u64_max - h.runtime.limits.max_entry_duration_ms = ground arith in
              let steps = run_guest-HostSteps engine _ (entered h began) _ in
              rw (e, invoke, fits, enter_guest)
                (ran began e below steps (after_guest-EntryEnds h began _ steps))
        ]
  ]
