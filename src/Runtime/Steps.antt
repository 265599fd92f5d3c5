-- ===== src/Runtime/Steps.antt =====
-- What a guest can do to its host: the imported functions as steps, and an entry as a run of them.
use esp_container.Common.{
  ℕ, ◌+◌, ◌≤◌, ◌<◌, ◌≡◌, refl, sym, ap, ◌∙◌, ◌⊎◌, inl, inr, true, false, List, some, arith,
}
use esp_container.Wasm.Names.{cap_log, cap_timer}
use esp_container.Runtime.Types.{Engine, Host, u64_max}
use esp_container.Runtime.Limits.{allows}
use esp_container.Runtime.Timers.{find_free, find_handle, deactivate}
use esp_container.Runtime.Host.{may_start, start_timer, log_bytes, monotonic_ms}

abbrev pub expired : Host → Host
expired h = record h { runtime = record (h.runtime) { entry_expired = true } }

abbrev pub cancelled : Host → ℕ → Host
cancelled h slot = record h {
  runtime = record (h.runtime) { timers = deactivate h.runtime.timers slot };
}

-- The clock has shown a time before the deadline of the entry, or one that is not before it.
abbrev pub InTime : {W : Type 0} → Engine W → Host → Type 0
InTime {W} engine h =
    (u : W) × (now : ℕ) × ((monotonic_ms engine u).0 ≡ some now)
    × (now < h.runtime.entry_deadline_ms)

abbrev pub IsLate : {W : Type 0} → Engine W → Host → Type 0
IsLate {W} engine h =
    (u : W) × (now : ℕ) × ((monotonic_ms engine u).0 ≡ some now)
    × (h.runtime.entry_deadline_ms ≤ now)

-- One imported function: it does nothing, notes that the deadline has passed, or, before the
-- deadline and where the capability is granted, takes a log while none is pending, starts a timer or
-- ends one.
pub data HostStep {W : Type 0} (engine : Engine W) (h h' : Host) : Type 0 where
  keeps : h' ≡ h → HostStep engine h h'
  expires : IsLate engine h → h' ≡ expired h → HostStep engine h h'
  logs :
      (size : ℕ) (bytes : List ℕ)
      → InTime engine h
      → allows h.runtime.limits.allowed_capabilities cap_log ≡ true
      → h.runtime.pending_log_size ≡ 0
      → 0 < size
      → size ≤ h.runtime.limits.max_log_bytes
      → h' ≡ log_bytes h size bytes
      → HostStep engine h h'
  starts :
      (slot now delay_ms period_ms : ℕ)
      → InTime engine h
      → allows h.runtime.limits.allowed_capabilities cap_timer ≡ true
      → may_start h.runtime h.next_timer_handle delay_ms period_ms ≡ true
      → find_free h.runtime.limits.max_timers h.runtime.timers ≡ some slot
      → now + delay_ms ≤ u64_max
      → h' ≡ start_timer h slot now delay_ms period_ms
      → HostStep engine h h'
  cancels :
      (slot handle : ℕ)
      → InTime engine h
      → allows h.runtime.limits.allowed_capabilities cap_timer ≡ true
      → h.runtime.stopping ≡ false
      → find_handle h.runtime.limits.max_timers handle h.runtime.timers ≡ some slot
      → h' ≡ cancelled h slot
      → HostStep engine h h'

-- A run of such calls.
pub data HostSteps {W : Type 0} (engine : Engine W) : Host → Host → Type 0 where
  here : {h : Host} → HostSteps engine h h
  step : {h t u : Host} → HostStep engine h t → HostSteps engine t u → HostSteps engine h u

-- The deadline of an entry stays.
pub HostSteps-deadline :
    {W : Type 0} (engine : Engine W) (h t : Host)
    → HostSteps engine h t
    → t.runtime.entry_deadline_ms ≡ h.runtime.entry_deadline_ms
unfolding log_bytes start_timer
HostSteps-deadline engine h t here = refl
HostSteps-deadline engine h t (step {t = u} s r) = HostSteps-deadline engine u t r ∙ one s
  where
    one : HostStep engine h u → u.runtime.entry_deadline_ms ≡ h.runtime.entry_deadline_ms
    one (keeps e) = ap (λ x. x.runtime.entry_deadline_ms) e
    one (expires _ e) = ap (λ x. x.runtime.entry_deadline_ms) e
    one (logs size bytes _ _ _ _ _ e) = ap (λ x. x.runtime.entry_deadline_ms) e
    one (starts slot now delay_ms period_ms _ _ _ _ _ e) = ap (λ x. x.runtime.entry_deadline_ms) e
    one (cancels slot handle _ _ _ _ e) = ap (λ x. x.runtime.entry_deadline_ms) e

-- The flag of a passed deadline is set only when the clock has shown it.
pub HostSteps-IsLate :
    {W : Type 0} (engine : Engine W) (h t : Host)
    → HostSteps engine h t
    → t.runtime.entry_expired ≡ true
    → (h.runtime.entry_expired ≡ true) ⊎ IsLate engine h
unfolding log_bytes start_timer
HostSteps-IsLate engine h t here e = inl e
HostSteps-IsLate engine h t (step {t = u} s r) e = elim (HostSteps-IsLate engine u t r e) [
  | inr (v, now, clock, late) ↦
      inr (v, now, clock, omega (arith, late, HostSteps-deadline engine h u (step s here)))
  | inl flag ↦ one s flag
]
  where
    one :
        HostStep engine h u
        → u.runtime.entry_expired ≡ true
        → (h.runtime.entry_expired ≡ true) ⊎ IsLate engine h
    one (keeps q) f = inl (sym (ap (λ x. x.runtime.entry_expired) q) ∙ f)
    one (expires late q) f = inr late
    one (logs size bytes _ _ _ _ _ q) f = inl (sym (ap (λ x. x.runtime.entry_expired) q) ∙ f)
    one (starts slot now delay_ms period_ms _ _ _ _ _ q) f =
        inl (sym (ap (λ x. x.runtime.entry_expired) q) ∙ f)
    one (cancels slot handle _ _ _ _ q) f = inl (sym (ap (λ x. x.runtime.entry_expired) q) ∙ f)
