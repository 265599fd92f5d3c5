-- ===== src/Runtime/Handles.antt =====
-- The handles of timers: a new one was never issued before, and a cancelled one is active no more.
use esp_container.Common.{
  ℕ, zero, suc, ◌+◌, ◌-◌, ◌≤◌, ◌<◌, ◌≡◌, ◌≢◌, refl, sym, ap, ◌∙◌, inl, inr, true, not, ◌&&◌, ◌||◌,
  ltb, ◌==◌, List, [], ◌∷◌, some, All, arith, Bool-cases, Option-cases, if_split, none-some,
}
use mathlib.Core.Path.{subst}
use mathlib.Core.Option.{some-injective}
use esp_container.Runtime.Types.{Engine, Host, Limits, Timer, value, u64_max, issue_timer_handle}
use esp_container.Runtime.Timers.{set_timer, find_free, find_handle, deactivate}
use esp_container.Runtime.Host.{
  Replied, may_start, start_timer, monotonic_ms, arm_timer, native_timer_start, native_timer_cancel,
}
use esp_container.Runtime.Table.{handle_limit, IsIdle, IsApart, AllApart}
use esp_container.Runtime.Start.{timer_at, find_free-IsIdle, map_suc-some}
use esp_container.Runtime.Frame.{IsHost, may_start-handle, issued_handle, limit_next}

-- A timer has started under the handle `v`: no handle up to the limit was it, it is below the new
-- limit, and the timer took the place of one that was not active.
pub record IsStarted (h : Host) (delay_ms period_ms v : ℕ) (h' : Host) : Type 0 where
  pub slot : ℕ
  pub now : ℕ
  pub previous : Timer
  pub fresh : v ≡ handle_limit h.next_timer_handle
  pub spent : v < handle_limit h'.next_timer_handle
  pub within : slot < h.runtime.limits.max_timers
  pub place : timer_at h.runtime.timers slot ≡ some previous
  pub free : IsIdle previous
  pub fits : now + delay_ms ≤ u64_max
  pub timers :
      h'.runtime.timers
      ≡ set_timer h.runtime.timers slot (record {
        handle = v;
        deadline_ms = now + delay_ms;
        period_ms = period_ms;
        active = true;
      })

abbrev Starts : {W : Type 0} → Host → ℕ → ℕ → Replied W → Type 0
Starts h delay_ms period_ms r =
    (v : ℕ) → r.reply ≡ value v → v ≢ 0 → IsStarted h delay_ms period_ms v r.host

value_of : {v w : ℕ} → value v ≡ value w → v ≡ w
value_of e = cc

start-IsStarted :
    (h : Host) (slot now delay_ms period_ms : ℕ)
    → h.next_timer_handle ≤ u64_max
    → may_start h.runtime h.next_timer_handle delay_ms period_ms ≡ true
    → find_free h.runtime.limits.max_timers h.runtime.timers ≡ some slot
    → now + delay_ms ≤ u64_max
    → IsStarted h delay_ms period_ms
        (issue_timer_handle h.next_timer_handle).0
        (start_timer h slot now delay_ms period_ms)
unfolding start_timer
start-IsStarted h slot now delay_ms period_ms b may e fits =
    let (some_handle, _) = may_start-handle h.runtime h.next_timer_handle delay_ms period_ms may in
    let (lt, (t, at, idle)) = find_free-IsIdle _ h.runtime.timers slot e in
    record {
      slot = slot;
      now = now;
      previous = t;
      fresh = issued_handle h.next_timer_handle some_handle;
      spent = omega (
        arith,
        issued_handle h.next_timer_handle some_handle,
        limit_next h.next_timer_handle some_handle b,
      );
      within = lt;
      place = at;
      free = idle;
      fits = fits;
      timers = refl;
    }

module _ {W : Type 0} (engine : Engine W) where
  arm_timer-Starts :
      (slot delay_ms period_ms : ℕ) (h : Host) (w : W)
      → h.next_timer_handle ≤ u64_max
      → delay_ms ≤ u64_max
      → may_start h.runtime h.next_timer_handle delay_ms period_ms ≡ true
      → find_free h.runtime.limits.max_timers h.runtime.timers ≡ some slot
      → Starts h delay_ms period_ms (arm_timer engine slot delay_ms period_ms h w)
  unfolding arm_timer
  arm_timer-Starts slot delay_ms period_ms h w b d may e =
      elim (Option-cases (monotonic_ms engine w).0) [
        | inl q ↦ rw (arm_timer, q) (λ v p n. absurd cc)
        | inr (now, q) ↦
            rw (arm_timer, q)
              (if_split (ltb (u64_max - delay_ms) now) _ _ (Starts h delay_ms period_ms)
                (λ late v p n. absurd (n (sym (value_of p))))
                (λ fits v p n.
                  subst
                    (λ x.
                      IsStarted h delay_ms period_ms x (start_timer h slot now delay_ms period_ms))
                    (value_of p)
                    (start-IsStarted h slot now delay_ms period_ms b may e (ground arith))))
      ]

  -- Where the next handle fits 64 bits: a timer_start that answers a handle other than 0 has taken
  -- the first one that was never issued, will not issue it again, and has put the timer, with its
  -- deadline in 64 bits, in the place of one that was not active.
  pub native_timer_start-IsStarted :
      (delay_ms period_ms : ℕ) (h : Host) (w : W) (v : ℕ)
      → h.next_timer_handle ≤ u64_max
      → (native_timer_start engine delay_ms period_ms h w).reply ≡ value v
      → v ≢ 0
      → IsStarted h delay_ms period_ms v (native_timer_start engine delay_ms period_ms h w).host
  unfolding native_timer_start
  native_timer_start-IsStarted delay_ms period_ms h w v b p n =
      if_split (not (may_start h.runtime h.next_timer_handle delay_ms period_ms)) _ _
        (Starts h delay_ms period_ms) (λ may_not v p n. absurd (n (sym (value_of p))))
        (λ may. elim (Option-cases (find_free h.runtime.limits.max_timers h.runtime.timers)) [
          | inl e ↦ rw e (λ v p n. absurd (n (sym (value_of p))))
          | inr (slot, e) ↦ rw e (
              arm_timer-Starts slot delay_ms period_ms h w b (unfold may_start in ground arith)
                (ground arith) e)
        ])
        v p n

-- No active timer has the handle.
abbrev pub IsGone : ℕ → Timer → Type 0
IsGone handle t = t.active ≡ true → t.handle ≢ handle

apart-IsGone :
    (handle : ℕ) (t : Timer) (ts : List Timer)
    → t.active ≡ true
    → t.handle ≡ handle
    → All (IsApart t) ts
    → All (IsGone handle) ts
apart-IsGone handle t [] a e h = tt
apart-IsGone handle t (u ∷ us) a e (i, h) =
    (λ b q. i a b (e ∙ sym q), apart-IsGone handle t us a e h)

deactivate-IsGone :
    (n handle : ℕ) (ts : List Timer) (i : ℕ)
    → find_handle n handle ts ≡ some i
    → AllApart ts
    → All (IsGone handle) (deactivate ts i)
unfolding find_handle deactivate
deactivate-IsGone zero handle ts i e k = none-some e
deactivate-IsGone (suc n) handle [] i e k = none-some e
deactivate-IsGone (suc n) handle (t ∷ ts) zero e (a, k) =
    elim (Bool-cases (t.active && t.handle == handle)) [
      | inl here ↦
          (λ p. absurd (ground arith), apart-IsGone handle t ts (ground arith) (ground arith) a)
      | inr other ↦
          let (j, q, bad) = map_suc-some (find_handle n handle ts) 0 (rw other at e) in
          absurd (omega (arith, bad))
    ]
deactivate-IsGone (suc n) handle (t ∷ ts) (suc i) e (a, k) =
    elim (Bool-cases (t.active && t.handle == handle)) [
      | inl here ↦ absurd (omega (arith, some-injective _ _ (rw here at e)))
      | inr other ↦
          let (j, q, same) = map_suc-some (find_handle n handle ts) (suc i) (rw other at e) in
          (
            λ p r. ground arith,
            deactivate-IsGone n handle ts i (q ∙ ap some (omega (arith, same))) k,
          )
    ]

module _ {W : Type 0} (engine : Engine W) where
  -- After a timer_cancel that answers 0, on a runtime in order, no active timer has the handle.
  pub native_timer_cancel-IsGone :
      (l : Limits) (handle : ℕ) (h : Host) (w : W)
      → IsHost l h
      → (native_timer_cancel engine handle h w).reply ≡ value 0
      → All (IsGone handle) (native_timer_cancel engine handle h w).host.runtime.timers
  unfolding native_timer_cancel
  native_timer_cancel-IsGone l handle h w k p =
      if_split (h.runtime.stopping || handle == 0) _ _
        (λ (r : Replied W). r.reply ≡ value 0 → All (IsGone handle) r.host.runtime.timers)
        (λ bad q. absurd (omega (arith, value_of q)))
        (λ good.
          elim (Option-cases (find_handle h.runtime.limits.max_timers handle h.runtime.timers)) [
            | inl e ↦ rw e (λ q. absurd (omega (arith, value_of q)))
            | inr (i, e) ↦ rw e (λ q.
                deactivate-IsGone h.runtime.limits.max_timers handle h.runtime.timers i e
                  k.table.apart)
          ])
        p
