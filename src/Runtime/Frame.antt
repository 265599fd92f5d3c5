-- ===== src/Runtime/Frame.antt =====
-- What an entry keeps in order in its host.
use esp_container.Common.{
  ℕ, zero, suc, ◌+◌, ◌%◌, ◌^◌, ◌≤◌, ◌<◌, ◌≡◌, ◌≢◌, refl, sym, ap, ◌∙◌, inl, inr, true, false, ◌==◌,
  some, All, drop, arith, Bool-cases,
}
use mathlib.Core.Path.{subst}
use esp_container.Runtime.Types.{Engine, Host, Runtime, Limits, u64_max, issue_timer_handle}
use esp_container.Runtime.Timers.{find_free}
use esp_container.Runtime.Host.{may_start, start_timer, log_bytes}
use esp_container.Runtime.Steps.{
  HostStep, HostSteps, keeps, expires, logs, starts, cancels, here, step,
}
use esp_container.Runtime.Table.{
  handle_limit, IsTable, deactivate-AllFewer, AllFewer-IsTable, IsIdle, AllFewer-beyond,
}
use esp_container.Runtime.Start.{set_timer-IsTable, set_timer-drop, find_free-IsIdle}

-- The limits that the runtime was opened with are kept; the timers are in order, with handles that
-- were issued, and those past the limit are not active; the log fits.
pub record IsHost (l : Limits) (h : Host) : Type 0 where
  pub limits : h.runtime.limits ≡ l
  pub table : IsTable (handle_limit h.next_timer_handle) h.runtime.timers
  pub beyond : All IsIdle (drop l.max_timers h.runtime.timers)
  pub next_bounded : h.next_timer_handle ≤ u64_max
  pub log_fits : h.runtime.pending_log_size ≤ l.max_log_bytes

pub issued_handle : (n : ℕ) → n ≢ 0 → (issue_timer_handle n).0 ≡ handle_limit n
unfolding issue_timer_handle handle_limit
issued_handle zero h = absurd (h refl)
issued_handle (suc n) h = refl

limit_positive : (n : ℕ) → 0 < handle_limit n
unfolding handle_limit
limit_positive zero = omega arith
limit_positive (suc n) = omega arith

pub limit_next :
    (n : ℕ) → n ≢ 0 → n ≤ u64_max → handle_limit (issue_timer_handle n).1 ≡ suc (handle_limit n)
unfolding issue_timer_handle handle_limit
limit_next zero h b = absurd (h refl)
limit_next (suc n) h b = elim (Bool-cases (suc n == u64_max)) [
  | inl last ↦
      let same : suc n ≡ u64_max = ground arith in
      let q : (suc n + 1) % 2 ^ 64 ≡ 0 = omega arith in ap handle_limit q ∙ omega arith
  | inr less ↦
      let below : suc n < u64_max = ground arith in
      let q : (suc n + 1) % 2 ^ 64 ≡ suc (suc n) = omega arith in ap handle_limit q
]

pub next_handle_bounded : (n : ℕ) → n ≤ u64_max → (issue_timer_handle n).1 ≤ u64_max
unfolding issue_timer_handle
next_handle_bounded zero b = omega arith
next_handle_bounded (suc n) b = omega arith

pub may_start-handle :
    (r : Runtime) (n delay_ms period_ms : ℕ)
    → may_start r n delay_ms period_ms ≡ true
    → (n ≢ 0) × (r.stopping ≡ false)
unfolding may_start
may_start-handle r n delay_ms period_ms h = (λ z. ground arith, ground arith)

-- A timer that starts takes the first handle that was still to come.
start-IsHost :
    (l : Limits) (h : Host) (slot now delay_ms period_ms : ℕ)
    → may_start h.runtime h.next_timer_handle delay_ms period_ms ≡ true
    → find_free h.runtime.limits.max_timers h.runtime.timers ≡ some slot
    → IsHost l h
    → IsHost l (start_timer h slot now delay_ms period_ms)
unfolding start_timer
start-IsHost l h slot now delay_ms period_ms may free k =
    let (some_handle, _) = may_start-handle h.runtime h.next_timer_handle delay_ms period_ms may in
    record {
      limits = k.limits;
      table =
          subst (λ n. IsTable n (start_timer h slot now delay_ms period_ms).runtime.timers)
            (sym (limit_next h.next_timer_handle some_handle k.next_bounded))
            (set_timer-IsTable (handle_limit h.next_timer_handle) h.runtime.timers slot _
              (limit_positive h.next_timer_handle) (issued_handle h.next_timer_handle some_handle)
              k.table);
      beyond =
          subst (All IsIdle)
            (sym (
              set_timer-drop l.max_timers h.runtime.timers slot _
                (subst (λ m. slot < m.max_timers) k.limits (find_free-IsIdle _ _ slot free).0)))
            k.beyond;
      next_bounded = next_handle_bounded h.next_timer_handle k.next_bounded;
      log_fits = k.log_fits;
    }

pub HostStep-IsHost :
    {W : Type 0} {engine : Engine W} (l : Limits) (h t : Host)
    → HostStep engine h t
    → IsHost l h
    → IsHost l t
HostStep-IsHost l h t (keeps e) k = subst (IsHost l) (sym e) k
HostStep-IsHost l h t (expires _ e) k = subst (IsHost l) (sym e) (record {
  limits = k.limits;
  table = k.table;
  beyond = k.beyond;
  next_bounded = k.next_bounded;
  log_fits = k.log_fits;
})
HostStep-IsHost l h t (logs size bytes _ a free pos fits e) k = subst (IsHost l) (sym e) (
    unfold log_bytes in
    record {
      limits = k.limits;
      table = k.table;
      beyond = k.beyond;
      next_bounded = k.next_bounded;
      log_fits = subst (λ m. size ≤ m.max_log_bytes) k.limits fits;
    })
HostStep-IsHost l h t (starts slot now delay_ms period_ms _ a may free fits e) k =
    subst (IsHost l) (sym e) (start-IsHost l h slot now delay_ms period_ms may free k)
HostStep-IsHost l h t (cancels slot handle _ a going found e) k = subst (IsHost l) (sym e) (record {
  limits = k.limits;
  table = AllFewer-IsTable _ _ _ (deactivate-AllFewer h.runtime.timers slot) k.table;
  beyond = AllFewer-beyond l.max_timers _ _ (deactivate-AllFewer h.runtime.timers slot) k.beyond;
  next_bounded = k.next_bounded;
  log_fits = k.log_fits;
})

-- The invariant holds wherever the guest's calls lead.
pub HostSteps-IsHost :
    {W : Type 0} {engine : Engine W} (l : Limits) (h t : Host)
    → HostSteps engine h t
    → IsHost l h
    → IsHost l t
HostSteps-IsHost l h t here k = k
HostSteps-IsHost l h t (step s r) k = HostSteps-IsHost l _ t r (HostStep-IsHost l h _ s k)
