-- ===== src/Runtime/Expiry.antt =====
-- What an entry that passes its deadline leaves behind.
use esp_container.Common.{
  ℕ, zero, suc, ◌≤◌, ◌≡◌, ◌≢◌, false, refl, sym, ap, inl, inr, List, All, take, arith,
}
use mathlib.Core.Path.{subst}
use esp_container.Runtime.Types.{
  Engine, Host, Limits, failed, Outcome, failure, entry_expired, GuestFunction,
}
use esp_container.Runtime.Entry.{clear_timers, expire_entry, entered, left, invoke}
use esp_container.Runtime.Steps.{HostSteps}
use esp_container.Runtime.Table.{IsIdle}
use esp_container.Runtime.Frame.{IsHost}
use esp_container.Runtime.Ended.{EntryRun, refused, overran, faulted, returned, invoke-EntryRun}
use esp_container.Runtime.Settled.{guest_IsHost, guest_IsFramed, clear_timers-IsIdle}

-- The log is what it was before the entry, no timer is active, and the runtime has failed.
pub record IsExpired (l : Limits) (h h' : Host) : Type 0 where
  pub state : h'.runtime.state ≡ failed
  pub idle : All IsIdle h'.runtime.timers
  pub log_size : h'.runtime.pending_log_size ≡ h.runtime.pending_log_size
  pub log_content :
      take h.runtime.pending_log_size h'.runtime.pending_log
      ≡ take h.runtime.pending_log_size h.runtime.pending_log

-- The bytes of a log are kept: there are none, or the guest could not replace them.
log_kept : (n : ℕ) (before after : List ℕ) → (n ≢ 0 → after ≡ before) → take n after ≡ take n before
log_kept zero before after k = refl
log_kept (suc n) before after k = ap (take (suc n)) (k (λ z. omega arith))

-- The host whose timers `expire_entry` ends.
expiring_IsHost :
    (l : Limits) (t : Host) (n : ℕ)
    → n ≤ l.max_log_bytes
    → IsHost l t
    → IsHost l (record t {
      runtime = record (t.runtime) { guest_active = false; pending_log_size = n; state = failed };
    })
expiring_IsHost l t n b g = record {
  limits = g.limits;
  table = g.table;
  beyond = g.beyond;
  next_bounded = g.next_bounded;
  log_fits = b;
}

overran-IsExpired :
    {W : Type 0} {engine : Engine W} (l : Limits) (h : Host) (began : ℕ) (t : Host)
    → IsHost l h
    → HostSteps engine (entered h began) t
    → IsExpired l h (expire_entry (left t) h.runtime.pending_log_size)
unfolding expire_entry clear_timers left entered
overran-IsExpired l h began t k r =
    let f = guest_IsFramed l h began t k r in
    record {
      state = refl;
      idle = clear_timers-IsIdle l _ (
          expiring_IsHost l t h.runtime.pending_log_size k.log_fits (guest_IsHost l h began t k r));
      log_size = refl;
      log_content =
          log_kept h.runtime.pending_log_size h.runtime.pending_log t.runtime.pending_log
            (λ p. (f.log_kept p).1);
    }

-- Only an entry that passed its deadline answers that it expired.
expired_of :
    {W : Type 0} {engine : Engine W} (h : Host) (o : Outcome ℕ) (h' : Host)
    → EntryRun engine h o h'
    → o ≡ failure entry_expired
    → (began : ℕ) × (t : Host) × HostSteps engine (entered h began) t
      × (h' ≡ expire_entry (left t) h.runtime.pending_log_size)
expired_of h o h' (refused e q) p = absurd cc
expired_of h o h' (overran began t r e q) p = (began, t, r, q)
expired_of h o h' (faulted began t x r e (inl y) q) p = absurd cc
expired_of h o h' (faulted began t x r e (inr y) q) p = absurd cc
expired_of h o h' (returned began t v r e q) p = absurd cc

-- For every guest, clock and memory behind WAMR: an entry of a runtime in order that answers
-- ENTRY_EXPIRED has failed the runtime and left none of the timers in its table active, and the
-- pending log is what it was before the entry, in size and bytes.
pub invoke-IsExpired :
    {W : Type 0} (engine : Engine W) (l : Limits) (function : GuestFunction) (budget : ℕ)
    (arguments : List ℕ) (h : Host) (w : W)
    → IsHost l h
    → (invoke engine function budget arguments h w).outcome ≡ failure entry_expired
    → IsExpired l h (invoke engine function budget arguments h w).host
invoke-IsExpired engine l function budget arguments h w k e =
    let (began, t, r, q) =
      expired_of h _ _ (invoke-EntryRun engine function budget arguments h w) e in
    subst (IsExpired l h) (sym q) (overran-IsExpired l h began t k r)
