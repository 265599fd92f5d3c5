-- ===== src/Runtime/Ended.antt =====
-- The ends of an entry without its clock: what the calls of the runtime's owner build on.
use esp_container.Common.{ℕ, ◌≡◌, ◌⊎◌, List}
use esp_container.Runtime.Types.{
  Engine, Host, Outcome, success, failure, RuntimeError, engine_failure, instruction_limit,
  entry_expired, GuestFunction,
}
use esp_container.Runtime.Host.{GuestEnd}
use esp_container.Runtime.Entry.{mark_failed, expire_entry, entered, left, invoke}
use esp_container.Runtime.Steps.{HostSteps}
use esp_container.Runtime.Invoke.{
  EntryEnds, late_call, late_end, broke, in_time, Invoked, not_entered, ran, invoke-Invoked,
}

-- The guest did not start; it passed its deadline; its call failed; or it returned.
pub data EntryRun {W : Type 0} (engine : Engine W) (h : Host) (o : Outcome ℕ) (h' : Host)
    : Type 0 where
  refused : o ≡ failure engine_failure → h' ≡ mark_failed h → EntryRun engine h o h'
  overran :
      (began : ℕ) (t : Host)
      → HostSteps engine (entered h began) t
      → o ≡ failure entry_expired
      → h' ≡ expire_entry (left t) h.runtime.pending_log_size
      → EntryRun engine h o h'
  faulted :
      (began : ℕ) (t : Host) (e : RuntimeError)
      → HostSteps engine (entered h began) t
      → o ≡ failure e
      → (e ≡ engine_failure) ⊎ (e ≡ instruction_limit)
      → h' ≡ mark_failed (left t)
      → EntryRun engine h o h'
  returned :
      (began : ℕ) (t : Host) (v : ℕ)
      → HostSteps engine (entered h began) t
      → o ≡ success v
      → h' ≡ left t
      → EntryRun engine h o h'

module _ {W : Type 0} (engine : Engine W) (h : Host) (o : Outcome ℕ) (h' : Host) where
  EntryEnds-EntryRun :
      (began : ℕ) (g : GuestEnd W)
      → HostSteps engine (entered h began) g.host
      → EntryEnds engine h began g o h'
      → EntryRun engine h o h'
  EntryEnds-EntryRun began g r (late_call _ _ _ _ _ e q) = overran began g.host r e q
  EntryEnds-EntryRun began g r (late_end _ _ _ e q) = overran began g.host r e q
  EntryEnds-EntryRun began g r (broke x _ _ e k q) = faulted began g.host x r e k q
  EntryEnds-EntryRun began g r (in_time _ _ _ _ _ _ e q) = returned began g.host g.argument r e q

  Invoked-EntryRun :
      (function : GuestFunction) (budget : ℕ) (arguments : List ℕ) (w : W)
      → Invoked engine function budget arguments h w o h'
      → EntryRun engine h o h'
  Invoked-EntryRun function budget arguments w (not_entered _ e q) = refused e q
  Invoked-EntryRun function budget arguments w (ran began _ _ r k) = EntryEnds-EntryRun began _ r k

pub invoke-EntryRun :
    {W : Type 0} (engine : Engine W) (function : GuestFunction) (budget : ℕ) (arguments : List ℕ)
    (h : Host) (w : W)
    → let d = invoke engine function budget arguments h w in EntryRun engine h d.outcome d.host
invoke-EntryRun engine function budget arguments h w =
    Invoked-EntryRun engine h _ _ function budget arguments w
      (invoke-Invoked engine function budget arguments h w)
