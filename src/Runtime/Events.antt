-- ===== src/Runtime/Events.antt =====
-- The delivery of an event, and of a timer that fires.
use esp_container.Common.{
  ℕ, ◌≡◌, ◌≢◌, refl, ap, ◌⊎◌, inl, inr, not, ◌==◌, ◌||◌, ltb, List, length, some, if_split,
}
use esp_container.Slots.Types.{u32_max}
use esp_container.Runtime.Types.{
  Engine, Host, Outcome, success, failure, RuntimeError, invalid_input, no_memory, Timer,
}
use esp_container.Runtime.Timers.{set_timer}
use esp_container.Runtime.Entry.{Done, event_at, place_event, call_event}
use esp_container.Runtime.Calls.{TimerEvent, after_timer, refuse}
use esp_container.Runtime.Start.{timer_at, set_timer-again}
use esp_container.Runtime.Ended.{EntryRun, refused, overran, faulted, returned, invoke-EntryRun}

-- An event is turned away before the guest runs, and nothing has changed; or it reaches the guest.
pub data Evented {W : Type 0} (engine : Engine W) (h : Host) (o : Outcome ℕ) (h' : Host)
    : Type 0 where
  barred :
      (e : RuntimeError)
      → o ≡ failure e
      → (e ≡ invalid_input) ⊎ (e ≡ no_memory)
      → h' ≡ h
      → Evented engine h o h'
  reached : EntryRun engine h o h' → Evented engine h o h'

-- No entry ends for want of memory.
EntryRun-no_memory :
    {W : Type 0} {engine : Engine W} (h : Host) (o : Outcome ℕ) (h' : Host)
    → EntryRun engine h o h'
    → o ≢ failure no_memory
EntryRun-no_memory h o h' (refused e q) p = cc
EntryRun-no_memory h o h' (overran began t r e q) p = cc
EntryRun-no_memory h o h' (faulted began t x r e (inl k) q) p = cc
EntryRun-no_memory h o h' (faulted began t x r e (inr k) q) p = cc
EntryRun-no_memory h o h' (returned began t v r e q) p = cc

pub Evented-no_memory :
    {W : Type 0} {engine : Engine W} (h : Host) (o : Outcome ℕ) (h' : Host)
    → Evented engine h o h'
    → o ≡ failure no_memory
    → h' ≡ h
Evented-no_memory h o h' (barred e p k q) m = q
Evented-no_memory h o h' (reached i) m = absurd (EntryRun-no_memory h o h' i m)

module _ {W : Type 0} (engine : Engine W) where
  event_at-EntryRun :
      (offset : ℕ) (event : List ℕ) (h : Host) (w : W)
      → let d = event_at engine offset event h w in EntryRun engine h d.outcome d.host
  unfolding event_at
  event_at-EntryRun offset event h w = invoke-EntryRun engine _ _ _ h _

  place_event-Evented :
      (event : List ℕ) (h : Host) (w : W)
      → let d = place_event engine event h w in Evented engine h d.outcome d.host
  unfolding place_event
  place_event-Evented event h w =
      let a = (engine.module_malloc (length event) w).0 in
      if_split (a.offset == 0 || ltb u32_max a.offset || not a.has_address) _ _
        (λ (d : Done W ℕ). Evented engine h d.outcome d.host)
        (λ bad. barred no_memory refl (inr refl) refl)
        (λ fine. reached (event_at-EntryRun a.offset event h _))

  pub call_event-Evented :
      (event : List ℕ) (h : Host) (w : W)
      → let d = call_event engine event h w in Evented engine h d.outcome d.host
  unfolding call_event
  call_event-Evented event h w =
      if_split (ltb h.runtime.limits.max_event_bytes (length event)) _ _
        (λ (d : Done W ℕ). Evented engine h d.outcome d.host)
        (λ bad. barred invalid_input refl (inl refl) refl)
        (λ fits.
          if_split (length event == 0) _ _ (λ (d : Done W ℕ). Evented engine h d.outcome d.host)
            (λ nil. reached (invoke-EntryRun engine _ _ _ h w))
            (λ more. place_event-Evented event h w))

-- The host in which the timer of a slot has moved on.
unfoldable pub with_timer : Host → ℕ → Timer → Host
with_timer h slot t = record h {
  runtime = record (h.runtime) { timers = set_timer h.runtime.timers slot t };
}

-- The timer is put back where it was.
pub with_timer-again :
    (h : Host) (slot : ℕ) (t u : Timer)
    → timer_at h.runtime.timers slot ≡ some t
    → with_timer (with_timer h slot u) slot t ≡ h
unfolding with_timer
with_timer-again h slot t u e =
    ap (λ ts. record h { runtime = record (h.runtime) { timers = ts } })
      (set_timer-again h.runtime.timers slot t u e)

abbrev timer_done : {W : Type 0} → ℕ → Timer → ℕ → Outcome ℕ → Host → W → Done W TimerEvent
timer_done slot t skipped o h w =
    after_timer slot t skipped (record { outcome = o; host = h; world = w })

-- After the event: for want of memory the timer is put back, and else the host is that of the entry.
pub after_timer-host :
    {W : Type 0} (slot : ℕ) (t : Timer) (skipped : ℕ) (o : Outcome ℕ) (h : Host) (w : W)
    → ((timer_done slot t skipped o h w).outcome ≢ failure no_memory)
        × ((timer_done slot t skipped o h w).host ≡ h)
      ⊎ (o ≡ failure no_memory) × ((timer_done slot t skipped o h w).host ≡ with_timer h slot t)
unfolding after_timer with_timer refuse
after_timer-host slot t skipped (success v) h w = inl (λ p. cc, refl)
after_timer-host slot t skipped (failure no_memory) h w = inr (refl, refl)
after_timer-host slot t skipped (failure e) h w = inl (λ p. cc, refl)
