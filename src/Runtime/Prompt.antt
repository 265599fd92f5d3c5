-- ===== src/Runtime/Prompt.antt =====
-- The deadline that `next_timer_deadline` gives, and what `poll_timer` does once it has come.
use esp_container.Common.{
  ℕ, ◌≤◌, ◌≡◌, ◌≢◌, refl, sym, ap, ◌∙◌, true, false, not, ◌==◌, none, some, All, take, drop, List,
  [], ◌∷◌, arith, if_split,
}
use mathlib.Core.Path.{subst}
use esp_container.Runtime.Types.{Engine, Host, Limits, running, is_running, success, Timer, u64_max}
use esp_container.Runtime.Timers.{earliest_deadline, select_due}
use esp_container.Runtime.Host.{monotonic_ms}
use esp_container.Runtime.Entry.{Done}
use esp_container.Runtime.Calls.{
  with_call_active, refuse, claimed, nearest_deadline, runtime_next_timer_deadline, fire_timer,
  poll_at, poll_body, runtime_poll_timer,
}
use esp_container.Runtime.Due.{
  IsDue, select_due-IsDue, select_due-earliest_deadline, earliest_deadline-least,
}
use esp_container.Runtime.Effects.{running_of}
use esp_container.Runtime.Start.{timer_at}
use esp_container.Runtime.Table.{IsIdle, All-split}
use esp_container.Runtime.Frame.{IsHost}

-- The deadline that the loop over the timers in use finds.
record IsEarliest (h : Host) (d : ℕ) : Type 0 where
  pub state : h.runtime.state ≡ running
  pub earliest : earliest_deadline h.runtime.limits.max_timers u64_max h.runtime.timers ≡ d
  pub exists : d ≢ u64_max
  pub least :
      All
        (λ t. t.active ≡ true → d ≤ t.deadline_ms)
        (take h.runtime.limits.max_timers h.runtime.timers)

-- What a successful answer of `d` means.
abbrev Answers : {W : Type 0} → Host → ℕ → Done W ℕ → Type 0
Answers h d r = r.outcome ≡ success d → IsEarliest h d

nearest_deadline-Answers :
    {W : Type 0} (h : Host) (w : W) (d : ℕ) → Answers h d (nearest_deadline h w)
unfolding nearest_deadline refuse
nearest_deadline-Answers {W} h w d =
    let n = h.runtime.limits.max_timers in
    let earliest = earliest_deadline n u64_max h.runtime.timers in
    if_split (not (is_running h.runtime.state)) _ _ (Answers h d) (λ other p. absurd cc)
      (λ on.
        if_split (earliest == u64_max) _ _ (Answers h d) (λ none_active p. absurd cc)
          (λ found p.
            let same : earliest ≡ d = cc in
            record {
              state = running_of h.runtime.state (ground arith);
              earliest = same;
              exists = λ z. ground arith;
              least =
                  subst
                    (λ x. All (λ t. t.active ≡ true → x ≤ t.deadline_ms) (take n h.runtime.timers))
                    same (earliest_deadline-least n u64_max h.runtime.timers);
            }))

-- Nothing of `call_active` matters for the deadline.
active_IsEarliest : (h : Host) (d : ℕ) → IsEarliest (with_call_active true h) d → IsEarliest h d
unfolding with_call_active
active_IsEarliest h d n = record {
  state = n.state;
  earliest = n.earliest;
  exists = n.exists;
  least = n.least;
}

module _ {W : Type 0} (engine : Engine W) where
  deadline-IsEarliest :
      (h : Host) (w : W) (d : ℕ)
      → (runtime_next_timer_deadline engine h w).outcome ≡ success d
      → IsEarliest h d
  unfolding runtime_next_timer_deadline claimed refuse
  deadline-IsEarliest h w d e =
      if_split h.runtime.call_active _ _ (Answers h d) (λ active p. absurd cc)
        (λ free p. active_IsEarliest h d (nearest_deadline-Answers (with_call_active true h) w d p))
        e

  -- With a timer selected, `poll_timer` fires it.
  poll_at-fires :
      (h : Host) (w : W) (now i : ℕ) (t : Timer)
      → select_due h.runtime.limits.max_timers now 0 none u64_max h.runtime.timers ≡ some (i, t)
      → poll_at engine now h w ≡ fire_timer engine i t now h w
  unfolding poll_at
  poll_at-fires h w now i t e = rw (poll_at, e) refl

  poll_body-fires :
      (h : Host) (w : W) (now i : ℕ) (t : Timer)
      → h.runtime.state ≡ running
      → (monotonic_ms engine w).0 ≡ some now
      → select_due h.runtime.limits.max_timers now 0 none u64_max h.runtime.timers ≡ some (i, t)
      → poll_body engine h w ≡ fire_timer engine i t now h (monotonic_ms engine w).1
  unfolding poll_body
  poll_body-fires h w now i t p clock e =
      if_split (not (is_running h.runtime.state)) _ _
        (λ d. d ≡ fire_timer engine i t now h (monotonic_ms engine w).1)
        (λ other. absurd (off p (ground arith)))
        (λ on. rw clock (poll_at-fires h (monotonic_ms engine w).1 now i t e))
    where
      off : h.runtime.state ≡ running → is_running h.runtime.state ≡ false → ⊥
      off q r = absurd (ground (arith, sym r ∙ ap is_running q))

  claimed-same :
      {A : Type 0} (f g : Host → W → Done W A) (h : Host) (u w : W)
      → f (with_call_active true h) u ≡ g (with_call_active true h) w
      → h.runtime.call_active ≡ false
      → claimed f h u ≡ claimed g h w
  unfolding claimed
  claimed-same {A} f g h u w e free =
      if_split h.runtime.call_active _ _ (λ (d : Done W A). d ≡ claimed g h w)
        (λ active. absurd (ground arith))
        (λ idle.
          if_split h.runtime.call_active _ _
            (λ d.
              record (f (with_call_active true h) u) {
                host = with_call_active false (f (with_call_active true h) u).host;
              }
              ≡ d)
            (λ active. absurd (ground arith))
            (λ still. ap (λ (d : Done W A). record d { host = with_call_active false d.host }) e))

  -- For every guest, clock and memory behind WAMR: where no call is active, next_timer_deadline has
  -- answered a deadline, and poll_timer reads a time that is not before it, poll_timer fires an
  -- active timer with just that deadline.
  pub runtime_poll_timer-delivers :
      (h : Host) (w u : W) (d now : ℕ)
      → h.runtime.call_active ≡ false
      → (runtime_next_timer_deadline engine h u).outcome ≡ success d
      → (monotonic_ms engine w).0 ≡ some now
      → d ≤ now
      → (i : ℕ) × (t : Timer) × IsDue h.runtime.limits.max_timers now h.runtime.timers i t
        × (t.deadline_ms ≡ d)
        × (runtime_poll_timer engine h w
            ≡ claimed (fire_timer engine i t now) h (monotonic_ms engine w).1)
  unfolding runtime_poll_timer
  runtime_poll_timer-delivers h w u d now free e clock le =
      let n = deadline-IsEarliest h u d e in
      let (i, t, found) =
        (select_due-earliest_deadline h.runtime.limits.max_timers now h.runtime.timers
            (λ z. n.exists (sym n.earliest ∙ z))).0
          (omega (arith, n.earliest, le)) in
      let (due, first) =
        select_due-IsDue h.runtime.limits.max_timers now h.runtime.timers i t found in
      (
        i,
        t,
        due,
        first ∙ n.earliest,
        claimed-same (poll_body engine) (fire_timer engine i t now) h w (monotonic_ms engine w).1
            (unfold with_call_active in
              poll_body-fires (with_call_active true h) w now i t n.state clock found)
            free,
      )

-- The runtime runs, an active timer of it has the deadline, and none of its table an earlier one.
pub record IsNext (h : Host) (d : ℕ) : Type 0 where
  pub state : h.runtime.state ≡ running
  pub attained :
      (i : ℕ) × (t : Timer) × (timer_at h.runtime.timers i ≡ some t)
      × (t.active ≡ true)
      × (t.deadline_ms ≡ d)
  pub least : All (λ t. t.active ≡ true → d ≤ t.deadline_ms) h.runtime.timers

idle_later :
    (d : ℕ) (ts : List Timer) → All IsIdle ts → All (λ t. t.active ≡ true → d ≤ t.deadline_ms) ts
idle_later d [] h = tt
idle_later d (t ∷ ts) (p, h) = (λ a. absurd (ground arith), idle_later d ts h)

module _ {W : Type 0} (engine : Engine W) where
  -- Where next_timer_deadline answers a deadline for a runtime in order, the runtime runs, an
  -- active timer in its table has that deadline, and none in its table an earlier one.
  pub runtime_next_timer_deadline-IsNext :
      (l : Limits) (h : Host) (w : W) (d : ℕ)
      → IsHost l h
      → (runtime_next_timer_deadline engine h w).outcome ≡ success d
      → IsNext h d
  runtime_next_timer_deadline-IsNext l h w d k e =
      let n = deadline-IsEarliest engine h w d e in
      let (i, t, found) =
        (select_due-earliest_deadline h.runtime.limits.max_timers d h.runtime.timers
            (λ z. n.exists (sym n.earliest ∙ z))).0
          (omega (arith, n.earliest)) in
      let (due, first) =
        select_due-IsDue h.runtime.limits.max_timers d h.runtime.timers i t found in
      record {
        state = n.state;
        attained = (i, t, due.place, due.active, first ∙ n.earliest);
        least = All-split _ h.runtime.limits.max_timers h.runtime.timers n.least (
            idle_later d _ (
              subst (λ m. All IsIdle (drop m.max_timers h.runtime.timers)) (sym k.limits)
                k.beyond));
      }
