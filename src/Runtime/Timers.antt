-- ===== src/Runtime/Timers.antt =====
-- The timer table of runtime.c: the loops over its first `max_timers` elements.
use esp_container.Common.{
  ℕ, zero, suc, ◌+◌, ◌-◌, ◌/◌, ◌%◌, false, not, ◌&&◌, ltb, leb, ◌==◌, if◌then◌else◌, List, [], ◌∷◌,
  Option, none, some,
}
use mathlib.Core.Option
use esp_container.Slots.Types.{u32_max}
use esp_container.Runtime.Types.{Timer, u64_max}

-- A write past the end of the table changes nothing.
abbrev pub set_timer : List Timer → ℕ → Timer → List Timer
set_timer [] i t = []
set_timer (x ∷ xs) zero t = t ∷ xs
set_timer (x ∷ xs) (suc i) t = x ∷ set_timer xs i t

-- The first inactive timer; `none` for `slot == max_timers`.
unfoldable pub find_free : ℕ → List Timer → Option ℕ
find_free zero ts = none
find_free (suc n) [] = none
find_free (suc n) (t ∷ ts) = if not t.active then some 0 else Option.map suc (find_free n ts)

-- The active timer with the handle.
unfoldable pub find_handle : ℕ → ℕ → List Timer → Option ℕ
find_handle zero handle ts = none
find_handle (suc n) handle [] = none
find_handle (suc n) handle (t ∷ ts) =
    if t.active && t.handle == handle then some 0 else Option.map suc (find_handle n handle ts)

-- `runtime->timers[index].active = false`
unfoldable pub deactivate : List Timer → ℕ → List Timer
deactivate [] i = []
deactivate (t ∷ ts) zero = record t { active = false } ∷ ts
deactivate (t ∷ ts) (suc i) = t ∷ deactivate ts i

unfoldable pub deactivate_all : ℕ → List Timer → List Timer
deactivate_all zero ts = ts
deactivate_all (suc n) [] = []
deactivate_all (suc n) (t ∷ ts) = record t { active = false } ∷ deactivate_all n ts

-- The earliest deadline of an active timer, UINT64_MAX at first.
unfoldable pub earliest_deadline : ℕ → ℕ → List Timer → ℕ
earliest_deadline zero earliest ts = earliest
earliest_deadline (suc n) earliest [] = earliest
earliest_deadline (suc n) earliest (t ∷ ts) =
    earliest_deadline n (if t.active && ltb t.deadline_ms earliest then t.deadline_ms else earliest)
      ts

-- The loop of `poll_timer`, from `index` on: the timer that is selected so far, with its index.
unfoldable pub select_due : ℕ → ℕ → ℕ → Option (ℕ × Timer) → ℕ → List Timer → Option (ℕ × Timer)
select_due zero now index selected earliest ts = selected
select_due (suc n) now index selected earliest [] = selected
select_due (suc n) now index selected earliest (t ∷ ts) =
    let due = t.active && leb t.deadline_ms now && ltb t.deadline_ms earliest in
    select_due n now (index + 1) (if due then some (index, t) else selected)
      (if due then t.deadline_ms else earliest) ts

-- The periods that are skipped, at most UINT32_MAX.
unfoldable pub skipped_periods : ℕ → Timer → ℕ
skipped_periods now t =
    let missed = (now - t.deadline_ms) / t.period_ms in
    if t.period_ms == 0 then 0 else if ltb u32_max missed then u32_max else missed

-- The timer once it has fired at `now`: ended, or moved to its next period.
unfoldable pub rearmed : ℕ → Timer → Timer
rearmed now t =
    let until_next = t.period_ms - (now - t.deadline_ms) % t.period_ms in
    if t.period_ms == 0
    then record t { active = false }
    else if ltb (u64_max - until_next) now
    then record t { active = false }
    else record t { deadline_ms = now + until_next }
