-- ===== src/Runtime/Rearm.antt =====
-- The timer that fires in `poll_timer`: its next deadline, and the periods that it skips.
use native.Mathlib.Nat.{mod-lt, div-add-mod}
use esp_container.Common.{
  ℕ, zero, suc, ◌+◌, ◌-◌, ◌*◌, ◌/◌, ◌%◌, ◌≤◌, ◌<◌, ◌≡◌, refl, false, ltb, ◌==◌, List, [], ◌∷◌,
  arith, if_split, sym, some,
}
use mathlib.Core.Path.{subst}
use mathlib.Core.Option.{some-injective}
use esp_container.Slots.Types.{u32_max}
use esp_container.Runtime.Types.{Timer, u64_max}
use esp_container.Runtime.Timers.{set_timer, rearmed}
use esp_container.Runtime.Table.{IsFewer, AllFewer, AllFewer-refl}
use esp_container.Runtime.Start.{timer_at}

-- A timer without a period, or whose next deadline does not fit 64 bits, has ended. Another one
-- moves by whole periods to the first deadline that lies after now.
pub data IsRearmed (now : ℕ) (t t' : Timer) : Type 0 where
  single : t.period_ms ≡ 0 → t' ≡ record t { active = false } → IsRearmed now t t'
  out_of_time :
      0 < t.period_ms
      → u64_max < t.deadline_ms + t.period_ms * ((now - t.deadline_ms) / t.period_ms) + t.period_ms
      → t' ≡ record t { active = false }
      → IsRearmed now t t'
  moved :
      (d : ℕ)
      → d ≡ t.deadline_ms + t.period_ms * ((now - t.deadline_ms) / t.period_ms) + t.period_ms
      → now < d
      → d ≤ now + t.period_ms
      → d ≤ u64_max
      → t' ≡ record t { deadline_ms = d }
      → IsRearmed now t t'

-- A timer that is due at a time of 64 bits, with a period of 32 bits, ends if it has no period or
-- its next deadline exceeds 64 bits, and else moves by whole periods to the first deadline after
-- that time.
pub rearmed-IsRearmed :
    (now : ℕ) (t : Timer)
    → t.deadline_ms ≤ now
    → now ≤ u64_max
    → t.period_ms ≤ u32_max
    → IsRearmed now t (rearmed now t)
unfolding rearmed
rearmed-IsRearmed now t due bound fits32 =
    if_split (t.period_ms == 0) _ _ (IsRearmed now t) (λ p. single (ground arith) refl)
      (λ p.
        let pos : 0 < t.period_ms = ground arith in
        let part = mod-lt (now - t.deadline_ms) pos in
        let whole = div-add-mod (now - t.deadline_ms) t.period_ms in
        if_split (ltb (u64_max - (t.period_ms - (now - t.deadline_ms) % t.period_ms)) now) _ _
          (IsRearmed now t)
          (λ late.
            let over : u64_max - (t.period_ms - (now - t.deadline_ms) % t.period_ms) < now =
              ground arith in
            out_of_time pos (omega (arith, part, whole, over)) refl)
          (λ fits.
            let within : now ≤ u64_max - (t.period_ms - (now - t.deadline_ms) % t.period_ms) =
              ground arith in
            moved (now + (t.period_ms - (now - t.deadline_ms) % t.period_ms))
              (omega (arith, part, whole)) (omega (arith, part)) (omega arith)
              (omega (arith, part, within)) refl))

rearmed-IsFewer : (now : ℕ) (t : Timer) → IsFewer t (rearmed now t)
unfolding rearmed
rearmed-IsFewer now t =
    if_split (t.period_ms == 0) _ _ (IsFewer t) (λ p. (refl, λ a. absurd (ground arith)))
      (λ p.
        if_split (ltb (u64_max - (t.period_ms - (now - t.deadline_ms) % t.period_ms)) now) _ _
          (IsFewer t) (λ late. (refl, λ a. absurd (ground arith))) (λ fits. (refl, λ a. a)))

-- The table in which a timer has moved.
pub rearmed-AllFewer :
    (ts : List Timer) (i : ℕ) (t : Timer) (now : ℕ)
    → timer_at ts i ≡ some t
    → AllFewer ts (set_timer ts i (rearmed now t))
unfolding timer_at
rearmed-AllFewer [] i t now e = tt
rearmed-AllFewer (x ∷ xs) zero t now e = (
  subst (λ y. IsFewer y (rearmed now t)) (sym (some-injective _ _ e)) (rearmed-IsFewer now t),
  AllFewer-refl xs,
)
rearmed-AllFewer (x ∷ xs) (suc i) t now e = ((refl, λ a. a), rearmed-AllFewer xs i t now e)
