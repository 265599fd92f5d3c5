-- ===== src/Runtime/Due.antt =====
-- Which timer is due: the loops of `poll_timer` and of `next_timer_deadline`.
use esp_container.Common.{
  ℕ, zero, suc, ◌+◌, ◌≤◌, ◌<◌, ◌≡◌, ◌≢◌, refl, sym, ap, ◌∙◌, ◌↔◌, inl, inr, Bool, true, false, ◌&&◌,
  ltb, leb, if◌then◌else◌, List, [], ◌∷◌, Option, none, some, All, take, arith, Bool-cases,
  none-some,
}
use mathlib.Core.Path.{subst}
use mathlib.Core.Option.{some-injective}
use esp_container.Runtime.Types.{Timer, u64_max}
use esp_container.Runtime.Timers.{earliest_deadline, select_due}
use esp_container.Runtime.Start.{timer_at}

-- An active timer that is due at `now`, one of the first `n`.
pub record IsDue (n now : ℕ) (ts : List Timer) (i : ℕ) (t : Timer) : Type 0 where
  pub place : timer_at ts i ≡ some t
  pub within : i < n
  pub active : t.active ≡ true
  pub due : t.deadline_ms ≤ now

-- Of the deadlines that the two loops hold, that of `poll_timer` is the other one where it is due.
abbrev Agree : ℕ → ℕ → ℕ → Type 0
Agree now e m = (m ≤ now → e ≡ m) × (now < m → now < e)

-- The loop of `poll_timer`, from a table on whose timers are numbered from `index`: it keeps what
-- it had, or takes the earliest timer that is due.
data Selection (n now index : ℕ) (ts : List Timer) (before : Option (ℕ × Timer)) (e m : ℕ)
    (after : Option (ℕ × Timer)) : Type 0 where
  unmoved : after ≡ before → (m ≤ now → e ≡ m) → Selection n now index ts before e m after
  picked :
      (i : ℕ) (t : Timer)
      → after ≡ some (index + i, t)
      → IsDue n now ts i t
      → t.deadline_ms ≡ m
      → m < e
      → Selection n now index ts before e m after

abbrev is_earlier : ℕ → Timer → Bool
is_earlier m t = t.active && ltb t.deadline_ms m

abbrev is_better : ℕ → ℕ → Timer → Bool
is_better now e t = t.active && leb t.deadline_ms now && ltb t.deadline_ms e

earliest_deadline-below : (n m : ℕ) (ts : List Timer) → earliest_deadline n m ts ≤ m
unfolding earliest_deadline
earliest_deadline-below zero m ts = omega arith
earliest_deadline-below (suc n) m [] = omega arith
earliest_deadline-below (suc n) m (t ∷ ts) =
    let rest = earliest_deadline-below n (if is_earlier m t then t.deadline_ms else m) ts in
    ground arith

Agree-better :
    (now e m : ℕ) (t : Timer)
    → Agree now e m
    → is_better now e t ≡ true
    → (if is_earlier m t then t.deadline_ms else m) ≡ t.deadline_ms
Agree-better now e m t (a, b) h = ground arith

Agree-other :
    (now e m : ℕ) (t : Timer)
    → Agree now e m
    → is_better now e t ≡ false
    → Agree now e (if is_earlier m t then t.deadline_ms else m)
Agree-other now e m t (a, b) h = (λ p. ground arith, λ p. ground arith)

later_IsDue :
    (n now i : ℕ) (t u : Timer) (ts : List Timer)
    → IsDue n now ts i t
    → IsDue (suc n) now (u ∷ ts) (suc i) t
unfolding timer_at
later_IsDue n now i t u ts d = record {
  place = d.place;
  within = omega (arith, d.within);
  active = d.active;
  due = d.due;
}

first_IsDue :
    (n now e : ℕ) (t : Timer) (ts : List Timer)
    → is_better now e t ≡ true
    → IsDue (suc n) now (t ∷ ts) 0 t
unfolding timer_at
first_IsDue n now e t ts h = record {
  place = refl;
  within = omega arith;
  active = ground arith;
  due = ground arith;
}

Selection-next :
    (n now index e m : ℕ) (t : Timer) (ts : List Timer) (before after : Option (ℕ × Timer))
    → Selection n now (index + 1) ts before e m after
    → Selection (suc n) now index (t ∷ ts) before e m after
Selection-next n now index e m t ts before after (unmoved p q) = unmoved p q
Selection-next n now index e m t ts before after (picked i u p d q lt) =
    picked (suc i) u (p ∙ ap (λ k. some (k, u)) (omega arith)) (later_IsDue n now i u t ts d) q lt

Selection-first :
    (n now index e m : ℕ) (t : Timer) (ts : List Timer) (before after : Option (ℕ × Timer))
    → is_better now e t ≡ true
    → m ≤ t.deadline_ms
    → Selection n now (index + 1) ts (some (index, t)) t.deadline_ms m after
    → Selection (suc n) now index (t ∷ ts) before e m after
Selection-first n now index e m t ts before after h b (unmoved p q) =
    let d = first_IsDue n now e t ts h in
    let same : t.deadline_ms ≡ m = q (omega (arith, b, d.due)) in
    picked 0 t (p ∙ ap (λ k. some (k, t)) (omega arith)) d same (omega (arith, same, earlier))
  where
    earlier : t.deadline_ms < e
    earlier = ground arith
Selection-first n now index e m t ts before after h b (picked i u p d q lt) =
    picked (suc i) u (p ∙ ap (λ k. some (k, u)) (omega arith)) (later_IsDue n now i u t ts d) q
      (omega (arith, lt, earlier))
  where
    earlier : t.deadline_ms < e
    earlier = ground arith

select_due-Selection :
    (n now index e m : ℕ) (before : Option (ℕ × Timer)) (ts : List Timer)
    → Agree now e m
    → Selection n now index ts before e
        (earliest_deadline n m ts)
        (select_due n now index before e ts)
unfolding select_due earliest_deadline
select_due-Selection zero now index e m before ts (a, b) = unmoved refl a
select_due-Selection (suc n) now index e m before [] (a, b) = unmoved refl a
select_due-Selection (suc n) now index e m before (t ∷ ts) g =
    elim (Bool-cases (is_better now e t)) [
      | inr other ↦ rw other (
          Selection-next n now index e _ t ts before _
            (select_due-Selection n now (index + 1) e _ before ts (Agree-other now e m t g other)))
      | inl better ↦
          let same = Agree-better now e m t g better in
          rw (better, same)
            (Selection-first n now index e _ t ts before _ better
              (earliest_deadline-below n t.deadline_ms ts)
              (select_due-Selection n now (index + 1) t.deadline_ms t.deadline_ms (some (index, t))
                ts (λ p. refl, λ p. p)))
    ]

-- The whole loop, from nothing selected.
polled :
    (n now : ℕ) (ts : List Timer)
    → Selection n now 0 ts none u64_max
        (earliest_deadline n u64_max ts)
        (select_due n now 0 none u64_max ts)
polled n now ts = select_due-Selection n now 0 u64_max u64_max none ts (λ p. refl, λ p. p)

numbered : {i : ℕ} {t : Timer} {o : Option (ℕ × Timer)} → o ≡ some (0 + i, t) → o ≡ some (i, t)
numbered {i} {t} p = p ∙ ap (λ k. some (k, t)) (omega arith)

polled_IsDue :
    (n now m : ℕ) (ts : List Timer) (o : Option (ℕ × Timer)) (i : ℕ) (t : Timer)
    → Selection n now 0 ts none u64_max m o
    → o ≡ some (i, t)
    → IsDue n now ts i t × (t.deadline_ms ≡ m)
polled_IsDue n now m ts o i t (unmoved p q) e = none-some (sym p ∙ e)
polled_IsDue n now m ts o i t (picked j u p d q lt) e =
    let same = some-injective _ _ (sym (numbered p) ∙ e) in
    subst (λ (x : ℕ × Timer). IsDue n now ts x.0 x.1 × (x.1.deadline_ms ≡ m)) same (d, q)

pub select_due-IsDue :
    (n now : ℕ) (ts : List Timer) (i : ℕ) (t : Timer)
    → select_due n now 0 none u64_max ts ≡ some (i, t)
    → IsDue n now ts i t × (t.deadline_ms ≡ earliest_deadline n u64_max ts)
select_due-IsDue n now ts i t e = polled_IsDue n now _ ts _ i t (polled n now ts) e

polled_iff :
    (n now m : ℕ) (ts : List Timer) (o : Option (ℕ × Timer))
    → m ≢ u64_max
    → Selection n now 0 ts none u64_max m o
    → (m ≤ now) ↔ ((i : ℕ) × (t : Timer) × (o ≡ some (i, t)))
polled_iff n now m ts o b (unmoved p q) =
    (λ le. absurd (b (sym (q le))), λ (i, t, e). none-some (sym p ∙ e))
polled_iff n now m ts o b (picked i t p d q lt) =
    (λ le. (i, t, numbered p), λ _. omega (arith, d.due, q))

-- Where some deadline is below UINT64_MAX, the loop of poll_timer selects a timer just when the
-- deadline that the loop of next_timer_deadline finds has come.
pub select_due-earliest_deadline :
    (n now : ℕ) (ts : List Timer)
    → earliest_deadline n u64_max ts ≢ u64_max
    → (earliest_deadline n u64_max ts ≤ now)
      ↔ ((i : ℕ) × (t : Timer) × (select_due n now 0 none u64_max ts ≡ some (i, t)))
select_due-earliest_deadline n now ts b = polled_iff n now _ ts _ b (polled n now ts)

-- No active timer has an earlier deadline.
pub earliest_deadline-least :
    (n m : ℕ) (ts : List Timer)
    → All (λ t. t.active ≡ true → earliest_deadline n m ts ≤ t.deadline_ms) (take n ts)
unfolding earliest_deadline
earliest_deadline-least zero m ts = tt
earliest_deadline-least (suc n) m [] = tt
earliest_deadline-least (suc n) m (t ∷ ts) =
    let rest = earliest_deadline-below n (if is_earlier m t then t.deadline_ms else m) ts in
    (λ a. ground arith, earliest_deadline-least n (if is_earlier m t then t.deadline_ms else m) ts)
