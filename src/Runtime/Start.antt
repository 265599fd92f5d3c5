-- ===== src/Runtime/Start.antt =====
-- The table when `native_timer_start` puts a new timer into it.
use esp_container.Common.{
  ℕ, zero, suc, ◌<◌, ◌≡◌, ◌≢◌, refl, sym, ap, ◌∙◌, inl, inr, true, List, [], ◌∷◌, Option, none,
  some, length, drop, All, arith, Bool-cases,
}
use mathlib.Core.Option
use mathlib.Core.Option.{some-injective}
use esp_container.Runtime.Types.{Timer}
use esp_container.Runtime.Timers.{set_timer, find_free}
use esp_container.Runtime.Table.{IsIssued, IsApart, AllApart, IsTable, IsIdle}

-- The timer of an index.
unfoldable pub timer_at : List Timer → ℕ → Option Timer
timer_at [] i = none
timer_at (t ∷ ts) zero = some t
timer_at (t ∷ ts) (suc i) = timer_at ts i

set_timer-length : (ts : List Timer) (i : ℕ) (t : Timer) → length (set_timer ts i t) ≡ length ts
set_timer-length [] i t = refl
set_timer-length (x ∷ xs) zero t = refl
set_timer-length (x ∷ xs) (suc i) t = ap suc (set_timer-length xs i t)

-- The timers behind the slot stay.
pub set_timer-drop :
    (n : ℕ) (ts : List Timer) (i : ℕ) (t : Timer) → i < n → drop n (set_timer ts i t) ≡ drop n ts
set_timer-drop zero ts i t h = absurd (omega arith)
set_timer-drop (suc n) [] i t h = refl
set_timer-drop (suc n) (x ∷ xs) zero t h = refl
set_timer-drop (suc n) (x ∷ xs) (suc i) t h = set_timer-drop n xs i t (omega arith)

set_timer-All :
    (P : Timer → Type 0) (ts : List Timer) (i : ℕ) (t : Timer)
    → All P ts
    → P t
    → All P (set_timer ts i t)
set_timer-All P [] i t h p = tt
set_timer-All P (x ∷ xs) zero t (k, h) p = (p, h)
set_timer-All P (x ∷ xs) (suc i) t (k, h) p = (k, set_timer-All P xs i t h p)

IsIssued-suc :
    (limit : ℕ) (ts : List Timer) → All (IsIssued limit) ts → All (IsIssued (suc limit)) ts
IsIssued-suc limit [] h = tt
IsIssued-suc limit (t ∷ ts) (i, h) =
    (λ a. ((i a).0, omega (arith, (i a).1)), IsIssued-suc limit ts h)

apart_newest :
    (limit : ℕ) (t u : Timer)
    → t.handle ≡ limit
    → IsIssued limit u
    → u.active ≡ true
    → u.handle ≢ t.handle
apart_newest limit t u e i a q = omega (arith, e, q, (i a).1)

newest_away :
    (limit : ℕ) (t : Timer) (ts : List Timer)
    → t.handle ≡ limit
    → All (IsIssued limit) ts
    → All (IsApart t) ts
newest_away limit t [] e h = tt
newest_away limit t (u ∷ us) e (i, h) =
    (λ p q r. apart_newest limit t u e i q (sym r), newest_away limit t us e h)

set_timer-AllApart :
    (limit : ℕ) (ts : List Timer) (i : ℕ) (t : Timer)
    → t.handle ≡ limit
    → All (IsIssued limit) ts
    → AllApart ts
    → AllApart (set_timer ts i t)
set_timer-AllApart limit [] i t e h k = tt
set_timer-AllApart limit (x ∷ xs) zero t e (j, h) (a, k) = (newest_away limit t xs e h, k)
set_timer-AllApart limit (x ∷ xs) (suc i) t e (j, h) (a, k) = (
  set_timer-All (IsApart x) xs i t a (λ p q. apart_newest limit t x e j p),
  set_timer-AllApart limit xs i t e h k,
)

-- A timer with the next handle, wherever it is put, leaves the table in order.
pub set_timer-IsTable :
    (limit : ℕ) (ts : List Timer) (i : ℕ) (t : Timer)
    → 0 < limit
    → t.handle ≡ limit
    → IsTable limit ts
    → IsTable (suc limit) (set_timer ts i t)
set_timer-IsTable limit ts i t pos e k = record {
  size = set_timer-length ts i t ∙ k.size;
  issued =
      set_timer-All (IsIssued (suc limit)) ts i t (IsIssued-suc limit ts k.issued)
        (λ a. (omega arith, omega arith));
  apart = set_timer-AllApart limit ts i t e k.issued k.apart;
}

-- A timer that goes back to where it was.
pub set_timer-again :
    (ts : List Timer) (i : ℕ) (t u : Timer)
    → timer_at ts i ≡ some t
    → set_timer (set_timer ts i u) i t ≡ ts
unfolding timer_at
set_timer-again [] i t u h = refl
set_timer-again (x ∷ xs) zero t u h = ap (λ y. y ∷ xs) (sym (some-injective _ _ h))
set_timer-again (x ∷ xs) (suc i) t u h = ap (◌∷◌ x) (set_timer-again xs i t u h)

pub map_suc-some :
    (o : Option ℕ) (i : ℕ) → Option.map suc o ≡ some i → (j : ℕ) × (o ≡ some j) × (i ≡ suc j)
map_suc-some none i h = absurd (ground arith)
map_suc-some (some j) i h = (j, refl, sym (some-injective _ _ h))

-- A free slot is one of the first ones, and its timer is not active.
pub find_free-IsIdle :
    (n : ℕ) (ts : List Timer) (i : ℕ)
    → find_free n ts ≡ some i
    → (i < n) × ((t : Timer) × (timer_at ts i ≡ some t) × IsIdle t)
unfolding find_free timer_at
find_free-IsIdle zero ts i h = absurd (ground arith)
find_free-IsIdle (suc n) [] i h = absurd (ground arith)
find_free-IsIdle (suc n) (t ∷ ts) zero h = elim (Bool-cases t.active) [
  | inr idle ↦ (omega arith, (t, refl, idle))
  | inl busy ↦
      let (j, e, q) = map_suc-some (find_free n ts) 0 (rw busy at h) in absurd (omega (arith, q))
]
find_free-IsIdle (suc n) (t ∷ ts) (suc i) h = elim (Bool-cases t.active) [
  | inr idle ↦ absurd (omega (arith, some-injective _ _ (rw idle at h)))
  | inl busy ↦
      let (j, e, q) = map_suc-some (find_free n ts) (suc i) (rw busy at h) in
      let (lt, found) = find_free-IsIdle n ts i (e ∙ ap some (omega (arith, q))) in
      (omega (arith, lt), found)
]
