-- ===== src/Runtime/Table.antt =====
-- What the table of the timers keeps: its length, and handles that no two active timers share.
use esp_container.Common.{
  ℕ, zero, suc, ◌^◌, ◌<◌, ◌≡◌, ◌≢◌, refl, sym, ap, ◌∙◌, Bool, true, false, List, [], ◌∷◌, length,
  take, drop, All, arith,
}
use esp_container.Runtime.Types.{Timer}
use esp_container.Runtime.Timers.{deactivate, deactivate_all}

-- The handles that are still to come start here; none does after the last one.
unfoldable pub handle_limit : ℕ → ℕ
handle_limit zero = 2 ^ 64
handle_limit (suc n) = suc n

-- An active timer has a handle that was issued.
abbrev pub IsIssued : ℕ → Timer → Type 0
IsIssued limit t = t.active ≡ true → (0 < t.handle) × (t.handle < limit)

abbrev pub IsApart : Timer → Timer → Type 0
IsApart t u = t.active ≡ true → u.active ≡ true → t.handle ≢ u.handle

abbrev pub AllApart : List Timer → Type 0
AllApart [] = Unit {0}
AllApart (t ∷ ts) = All (IsApart t) ts × AllApart ts

abbrev pub IsIdle : Timer → Type 0
IsIdle t = t.active ≡ false

-- The second timer is the first one, ended or with another deadline.
abbrev pub IsFewer : Timer → Timer → Type 0
IsFewer t u = (u.handle ≡ t.handle) × (u.active ≡ true → t.active ≡ true)

abbrev pub AllFewer : List Timer → List Timer → Type 0
AllFewer [] [] = Unit {0}
AllFewer [] (u ∷ us) = ⊥
AllFewer (t ∷ ts) [] = ⊥
AllFewer (t ∷ ts) (u ∷ us) = IsFewer t u × AllFewer ts us

-- A table of `timer_capacity` timers with different handles below the limit.
pub record IsTable (limit : ℕ) (ts : List Timer) : Type 0 where
  pub size : length ts ≡ 8
  pub issued : All (IsIssued limit) ts
  pub apart : AllApart ts

not_ended {ℓ} : {A : Type ℓ} → false ≡ true → A
not_ended h = ground arith

pub AllFewer-refl : (ts : List Timer) → AllFewer ts ts
AllFewer-refl [] = tt
AllFewer-refl (t ∷ ts) = ((refl, λ h. h), AllFewer-refl ts)

pub deactivate-AllFewer : (ts : List Timer) (i : ℕ) → AllFewer ts (deactivate ts i)
unfolding deactivate
deactivate-AllFewer [] i = tt
deactivate-AllFewer (t ∷ ts) zero = ((refl, λ h. not_ended h), AllFewer-refl ts)
deactivate-AllFewer (t ∷ ts) (suc i) = ((refl, λ h. h), deactivate-AllFewer ts i)

pub deactivate_all-AllFewer : (n : ℕ) (ts : List Timer) → AllFewer ts (deactivate_all n ts)
unfolding deactivate_all
deactivate_all-AllFewer zero ts = AllFewer-refl ts
deactivate_all-AllFewer (suc n) [] = tt
deactivate_all-AllFewer (suc n) (t ∷ ts) = ((refl, λ h. not_ended h), deactivate_all-AllFewer n ts)

pub deactivate_all-IsIdle : (n : ℕ) (ts : List Timer) → All IsIdle (take n (deactivate_all n ts))
unfolding deactivate_all
deactivate_all-IsIdle zero ts = tt
deactivate_all-IsIdle (suc n) [] = tt
deactivate_all-IsIdle (suc n) (t ∷ ts) = (refl, deactivate_all-IsIdle n ts)

pub AllFewer-trans : (ts us vs : List Timer) → AllFewer ts us → AllFewer us vs → AllFewer ts vs
AllFewer-trans [] [] [] h k = tt
AllFewer-trans [] [] (v ∷ vs) h k = absurd k
AllFewer-trans [] (u ∷ us) vs h k = absurd h
AllFewer-trans (t ∷ ts) [] vs h k = absurd h
AllFewer-trans (t ∷ ts) (u ∷ us) [] h k = absurd k
AllFewer-trans (t ∷ ts) (u ∷ us) (v ∷ vs) ((e, a), h) ((e', a'), k) =
    ((e' ∙ e, λ x. a (a' x)), AllFewer-trans ts us vs h k)

AllFewer-length : (ts us : List Timer) → AllFewer ts us → length us ≡ length ts
AllFewer-length [] [] h = refl
AllFewer-length [] (u ∷ us) h = absurd h
AllFewer-length (t ∷ ts) [] h = absurd h
AllFewer-length (t ∷ ts) (u ∷ us) (f, h) = ap suc (AllFewer-length ts us h)

IsIssued-weaken :
    (limit : ℕ) (t u : Timer)
    → IsIssued limit t
    → u.handle ≡ t.handle
    → (u.active ≡ true → t.active ≡ true)
    → IsIssued limit u
IsIssued-weaken limit t u i e a active =
    let (lo, hi) = i (a active) in (omega (arith, e, lo), omega (arith, e, hi))

AllFewer-IsIssued :
    (limit : ℕ) (ts us : List Timer)
    → AllFewer ts us
    → All (IsIssued limit) ts
    → All (IsIssued limit) us
AllFewer-IsIssued limit [] [] h k = tt
AllFewer-IsIssued limit [] (u ∷ us) h k = absurd h
AllFewer-IsIssued limit (t ∷ ts) [] h k = absurd h
AllFewer-IsIssued limit (t ∷ ts) (u ∷ us) ((e, a), h) (i, k) =
    (λ active. IsIssued-weaken limit t u i e a active, AllFewer-IsIssued limit ts us h k)

AllFewer-away :
    (t u : Timer) (ts us : List Timer)
    → IsFewer t u
    → AllFewer ts us
    → All (IsApart t) ts
    → All (IsApart u) us
AllFewer-away t u [] [] f h k = tt
AllFewer-away t u [] (y ∷ us) f h k = absurd h
AllFewer-away t u (x ∷ ts) [] f h k = absurd h
AllFewer-away t u (x ∷ ts) (y ∷ us) (e, a) ((e', a'), h) (i, k) =
    (λ p q r. i (a p) (a' q) (sym e ∙ r ∙ e'), AllFewer-away t u ts us (e, a) h k)

AllFewer-apart : (ts us : List Timer) → AllFewer ts us → AllApart ts → AllApart us
AllFewer-apart [] [] h k = tt
AllFewer-apart [] (u ∷ us) h k = absurd h
AllFewer-apart (t ∷ ts) [] h k = absurd h
AllFewer-apart (t ∷ ts) (u ∷ us) (f, h) (i, k) =
    (AllFewer-away t u ts us f h i, AllFewer-apart ts us h k)

-- Timers that end or move leave the table in order.
pub AllFewer-IsTable :
    (limit : ℕ) (ts us : List Timer) → AllFewer ts us → IsTable limit ts → IsTable limit us
AllFewer-IsTable limit ts us h k = record {
  size = AllFewer-length ts us h ∙ k.size;
  issued = AllFewer-IsIssued limit ts us h k.issued;
  apart = AllFewer-apart ts us h k.apart;
}

ended_idle : (a b : Bool) → (b ≡ true → a ≡ true) → a ≡ false → b ≡ false
ended_idle a false p q = refl
ended_idle a true p q = absurd (not_ended (sym q ∙ p refl))

-- A table without an active timer stays one.
pub AllFewer-idle : (ts us : List Timer) → AllFewer ts us → All IsIdle ts → All IsIdle us
AllFewer-idle [] [] h k = tt
AllFewer-idle [] (u ∷ us) h k = absurd h
AllFewer-idle (t ∷ ts) [] h k = absurd h
AllFewer-idle (t ∷ ts) (u ∷ us) ((e, a), h) (i, k) =
    (ended_idle t.active u.active a i, AllFewer-idle ts us h k)

AllFewer-drop : (n : ℕ) (ts us : List Timer) → AllFewer ts us → AllFewer (drop n ts) (drop n us)
AllFewer-drop zero ts us h = h
AllFewer-drop (suc n) [] [] h = tt
AllFewer-drop (suc n) [] (u ∷ us) h = absurd h
AllFewer-drop (suc n) (t ∷ ts) [] h = absurd h
AllFewer-drop (suc n) (t ∷ ts) (u ∷ us) (f, h) = AllFewer-drop n ts us h

pub AllFewer-beyond :
    (n : ℕ) (ts us : List Timer) → AllFewer ts us → All IsIdle (drop n ts) → All IsIdle (drop n us)
AllFewer-beyond n ts us h k = AllFewer-idle (drop n ts) (drop n us) (AllFewer-drop n ts us h) k

-- What holds of the first elements and of the others holds of all.
pub All-split :
    (P : Timer → Type 0) (n : ℕ) (ts : List Timer)
    → All P (take n ts)
    → All P (drop n ts)
    → All P ts
All-split P zero ts h k = k
All-split P (suc n) [] h k = tt
All-split P (suc n) (t ∷ ts) (p, h) k = (p, All-split P n ts h k)
