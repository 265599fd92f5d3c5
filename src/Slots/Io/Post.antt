-- ===== src/Slots/Io/Post.antt =====
-- Postconditions of steps, and the rules by which they compose.
use mathlib.Core.Path.{subst}
use esp_container.Common.{Bool, true, false, ◌≡◌, refl}
use esp_container.Slots.Io.{SlotsError, Result, ok, err, M, next, require}

-- `Q` of a result and the world after it, `E` of an error.
pub data Ends {W A : Type 0} (Q : A → W → Type 0) (E : SlotsError → W → Type 0)
    : Result A × W → Type 0 where
  done : {a : A} {w : W} → Q a w → Ends Q E (ok a, w)
  failed : {e : SlotsError} {w : W} → E e w → Ends Q E (err e, w)

-- One step, then the rest.
pub seq :
    {W A B : Type 0} {P : A → W → Type 0} {F : SlotsError → W → Type 0} {Q : B → W → Type 0}
    {E : SlotsError → W → Type 0} {x : Result A × W} {f : A → M W B}
    → Ends P F x
    → ((a : A) (w : W) → P a w → Ends Q E (f a w))
    → ((e : SlotsError) (w : W) → F e w → E e w)
    → Ends Q E (next x f)
seq (done h) k l = k _ _ h
seq (failed h) k l = failed (l _ _ h)

-- A weaker postcondition.
pub weaken :
    {W A : Type 0} {P : A → W → Type 0} {F : SlotsError → W → Type 0} {Q : A → W → Type 0}
    {E : SlotsError → W → Type 0} {x : Result A × W}
    → Ends P F x
    → ((a : A) (w : W) → P a w → Q a w)
    → ((e : SlotsError) (w : W) → F e w → E e w)
    → Ends Q E x
weaken (done h) k l = done (k _ _ h)
weaken (failed h) k l = failed (l _ _ h)

-- What a step that ended well or badly satisfies.
abbrev Outcome :
    {W A : Type 0} → (A → W → Type 0) → (SlotsError → W → Type 0) → Result A × W → Type 0
Outcome Q E (ok a, w) = Q a w
Outcome Q E (err e, w) = E e w

Ends-Outcome :
    {W A : Type 0} {Q : A → W → Type 0} {E : SlotsError → W → Type 0} {x : Result A × W}
    → Ends Q E x
    → Outcome Q E x
Ends-Outcome (done h) = h
Ends-Outcome (failed h) = h

pub Ends-ok :
    {W A : Type 0} {Q : A → W → Type 0} {E : SlotsError → W → Type 0} {x : Result A × W} {a : A}
    {w : W}
    → Ends Q E x
    → x ≡ (ok a, w)
    → Q a w
Ends-ok {Q} {E} h e = subst (Outcome Q E) e (Ends-Outcome h)

pub Ends-err :
    {W A : Type 0} {Q : A → W → Type 0} {E : SlotsError → W → Type 0} {x : Result A × W}
    {e : SlotsError} {w : W}
    → Ends Q E x
    → x ≡ (err e, w)
    → E e w
Ends-err {Q} {E} h e = subst (Outcome Q E) e (Ends-Outcome h)

-- A guard hands its test on, or fails where it stands.
pub require-Ends :
    {W : Type 0} (c : Bool) (e : SlotsError) (w : W)
    → Ends
        (λ _ w'. (w' ≡ w) × (c ≡ true))
        (λ e' w'. (w' ≡ w) × (e' ≡ e) × (c ≡ false))
        (require c e w)
unfolding require
require-Ends true e w = done (refl, refl)
require-Ends false e w = failed (refl, refl, refl)
