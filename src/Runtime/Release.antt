-- ===== src/Runtime/Release.antt =====
-- What `release_runtime` gives back.
use esp_container.Common.{
  ℕ, ◌+◌, ◌<◌, ◌≡◌, refl, sym, ap, ◌∙◌, Bool, true, false, ◌&&◌, ◌||◌, if◌then◌else◌, List, [], ◌∷◌,
  get_or, arith, ==_iff, if_split,
}
use mathlib.Core.Path.{subst}
use esp_container.Runtime.Open.{
  Resource, runtime_memory, log_memory, wasm_memory, wamr, natives, module_loaded, instance,
  environment, index_of, same, Held, Loader, release_order, release_each, release_runtime,
}

-- 1 for a true answer.
abbrev pub bit : Bool → ℕ
bit true = 1
bit false = 0

-- How often each resource is held in a world: an acquisition that succeeds adds one, one that fails
-- adds none, and a release takes one away.
pub record LoaderLaws {W : Type 0} (loader : Loader W) (count : W → Resource → ℕ) : Type 0 where
  pub acquired :
      (r : Resource) (w : W) (x : Resource)
      → (loader.acquire r w).0 ≡ true
      → count (loader.acquire r w).1 x ≡ count w x + bit (same r x)
  pub refused :
      (r : Resource) (w : W) (x : Resource)
      → (loader.acquire r w).0 ≡ false
      → count (loader.acquire r w).1 x ≡ count w x
  pub released :
      (r : Resource) (w : W) (x : Resource)
      → 0 < count w r
      → count (loader.release r w) x + bit (same r x) ≡ count w x

-- The world holds what the runtime holds, above what there was before.
abbrev pub Accounts : {W : Type 0} → (W → Resource → ℕ) → (Resource → ℕ) → Held → W → Type 0
Accounts count base held w = (x : Resource) → count w x ≡ base x + bit (held x)

abbrev in_list : Resource → List Resource → Bool
in_list x [] = false
in_list x (r ∷ rs) = same r x || in_list x rs

abbrev AllDistinct : List Resource → Type 0
AllDistinct [] = Unit {0}
AllDistinct (r ∷ rs) = ((x : Resource) → same r x ≡ true → in_list x rs ≡ false) × AllDistinct rs

resource_at : ℕ → Resource
resource_at n =
    get_or
      (runtime_memory ∷ log_memory ∷ wasm_memory ∷ wamr ∷ natives ∷ module_loaded ∷ instance
        ∷ environment ∷ [])
      n runtime_memory

resource_at-index_of : (r : Resource) → resource_at (index_of r) ≡ r
unfolding resource_at
resource_at-index_of runtime_memory = refl
resource_at-index_of log_memory = refl
resource_at-index_of wasm_memory = refl
resource_at-index_of wamr = refl
resource_at-index_of natives = refl
resource_at-index_of module_loaded = refl
resource_at-index_of instance = refl
resource_at-index_of environment = refl

pub same_sound : (r x : Resource) → same r x ≡ true → r ≡ x
same_sound r x e =
    sym (resource_at-index_of r)
    ∙ ap resource_at ((==_iff (index_of r) (index_of x)).0 e)
    ∙ resource_at-index_of x

same_refl : (r : Resource) → same r r ≡ true
same_refl r = (==_iff (index_of r) (index_of r)).1 refl

false_true {ℓ} : {A : Type ℓ} → false ≡ true → A
false_true e = absurd cc

-- What a count becomes when the first of the list is released, and when it was not held.
bits_released :
    (s a m : Bool) (c c' b : ℕ)
    → c' + bit s ≡ c
    → c ≡ b + bit (a && (s || m))
    → (s ≡ true → a ≡ true)
    → (s ≡ true → m ≡ false)
    → c' ≡ b + bit (a && m)
bits_released true true true c c' b e f g h = false_true (sym (h refl))
bits_released true true false c c' b e f g h = omega arith
bits_released true false m c c' b e f g h = false_true (g refl)
bits_released false true m c c' b e f g h = omega arith
bits_released false false m c c' b e f g h = omega arith

bits_passed :
    (s a m : Bool) (c b : ℕ)
    → c ≡ b + bit (a && (s || m))
    → (s ≡ true → a ≡ false)
    → c ≡ b + bit (a && m)
bits_passed true true m c b f g = false_true (sym (g refl))
bits_passed true false m c b f g = f
bits_passed false a m c b f g = f

module _ {W : Type 0} (loader : Loader W) (count : W → Resource → ℕ)
    (laws : LoaderLaws loader count) (base : Resource → ℕ) (held : Held) where
  -- Still to be released: what is held and in the list.
  abbrev Remains : List Resource → W → Type 0
  Remains rs w = (x : Resource) → count w x ≡ base x + bit (held x && in_list x rs)

  some_left :
      (r : Resource) (rs : List Resource) (w : W)
      → held r ≡ true
      → Remains (r ∷ rs) w
      → 0 < count w r
  some_left r rs w on k =
      let e : bit (held r && in_list r (r ∷ rs)) ≡ 1 =
        ap (λ b. bit (b && in_list r (r ∷ rs))) on
        ∙ ap (λ b. bit (b || in_list r rs)) (same_refl r) in
      omega (arith, k r, e)

  release_first :
      (r : Resource) (rs : List Resource) (w : W)
      → ((x : Resource) → same r x ≡ true → in_list x rs ≡ false)
      → Remains (r ∷ rs) w
      → Remains rs (if held r then loader.release r w else w)
  release_first r rs w d k =
      if_split (held r) _ _ (Remains rs)
        (λ on x.
          bits_released (same r x) (held x) (in_list x rs) _ _ (base x)
            (laws.released r w x (some_left r rs w on k)) (k x)
            (λ e. subst (λ y. held y ≡ true) (same_sound r x e) on) (d x))
        (λ off x.
          bits_passed (same r x) (held x) (in_list x rs) _ (base x) (k x)
            (λ e. subst (λ y. held y ≡ false) (same_sound r x e) off))

  release_each-Remains :
      (rs : List Resource) (w : W)
      → AllDistinct rs
      → Remains rs w
      → Remains [] (release_each loader rs held w)
  unfolding release_each
  release_each-Remains [] w d k = k
  release_each-Remains (r ∷ rs) w (d, ds) k =
      release_each-Remains rs _ ds (release_first r rs w d k)

release_order-AllDistinct : AllDistinct release_order
release_order-AllDistinct = (
  λ x e. ground arith,
  (
    λ x e. ground arith,
    (
      λ x e. ground arith,
      (
        λ x e. ground arith,
        (
          λ x e. ground arith,
          (λ x e. ground arith, (λ x e. ground arith, (λ x e. ground arith, tt))),
        ),
      ),
    ),
  ),
)

in_release_order : (x : Resource) → in_list x release_order ≡ true
in_release_order runtime_memory = refl
in_release_order log_memory = refl
in_release_order wasm_memory = refl
in_release_order wamr = refl
in_release_order natives = refl
in_release_order module_loaded = refl
in_release_order instance = refl
in_release_order environment = refl

and_true : (a b : Bool) → b ≡ true → bit (a && b) ≡ bit a
and_true true b e = ap bit e
and_true false b e = refl

and_nil : (a : Bool) → bit (a && false) ≡ 0
and_nil true = refl
and_nil false = refl

-- Everything that is held is given back, and nothing else.
pub release_runtime-balance :
    {W : Type 0} (loader : Loader W) (count : W → Resource → ℕ) (base : Resource → ℕ) (held : Held)
    (w : W)
    → LoaderLaws loader count
    → Accounts count base held w
    → (x : Resource) → count (release_runtime loader held w) x ≡ base x
unfolding release_runtime
release_runtime-balance loader count base held w laws k x =
    let start = λ (y : Resource).
      k y
      ∙ ap (λ n. base y + n)
          (sym (and_true (held y) (in_list y release_order) (in_release_order y))) in
    let end =
      release_each-Remains loader count laws base held release_order w release_order-AllDistinct
        start x in
    omega (arith, end, and_nil (held x))
