-- ===== src/Runtime/Leaks.antt =====
-- `open` and `close` hold nothing back.
use esp_container.Common.{
  ℕ, suc, ◌+◌, ◌-◌, ◌≤◌, ◌≡◌, refl, ap, ◌∙◌, inl, inr, Bool, true, false, not, ◌||◌, ltb, ◌==◌,
  List, length, arith, ==_iff, Bool-cases, Option-cases, if_split,
}
use Prim.Native.Nat.{bit_and}
use esp_container.Slots.Types.{u32_max}
use esp_container.Wasm.Scan.{imported_capabilities, memory_within_limit}
use esp_container.Runtime.Types.{
  Limits, Outcome, success, failure, RuntimeError, bad_wasm, bad_abi, no_memory, engine_failure,
}
use esp_container.Runtime.Limits.{limits_valid}
use esp_container.Runtime.Abi.{module_abi_matches}
use esp_container.Runtime.Open.{
  Resource, runtime_memory, log_memory, wasm_memory, wamr, natives, module_loaded, instance,
  environment, index_of, same, Held, holding, Loader, OpenRuntime, Opening, give_up, acquiring,
  acquiring_if, create_environment, instantiate, open_claimed, nothing_held, open_authorized,
  runtime_open, runtime_close,
}
use esp_container.Runtime.Release.{bit, LoaderLaws, Accounts, release_runtime-balance}

-- A failed open holds nothing, and leaves the claim as it was; one that succeeds has taken the
-- claim, and holds what its runtime has to release.
abbrev pub Balance :
    {W : Type 0}
    → (W → Resource → ℕ)
    → (Resource → ℕ)
    → Bool
    → Outcome OpenRuntime
    → Bool
    → W
    → Type 0
Balance count base before (failure e) claimed w =
    (claimed ≡ before) × ((x : Resource) → count w x ≡ base x)
Balance count base before (success r) claimed w =
    (before ≡ false) × (claimed ≡ true) × Accounts count base r.held w

-- Nothing from the resource of the index on is held.
abbrev Below : ℕ → Held → Type 0
Below k held = (x : Resource) → k ≤ index_of x → held x ≡ false

module _ {W : Type 0} (loader : Loader W) (count : W → Resource → ℕ)
    (laws : LoaderLaws loader count) (base : Resource → ℕ) where
  IsBalanced : Bool → Opening W → Type 0
  IsBalanced before o = Balance count base before o.outcome o.claimed o.world

  -- Wherever the acquisitions have come to, the rest ends in balance.
  Continues : ℕ → (Held → W → Opening W) → Type 0
  Continues k next =
      (held : Held) (w : W)
      → Below k held
      → Accounts count base held w
      → IsBalanced false (next held w)

  give_up-IsBalanced :
      (e : RuntimeError) (held : Held) (w : W)
      → Accounts count base held w
      → IsBalanced false (give_up loader e held w)
  unfolding IsBalanced give_up
  give_up-IsBalanced e held w k = (refl, release_runtime-balance loader count base held w laws k)

  holding-Below :
      (r : Resource) (k : ℕ) (held : Held)
      → k ≤ index_of r
      → Below k held
      → Below (suc (index_of r)) (holding r held)
  holding-Below r k held le b x lt = ground (arith, b x (omega (arith, le, lt)))

  holding_bits : (s h : Bool) → (s ≡ true → h ≡ false) → bit h + bit s ≡ bit (s || h)
  holding_bits true true f = omega (arith, ap bit (f refl))
  holding_bits true false f = refl
  holding_bits false true f = refl
  holding_bits false false f = refl

  holding-Accounts :
      (r : Resource) (k : ℕ) (held : Held) (w : W)
      → k ≤ index_of r
      → Below k held
      → Accounts count base held w
      → (loader.acquire r w).0 ≡ true
      → Accounts count base (holding r held) (loader.acquire r w).1
  holding-Accounts r k held w le b acc ok x =
      let taken = laws.acquired r w x ok in
      let bits =
        holding_bits (same r x) (held x)
          (λ e. b x (omega (arith, le, (==_iff (index_of r) (index_of x)).0 e))) in
      omega (arith, taken, acc x, bits)

  refused-Accounts :
      (r : Resource) (held : Held) (w : W)
      → Accounts count base held w
      → (loader.acquire r w).0 ≡ false
      → Accounts count base held (loader.acquire r w).1
  refused-Accounts r held w acc no_luck x = laws.refused r w x no_luck ∙ acc x

  acquiring-Continues :
      (r : Resource) (e : RuntimeError) (k : ℕ) (next : Held → W → Opening W)
      → k ≤ index_of r
      → Continues (suc (index_of r)) next
      → Continues k (acquiring loader r e next)
  unfolding Continues acquiring
  acquiring-Continues r e k next le c held w b acc =
      if_split (loader.acquire r w).0 _ _ (IsBalanced false)
        (λ ok.
          c (holding r held) (loader.acquire r w).1 (holding-Below r k held le b)
            (holding-Accounts r k held w le b acc ok))
        (λ no_luck.
          give_up-IsBalanced e held (loader.acquire r w).1 (refused-Accounts r held w acc no_luck))

  acquiring_if-Continues :
      (wanted : Bool) (r : Resource) (e : RuntimeError) (k : ℕ) (next : Held → W → Opening W)
      → k ≤ index_of r
      → Continues (suc (index_of r)) next
      → Continues k (acquiring_if loader wanted r e next)
  unfolding Continues acquiring_if
  acquiring_if-Continues wanted r e k next le c held w b acc =
      if_split wanted _ _ (IsBalanced false)
        (λ yes_it_is. unfold Continues in acquiring-Continues r e k next le c held w b acc)
        (λ not_wanted. c held w (λ x lt. b x (omega (arith, le, lt))) acc)

  create_environment-Continues :
      (limits : Limits) (n : ℕ) → Continues 7 (create_environment loader limits n)
  unfolding Continues create_environment IsBalanced
  create_environment-Continues limits n held w b acc =
      elim (Bool-cases (loader.acquire environment w).0) [
        | inl ok ↦
            let all = holding-Accounts environment 7 held w (omega arith) b acc ok in
            rw ok (
              if_split (not (loader.functions_found (loader.acquire environment w).1)) _ _
                (IsBalanced false)
                (λ missing. give_up-IsBalanced engine_failure (holding environment held) _ all)
                (λ there. (refl, refl, all)))
        | inr no_luck ↦ rw no_luck (
            give_up-IsBalanced engine_failure held _
              (refused-Accounts environment held w acc no_luck))
      ]

  instantiate-Continues : (limits : Limits) (n : ℕ) → Continues 6 (instantiate loader limits n)
  unfolding Continues instantiate
  instantiate-Continues limits n held w b acc =
      if_split (not (module_abi_matches (loader.exports w))) _ _ (IsBalanced false)
        (λ other. give_up-IsBalanced bad_abi held w acc)
        (λ matches.
          unfold Continues in
          acquiring-Continues instance engine_failure 6 (create_environment loader limits n)
            (omega arith) (create_environment-Continues limits n) held w b acc)

  open_claimed-Continues :
      (limits : Limits) (required n : ℕ) → Continues 1 (open_claimed loader limits required n)
  unfolding open_claimed
  open_claimed-Continues limits required n =
      acquiring_if-Continues _ log_memory no_memory 1 _ (omega arith) (
        acquiring-Continues wasm_memory no_memory 2 _ (omega arith) (
          acquiring-Continues wamr engine_failure 3 _ (omega arith) (
            acquiring_if-Continues _ natives engine_failure 4 _ (omega arith) (
              acquiring-Continues module_loaded bad_wasm 5 _ (omega arith)
                (instantiate-Continues limits n)))))

  -- With the runtime's own memory, and nothing else.
  first-Accounts :
      (w : W)
      → ((x : Resource) → count w x ≡ base x)
      → (loader.acquire runtime_memory w).0 ≡ true
      → Accounts count base
          (holding runtime_memory (nothing_held loader))
          (loader.acquire runtime_memory w).1
  first-Accounts w k ok =
      holding-Accounts runtime_memory 0 (nothing_held loader) w (omega arith) (λ x lt. refl)
        (λ x. omega (arith, k x)) ok

  open_authorized-IsBalanced :
      (limits : Limits) (required n : ℕ) (claimed : Bool) (w : W)
      → ((x : Resource) → count w x ≡ base x)
      → IsBalanced claimed (open_authorized loader limits required n claimed w)
  unfolding open_authorized IsBalanced Continues
  open_authorized-IsBalanced limits required n true w k = (refl, k)
  open_authorized-IsBalanced limits required n false w k =
      if_split (not (loader.acquire runtime_memory w).0) _ _ (IsBalanced false)
        (λ no_luck. (refl, λ x. laws.refused runtime_memory w x (ground arith) ∙ k x))
        (λ ok.
          open_claimed-Continues limits required n _ _
            (holding-Below runtime_memory 0 (nothing_held loader) (omega arith) (λ x lt. refl))
            (first-Accounts w k (ground arith)))

  -- With an allocator and WAMR that count what they hand out: an open that fails, at whatever step,
  -- leaves the claim as it was and every resource held as often as before; one that succeeds found
  -- no claim, has taken it, and what is held besides is what its runtime records.
  pub runtime_open-Balance :
      (wasm : List ℕ) (limits : Limits) (n : ℕ) (claimed : Bool) (w : W)
      → ((x : Resource) → count w x ≡ base x)
      → let o = runtime_open loader wasm limits n claimed w in
        Balance count base claimed o.outcome o.claimed o.world
  unfolding runtime_open IsBalanced
  runtime_open-Balance wasm limits n claimed w k =
      if_split
        (length wasm == 0
          || ltb u32_max (length wasm)
          || not (limits_valid limits)
          || ltb limits.max_wasm_bytes (length wasm))
        _ _ (IsBalanced claimed) (λ bad. (refl, k))
        (λ good. elim (Option-cases (imported_capabilities wasm)) [
          | inl e ↦ rw e (refl, k)
          | inr (required, e) ↦ rw e (
              if_split (not (bit_and required (u32_max - limits.allowed_capabilities) == 0)) _ _
                (IsBalanced claimed) (λ denied. (refl, k))
                (λ allowed.
                  if_split (not (memory_within_limit wasm limits.max_memory_pages)) _ _
                    (IsBalanced claimed) (λ large. (refl, k))
                    (λ fits.
                      unfold IsBalanced in
                      open_authorized-IsBalanced limits required n claimed w k)))
        ])

  -- With an allocator and WAMR that count what they hand out: a close of a runtime without an
  -- active call succeeds, ends the claim, and gives back everything that the runtime records as
  -- held, and nothing else.
  pub runtime_close-releases :
      (r : OpenRuntime) (w : W)
      → r.host.runtime.call_active ≡ false
      → Accounts count base r.held w
      → let (outcome, claimed, w1) = runtime_close loader r true w in
        (outcome ≡ success tt) × (claimed ≡ false) × ((x : Resource) → count w1 x ≡ base x)
  unfolding runtime_close
  runtime_close-releases r w free acc =
      if_split r.host.runtime.call_active _ _
        (λ (d : Outcome (Unit {0}) × Bool × W).
          (d.0 ≡ success tt) × (d.1 ≡ false) × ((x : Resource) → count d.2 x ≡ base x))
        (λ active. absurd (ground arith))
        (λ idle. (refl, refl, release_runtime-balance loader count base r.held w laws acc))
