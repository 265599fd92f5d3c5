-- ===== src/Runtime/Open.antt =====
-- `econtainer_runtime_open`, `release_runtime` and `econtainer_runtime_close`.
use Prim.Native.Nat.{bit_and}
use esp_container.Common.{
  ℕ, ◌-◌, Bool, true, false, not, ◌||◌, ltb, ◌==◌, if◌then◌else◌, List, [], ◌∷◌, none, some, length,
}
use esp_container.Slots.Types.{u32_max}
use esp_container.Wasm.Scan.{imported_capabilities, memory_within_limit}
use esp_container.Wasm.Names.{cap_monotonic_time, cap_log, cap_timer}
use esp_container.Runtime.Types.{
  Limits, Host, Outcome, success, failure, RuntimeError, invalid_input, busy, bad_wasm, bad_abi,
  no_memory, engine_failure, not_authorized,
}
use esp_container.Runtime.Limits.{allows, limits_valid}
use esp_container.Runtime.Fresh.{fresh_host}
use esp_container.Runtime.Abi.{Export, module_abi_matches}

-- What a runtime holds: its memory, the log buffer, the copy of the module, WAMR, the registered
-- natives, the module, the instance and the environment.
pub data Resource : Type 0 where
  runtime_memory log_memory wasm_memory wamr natives module_loaded instance environment : Resource

abbrev pub index_of : Resource → ℕ
index_of runtime_memory = 0
index_of log_memory = 1
index_of wasm_memory = 2
index_of wamr = 3
index_of natives = 4
index_of module_loaded = 5
index_of instance = 6
index_of environment = 7

abbrev pub same : Resource → Resource → Bool
same r x = index_of r == index_of x

-- Which pointers are not NULL, and which flags are set.
abbrev pub Held : Type 0
Held = Resource → Bool

abbrev pub holding : Resource → Held → Held
holding r held x = same r x || held x

-- The allocator and WAMR, by the resources: an acquisition answers whether it succeeded. The module
-- that was loaded has its exports, and the environment its three functions or not.
pub record Loader (W : Type 0) : Type 0 where
  pub acquire : Resource → W → Bool × W
  pub release : Resource → W → W
  pub exports : W → List Export
  pub functions_found : W → Bool
  pub memory_left : W → List ℕ

-- The runtime that `open` hands out.
pub record OpenRuntime : Type 0 where
  pub held : Held
  pub host : Host

-- The answer, the flag `runtime_claimed` and the world.
pub record Opening (W : Type 0) : Type 0 where
  pub outcome : Outcome OpenRuntime
  pub claimed : Bool
  pub world : W

-- The order of `release_runtime`.
abbrev pub release_order : List Resource
release_order =
    environment ∷ instance ∷ module_loaded ∷ natives ∷ log_memory ∷ wasm_memory ∷ wamr
    ∷ runtime_memory ∷ []

module _ {W : Type 0} (loader : Loader W) where
  unfoldable pub release_each : List Resource → Held → W → W
  release_each [] held w = w
  release_each (r ∷ rs) held w = release_each rs held (if held r then loader.release r w else w)

  unfoldable pub release_runtime : Held → W → W
  release_runtime = release_each release_order

  -- `release_runtime`, and the error.
  unfoldable pub give_up : RuntimeError → Held → W → Opening W
  give_up e held w = record { outcome = failure e; claimed = false; world = release_runtime held w }

  -- One acquisition: on with it, or back with everything.
  unfoldable pub acquiring : Resource → RuntimeError → (Held → W → Opening W) → Held → W → Opening W
  acquiring r e next held w =
      let (ok, w1) = loader.acquire r w in
      if ok then next (holding r held) w1 else give_up e held w1

  unfoldable pub acquiring_if :
      Bool → Resource → RuntimeError → (Held → W → Opening W) → Held → W → Opening W
  acquiring_if wanted r e next held w = if wanted then acquiring r e next held w else next held w

  -- The environment and the functions are tested together.
  unfoldable pub create_environment : Limits → ℕ → Held → W → Opening W
  create_environment limits next_timer_handle held w =
      let (ok, w1) = loader.acquire environment w in
      let held1 = if ok then holding environment held else held in
      if not ok || not (loader.functions_found w1)
      then give_up engine_failure held1 w1
      else record {
        outcome = success (record {
          held = held1;
          host = fresh_host limits (loader.memory_left w1) next_timer_handle;
        });
        claimed = true;
        world = w1;
      }

  unfoldable pub instantiate : Limits → ℕ → Held → W → Opening W
  instantiate limits next_timer_handle held w =
      if not (module_abi_matches (loader.exports w))
      then give_up bad_abi held w
      else acquiring instance engine_failure (create_environment limits next_timer_handle) held w

  -- From the second allocation on.
  unfoldable pub open_claimed : Limits → ℕ → ℕ → Held → W → Opening W
  open_claimed limits required next_timer_handle =
      acquiring_if (allows required cap_log) log_memory no_memory (
        acquiring wasm_memory no_memory (
          acquiring wamr engine_failure (
            acquiring_if
              (allows required cap_monotonic_time
                || allows required cap_log
                || allows required cap_timer)
              natives engine_failure
              (acquiring module_loaded bad_wasm (instantiate limits next_timer_handle)))))

  abbrev pub nothing_held : Held
  nothing_held r = false

  -- From the test of `runtime_claimed` on.
  unfoldable pub open_authorized : Limits → ℕ → ℕ → Bool → W → Opening W
  open_authorized limits required next_timer_handle claimed w =
      let (ok, w1) = loader.acquire runtime_memory w in
      if claimed
      then record { outcome = failure busy; claimed = true; world = w }
      else if not ok
      then record { outcome = failure no_memory; claimed = false; world = w1 }
      else open_claimed limits required next_timer_handle (holding runtime_memory nothing_held) w1

  unfoldable pub runtime_open : List ℕ → Limits → ℕ → Bool → W → Opening W
  runtime_open wasm limits next_timer_handle claimed w =
      if length wasm == 0
        || ltb u32_max (length wasm)
        || not (limits_valid limits)
        || ltb limits.max_wasm_bytes (length wasm)
      then record { outcome = failure invalid_input; claimed = claimed; world = w }
      else elim (imported_capabilities wasm) [
        | none ↦ record { outcome = failure bad_wasm; claimed = claimed; world = w }
        | some required ↦
            if not (bit_and required (u32_max - limits.allowed_capabilities) == 0)
            then record { outcome = failure not_authorized; claimed = claimed; world = w }
            else if not (memory_within_limit wasm limits.max_memory_pages)
            then record { outcome = failure bad_abi; claimed = claimed; world = w }
            else open_authorized limits required next_timer_handle claimed w
      ]

  -- Without an active call: `release_runtime`, which ends the claim, too.
  unfoldable pub runtime_close : OpenRuntime → Bool → W → Outcome (Unit {0}) × Bool × W
  runtime_close r claimed w =
      if r.host.runtime.call_active
      then (failure busy, claimed, w)
      else (success tt, false, release_runtime r.held w)
