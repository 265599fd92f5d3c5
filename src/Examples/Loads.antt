-- ===== src/Examples/Loads.antt =====
-- A loader that counts what it hands out, and a module with a memory opened with it.
use esp_container.Common.{
  ℕ, ◌+◌, ◌-◌, ◌<◌, ◌≡◌, refl, inl, inr, Bool, true, false, List, [], ◌∷◌, some, replicate, arith,
  Bool-cases,
}
use mathlib.Core.Path.{subst}
use esp_container.Common.Bytes.{bytes_eq}
use esp_container.Runtime.Types.{success}
use esp_container.Runtime.Fresh.{fresh_host}
use esp_container.Runtime.Abi.{
  Export, function_export, memory_export, all_i32, function_type_matches, is_function, is_memory,
  find_export, abi_loop, module_abi_matches, init_name, on_event_name, stop_name, memory_name,
}
use esp_container.Runtime.Open.{
  Resource, same, Held, Loader, OpenRuntime, runtime_open, runtime_close,
}
use esp_container.Runtime.Release.{bit, LoaderLaws, same_sound}
use esp_container.Runtime.Leaks.{Balance, runtime_open-Balance, runtime_close-releases}
use esp_container.Examples.Modules.{with_memory}
use esp_container.Examples.Runtimes.{limits}

abbrev entry_point : List ℕ → List Bool → Export
entry_point name params = record {
  name = some name;
  kind = function_export (some (record { params = params; results = true ∷ [] }));
}

abbrev exports_of_guest : List Export
exports_of_guest =
    entry_point init_name []
    ∷ entry_point on_event_name (true ∷ true ∷ [])
    ∷ entry_point stop_name []
    ∷ record { name = some memory_name; kind = memory_export (some false) }
    ∷ []

guest_matches : module_abi_matches exports_of_guest ≡ true
unfolding module_abi_matches abi_loop find_export is_function is_memory function_type_matches
    all_i32 bytes_eq
guest_matches = refl

-- The world is how often each resource is held.
abbrev Counts : Type 0
Counts = Resource → ℕ

abbrev counting : List Export → Loader Counts
counting exports = record {
  acquire = λ r w. (true, λ x. w x + bit (same r x));
  release = λ r w x. w x - bit (same r x);
  exports = λ w. exports;
  functions_found = λ w. true;
  memory_left = λ w. replicate 16 0;
}

abbrev counted : Counts → Resource → ℕ
counted w x = w x

given_back : (w : Counts) (r x : Resource) → 0 < w r → w x - bit (same r x) + bit (same r x) ≡ w x
given_back w r x pos = elim (Bool-cases (same r x)) [
  | inl e ↦ rw e (omega (arith, subst (λ y. 0 < w y) (same_sound r x e) pos))
  | inr e ↦ rw e (omega arith)
]

counting-LoaderLaws : (exports : List Export) → LoaderLaws (counting exports) counted
counting-LoaderLaws exports = record {
  acquired = λ r w x e. refl;
  refused = λ r w x e. absurd cc;
  released = λ r w x pos. given_back w r x pos;
}

abbrev nothing : Counts
nothing x = 0

-- The module passes the scan, and is loaded with the exports of a guest.
runtime_open-Balance_example :
    let o =
      runtime_open
        (counting exports_of_guest)
        with_memory
        (record limits { max_memory_pages = 2 })
        1
        false
        nothing in
    Balance counted nothing false o.outcome o.claimed o.world
runtime_open-Balance_example =
    runtime_open-Balance (counting exports_of_guest) counted (counting-LoaderLaws exports_of_guest)
      nothing with_memory (record limits { max_memory_pages = 2 }) 1 false nothing (λ x. refl)

abbrev all_held : Held
all_held x = true

abbrev open_one : OpenRuntime
open_one = record { held = all_held; host = fresh_host limits (replicate 16 0) 1 }

runtime_close-releases_example :
    let (outcome, claimed, w) = runtime_close (counting exports_of_guest) open_one true (λ x. 1) in
    (outcome ≡ success tt) × (claimed ≡ false) × ((x : Resource) → w x ≡ 0)
runtime_close-releases_example =
    runtime_close-releases (counting exports_of_guest) counted
      (counting-LoaderLaws exports_of_guest) nothing open_one (λ x. 1) refl (λ x. omega arith)
