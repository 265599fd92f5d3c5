-- ===== src/Runtime/Abi.antt =====
-- `module_abi_matches` of runtime.c: the exports of a loaded module.
use esp_container.Common.{
  ℕ, Bool, true, false, not, ◌&&◌, ◌||◌, ◌==◌, if◌then◌else◌, List, [], ◌∷◌, Option, none, some,
  length,
}
use esp_container.Common.Bytes.{bytes_eq}

-- The parameters and results of a function type; true stands for WASM_I32.
pub record FunctionShape : Type 0 where
  pub params : List Bool
  pub results : List Bool

-- `wasm_export_t`; an absent type is NULL. For a memory the flag says whether it is shared.
pub data ExportKind : Type 0 where
  function_export : Option FunctionShape → ExportKind
  memory_export : Option Bool → ExportKind
  other_export : ExportKind

pub record Export : Type 0 where
  pub name : Option (List ℕ)
  pub kind : ExportKind

unfoldable pub all_i32 : List Bool → Bool
all_i32 [] = true
all_i32 (i32 ∷ rest) = i32 && all_i32 rest

unfoldable pub function_type_matches : Option FunctionShape → ℕ → Bool
function_type_matches none param_count = false
function_type_matches (some shape) param_count =
    length shape.params == param_count
    && length shape.results == 1
    && all_i32 shape.results
    && all_i32 shape.params

unfoldable pub is_function : ExportKind → ℕ → Bool
is_function (function_export shape) param_count = function_type_matches shape param_count
is_function (memory_export shared) param_count = false
is_function other_export param_count = false

unfoldable pub is_memory : ExportKind → Bool
is_memory (memory_export (some shared)) = not shared
is_memory (memory_export none) = false
is_memory (function_export shape) = false
is_memory other_export = false

abbrev pub init_name : List ℕ
init_name =
    b'e' ∷ b'c' ∷ b'o' ∷ b'n' ∷ b't' ∷ b'a' ∷ b'i' ∷ b'n' ∷ b'e' ∷ b'r' ∷ b'_' ∷ b'i' ∷ b'n' ∷ b'i'
    ∷ b't' ∷ []

abbrev pub on_event_name : List ℕ
on_event_name =
    b'e' ∷ b'c' ∷ b'o' ∷ b'n' ∷ b't' ∷ b'a' ∷ b'i' ∷ b'n' ∷ b'e' ∷ b'r' ∷ b'_' ∷ b'o' ∷ b'n' ∷ b'_'
    ∷ b'e' ∷ b'v' ∷ b'e' ∷ b'n' ∷ b't' ∷ []

abbrev pub stop_name : List ℕ
stop_name =
    b'e' ∷ b'c' ∷ b'o' ∷ b'n' ∷ b't' ∷ b'a' ∷ b'i' ∷ b'n' ∷ b'e' ∷ b'r' ∷ b'_' ∷ b's' ∷ b't' ∷ b'o'
    ∷ b'p' ∷ []

abbrev pub memory_name : List ℕ
memory_name = b'm' ∷ b'e' ∷ b'm' ∷ b'o' ∷ b'r' ∷ b'y' ∷ []

-- What the loop has found.
pub record Found : Type 0 where
  pub init_found : Bool
  pub event_found : Bool
  pub stop_found : Bool
  pub memory_found : Bool

-- One round of the loop; `none` is false.
unfoldable pub find_export : Export → Found → Option Found
find_export e f = elim e.name [
  | none ↦ none
  | some name ↦
      if bytes_eq name init_name
      then (if f.init_found || not (is_function e.kind 0)
          then none
          else some (record f { init_found = true }))
      else if bytes_eq name on_event_name
      then (if f.event_found || not (is_function e.kind 2)
          then none
          else some (record f { event_found = true }))
      else if bytes_eq name stop_name
      then (if f.stop_found || not (is_function e.kind 0)
          then none
          else some (record f { stop_found = true }))
      else if bytes_eq name memory_name
      then (if f.memory_found || not (is_memory e.kind)
          then none
          else some (record f { memory_found = true }))
      else none
]

unfoldable pub abi_loop : List Export → Found → Bool
abi_loop [] f = f.init_found && f.event_found && f.stop_found && f.memory_found
abi_loop (e ∷ es) f = elim (find_export e f) [ none ↦ false | some next ↦ abi_loop es next ]

unfoldable pub module_abi_matches : List Export → Bool
module_abi_matches exports =
    if not (length exports == 4)
    then false
    else abi_loop exports (record {
      init_found = false;
      event_found = false;
      stop_found = false;
      memory_found = false;
    })
