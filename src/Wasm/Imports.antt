-- ===== src/Wasm/Imports.antt =====
-- The imports in `scan_module` of wasm_scan.c, and `import_type_matches`.
use Prim.Native.Nat.{bit_and, bit_or}
use esp_container.Common.{
  ℕ, zero, suc, ◌+◌, ◌-◌, Bool, false, ◌&&◌, ◌||◌, not, ltb, leb, ◌==◌, if◌then◌else◌, List, Option,
  none, some,
}
use esp_container.Common.Bytes.{bytes_eq}
use esp_container.Wasm.Read.{
  Scan, accepted, rejected, wasm_invalid, wasm_unsupported, byte_at, read_u32, read_name,
}
use esp_container.Wasm.Names.{
  econtainer, timer_cancel, cap_monotonic_time, cap_log, cap_timer, capability_of,
}
use esp_container.Wasm.Sections.{Sections, and_then}

-- A function type in place: the counts, where the two lists begin, and where the type ends.
pub record FunctionType : Type 0 where
  pub params : ℕ
  pub param_types : ℕ
  pub results : ℕ
  pub result_types : ℕ
  pub behind : ℕ

unfoldable pub read_results : List ℕ → ℕ → ℕ → ℕ → Option FunctionType
read_results wasm end params param_types = elim (read_u32 wasm end (param_types + params)) [
  | none ↦ none
  | some (results, start) ↦
      if ltb (end - start) results
      then none
      else some (record {
        params = params;
        param_types = param_types;
        results = results;
        result_types = start;
        behind = start + results;
      })
]

unfoldable pub read_type : List ℕ → ℕ → ℕ → Option FunctionType
read_type wasm end cursor =
    if leb end cursor || not (byte_at wasm cursor == 0x60)
    then none
    else elim (read_u32 wasm end (cursor + 1)) [
      | none ↦ none
      | some (params, start) ↦
          if ltb (end - start) params then none else read_results wasm end params start
    ]

unfoldable pub signature_matches : List ℕ → FunctionType → ℕ → Bool → Bool
signature_matches wasm t capability cancels =
    let param = λ (i : ℕ). byte_at wasm (t.param_types + i) in
    let result = byte_at wasm t.result_types in
    if not (t.results == 1)
    then false
    else if capability == cap_monotonic_time
    then t.params == 0 && result == 0x7e
    else if capability == cap_log
    then t.params == 2 && param 0 == 0x7f && param 1 == 0x7f && result == 0x7f
    else if capability == cap_timer
    then (if cancels
        then t.params == 1 && param 0 == 0x7e && result == 0x7f
        else t.params == 2 && param 0 == 0x7f && param 1 == 0x7f && result == 0x7e)
    else false

-- The loop, for the types in front of the one that is meant.
unfoldable pub type_loop : ℕ → List ℕ → ℕ → ℕ → ℕ → Bool → Bool
type_loop zero wasm end cursor capability cancels = elim (read_type wasm end cursor) [
  | none ↦ false
  | some t ↦ signature_matches wasm t capability cancels
]
type_loop (suc index) wasm end cursor capability cancels = elim (read_type wasm end cursor) [
  | none ↦ false
  | some t ↦ type_loop index wasm end t.behind capability cancels
]

unfoldable pub import_type_matches : List ℕ → ℕ → ℕ → ℕ → ℕ → Bool → Bool
import_type_matches wasm type_begin type_end type_index capability cancels =
    if type_begin == 0 then false else elim (read_u32 wasm type_end type_begin) [
      | none ↦ false
      | some (count, start) ↦
          if leb count type_index
          then false
          else type_loop type_index wasm type_end start capability cancels
    ]

pub record Imports : Type 0 where
  pub cursor : ℕ
  pub seen_imports : ℕ
  pub capabilities : ℕ

-- The tests of a round once its fields are read.
unfoldable pub accept_import : List ℕ → Sections → List ℕ → List ℕ → ℕ → ℕ → Imports → Scan Imports
accept_import wasm s module_name field type_index cursor i =
    let capability = capability_of field in
    let cancels = bytes_eq field timer_cancel in
    let seen_bit = if cancels then 8 else capability in
    if not (bytes_eq module_name econtainer)
    then rejected wasm_unsupported
    else if capability == 0
        || not (bit_and i.seen_imports seen_bit == 0)
        || not (import_type_matches wasm s.type_begin s.type_end type_index capability cancels)
    then rejected wasm_unsupported
    else accepted (record {
      cursor = cursor;
      seen_imports = bit_or i.seen_imports seen_bit;
      capabilities = bit_or i.capabilities capability;
    })

-- The part of a round behind the two names.
unfoldable pub import_kind : List ℕ → Sections → List ℕ → List ℕ → ℕ → Imports → Scan Imports
import_kind wasm s module_name field cursor i =
    if leb s.import_end cursor
    then rejected wasm_invalid
    else if not (byte_at wasm cursor == 0)
    then rejected wasm_unsupported
    else elim (read_u32 wasm s.import_end (cursor + 1)) [
      | none ↦ rejected wasm_invalid
      | some (type_index, behind) ↦ accept_import wasm s module_name field type_index behind i
    ]

unfoldable pub scan_import : List ℕ → Sections → Imports → Scan Imports
scan_import wasm s i = elim (read_name wasm s.import_end i.cursor) [
  | none ↦ rejected wasm_invalid
  | some (module_name, c) ↦ elim (read_name wasm s.import_end c) [
    | none ↦ rejected wasm_invalid
    | some (field, d) ↦ import_kind wasm s module_name field d i
  ]
]

-- The loop, for the imports that are left.
unfoldable pub import_loop : ℕ → List ℕ → Sections → Imports → Scan Imports
import_loop zero wasm s i = accepted i
import_loop (suc count) wasm s i = and_then (scan_import wasm s i) (import_loop count wasm s)

unfoldable pub scan_imports : List ℕ → Sections → Scan ℕ
scan_imports wasm s =
    if s.import_begin == 0 then accepted 0 else elim (read_u32 wasm s.import_end s.import_begin) [
      | none ↦ rejected wasm_invalid
      | some (count, start) ↦
          if ltb 4 count
          then rejected wasm_unsupported
          else and_then
              (import_loop count wasm s
                (record { cursor = start; seen_imports = 0; capabilities = 0 }))
              (λ i.
                if i.cursor == s.import_end then accepted i.capabilities else rejected wasm_invalid)
    ]
