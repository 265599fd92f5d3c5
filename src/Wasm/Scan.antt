-- ===== src/Wasm/Scan.antt =====
-- `scan_module` of wasm_scan.c and the three functions that call it.
use esp_container.Common.{
  ℕ, zero, suc, ◌+◌, ◌-◌, Bool, false, ◌&&◌, ◌||◌, not, ltb, leb, ◌==◌, if◌then◌else◌, List, [],
  ◌∷◌, Option, none, some, length, take,
}
use esp_container.Common.Bytes.{bytes_eq}
use esp_container.Wasm.Read.{Scan, WasmError, accepted, rejected, wasm_invalid, byte_at, read_u32}
use esp_container.Wasm.Sections.{Sections, and_then, scan_sections}
use esp_container.Wasm.Imports.{scan_imports}

abbrev header : List ℕ
header = 0 ∷ b'a' ∷ b's' ∷ b'm' ∷ 1 ∷ 0 ∷ 0 ∷ 0 ∷ []

abbrev pub first_section : Sections
first_section = record {
  cursor = 8;
  last_section = 0;
  type_begin = 0;
  type_end = 0;
  import_begin = 0;
  import_end = 0;
}

-- The capabilities that the module imports; `size_bytes` is the length of the list.
unfoldable pub scan_module : List ℕ → Scan ℕ
scan_module wasm =
    let size = length wasm in
    if ltb size 8 || not (bytes_eq (take 8 wasm) header)
    then rejected wasm_invalid
    else and_then (scan_sections size wasm size first_section) (scan_imports wasm)

-- `econtainer_wasm_check`, with `none` for OK.
unfoldable pub wasm_check : List ℕ → Option WasmError
wasm_check wasm = elim (scan_module wasm) [ accepted capabilities ↦ none | rejected e ↦ some e ]

unfoldable pub imported_capabilities : List ℕ → Option ℕ
imported_capabilities wasm = elim (scan_module wasm) [
  | accepted capabilities ↦ some capabilities
  | rejected e ↦ none
]

-- The conditions on a memory section, in the order in which they are read.
unfoldable pub memory_limits : List ℕ → ℕ → ℕ → ℕ → Bool
memory_limits wasm end cursor max_memory_pages = elim (read_u32 wasm end cursor) [
  | none ↦ false
  | some (count, c) ↦ elim (read_u32 wasm end c) [
    | none ↦ false
    | some (flags, d) ↦ elim (read_u32 wasm end d) [
      | none ↦ false
      | some (minimum, e) ↦ elim (read_u32 wasm end e) [
        | none ↦ false
        | some (maximum, behind) ↦
            count == 1
            && flags == 1
            && ltb 0 minimum
            && leb minimum maximum
            && leb maximum max_memory_pages
            && behind == end
      ]
    ]
  ]
]

-- The loop to the first memory section, on fuel.
unfoldable pub memory_loop : ℕ → List ℕ → ℕ → ℕ → Bool
memory_loop zero wasm cursor max_memory_pages = false
memory_loop (suc fuel) wasm cursor max_memory_pages =
    let size = length wasm in
    if leb size cursor then false else elim (read_u32 wasm size (cursor + 1)) [
      | none ↦ false
      | some (section_length, start) ↦
          let rest = memory_loop fuel wasm (start + section_length) max_memory_pages in
          if ltb (size - start) section_length
          then false
          else if byte_at wasm cursor == 5
          then memory_limits wasm (start + section_length) start max_memory_pages
          else rest
    ]

unfoldable pub memory_within_limit : List ℕ → ℕ → Bool
memory_within_limit wasm max_memory_pages =
    if max_memory_pages == 0 then false else elim (wasm_check wasm) [
      | none ↦ memory_loop (length wasm) wasm 8 max_memory_pages
      | some e ↦ false
    ]
