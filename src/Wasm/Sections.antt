-- ===== src/Wasm/Sections.antt =====
-- The walk of `scan_module` of wasm_scan.c over the sections, with the exports.
use esp_container.Common.{
  ℕ, zero, suc, ◌+◌, ◌-◌, ◌&&◌, ◌||◌, not, ltb, leb, ◌==◌, if◌then◌else◌, List, none, some, slice,
}
use esp_container.Wasm.Read.{
  Scan, accepted, rejected, wasm_invalid, wasm_unsupported, byte_at, read_u32,
}
use esp_container.Wasm.Names.{dangerous_export}

-- What the walk remembers; 0 stands for a section that was not met.
pub record Sections : Type 0 where
  pub cursor : ℕ
  pub last_section : ℕ
  pub type_begin : ℕ
  pub type_end : ℕ
  pub import_begin : ℕ
  pub import_end : ℕ

-- A rejection ends the scan.
unfoldable pub and_then : {A B : Type 0} → Scan A → (A → Scan B) → Scan B
and_then (accepted a) f = f a
and_then (rejected e) f = rejected e

-- The part of a round on exports behind the name.
unfoldable pub export_target : List ℕ → ℕ → ℕ → Scan ℕ
export_target wasm end cursor =
    if leb end cursor || ltb 3 (byte_at wasm cursor)
    then rejected wasm_invalid
    else elim (read_u32 wasm end (cursor + 1)) [
      | none ↦ rejected wasm_invalid
      | some (target, behind) ↦ accepted behind
    ]

unfoldable pub scan_export : List ℕ → ℕ → ℕ → Scan ℕ
scan_export wasm end cursor = elim (read_u32 wasm end cursor) [
  | none ↦ rejected wasm_invalid
  | some (name_length, start) ↦
      if ltb (end - start) name_length
      then rejected wasm_invalid
      else if dangerous_export (slice start name_length wasm)
      then rejected wasm_unsupported
      else export_target wasm end (start + name_length)
]

-- The loop, for the exports that are left.
unfoldable pub export_loop : ℕ → List ℕ → ℕ → ℕ → Scan ℕ
export_loop zero wasm end cursor = accepted cursor
export_loop (suc count) wasm end cursor =
    and_then (scan_export wasm end cursor) (export_loop count wasm end)

unfoldable pub scan_exports : List ℕ → ℕ → ℕ → Scan (Unit {0})
scan_exports wasm end cursor = elim (read_u32 wasm end cursor) [
  | none ↦ rejected wasm_invalid
  | some (count, start) ↦
      and_then (export_loop count wasm end start)
        (λ behind. if behind == end then accepted tt else rejected wasm_invalid)
]

-- The section is accepted: the walk goes on behind it.
unfoldable pub passed : ℕ → ℕ → ℕ → Sections → Sections
passed section start end s = record {
  cursor = end;
  last_section = if section == 0 then s.last_section else section;
  type_begin = if section == 1 then start else s.type_begin;
  type_end = if section == 1 then end else s.type_end;
  import_begin = if section == 2 then start else s.import_begin;
  import_end = if section == 2 then end else s.import_end;
}

unfoldable pub enter_section : List ℕ → ℕ → ℕ → ℕ → Sections → Scan Sections
enter_section wasm section start end s =
    if ltb 12 section
    then rejected wasm_unsupported
    else if not (section == 0) && leb section s.last_section
    then rejected wasm_invalid
    else if section == 8
    then rejected wasm_unsupported
    else if section == 7
    then and_then (scan_exports wasm end start) (λ _. accepted (passed section start end s))
    else accepted (passed section start end s)

-- One round of the loop.
unfoldable pub scan_section : List ℕ → ℕ → Sections → Scan Sections
scan_section wasm size s = elim (read_u32 wasm size (s.cursor + 1)) [
  | none ↦ rejected wasm_invalid
  | some (length, start) ↦
      if ltb (size - start) length
      then rejected wasm_invalid
      else enter_section wasm (byte_at wasm s.cursor) start (start + length) s
]

-- `while (cursor < size_bytes)`, on fuel. A round takes two bytes at least.
unfoldable pub scan_sections : ℕ → List ℕ → ℕ → Sections → Scan Sections
scan_sections zero wasm size s = accepted s
scan_sections (suc fuel) wasm size s =
    if ltb s.cursor size
    then and_then (scan_section wasm size s) (scan_sections fuel wasm size)
    else accepted s
