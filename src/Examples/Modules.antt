-- ===== src/Examples/Modules.antt =====
-- The theorems on the scan of modules, on a number of three bytes and a module with a memory.
use esp_container.Common.{ℕ, ◌+◌, ◌^◌, ◌≤◌, ◌<◌, ◌≡◌, refl, arith, List, [], ◌∷◌, true, none, some}
use esp_container.Common.Bytes.{bytes_eq}
use esp_container.Wasm.Read.{accepted, read_u32, read_groups}
use esp_container.Wasm.Sections.{
  Sections, scan_sections, scan_section, enter_section, passed, and_then,
}
use esp_container.Wasm.Imports.{scan_imports}
use esp_container.Wasm.Scan.{
  first_section, scan_module, wasm_check, imported_capabilities, memory_limits, memory_loop,
  memory_within_limit,
}
use esp_container.Wasm.Bounds.{read_u32-bounds, scan_sections-cursor}

abbrev number : List ℕ
number = 0xe5 ∷ 0x8e ∷ 0x26 ∷ []

number_read : read_u32 number 3 0 ≡ some (624485, 3)
unfolding read_u32 read_groups
number_read = refl

read_u32-bounds_example : (624485 < 2 ^ 32) × (0 < 3) × (3 ≤ 3) × (3 ≤ 0 + 5)
read_u32-bounds_example = read_u32-bounds number 3 0 (624485, 3) number_read

-- One memory of one page, which may grow to two.
abbrev pub with_memory : List ℕ
with_memory = 0 ∷ b'a' ∷ b's' ∷ b'm' ∷ 1 ∷ 0 ∷ 0 ∷ 0 ∷ 5 ∷ 4 ∷ 1 ∷ 1 ∷ 1 ∷ 2 ∷ []

abbrev walked : Sections
walked = record first_section { cursor = 14; last_section = 5 }

walk_of_memory : scan_sections 14 with_memory 14 first_section ≡ accepted walked
unfolding scan_sections scan_section enter_section passed and_then read_u32 read_groups
walk_of_memory = refl

scan_sections-cursor_example : walked.cursor ≡ 14
scan_sections-cursor_example =
    scan_sections-cursor 14 with_memory 14 first_section walked (omega arith) (omega arith)
      walk_of_memory

with_memory_accepted : wasm_check with_memory ≡ none
unfolding wasm_check scan_module scan_imports scan_sections scan_section enter_section passed
    and_then read_u32 read_groups bytes_eq
with_memory_accepted = refl

with_memory_fits : memory_within_limit with_memory 2 ≡ true
unfolding memory_within_limit memory_loop memory_limits wasm_check scan_module scan_imports
    scan_sections scan_section enter_section passed and_then read_u32 read_groups bytes_eq
with_memory_fits = refl

with_memory_capabilities : imported_capabilities with_memory ≡ some 0
unfolding imported_capabilities scan_module scan_imports scan_sections scan_section enter_section
    passed and_then read_u32 read_groups bytes_eq
with_memory_capabilities = refl
