-- ===== src/Wasm/Read.antt =====
-- `read_u32` and `read_name` of wasm_scan.c. A cursor that the code moves through a pointer is
-- returned; after a failure the code does not use it again.
use esp_container.Common.{
  ℕ, zero, suc, ◌+◌, ◌-◌, ◌*◌, ◌%◌, ◌^◌, ◌&&◌, ltb, leb, ◌==◌, if◌then◌else◌, List, Option, none,
  some, get_or, slice,
}

-- What the scan answers when it does not accept.
pub data WasmError : Type 0 where
  wasm_invalid wasm_unsupported : WasmError

pub data Scan {ℓ} (A : Type ℓ) : Type ℓ where
  accepted : A → Scan A
  rejected : WasmError → Scan A

abbrev pub byte_at : List ℕ → ℕ → ℕ
byte_at wasm i = get_or wasm i 0

-- The loop, for the rounds that are left. `byte & 0xf0` is not 0 from 16 on, `byte & 0x80` from
-- 128 on; the OR of a shifted part has no common bits with the result so far, so it is a sum.
unfoldable pub read_groups : ℕ → List ℕ → ℕ → ℕ → ℕ → ℕ → Option (ℕ × ℕ)
read_groups zero wasm end shift result cursor = none
read_groups (suc rounds) wasm end shift result cursor =
    let byte = byte_at wasm cursor in
    let sum = result + byte % 128 * 2 ^ shift in
    let rest = read_groups rounds wasm end (shift + 7) sum (cursor + 1) in
    if leb end cursor
    then none
    else if shift == 28 && leb 16 byte
    then none
    else if ltb byte 128
    then some (sum, cursor + 1)
    else rest

-- The value and the cursor behind it.
unfoldable pub read_u32 : List ℕ → ℕ → ℕ → Option (ℕ × ℕ)
read_u32 wasm end cursor = read_groups 5 wasm end 0 0 cursor

-- The name and the cursor behind it.
unfoldable pub read_name : List ℕ → ℕ → ℕ → Option (List ℕ × ℕ)
read_name wasm end cursor = elim (read_u32 wasm end cursor) [
  | none ↦ none
  | some (size, start) ↦
      if ltb (end - start) size then none else some (slice start size wasm, start + size)
]
