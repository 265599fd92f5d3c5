-- ===== src/Slots/Codec.antt =====
-- `encode_state`, `decode_state` and `blob_crc32` of slots.c: the 288-byte state blob.
pub mod Layout
pub mod RoundTrip
pub mod Sized
use Prim.Native.Nat.{bit_xor}
use esp_container.Common.{
  ℕ, zero, suc, ◌+◌, ◌-◌, ◌*◌, ◌/◌, ◌%◌, ◌<◌, ◌≡◌, Bool, true, false, not, ◌&&◌, ◌||◌, ltb, ◌==◌,
  if◌then◌else◌, arith, List, [], ◌∷◌, ◌++◌, Option, none, some, slice, take, get_or,
}
use esp_container.Common.Bytes.{bytes_eq, store_u32, load_u32}
use esp_container.Slots.Types.{Geometry, Binding, Operation, SlotsState, u32_max}
use esp_container.Slots.Valid.{state_valid}

unfoldable pub crc_bit : ℕ → ℕ
crc_bit crc = bit_xor (crc / 2) (if crc % 2 == 0 then 0 else 0xedb8_8320)

-- The inner loop, for the rounds that are left.
unfoldable pub crc_bits : ℕ → ℕ → ℕ
crc_bits zero crc = crc
crc_bits (suc rounds) crc = crc_bits rounds (crc_bit crc)

unfoldable pub crc_loop : ℕ → List ℕ → ℕ
crc_loop crc [] = crc
crc_loop crc (b ∷ bs) = crc_loop (crc_bits 8 (bit_xor crc b)) bs

-- `~crc` of a 32-bit value.
unfoldable pub blob_crc32 : List ℕ → ℕ
blob_crc32 bs = u32_max - crc_loop u32_max bs

abbrev bool_byte : Bool → ℕ
bool_byte b = if b then 1 else 0

abbrev magic : List ℕ
magic = b'E' ∷ b'C' ∷ b'S' ∷ b'1' ∷ []

-- The 80 bytes of one binding; byte 3 stays 0.
unfoldable pub encode_binding : Binding → List ℕ
encode_binding b =
    (bool_byte b.present ∷ bool_byte b.package_present ∷ b.slot ∷ 0 ∷ [])
    ++ (b.firmware_sha256
        ++ (b.package_sha256
            ++ (store_u32 b.package_size_bytes
                ++ (store_u32 b.guest_abi_version ++ store_u32 b.data_schema_version))))

-- The 112 bytes of the phase and the operation; bytes 2 and 3 stay 0.
unfoldable pub encode_operation : ℕ → Operation → List ℕ
encode_operation phase o =
    ((phase % 256) ∷ o.slot ∷ 0 ∷ 0 ∷ [])
    ++ (o.operation_id
        ++ (o.target_firmware_sha256
            ++ (o.package_sha256
                ++ (store_u32 o.package_size_bytes
                    ++ (store_u32 o.guest_abi_version
                        ++ (store_u32 o.data_schema_version ++ o.trial_boot_id))))))

-- All but the checksum.
unfoldable pub encode_body : SlotsState → List ℕ
encode_body s =
    magic
    ++ (store_u32 1
        ++ (store_u32 s.sequence
            ++ (encode_binding s.binding0
                ++ (encode_binding s.binding1 ++ encode_operation s.phase s.operation))))

unfoldable pub encode_state : SlotsState → List ℕ
encode_state s = let body = encode_body s in body ++ store_u32 (blob_crc32 body)

unfoldable pub decode_binding : List ℕ → Option Binding
decode_binding source =
    if ltb 1 (get_or source 0 0) || ltb 1 (get_or source 1 0) || not (get_or source 3 0 == 0)
    then none
    else some (record {
      present = not (get_or source 0 0 == 0);
      package_present = not (get_or source 1 0 == 0);
      slot = get_or source 2 0;
      firmware_sha256 = slice 4 32 source;
      package_sha256 = slice 36 32 source;
      package_size_bytes = load_u32 (slice 68 4 source);
      guest_abi_version = load_u32 (slice 72 4 source);
      data_schema_version = load_u32 (slice 76 4 source);
    })

unfoldable pub decode_operation : List ℕ → Operation
decode_operation source = record {
  operation_id = slice 4 16 source;
  target_firmware_sha256 = slice 20 32 source;
  package_sha256 = slice 52 32 source;
  slot = get_or source 1 0;
  package_size_bytes = load_u32 (slice 84 4 source);
  guest_abi_version = load_u32 (slice 88 4 source);
  data_schema_version = load_u32 (slice 92 4 source);
  trial_boot_id = slice 96 16 source;
}

-- The function's first test: magic, version and checksum.
unfoldable pub header_valid : List ℕ → Bool
header_valid blob =
    bytes_eq (slice 0 4 blob) magic
    && load_u32 (slice 4 4 blob) == 1
    && load_u32 (slice 284 4 blob) == blob_crc32 (take 284 blob)

-- The last part, once both bindings are read.
unfoldable pub decode_rest : List ℕ → Binding → Binding → Option SlotsState
decode_rest blob first second =
    let source = slice 172 112 blob in
    if not (get_or source 2 0 == 0) || not (get_or source 3 0 == 0)
    then none
    else some (record {
      sequence = load_u32 (slice 8 4 blob);
      binding0 = first;
      binding1 = second;
      phase = get_or source 0 0;
      operation = decode_operation source;
    })

-- What the loop over the two bindings does with their fields.
unfoldable pub decode_fields : List ℕ → Option SlotsState
decode_fields blob = elim (decode_binding (slice 12 80 blob)) [
  | none ↦ none
  | some first ↦ elim (decode_binding (slice 92 80 blob)) [
    | none ↦ none
    | some second ↦ decode_rest blob first second
  ]
]

-- The last test of the function.
unfoldable pub checked : Option SlotsState → Geometry → Option SlotsState
checked none g = none
checked (some s) g = if state_valid s g then some s else none

unfoldable pub decode_state : List ℕ → Geometry → Option SlotsState
decode_state blob g = if not (header_valid blob) then none else checked (decode_fields blob) g
