-- ===== src/Slots/Codec/Sized.antt =====
-- The blob of a state that fits its C types is 288 bytes.
use esp_container.Common.{
  ℕ, ◌<◌, ◌%◌, Bool, true, false, List, [], ◌∷◌, ◌++◌, All, All-append, arith,
}
use esp_container.Common.Bytes.{IsByte, IsBytes, store_u32, store_u32-IsBytes}
use esp_container.Slots.Types.{
  Binding, Operation, SlotsState, BindingIsSized, OperationIsSized, StateIsSized,
}
use esp_container.Slots.Codec.{
  magic, bool_byte, encode_binding, encode_operation, encode_body, encode_state, blob_crc32,
}
use esp_container.Slots.Codec.RoundTrip.{length-encode_state}

append_bytes : (xs ys : List ℕ) → All IsByte xs → All IsByte ys → All IsByte (xs ++ ys)
append_bytes = All-append IsByte

word_bytes : (v : ℕ) → All IsByte (store_u32 v)
word_bytes v = (store_u32-IsBytes v).1

bool_IsByte : (b : Bool) → bool_byte b < 256
bool_IsByte true = omega arith
bool_IsByte false = omega arith

four_bytes : (a b c d : ℕ) → a < 256 → b < 256 → c < 256 → d < 256 → All IsByte (a ∷ b ∷ c ∷ d ∷ [])
four_bytes a b c d p q r s = (p, (q, (r, (s, tt))))

binding_bytes : (b : Binding) → BindingIsSized b → All IsByte (encode_binding b)
unfolding encode_binding
binding_bytes b z =
    append_bytes (bool_byte b.present ∷ bool_byte b.package_present ∷ b.slot ∷ 0 ∷ []) _
      (four_bytes _ _ b.slot 0 (bool_IsByte b.present) (bool_IsByte b.package_present) z.slot
        (omega arith))
      (append_bytes b.firmware_sha256 _ z.firmware_digest.1 (
        append_bytes b.package_sha256 _ z.package_digest.1 (
          append_bytes _ _ (word_bytes b.package_size_bytes) (
            append_bytes _ _ (word_bytes b.guest_abi_version) (word_bytes b.data_schema_version)))))

mod_byte : (n : ℕ) → n % 256 < 256
mod_byte n = omega arith

operation_bytes :
    (phase : ℕ) (o : Operation) → OperationIsSized o → All IsByte (encode_operation phase o)
unfolding encode_operation
operation_bytes phase o z =
    append_bytes ((phase % 256) ∷ o.slot ∷ 0 ∷ 0 ∷ []) _
      (four_bytes _ o.slot 0 0 (mod_byte phase) z.slot (omega arith) (omega arith))
      (append_bytes o.operation_id _ z.id.1 (
        append_bytes o.target_firmware_sha256 _ z.firmware_digest.1 (
          append_bytes o.package_sha256 _ z.package_digest.1 (
            append_bytes _ _ (word_bytes o.package_size_bytes) (
              append_bytes _ _ (word_bytes o.guest_abi_version)
                (append_bytes _ _ (word_bytes o.data_schema_version) z.boot.1))))))

body_bytes : (s : SlotsState) → StateIsSized s → All IsByte (encode_body s)
unfolding encode_body
body_bytes s z =
    append_bytes magic _
      (four_bytes b'E' b'C' b'S' b'1' (omega arith) (omega arith) (omega arith) (omega arith))
      (append_bytes _ _ (word_bytes 1) (
        append_bytes _ _ (word_bytes s.sequence) (
          append_bytes _ _ (binding_bytes s.binding0 z.binding0) (
            append_bytes _ _ (binding_bytes s.binding1 z.binding1)
              (operation_bytes s.phase s.operation z.operation)))))

pub encode_state-IsBytes : (s : SlotsState) → StateIsSized s → IsBytes 288 (encode_state s)
unfolding encode_state
encode_state-IsBytes s z = (
  unfold encode_state in length-encode_state s z,
  append_bytes (encode_body s) _ (body_bytes s z) (word_bytes (blob_crc32 (encode_body s))),
)
