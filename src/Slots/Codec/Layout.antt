-- ===== src/Slots/Codec/Layout.antt =====
-- Where the parts of an encoded blob lie, and that each is read back from there.
use esp_container.Common.{
  ℕ, ◌+◌, ◌%◌, ◌≡◌, refl, ap, ◌∙◌, Bool, true, false, not, List, [], ◌∷◌, ◌++◌, some, slice, length,
  length-append, slice-append_here, slice-append_past, slice_whole, ltb, ◌==◌,
}
use esp_container.Common.Bytes.{IsU32, store_u32, load_u32, load_u32-store_u32, store_u32-IsBytes}
use esp_container.Slots.Types.{Binding, Operation, BindingIsSized, OperationIsSized}
use esp_container.Slots.Codec.{
  encode_binding, encode_operation, decode_binding, decode_operation, bool_byte,
}

-- A word is read back where it was stored, at the front or at the very end of what is left.
word-here : (v : ℕ) (ys : List ℕ) → IsU32 v → load_u32 (slice 0 4 (store_u32 v ++ ys)) ≡ v
word-here v ys h =
    rw (slice-append_here (store_u32 v) ys 4 ((store_u32-IsBytes v).0)) (load_u32-store_u32 v h)

word_last : (v : ℕ) → IsU32 v → load_u32 (slice 0 4 (store_u32 v)) ≡ v
word_last v h = rw (slice_whole (store_u32 v) 4 ((store_u32-IsBytes v).0)) (load_u32-store_u32 v h)

word-past :
    (xs ys : List ℕ) (k m : ℕ) {v : ℕ}
    → length xs ≡ k
    → load_u32 (slice m 4 ys) ≡ v
    → load_u32 (slice (k + m) 4 (xs ++ ys)) ≡ v
word-past xs ys k m h e = ap load_u32 (slice-append_past xs ys k m 4 h refl) ∙ e

pub word_length : (v : ℕ) → length (store_u32 v) ≡ 4
word_length v = (store_u32-IsBytes v).0

-- The fields of an 80-byte binding behind its first four bytes.
module _ (head : List ℕ) (b : Binding) (four : length head ≡ 4) (z : BindingIsSized b) where
  words : List ℕ
  words =
      store_u32 b.package_size_bytes
      ++ (store_u32 b.guest_abi_version ++ store_u32 b.data_schema_version)

  block : List ℕ
  block = head ++ (b.firmware_sha256 ++ (b.package_sha256 ++ words))

  binding_firmware : slice 4 32 block ≡ b.firmware_sha256
  unfolding block
  binding_firmware =
      slice-append_past head _ 4 0 32 four (slice-append_here _ _ 32 z.firmware_digest.0)

  binding_package : slice 36 32 block ≡ b.package_sha256
  unfolding block
  binding_package = slice-append_past head _ 4 32 32 four (
      slice-append_past b.firmware_sha256 _ 32 0 32 z.firmware_digest.0
        (slice-append_here _ _ 32 z.package_digest.0))

  past_digests :
      (m : ℕ) {v : ℕ}
      → load_u32 (slice m 4 words) ≡ v
      → load_u32 (slice (4 + (32 + (32 + m))) 4 block) ≡ v
  unfolding block
  past_digests m e = word-past head _ 4 (32 + (32 + m)) four (
      word-past b.firmware_sha256 _ 32 (32 + m) z.firmware_digest.0
        (word-past b.package_sha256 _ 32 m z.package_digest.0 e))

  binding_size : load_u32 (slice 68 4 block) ≡ b.package_size_bytes
  unfolding words
  binding_size = past_digests 0 (word-here _ _ z.size)

  binding_abi : load_u32 (slice 72 4 block) ≡ b.guest_abi_version
  unfolding words
  binding_abi =
      past_digests 4
        (word-past (store_u32 b.package_size_bytes) _ 4 0 (word_length _) (word-here _ _ z.abi))

  binding_schema : load_u32 (slice 76 4 block) ≡ b.data_schema_version
  unfolding words
  binding_schema = past_digests 8 (
      word-past (store_u32 b.package_size_bytes) _ 4 4 (word_length _)
        (word-past (store_u32 b.guest_abi_version) _ 4 0 (word_length _) (word_last _ z.schema)))

bool_byte_small : (p : Bool) → ltb 1 (bool_byte p) ≡ false
bool_byte_small true = refl
bool_byte_small false = refl

bool_byte_read : (p : Bool) → not (bool_byte p == 0) ≡ p
bool_byte_read true = refl
bool_byte_read false = refl

binding_head : Binding → List ℕ
binding_head b = bool_byte b.present ∷ bool_byte b.package_present ∷ b.slot ∷ 0 ∷ []

pub decode_binding-encode_binding :
    (b : Binding) → BindingIsSized b → decode_binding (encode_binding b) ≡ some b
unfolding decode_binding encode_binding binding_head block words
decode_binding-encode_binding b z = simp (
  bool_byte_small,
  bool_byte_read,
  binding_firmware (binding_head b) b refl z,
  binding_package (binding_head b) b refl z,
  binding_size (binding_head b) b refl z,
  binding_abi (binding_head b) b refl z,
  binding_schema (binding_head b) b refl z,
)

pub length-encode_binding : (b : Binding) → BindingIsSized b → length (encode_binding b) ≡ 80
unfolding encode_binding
length-encode_binding b z =
    simp (length-append, word_length, z.firmware_digest.0, z.package_digest.0)

-- The fields of a 112-byte operation behind its first four bytes.
module _ (head : List ℕ) (o : Operation) (four : length head ≡ 4) (z : OperationIsSized o) where
  operation_words : List ℕ
  operation_words =
      store_u32 o.package_size_bytes
      ++ (store_u32 o.guest_abi_version ++ (store_u32 o.data_schema_version ++ o.trial_boot_id))

  operation_block : List ℕ
  operation_block =
      head
      ++ (o.operation_id ++ (o.target_firmware_sha256 ++ (o.package_sha256 ++ operation_words)))

  operation_id_read : slice 4 16 operation_block ≡ o.operation_id
  unfolding operation_block
  operation_id_read = slice-append_past head _ 4 0 16 four (slice-append_here _ _ 16 z.id.0)

  operation_firmware : slice 20 32 operation_block ≡ o.target_firmware_sha256
  unfolding operation_block
  operation_firmware = slice-append_past head _ 4 16 32 four (
      slice-append_past o.operation_id _ 16 0 32 z.id.0
        (slice-append_here _ _ 32 z.firmware_digest.0))

  operation_package : slice 52 32 operation_block ≡ o.package_sha256
  unfolding operation_block
  operation_package = slice-append_past head _ 4 48 32 four (
      slice-append_past o.operation_id _ 16 32 32 z.id.0 (
        slice-append_past o.target_firmware_sha256 _ 32 0 32 z.firmware_digest.0
          (slice-append_here _ _ 32 z.package_digest.0)))

  past_operation_digests :
      (m n : ℕ) {v : List ℕ}
      → slice m n operation_words ≡ v
      → slice (4 + (16 + (32 + (32 + m)))) n operation_block ≡ v
  unfolding operation_block
  past_operation_digests m n e = slice-append_past head _ 4 (16 + (32 + (32 + m))) n four (
      slice-append_past o.operation_id _ 16 (32 + (32 + m)) n z.id.0 (
        slice-append_past o.target_firmware_sha256 _ 32 (32 + m) n z.firmware_digest.0
          (slice-append_past o.package_sha256 _ 32 m n z.package_digest.0 e)))

  operation_size : load_u32 (slice 84 4 operation_block) ≡ o.package_size_bytes
  unfolding operation_words
  operation_size =
      rw (past_operation_digests 0 4 (slice-append_here _ _ 4 (word_length _)))
        (load_u32-store_u32 _ z.size)

  operation_abi : load_u32 (slice 88 4 operation_block) ≡ o.guest_abi_version
  unfolding operation_words
  operation_abi =
      rw
        (past_operation_digests 4 4 (
          slice-append_past (store_u32 o.package_size_bytes) _ 4 0 4 (word_length _)
            (slice-append_here _ _ 4 (word_length _))))
        (load_u32-store_u32 _ z.abi)

  operation_schema : load_u32 (slice 92 4 operation_block) ≡ o.data_schema_version
  unfolding operation_words
  operation_schema =
      rw
        (past_operation_digests 8 4 (
          slice-append_past (store_u32 o.package_size_bytes) _ 4 4 4 (word_length _) (
            slice-append_past (store_u32 o.guest_abi_version) _ 4 0 4 (word_length _)
              (slice-append_here _ _ 4 (word_length _)))))
        (load_u32-store_u32 _ z.schema)

  operation_boot : slice 96 16 operation_block ≡ o.trial_boot_id
  unfolding operation_words
  operation_boot = past_operation_digests 12 16 (
      slice-append_past (store_u32 o.package_size_bytes) _ 4 8 16 (word_length _) (
        slice-append_past (store_u32 o.guest_abi_version) _ 4 4 16 (word_length _) (
          slice-append_past (store_u32 o.data_schema_version) _ 4 0 16 (word_length _)
            (slice_whole _ 16 z.boot.0))))

operation_head : ℕ → Operation → List ℕ
operation_head phase o = (phase % 256) ∷ o.slot ∷ 0 ∷ 0 ∷ []

pub decode_operation-encode_operation :
    (phase : ℕ) (o : Operation)
    → OperationIsSized o
    → decode_operation (encode_operation phase o) ≡ o
unfolding decode_operation encode_operation operation_head operation_block operation_words
decode_operation-encode_operation phase o z = simp (
  operation_id_read (operation_head phase o) o refl z,
  operation_firmware (operation_head phase o) o refl z,
  operation_package (operation_head phase o) o refl z,
  operation_size (operation_head phase o) o refl z,
  operation_abi (operation_head phase o) o refl z,
  operation_schema (operation_head phase o) o refl z,
  operation_boot (operation_head phase o) o refl z,
)

pub length-encode_operation :
    (phase : ℕ) (o : Operation) → OperationIsSized o → length (encode_operation phase o) ≡ 112
unfolding encode_operation
length-encode_operation phase o z =
    simp (length-append, word_length, z.id.0, z.firmware_digest.0, z.package_digest.0, z.boot.0)
