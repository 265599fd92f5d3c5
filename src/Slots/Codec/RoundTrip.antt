-- ===== src/Slots/Codec/RoundTrip.antt =====
-- The whole blob: a valid state is read back from its encoding, and what is decoded is valid.
use esp_container.Common.{
  ℕ, zero, suc, ◌+◌, ◌≤◌, ◌<◌, ◌≡◌, refl, ap, ◌∙◌, Bool, true, false, arith, List, [], ◌∷◌, ◌++◌,
  ◌%◌, Option, none, some, slice, take, drop, length, length-append, take-append_exact,
  slice-append_here, slice-append_past, slice-append_within, slice_whole, inl, inr, if◌then◌else◌,
  get_or, Option-cases, All, All-take, All-drop, length-take, length-drop,
}
use mathlib.Core.Option.{some-injective}
use mathlib.Core.Path.{subst}
use esp_container.Common.Bytes.{
  IsByte, IsBytes, IsU32, store_u32, load_u32, load_u32-store_u32, bytes_eq, load_u32-IsU32,
}
use esp_container.Slots.Types.{
  Geometry, Binding, SlotsState, BindingIsSized, OperationIsSized, StateIsSized,
}
use esp_container.Slots.Valid.{state_valid}
use esp_container.Slots.Codec.{
  encode_binding, encode_operation, encode_body, encode_state, decode_binding, decode_operation,
  decode_rest, decode_fields, decode_state, checked, header_valid, magic, blob_crc32,
}
use esp_container.Slots.Codec.Layout.{
  word_length, decode_binding-encode_binding, length-encode_binding,
  decode_operation-encode_operation, length-encode_operation,
}

phase_byte : (p : ℕ) → p < 256 → p % 256 ≡ p
phase_byte p h = omega arith

blob_crc32-IsU32 : (bs : List ℕ) → IsU32 (blob_crc32 bs)
unfolding blob_crc32
blob_crc32-IsU32 bs = omega arith

module _ (s : SlotsState) (z : StateIsSized s) where
  length-encode_body : length (encode_body s) ≡ 284
  unfolding encode_body
  length-encode_body = simp (
    length-append,
    word_length,
    length-encode_binding s.binding0 z.binding0,
    length-encode_binding s.binding1 z.binding1,
    length-encode_operation s.phase s.operation z.operation,
  )

  -- A part of the body is found in the blob at the same place.
  in_body :
      (m n : ℕ) {bs : List ℕ}
      → m + n ≤ 284
      → slice m n (encode_body s) ≡ bs
      → slice m n (encode_state s) ≡ bs
  unfolding encode_state
  in_body m n h e =
      slice-append_within (encode_body s) _ m n (omega (arith, length-encode_body)) ∙ e

  read_magic : slice 0 4 (encode_state s) ≡ magic
  read_magic = in_body 0 4 (omega arith) (unfold encode_body in slice-append_here magic _ 4 refl)

  read_version : slice 4 4 (encode_state s) ≡ store_u32 1
  read_version = in_body 4 4 (omega arith) (
      unfold encode_body in
      slice-append_past magic _ 4 0 4 refl (slice-append_here _ _ 4 (word_length 1)))

  -- The four-byte fields in front of the bindings.
  past_header :
      (m n : ℕ) {bs : List ℕ}
      → slice m n (
          encode_binding s.binding0
          ++ (encode_binding s.binding1 ++ encode_operation s.phase s.operation))
        ≡ bs
      → slice (4 + (4 + (4 + m))) n (encode_body s) ≡ bs
  unfolding encode_body
  past_header m n e = slice-append_past magic _ 4 (4 + (4 + m)) n refl (
      slice-append_past (store_u32 1) _ 4 (4 + m) n (word_length 1)
        (slice-append_past (store_u32 s.sequence) _ 4 m n (word_length _) e))

  read_sequence : slice 8 4 (encode_state s) ≡ store_u32 s.sequence
  read_sequence = in_body 8 4 (omega arith) (
      unfold encode_body in
      slice-append_past magic _ 4 4 4 refl (
        slice-append_past (store_u32 1) _ 4 0 4 (word_length 1)
          (slice-append_here _ _ 4 (word_length s.sequence))))

  read_binding0 : slice 12 80 (encode_state s) ≡ encode_binding s.binding0
  read_binding0 =
      in_body 12 80 (omega arith)
        (past_header 0 80 (slice-append_here _ _ 80 (length-encode_binding _ z.binding0)))

  read_binding1 : slice 92 80 (encode_state s) ≡ encode_binding s.binding1
  read_binding1 = in_body 92 80 (omega arith) (
      past_header 80 80 (
        slice-append_past _ _ 80 0 80 (length-encode_binding _ z.binding0)
          (slice-append_here _ _ 80 (length-encode_binding _ z.binding1))))

  read_operation : slice 172 112 (encode_state s) ≡ encode_operation s.phase s.operation
  read_operation = in_body 172 112 (omega arith) (
      past_header 160 112 (
        slice-append_past _ _ 80 80 112 (length-encode_binding _ z.binding0) (
          slice-append_past _ _ 80 0 112 (length-encode_binding _ z.binding1)
            (slice_whole _ 112 (length-encode_operation _ _ z.operation)))))

  read_crc : slice 284 4 (encode_state s) ≡ store_u32 (blob_crc32 (encode_body s))
  unfolding encode_state
  read_crc =
      slice-append_past (encode_body s) _ 284 0 4 length-encode_body
        (slice_whole _ 4 (word_length _))

  read_body : take 284 (encode_state s) ≡ encode_body s
  unfolding encode_state
  read_body = take-append_exact (encode_body s) _ 284 length-encode_body

  pub length-encode_state : length (encode_state s) ≡ 288
  unfolding encode_state
  length-encode_state =
      length-append (encode_body s) _
      ∙ omega (arith, length-encode_body, word_length (blob_crc32 (encode_body s)))

  header-encode_state : header_valid (encode_state s) ≡ true
  unfolding header_valid bytes_eq
  header-encode_state =
      simp
        (
          read_magic,
          read_version,
          read_crc,
          read_body,
          load_u32-store_u32 1 (omega arith),
          load_u32-store_u32 _ (blob_crc32-IsU32 (encode_body s)),
        )
        (ground arith)

  fields-encode_state : decode_fields (encode_state s) ≡ some s
  unfolding decode_fields decode_rest
  fields-encode_state =
      simp
        (
          decode_fields,
          decode_rest,
          read_binding0,
          read_binding1,
          read_operation,
          read_sequence,
          decode_binding-encode_binding s.binding0 z.binding0,
          decode_binding-encode_binding s.binding1 z.binding1,
          decode_operation-encode_operation s.phase s.operation z.operation,
          load_u32-store_u32 _ z.sequence,
        )
        (unfold encode_operation in
          ap (λ (p : ℕ). some (record s { phase = p })) (phase_byte s.phase z.phase))

none-some {ℓ} : {A : Type ℓ} {x : A} → none ≡ some x → ⊥
none-some e = cc

-- Decoding the blob of a state gives that state back, for every state that fits its C types and is
-- valid for the geometry.
pub decode_state-encode_state :
    (s : SlotsState) (g : Geometry)
    → StateIsSized s
    → state_valid s g ≡ true
    → decode_state (encode_state s) g ≡ some s
unfolding decode_state checked
decode_state-encode_state s g z v =
    simp (decode_state, header-encode_state s z, fields-encode_state s z, checked, v)

checked-valid :
    (o : Option SlotsState) (g : Geometry) {s : SlotsState}
    → checked o g ≡ some s
    → (o ≡ some s) × (state_valid s g ≡ true)
unfolding checked
checked-valid none g e = cc
checked-valid (some t) g e = ground arith

-- Whatever the decoder accepts is what the fields hold, and is valid.
decode_state-checked :
    (blob : List ℕ) (g : Geometry) {s : SlotsState}
    → decode_state blob g ≡ some s
    → (decode_fields blob ≡ some s) × (state_valid s g ≡ true)
unfolding decode_state
decode_state-checked blob g e = checked-valid (decode_fields blob) g (ground arith)

pub decode_state-valid :
    (blob : List ℕ) (g : Geometry) {s : SlotsState}
    → decode_state blob g ≡ some s
    → state_valid s g ≡ true
decode_state-valid blob g e = (decode_state-checked blob g e).1

-- The decoded fields of a blob of 288 bytes fit their C types.
slice-IsBytes :
    (m n : ℕ) (bs : List ℕ) → m + n ≤ length bs → All IsByte bs → IsBytes n (slice m n bs)
unfolding slice
slice-IsBytes m n bs h k = (
  length-take n (drop m bs) (omega (arith, length-drop m bs)),
  All-take IsByte n (drop m bs) (All-drop IsByte m bs k),
)

slice_word : (m : ℕ) (bs : List ℕ) → All IsByte bs → IsU32 (load_u32 (slice m 4 bs))
unfolding slice
slice_word m bs k = load_u32-IsU32 _ (All-take IsByte 4 (drop m bs) (All-drop IsByte m bs k))

get_or-IsByte : (bs : List ℕ) (i : ℕ) → All IsByte bs → get_or bs i 0 < 256
get_or-IsByte [] i h = omega arith
get_or-IsByte (b ∷ bs) zero (p, h) = p
get_or-IsByte (b ∷ bs) (suc i) (p, h) = get_or-IsByte bs i h

value_of_guard {ℓ} :
    {A : Type ℓ} (c : Bool) {x y : A} → (if c then none else some x) ≡ some y → x ≡ y
value_of_guard true e = cc
value_of_guard false e = some-injective _ _ e

decode_binding-IsSized :
    (bs : List ℕ) {b : Binding} → IsBytes 80 bs → decode_binding bs ≡ some b → BindingIsSized b
unfolding decode_binding
decode_binding-IsSized bs (n, k) e = subst BindingIsSized (value_of_guard _ e) (record {
  slot = get_or-IsByte bs 2 k;
  firmware_digest = slice-IsBytes 4 32 bs (omega arith) k;
  package_digest = slice-IsBytes 36 32 bs (omega arith) k;
  size = slice_word 68 bs k;
  abi = slice_word 72 bs k;
  schema = slice_word 76 bs k;
})

decode_operation-IsSized : (bs : List ℕ) → IsBytes 112 bs → OperationIsSized (decode_operation bs)
unfolding decode_operation
decode_operation-IsSized bs (n, k) = record {
  id = slice-IsBytes 4 16 bs (omega arith) k;
  firmware_digest = slice-IsBytes 20 32 bs (omega arith) k;
  package_digest = slice-IsBytes 52 32 bs (omega arith) k;
  slot = get_or-IsByte bs 1 k;
  size = slice_word 84 bs k;
  abi = slice_word 88 bs k;
  schema = slice_word 92 bs k;
  boot = slice-IsBytes 96 16 bs (omega arith) k;
}

-- The last part of the decoder, on a blob of the right length.
decode_rest-IsSized :
    (blob : List ℕ) (first second : Binding) {s : SlotsState}
    → IsBytes 288 blob
    → BindingIsSized first
    → BindingIsSized second
    → decode_rest blob first second ≡ some s
    → StateIsSized s
unfolding decode_rest
decode_rest-IsSized blob first second (n, k) f z e =
    subst StateIsSized (value_of_guard _ e) (record {
      sequence = slice_word 8 blob k;
      binding0 = f;
      binding1 = z;
      phase = get_or-IsByte _ 0 ((slice-IsBytes 172 112 blob (omega arith) k).1);
      operation = decode_operation-IsSized _ (slice-IsBytes 172 112 blob (omega arith) k);
    })

decode_fields-IsSized :
    (blob : List ℕ) {s : SlotsState}
    → IsBytes 288 blob
    → decode_fields blob ≡ some s
    → StateIsSized s
unfolding decode_fields
decode_fields-IsSized blob (n, k) e = elim (Option-cases (decode_binding (slice 12 80 blob))) [
  | inl p ↦ absurd (none-some (rw (p, decode_fields) at e))
  | inr (first, p) ↦ elim (Option-cases (decode_binding (slice 92 80 blob))) [
    | inl q ↦ absurd (none-some (rw (p, q, decode_fields) at e))
    | inr (second, q) ↦
        decode_rest-IsSized blob first second (n, k)
          (decode_binding-IsSized _ (slice-IsBytes 12 80 blob (omega arith) k) p)
          (decode_binding-IsSized _ (slice-IsBytes 92 80 blob (omega arith) k) q)
          (rw (p, q, decode_fields) at e)
  ]
]

-- Every field of a state decoded from a 288-byte blob fits its C type.
pub decode_state-IsSized :
    (blob : List ℕ) (g : Geometry) {s : SlotsState}
    → IsBytes 288 blob
    → decode_state blob g ≡ some s
    → StateIsSized s
decode_state-IsSized blob g h e = decode_fields-IsSized blob h (decode_state-checked blob g e).0
