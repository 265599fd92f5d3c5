-- ===== src/Slots/Flash.antt =====
-- The Flash side of slots.c: bounded reads, the hash of a stored package, and the check of every
-- package that a state refers to.
pub mod Laws
pub mod Hash
use esp_container.Common.{
  ℕ, zero, suc, ◌+◌, ◌-◌, Bool, true, false, ◌&&◌, ◌||◌, ltb, leb, ◌==◌, if◌then◌else◌, List,
  Option, none, some,
}
use esp_container.Common.Bytes.{bytes_eq}
use esp_container.Crypto.{Psa, digest_start, digest_update, digest_finish, digest_abort}
use esp_container.Slots.Types.{
  Region, Geometry, slot_at, Binding, Operation, SlotsState, slot_count, slot_io_bytes, u32_max,
}
use esp_container.Slots.Valid.{has_candidate}
use esp_container.Slots.Io.{
  SlotsIo, ReadFn, M, ok, err, ◌>>=◌, ◌>>◌, pure, fail, require, next, invalid, io_failed,
  untrusted,
}

-- `flash_relative_read` for a reader at `base` with `size` bytes.
unfoldable pub flash_relative_read : {W : Type 0} → SlotsIo W → ℕ → ℕ → ReadFn W
flash_relative_read io base size relative count w =
    if ltb size relative || ltb (size - relative) count || ltb (u32_max - base) relative
    then (none, w)
    else io.flash_read (base + relative) count w

-- `(size_bytes - offset) > SLOT_IO_BYTES ? SLOT_IO_BYTES : size_bytes - offset`
unfoldable pub chunk : ℕ → ℕ → ℕ
chunk size offset = if ltb slot_io_bytes (size - offset) then slot_io_bytes else size - offset

module _ {W Op : Type 0} (psa : Psa W Op) where
  -- A failing update releases the digest.
  unfoldable pub absorb : Op → List ℕ → M W Op
  absorb op bytes w =
      let d = digest_update psa op bytes w in
      if d.fine then (ok d.op, d.world) else (err io_failed, digest_abort psa d.op d.world)

  unfoldable pub start_digest : M W Op
  start_digest w =
      let d = digest_start psa w in if d.fine then (ok d.op, d.world) else (err io_failed, d.world)

  unfoldable pub finish_digest : Op → M W (List ℕ)
  finish_digest op w =
      let d = digest_finish psa op w in
      if d.fine then (ok d.output, d.world) else (err io_failed, d.world)

module _ {W Op : Type 0} (io : SlotsIo W) (psa : Psa W Op) where
  -- A failing read releases the digest.
  unfoldable pub read_chunk : ℕ → ℕ → ℕ → ℕ → Op → M W (List ℕ)
  read_chunk base size offset count op w =
      let (got, w1) = flash_relative_read io base size offset count w in
      elim got [ none ↦ (err io_failed, digest_abort psa op w1) | some bytes ↦ (ok bytes, w1) ]

  -- `while (offset < size_bytes)`, on fuel. A round takes a byte at least.
  unfoldable pub hash_loop : ℕ → ℕ → ℕ → ℕ → Op → M W Op
  hash_loop zero base size offset op = pure op
  hash_loop (suc fuel) base size offset op =
      if ltb offset size
      then (do
        bytes ← read_chunk base size offset (chunk size offset) op
        op' ← absorb psa op bytes
        hash_loop fuel base size (offset + chunk size offset) op')
      else pure op

  module _ (g : Geometry) where
    unfoldable pub hash_flash : ℕ → ℕ → List ℕ → M W (Unit {0})
    hash_flash slot size expected =
        if leb slot_count slot || size == 0 || ltb (slot_at g slot).size_bytes size
        then fail invalid
        else (do
          op ← start_digest psa
          op' ← hash_loop size (slot_at g slot).offset_bytes size 0 op
          actual ← finish_digest psa op'
          require (bytes_eq actual expected) untrusted)

    -- One round of the loop in `check_references`.
    unfoldable pub check_binding : Binding → M W (Unit {0})
    check_binding b =
        if b.package_present
        then hash_flash b.slot b.package_size_bytes b.package_sha256
        else pure tt

    unfoldable pub hash_candidate : Operation → M W (Unit {0})
    hash_candidate o = hash_flash o.slot o.package_size_bytes o.package_sha256

    unfoldable pub check_references : SlotsState → Bool → M W (Unit {0})
    check_references s check_candidate = do
      check_binding s.binding0
      check_binding s.binding1
      if check_candidate && has_candidate s.phase then hash_candidate s.operation else pure tt
