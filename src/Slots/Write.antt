-- ===== src/Slots/Write.antt =====
-- The write loop of `econtainer_slots_write_and_prepare`.
use esp_container.Common.{
  ℕ, zero, suc, ◌+◌, ◌-◌, ◌*◌, ◌/◌, ltb, if◌then◌else◌, List, ◌++◌, none, some, take, replicate,
}
use esp_container.Slots.Types.{Geometry, Region, slot_at, slot_io_bytes, Operation}
use esp_container.Slots.Flash.{chunk, flash_relative_read}
use esp_container.Slots.Io.{
  SlotsIo, ReadFn, ValidateFn, ValidationResult, validation_ok, validation_untrusted,
  validation_io_failed, Result, M, ok, err, ◌>>◌, pure, io_failed, untrusted,
}

-- `(actual + write_unit - 1) / write_unit * write_unit`
unfoldable pub aligned_size : ℕ → ℕ → ℕ
aligned_size unit actual = (actual + unit - 1) / unit * unit

-- The buffer is filled with 0xff before the source writes its bytes to the front of it.
unfoldable pub buffer : List ℕ → ℕ → List ℕ
buffer bytes actual = bytes ++ replicate (slot_io_bytes - actual) 0xff

module _ {W : Type 0} (io : SlotsIo W) where
  unfoldable pub write_chunk : ReadFn W → ℕ → ℕ → ℕ → ℕ → M W (Unit {0})
  write_chunk source unit base offset actual w =
      let (got, w1) = source offset actual w in
      elim got [
        | none ↦ (err io_failed, w1)
        | some bytes ↦
            (let (written, w2) =
                io.flash_write (base + offset)
                  (take (aligned_size unit actual) (buffer bytes actual)) w1 in
              if written then (ok tt, w2) else (err io_failed, w2))
      ]

  -- `while (offset < package_size_bytes)`, on fuel. A round writes a byte at least.
  unfoldable pub write_loop : ℕ → ReadFn W → ℕ → ℕ → ℕ → ℕ → M W (Unit {0})
  write_loop zero source unit base size offset = pure tt
  write_loop (suc fuel) source unit base size offset =
      if ltb offset size
      then (do
        write_chunk source unit base offset (chunk size offset)
        write_loop fuel source unit base size (offset + chunk size offset))
      else pure tt

  unfoldable pub erase_slot : Region → M W (Unit {0})
  erase_slot r w =
      let (erased, w1) = io.flash_erase r.offset_bytes r.size_bytes w in
      if erased then (ok tt, w1) else (err io_failed, w1)

  unfoldable pub write_package : Geometry → Operation → ReadFn W → M W (Unit {0})
  write_package g o source = do
    erase_slot (slot_at g o.slot)
    write_loop o.package_size_bytes source g.write_unit_bytes (slot_at g o.slot).offset_bytes
        o.package_size_bytes 0

  -- What becomes of the validator's answer.
  unfoldable pub judge : ValidationResult → W → Result (Unit {0}) × W
  judge validation_io_failed w = (err io_failed, w)
  judge validation_untrusted w = (err untrusted, w)
  judge validation_ok w = (ok tt, w)

  unfoldable pub validate_package : Geometry → Operation → ValidateFn W Operation → M W (Unit {0})
  validate_package g o validate w =
      let (validation, w1) =
        validate o (flash_relative_read io (slot_at g o.slot).offset_bytes o.package_size_bytes)
          o.package_size_bytes w in
      judge validation w1
