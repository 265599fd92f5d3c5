-- ===== src/Slots/Store.antt =====
-- The blob side of slots.c: load, persist with read-back, and the lock around every operation.
pub mod Commit
use esp_container.Common.{
  ℕ, ◌+◌, Bool, true, false, not, ltb, ◌==◌, if◌then◌else◌, List, Option, none, some,
}
use esp_container.Common.Bytes.{bytes_eq}
use esp_container.Slots.Types.{Geometry, SlotsState, u32_max}
use esp_container.Slots.Valid.{state_valid}
use esp_container.Slots.Codec.{encode_state, decode_state}
use esp_container.Slots.Io.{
  SlotsIo, SlotsError, Result, M, ok, err, found, not_found, read_failed, ◌>>=◌, ◌>>◌, pure, fail,
  require, next, empty, invalid, io_failed, uncertain, busy, conflict,
}

-- What `load_locked` makes of a blob that was found.
unfoldable pub decoded : Option SlotsState → Result SlotsState
decoded none = err invalid
decoded (some s) = ok s

-- What `persist_locked` makes of the blob that it reads back: `desired` is in place, or the blob
-- of the state before is still there, or neither can be said.
unfoldable pub settle : Bool → List ℕ → List ℕ → Option SlotsState → SlotsState → Result SlotsState
settle committed observed desired before after =
    if bytes_eq observed desired
    then (if committed then ok after else err uncertain)
    else elim before [
      | none ↦ err uncertain
      | some old ↦ if bytes_eq observed (encode_state old) then err io_failed else err uncertain
    ]

module _ {W : Type 0} (io : SlotsIo W) where
  unfoldable pub load_locked : Geometry → M W SlotsState
  load_locked g w =
      let (result, w1) = io.read_blob w in
      elim result [
        | not_found ↦ (err empty, w1)
        | read_failed ↦ (err io_failed, w1)
        | found blob ↦ (decoded (decode_state blob g), w1)
      ]

  unfoldable pub persist_locked : Option SlotsState → SlotsState → M W SlotsState
  persist_locked before after w =
      let desired = encode_state after in
      let (committed, w1) = io.write_blob desired w in
      let (result, w2) = io.read_blob w1 in
      elim result [
        | not_found ↦ (err uncertain, w2)
        | read_failed ↦ (err uncertain, w2)
        | found observed ↦ (settle committed observed desired before after, w2)
      ]

  unfoldable pub commit_next : Geometry → SlotsState → SlotsState → M W SlotsState
  commit_next g before after =
      let numbered = record after { sequence = before.sequence + 1 } in
      if before.sequence == u32_max
      then fail invalid
      else if not (state_valid numbered g)
      then fail invalid
      else persist_locked (some before) numbered

  unfoldable pub begin_locked : Geometry → ℕ → M W SlotsState
  begin_locked g expected_sequence = do
    current ← load_locked g
    require (current.sequence == expected_sequence) conflict
    pure current

  -- Every operation takes the lock once and gives it back on every path.
  unfoldable pub with_lock : {A : Type 0} → M W A → M W A
  with_lock body w =
      let (taken, w1) = io.lock w in
      elim taken [
        | true ↦ (let (result, w2) = body w1 in (result, io.unlock w2))
        | false ↦ (err busy, w1)
      ]
