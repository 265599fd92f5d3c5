-- ===== src/Slots/Steps.antt =====
-- The state machine that the operations of slots.c implement: one step for each committed state.
use esp_container.Common.{ℕ, ◌+◌, ◌<◌, ◌≡◌, ◌≢◌, arith, true, false, List, some}
use esp_container.Common.Bytes.{IsBytes}
use esp_container.Slots.Types.{
  Geometry, Operation, SlotsState, StateIsSized, u32_max, writing, prepared, trial_started,
  health_verified, aborted,
}
use esp_container.Slots.Valid.{state_valid, in_progress}
use esp_container.Slots.Codec.{encode_state, decode_state}
use esp_container.Slots.Codec.RoundTrip.{decode_state-IsSized}
use esp_container.Slots.Firmware.{binding_for_firmware}
use esp_container.Slots.Operations.{select_slot, reserved_state, trial_state, confirmed_state}
use esp_container.Slots.Io.{SlotsError, uncertain}
use esp_container.Slots.Flash.Laws.{Device, Intact}

-- `next->sequence = before->sequence + 1`
abbrev pub numbered : SlotsState → SlotsState → SlotsState
numbered before after = record after { sequence = before.sequence + 1 }

pub numbered-IsSized :
    (s after : SlotsState)
    → StateIsSized s
    → StateIsSized after
    → s.sequence ≢ u32_max
    → StateIsSized (numbered s after)
numbered-IsSized s after z y n = record {
  sequence = omega (arith, z.sequence);
  binding0 = y.binding0;
  binding1 = y.binding1;
  phase = y.phase;
  operation = y.operation;
}

pub phase-IsSized :
    (s : SlotsState) (p : ℕ) → p < 256 → StateIsSized s → StateIsSized (record s { phase = p })
phase-IsSized s p h z = record {
  sequence = z.sequence;
  binding0 = z.binding0;
  binding1 = z.binding1;
  phase = h;
  operation = z.operation;
}

-- A new state follows an old one: what the old one allows, and what the new one is.
pub data Step (g : Geometry) (s s' : SlotsState) : Type 0 where
  reserved :
      (o : Operation) (i : ℕ)
      → in_progress s.phase ≡ false
      → select_slot g s o.package_size_bytes ≡ some i
      → s' ≡ numbered s (reserved_state s o i)
      → Step g s s'
  written : s.phase ≡ writing → s' ≡ numbered s (record s { phase = prepared }) → Step g s s'
  tried :
      (boot_id : List ℕ)
      → s.phase ≡ prepared
      → s' ≡ numbered s (trial_state s boot_id)
      → Step g s s'
  healthy :
      s.phase ≡ trial_started → s' ≡ numbered s (record s { phase = health_verified }) → Step g s s'
  confirms :
      (i : ℕ)
      → s.phase ≡ health_verified
      → binding_for_firmware s s.operation.target_firmware_sha256 ≡ some i
      → s' ≡ numbered s (confirmed_state s i)
      → Step g s s'
  abandons :
      in_progress s.phase ≡ true → s' ≡ numbered s (record s { phase = aborted }) → Step g s s'

-- The device holds the blob of `s`.
abbrev pub Stored : Geometry → Device → SlotsState → Type 0
Stored g v s = (b : List ℕ) × (v.blob ≡ some b) × IsBytes 288 b × (decode_state b g ≡ some s)

-- What is stored was decoded from 288 bytes, so it fits its C types.
pub Stored-IsSized : (g : Geometry) (v : Device) (s : SlotsState) → Stored g v s → StateIsSized s
Stored-IsSized g v s (b, e, z, d) = decode_state-IsSized b g z d

abbrev pub committed : Device → SlotsState → Device
committed v s = record v { blob = some (encode_state s) }

-- A state that an operation may commit on the device `v`: a valid step from the stored state with
-- the expected sequence number, whose packages have been hashed, and which the operation relates to
-- the stored one as `R` says.
pub record Admissible (sha256 : List ℕ → List ℕ) (g : Geometry) (v : Device) (expected_sequence : ℕ)
    (R : SlotsState → SlotsState → Type 0) (s' : SlotsState) : Type 0 where
  pub current : SlotsState
  pub stored : Stored g v current
  pub expected : current.sequence ≡ expected_sequence
  pub step : Step g current s'
  pub related : R current s'
  pub valid : state_valid s' g ≡ true
  pub sized : StateIsSized s'
  pub intact : Intact sha256 g v s'

-- Success: an admissible state, and its blob is all that changed.
abbrev pub Commits : Device → (SlotsState → Type 0) → SlotsState → Device → Type 0
Commits v T s d = T s × (d ≡ committed v s)

-- Failure: nothing changed; or, under UNCERTAIN only, an admissible state was committed.
pub data Failed (v : Device) (T : SlotsState → Type 0) (e : SlotsError) (d : Device) : Type 0 where
  kept : d ≡ v → Failed v T e d
  doubtful : (s : SlotsState) → e ≡ uncertain → T s → d ≡ committed v s → Failed v T e d
