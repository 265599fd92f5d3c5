-- ===== src/Crypto.antt =====
-- components/esp_container/src/package_crypto.c (the ESP_PLATFORM half): SHA-256 by the PSA API.
-- The PSA calls are not in the repository: they are a record of functions on a world.
use esp_container.Common.{ℕ, Bool, false, List, length, ◌==◌, if◌then◌else◌, ◌&&◌}

-- `Op` is `psa_hash_operation_t`; each call says whether it answered PSA_SUCCESS.
pub record Psa (W Op : Type 0) : Type 0 where
  pub crypto_init : W → Bool × W
  pub hash_operation_init : Op
  pub hash_setup : Op → W → record { fine : Bool; op : Op; world : W }
  pub hash_update : Op → List ℕ → W → record { fine : Bool; op : Op; world : W }
  pub hash_finish : Op → W → record { fine : Bool; output : List ℕ; world : W }
  pub hash_abort : Op → W → W

module _ {W Op : Type 0} (psa : Psa W Op) where
  -- `econtainer_package_digest_abort`
  unfoldable pub digest_abort : Op → W → W
  digest_abort op w = psa.hash_abort op w

  -- `econtainer_package_digest_start`
  unfoldable pub digest_start : W → record { fine : Bool; op : Op; world : W }
  digest_start w =
      let (ready, w1) = psa.crypto_init w in
      let op = psa.hash_operation_init in
      let set = psa.hash_setup op w1 in
      if ready
      then (if set.fine
          then set
          else record { fine = false; op = set.op; world = psa.hash_abort set.op set.world })
      else record { fine = false; op = op; world = psa.hash_abort op w1 }

  -- `econtainer_package_digest_update`
  unfoldable pub digest_update : Op → List ℕ → W → record { fine : Bool; op : Op; world : W }
  digest_update op bytes w = psa.hash_update op bytes w

  -- `econtainer_package_digest_finish`: the output counts only if it has 32 bytes. The operation
  -- is finished, so the abort releases nothing more than a fresh one.
  unfoldable pub digest_finish : Op → W → record { fine : Bool; output : List ℕ; world : W }
  digest_finish op w =
      let done = psa.hash_finish op w in
      record {
        fine = done.fine && length done.output == 32;
        output = done.output;
        world = psa.hash_abort op done.world;
      }
