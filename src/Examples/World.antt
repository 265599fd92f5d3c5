-- ===== src/Examples/World.antt =====
-- A device in memory: a world on which every callback of slots.c succeeds, and a digest.
use esp_container.Common.{
  ℕ, ◌+◌, ◌-◌, ◌%◌, ◌≡◌, refl, ap, sym, ◌≢◌, length-replicate, inl, Bool, true, false, ◌&&◌, ltb,
  leb, ◌==◌, if◌then◌else◌, List, [], ◌∷◌, ◌++◌, Option, none, some, length, get_or, replicate, All,
  arith, ==_iff, and_parts, ltb→lt,
}
use mathlib.Core.Path.{subst}
use mathlib.Core.Option.{some-injective}
use esp_container.Common.Bytes.{IsByte, IsBytes}
use esp_container.Crypto.{Psa}
use esp_container.Slots.Io.{SlotsIo, BlobResult, found, not_found, read_failed}
use esp_container.Slots.Flash.Laws.{Device, OnlyWithin, SlotsIoLaws, PsaLaws, flash_bytes}

unfoldable pub all_bytes : List ℕ → Bool
all_bytes [] = true
all_bytes (b ∷ bs) = ltb b 256 && all_bytes bs

pub all_bytes_sound : (bs : List ℕ) → all_bytes bs ≡ true → All IsByte bs
unfolding all_bytes
all_bytes_sound [] h = tt
all_bytes_sound (b ∷ bs) h =
    let (p, q) = and_parts (ltb b 256) (all_bytes bs) h in (ltb→lt b 256 p, all_bytes_sound bs q)

unfoldable pub stored_blob : Option (List ℕ) → BlobResult
stored_blob none = not_found
stored_blob (some b) = if length b == 288 && all_bytes b then found b else read_failed

-- What the callback answers on a blob of the right form and on another.
chosen-found :
    (c : Bool) (x b : List ℕ)
    → (if c then found x else read_failed) ≡ found b
    → (c ≡ true) × (x ≡ b)
chosen-found true x b e = (refl, cc)
chosen-found false x b e = absurd cc

chosen-not_found : (c : Bool) (x : List ℕ) → (if c then found x else read_failed) ≢ not_found
chosen-not_found true x e = cc
chosen-not_found false x e = cc

stored_blob-found :
    (o : Option (List ℕ)) (b : List ℕ) → stored_blob o ≡ found b → (o ≡ some b) × IsBytes 288 b
unfolding stored_blob
stored_blob-found none b e = absurd cc
stored_blob-found (some x) b e =
    let (t, same) = chosen-found (length x == 288 && all_bytes x) x b e in
    let (n, a) = and_parts (length x == 288) (all_bytes x) t in
    (ap some same, subst (IsBytes 288) same ((==_iff (length x) 288).0 n, all_bytes_sound x a))

stored_blob-not_found : (o : Option (List ℕ)) → stored_blob o ≡ not_found → o ≡ none
unfolding stored_blob
stored_blob-not_found none e = refl
stored_blob-not_found (some x) e = absurd (chosen-not_found (length x == 288 && all_bytes x) x e)

-- Writing at `a`: inside the range the new bytes, the old ones elsewhere.
abbrev pub overwritten : (ℕ → ℕ) → ℕ → List ℕ → ℕ → ℕ
overwritten flash a bs x = if leb a x && ltb x (a + length bs) then get_or bs (x - a) 0 else flash x

abbrev pub memory : SlotsIo Device
memory = record {
  lock = λ w. (true, w);
  unlock = λ w. w;
  read_blob = λ w. (stored_blob w.blob, w);
  write_blob = λ b w. (true, record w { blob = some b });
  flash_read = λ a n w. (some (flash_bytes w.flash a n), w);
  flash_erase = λ a n w. (true, record w { flash = overwritten w.flash a (replicate n 255) });
  flash_write = λ a bs w. (true, record w { flash = overwritten w.flash a bs });
}

pub overwritten_within :
    (a : ℕ) (bs : List ℕ) (w : Device)
    → OnlyWithin a (length bs) w (record w { flash = overwritten w.flash a bs })
overwritten_within a bs w = (refl, λ x out. ground arith)

pub erased_within :
    (a n : ℕ) (w : Device)
    → OnlyWithin a n w (record w { flash = overwritten w.flash a (replicate n 255) })
erased_within a n w =
    subst
      (λ (k : ℕ). OnlyWithin a k w (record w { flash = overwritten w.flash a (replicate n 255) }))
      (length-replicate n 255) (overwritten_within a (replicate n 255) w)

-- Not SHA-256: the sum of the bytes, in 32 bytes.
abbrev pub byte_sum : List ℕ → List ℕ
byte_sum bs = total bs % 256 ∷ replicate 31 1
  where
    total : List ℕ → ℕ
    total [] = 0
    total (b ∷ bs) = b + total bs

abbrev pub summing : Psa Device (List ℕ)
summing = record {
  crypto_init = λ w. (true, w);
  hash_operation_init = [];
  hash_setup = λ op w. record { fine = true; op = []; world = w };
  hash_update = λ op bs w. record { fine = true; op = op ++ bs; world = w };
  hash_finish = λ op w. record { fine = true; output = byte_sum op; world = w };
  hash_abort = λ op w. w;
}

abbrev pub viewed : Device → Device
viewed w = w

abbrev pub fed : List ℕ → List ℕ
fed op = op

pub memory-SlotsIoLaws : SlotsIoLaws memory viewed
memory-SlotsIoLaws = record {
  lock_keeps = λ w. refl;
  unlock_keeps = λ w. refl;
  read_blob_keeps = λ w. refl;
  read_blob_found = λ w b e. stored_blob-found w.blob b e;
  read_blob_not_found = λ w e. stored_blob-not_found w.blob e;
  write_blob_commits = λ b w. inl refl;
  flash_read_keeps = λ a n w. refl;
  flash_read_bytes = λ a n w bs e. sym (some-injective _ _ e);
  flash_erase_within = λ a n w. erased_within a n w;
  flash_write_within = λ a bs w. overwritten_within a bs w;
}

pub summing-PsaLaws : PsaLaws summing viewed fed byte_sum
summing-PsaLaws = record {
  init_keeps = λ w. refl;
  setup_keeps = λ op w. refl;
  setup_absorbs = λ op w e. refl;
  update_keeps = λ op bs w. refl;
  update_absorbs = λ op bs w e. refl;
  finish_keeps = λ op w. refl;
  finish_output = λ op w e. refl;
  abort_keeps = λ op w. refl;
}
