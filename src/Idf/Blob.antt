-- ===== src/Idf/Blob.antt =====
-- The blob callbacks of slots_idf.c read and write the blob of the device.
use esp_container.Common.{
  ℕ, ◌≡◌, refl, sym, ap, ◌∙◌, ◌⊎◌, inl, inr, false, ◌==◌, List, Option, none, some, length,
  Bool-cases, ==_iff,
}
use mathlib.Core.Path.{subst}
use esp_container.Common.Bytes.{IsBytes}
use esp_container.Slots.Flash.Laws.{Device}
use esp_container.Slots.Io.{BlobResult, found, not_found, read_failed}
use esp_container.Idf.Types.{
  Idf, Provider, NvsResult, nvs_ok, nvs_not_found, nvs_failed, nvs_readonly, nvs_readwrite,
}
use esp_container.Idf.Laws.{IdfLaws}
use esp_container.Idf.Provider.{
  provider_read_blob, provider_write_blob, measure_blob, fetch_blob, store_blob,
}

NvsResult-cases :
    {A : Type 0} (r : NvsResult A)
    → (r ≡ nvs_not_found) ⊎ (r ≡ nvs_failed) ⊎ ((a : A) × (r ≡ nvs_ok a))
NvsResult-cases (nvs_ok a) = inr (inr (a, refl))
NvsResult-cases nvs_not_found = inl refl
NvsResult-cases nvs_failed = inr (inl refl)

-- What a read of the blob says of the device: it is left alone, and the answer is that of its blob.
pub record ReadsBlob (v v' : Device) (r : BlobResult) : Type 0 where
  pub keeps : v' ≡ v
  pub found_blob : (b : List ℕ) → r ≡ found b → (v.blob ≡ some b) × IsBytes 288 b
  pub no_blob : r ≡ not_found → v.blob ≡ none

found-not_found : {b : List ℕ} {A : Type 0} → found b ≡ not_found → A
found-not_found e = cc

read_failed-found : {b : List ℕ} {A : Type 0} → read_failed ≡ found b → A
read_failed-found e = cc

read_failed-not_found : {A : Type 0} → read_failed ≡ not_found → A
read_failed-not_found e = cc

failed-ReadsBlob : (v v' : Device) → v' ≡ v → ReadsBlob v v' read_failed
failed-ReadsBlob v v' h = record {
  keeps = h;
  found_blob = λ b e. read_failed-found e;
  no_blob = λ e. read_failed-not_found e;
}

absent-ReadsBlob : (v v' : Device) → v' ≡ v → v.blob ≡ none → ReadsBlob v v' not_found
absent-ReadsBlob v v' h n = record {
  keeps = h;
  found_blob = λ b e. found-not_found (sym e);
  no_blob = λ e. n;
}

found-injective : {b x : List ℕ} → found b ≡ found x → b ≡ x
found-injective e = cc

present-ReadsBlob :
    (v v' : Device) (b : List ℕ)
    → v' ≡ v
    → v.blob ≡ some b
    → IsBytes 288 b
    → ReadsBlob v v' (found b)
present-ReadsBlob v v' b h e z = record {
  keeps = h;
  found_blob =
      λ x q. subst (λ (y : List ℕ). (v.blob ≡ some y) × IsBytes 288 y) (found-injective q) (e, z);
  no_blob = λ q. found-not_found q;
}

module _ {W H S : Type 0} (idf : Idf W H S) (p : Provider S) (view : W → Device) (Ours : H → Type 0)
    (pending : H → W → Option (List ℕ)) (laws : IdfLaws idf p view Ours pending) where
  fetch_blob-ReadsBlob :
      (h : H) (w : W)
      → Ours h
      → ReadsBlob (view w) (view (fetch_blob idf p h w).1) (fetch_blob idf p h w).0
  unfolding fetch_blob
  fetch_blob-ReadsBlob h w o =
      let closed =
        laws.close_keeps h (idf.nvs_get_blob h p.nvs_key 288 w).1 o ∙ laws.get_keeps h 288 w o in
      elim (NvsResult-cases (idf.nvs_get_blob h p.nvs_key 288 w).0) [
        | inl e ↦ rw (e, fetch_blob) (failed-ReadsBlob (view w) _ closed)
        | inr (inl e) ↦ rw (e, fetch_blob) (failed-ReadsBlob (view w) _ closed)
        | inr (inr (b, e)) ↦ elim (Bool-cases (length b == 288)) [
          | inr f ↦ rw (e, f, fetch_blob) (failed-ReadsBlob (view w) _ closed)
          | inl f ↦
              rw (e, f, fetch_blob)
                (let (at, bytes) = laws.get_found h 288 w b o e in
                  present-ReadsBlob (view w) _ b closed at ((==_iff (length b) 288).0 f, bytes))
        ]
      ]

  measure_blob-ReadsBlob :
      (h : H) (w : W)
      → Ours h
      → ReadsBlob (view w) (view (measure_blob idf p h w).1) (measure_blob idf p h w).0
  unfolding measure_blob
  measure_blob-ReadsBlob h w o =
      let w1 = (idf.nvs_blob_size h p.nvs_key w).1 in
      let same : view w1 ≡ view w = laws.size_keeps h w o in
      let closed = laws.close_keeps h w1 o ∙ same in
      elim (NvsResult-cases (idf.nvs_blob_size h p.nvs_key w).0) [
        | inl e ↦
            rw (e, measure_blob) (absent-ReadsBlob (view w) _ closed (laws.size_not_found h w o e))
        | inr (inl e) ↦ rw (e, measure_blob) (failed-ReadsBlob (view w) _ closed)
        | inr (inr (n, e)) ↦ elim (Bool-cases (n == 288)) [
          | inr f ↦ rw (e, f, measure_blob) (failed-ReadsBlob (view w) _ closed)
          | inl f ↦
              rw (e, f, measure_blob)
                (subst
                  (λ (v : Device).
                    ReadsBlob v (view (fetch_blob idf p h w1).1) (fetch_blob idf p h w1).0)
                  same (fetch_blob-ReadsBlob h w1 o))
        ]
      ]

  pub read_blob-ReadsBlob :
      (w : W)
      → ReadsBlob (view w) (view (provider_read_blob idf p w).1) (provider_read_blob idf p w).0
  unfolding provider_read_blob
  read_blob-ReadsBlob w =
      let w1 = (idf.nvs_open p.nvs_partition_label p.nvs_namespace nvs_readonly w).1 in
      let same : view w1 ≡ view w = laws.open_keeps nvs_readonly w in
      elim (NvsResult-cases (idf.nvs_open p.nvs_partition_label p.nvs_namespace nvs_readonly w).0) [
        | inl e ↦
            rw (e, provider_read_blob)
              (absent-ReadsBlob (view w) _ same (laws.open_not_found nvs_readonly w e))
        | inr (inl e) ↦ rw (e, provider_read_blob) (failed-ReadsBlob (view w) _ same)
        | inr (inr (h, e)) ↦
            rw (e, provider_read_blob)
              (subst
                (λ (v : Device).
                  ReadsBlob v (view (measure_blob idf p h w1).1) (measure_blob idf p h w1).0)
                same (measure_blob-ReadsBlob h w1 (laws.open_ours nvs_readonly w h e)))
      ]

  -- A write ends with the new blob, or says that it failed and has changed nothing.
  store_blob-commits :
      (h : H) (b : List ℕ) (w : W)
      → Ours h
      → (view (store_blob idf p h b w).1 ≡ record (view w) { blob = some b })
        ⊎ (((store_blob idf p h b w).0 ≡ false) × (view (store_blob idf p h b w).1 ≡ view w))
  unfolding store_blob
  store_blob-commits h b w o =
      let w1 = (idf.nvs_set_blob h p.nvs_key b w).1 in
      let w2 = (idf.nvs_commit h w1).1 in
      elim (Bool-cases (idf.nvs_set_blob h p.nvs_key b w).0) [
        | inr e ↦
            rw (e, store_blob)
              (elim (laws.set_stores h b w o) [
                | inl s ↦ inr (refl, laws.close_keeps h w1 o ∙ s)
                | inr s ↦ inl (laws.close_keeps h w1 o ∙ s)
              ])
        | inl e ↦
            rw (e, store_blob)
              (elim (laws.commit_stores h b w1 o (laws.set_pending h b w o e)) [
                | inl c ↦ inl (laws.close_keeps h w2 o ∙ c ∙ with_blob (laws.set_stores h b w o))
                | inr (fails, c) ↦ elim (laws.set_stores h b w o) [
                  | inl s ↦ inr (fails, laws.close_keeps h w2 o ∙ c ∙ s)
                  | inr s ↦ inl (laws.close_keeps h w2 o ∙ c ∙ s)
                ]
              ])
      ]
    where
      with_blob :
          {v1 : Device}
          → (v1 ≡ view w) ⊎ (v1 ≡ record (view w) { blob = some b })
          → record v1 { blob = some b } ≡ record (view w) { blob = some b }
      with_blob (inl s) = ap (λ (v : Device). record v { blob = some b }) s
      with_blob (inr s) = ap (λ (v : Device). record v { blob = some b }) s

  pub write_blob-commits :
      (b : List ℕ) (w : W)
      → (view (provider_write_blob idf p b w).1 ≡ record (view w) { blob = some b })
        ⊎ (((provider_write_blob idf p b w).0 ≡ false)
            × (view (provider_write_blob idf p b w).1 ≡ view w))
  unfolding provider_write_blob
  write_blob-commits b w =
      let w1 = (idf.nvs_open p.nvs_partition_label p.nvs_namespace nvs_readwrite w).1 in
      let same : view w1 ≡ view w = laws.open_keeps nvs_readwrite w in
      elim (NvsResult-cases
        (idf.nvs_open p.nvs_partition_label p.nvs_namespace nvs_readwrite w).0) [
          | inl e ↦ rw (e, provider_write_blob) (inr (refl, same))
          | inr (inl e) ↦ rw (e, provider_write_blob) (inr (refl, same))
          | inr (inr (h, e)) ↦
              rw (e, provider_write_blob)
                (elim (store_blob-commits h b w1 (laws.open_ours nvs_readwrite w h e)) [
                  | inl s ↦ inl (s ∙ ap (λ (v : Device). record v { blob = some b }) same)
                  | inr (fails, s) ↦ inr (fails, s ∙ same)
                ])
        ]
