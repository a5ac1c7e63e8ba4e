-- ===== src/Delta/Filtered.antt =====
-- `cuvs_merge_delta_filtered` of src/pg_cuvs.c, the merge of pending inserts into the results of a
-- search among given TIDs.
pub mod Merged
use pg_cuvs.Base.{
  ℕ, zero, suc, ◌+◌, ◌-◌, List, [], ◌∷◌, Bool, true, Option, none, some, length, take, drop, leb,
  ◌==◌, if◌then◌else◌,
}
use pg_cuvs.Base.Bytes.{of_le, of_words}
use pg_cuvs.Search.{tid_in_filter}
use pg_cuvs.Sidecar.File.{fread, guard, ◌>>=◌, ◌>>◌}
use pg_cuvs.TopK.{Floats, Result}
use pg_cuvs.Delta.{
  delta_magic, delta_version, header_of, delta_record_bytes, delta_validate, merge_candidates,
}

-- The test of a row's TID: an empty filter lets all pass. `none` is a read out of bounds.
unfoldable pub passes : List ℕ → ℕ → ℕ → Option Bool
passes filter_arr n_filter tid =
    if n_filter == 0 then some true else tid_in_filter tid filter_arr n_filter

module _ (fl : Floats) where
  -- The loop over the rows, with the candidates that it adds.
  unfoldable pub filtered_rows :
      (List ℕ → fl.F) → List ℕ → ℕ → ℕ → ℕ → List ℕ → Option (List (Result fl))
  filtered_rows distance filter_arr n_filter dim zero body = some []
  filtered_rows distance filter_arr n_filter dim (suc n) body = do
    let tid = of_le (take 8 body)
    kept ← passes filter_arr n_filter tid
    rows ← filtered_rows distance filter_arr n_filter dim n (drop (delta_record_bytes dim) body)
    let row : Result fl = record { tid = tid; distance = distance (of_words 4 dim (drop 8 body)) }
    some (if kept then row ∷ rows else rows)

  -- `cuvs_merge_delta_filtered` on the results of a search; `none` is the error that is raised.
  unfoldable pub merge_delta_filtered :
      (ℕ → List (Result fl) → List (Result fl))
      → (List ℕ → fl.F)
      → ℕ
      → Option ℕ
      → List ℕ
      → ℕ
      → Option (List ℕ)
      → ℕ
      → ℕ
      → ℕ
      → List (Result fl)
      → Option (List (Result fl))
  merge_delta_filtered sort distance max_rows base_crc filter_arr n_filter none dim k metric base =
      some base
  merge_delta_filtered sort distance max_rows base_crc filter_arr n_filter (some f) dim k metric
        base =
      do
        (raw, body) ← fread 32 f
        let h = header_of raw
        guard (h.magic == delta_magic)
        guard (h.version == delta_version)
        guard (h.dim == dim)
        guard (delta_validate h (length f - 32))
        guard (leb h.n_rows max_rows)
        crc ← base_crc
        guard (crc == h.base_tids_crc32)
        rows ← filtered_rows distance filter_arr n_filter dim h.n_rows body
        some (if h.n_rows == 0 then base else merge_candidates fl (sort metric) k base rows)
