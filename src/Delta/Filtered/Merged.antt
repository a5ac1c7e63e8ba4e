-- ===== src/Delta/Filtered/Merged.antt =====
-- The filtered merge is the merge of the rows whose TIDs are in the filter.
use pg_cuvs.Base.{
  ℕ, zero, suc, ◌^◌, ◌<◌, ◌≡◌, refl, ◌⊎◌, inl, inr, List, [], ◌∷◌, ◌++◌, Bool, true, false, ◌||◌,
  Option, some, length, take, drop, ◌==◌, if◌then◌else◌, arith, Bool-cases,
}
use pg_cuvs.Base.Bytes.{of_le}
use pg_cuvs.Base.Member.{elem, elem-get_elem?, elem-none}
use pg_cuvs.Search.Finds.{IsSorted, Answers, tid_in_filter-Answers}
use pg_cuvs.Sidecar.File.{fread}
use pg_cuvs.TopK.{Floats, Result}
use pg_cuvs.Delta.{header_of, delta_rows, delta_record_bytes, merge_delta, merge_candidates, nearer}
use pg_cuvs.Delta.Nearest.{Sorts, Nearest, take-Nearest}
use pg_cuvs.Delta.Filtered.{passes, filtered_rows, merge_delta_filtered}

-- The TIDs that a filter lets pass.
unfoldable pub is_wanted : List ℕ → ℕ → Bool
is_wanted filter_arr tid = length filter_arr == 0 || elem tid filter_arr

Answers-elem :
    (xs : List ℕ) (target : ℕ) (b : Bool) → Answers xs (length xs) target b → elem target xs ≡ b
Answers-elem xs target true (i, lt, at) = elem-get_elem? xs i target at
Answers-elem xs target false h = elem-none xs target h

passes-is_wanted :
    (xs : List ℕ) (tid : ℕ)
    → length xs < 2 ^ 32
    → IsSorted xs (length xs)
    → passes xs (length xs) tid ≡ some (is_wanted xs tid)
unfolding passes is_wanted
passes-is_wanted xs tid small sorted = elim (Bool-cases (length xs == 0)) [
  | inl no_filter ↦ rw no_filter refl
  | inr has_filter ↦
      let (b, e, answers) = tid_in_filter-Answers xs (length xs) tid small (omega arith) sorted in
      rw (has_filter, e, Answers-elem xs tid b answers) refl
]

module _ (fl : Floats) where
  -- The rows with a wanted TID, in their order.
  unfoldable pub wanted_rows : List ℕ → List (Result fl) → List (Result fl)
  wanted_rows filter_arr [] = []
  wanted_rows filter_arr (r ∷ rs) =
      if is_wanted filter_arr r.tid
      then r ∷ wanted_rows filter_arr rs
      else wanted_rows filter_arr rs

  filtered_rows-wanted_rows :
      (distance : List ℕ → fl.F) (xs : List ℕ) (dim n : ℕ) (body : List ℕ)
      → length xs < 2 ^ 32
      → IsSorted xs (length xs)
      → filtered_rows fl distance xs (length xs) dim n body
        ≡ some (wanted_rows xs (delta_rows fl distance dim n body))
  unfolding filtered_rows wanted_rows delta_rows
  filtered_rows-wanted_rows distance xs dim zero body small sorted = refl
  filtered_rows-wanted_rows distance xs dim (suc n) body small sorted =
      rw
        (
          passes-is_wanted xs (of_le (take 8 body)) small sorted,
          filtered_rows-wanted_rows distance xs dim n (drop (delta_record_bytes dim) body) small
              sorted,
        )
        refl

  -- With a filter of fewer than 2^32 ascending TIDs, `cuvs_merge_delta_filtered` goes through
  -- wherever `cuvs_merge_delta` does: either the file has no row and the results of the search
  -- stay, or the results are the `k` nearest by the metric of the results of the search and those
  -- rows of the file whose TIDs are in the filter, or all rows if the filter is empty.
  pub merge_delta_filtered-Nearest :
      (sort : ℕ → List (Result fl) → List (Result fl)) (distance : List ℕ → fl.F) (max_rows : ℕ)
      (base_crc : Option ℕ) (filter_arr : List ℕ) (f : List ℕ) (dim k metric : ℕ)
      (base merged : List (Result fl))
      → Sorts (nearer fl metric) (sort metric)
      → length filter_arr < 2 ^ 32
      → IsSorted filter_arr (length filter_arr)
      → merge_delta fl sort distance max_rows base_crc (some f) dim k metric base ≡ some merged
      → let n_rows = (header_of (take 32 f)).n_rows in
        let rows = delta_rows fl distance dim n_rows (drop 32 f) in
        (out : List (Result fl)) × (merge_delta_filtered fl sort distance max_rows base_crc
            filter_arr
            (length filter_arr)
            (some f)
            dim
            k
            metric
            base
          ≡ some out)
        × (((n_rows ≡ 0) × (out ≡ base))
            ⊎ Nearest (nearer fl metric) k (base ++ wanted_rows filter_arr rows) out)
  unfolding merge_delta merge_delta_filtered merge_candidates fread
  merge_delta_filtered-Nearest sort distance max_rows base_crc xs f dim k metric base merged s small
        sorted e =
      let n_rows = (header_of (take 32 f)).n_rows in
      let body = drop 32 f in
      let items = base ++ wanted_rows xs (delta_rows fl distance dim n_rows body) in
      let all = filtered_rows-wanted_rows distance xs dim n_rows body small sorted in
      elim (Bool-cases (n_rows == 0)) [
        | inl no_rows ↦ (base, ground (arith, e, all, no_rows), inl (ground (arith, no_rows), refl))
        | inr some_rows ↦ (
          take k (sort metric items),
          ground (arith, e, all, some_rows),
          inr (take-Nearest (nearer fl metric) (sort metric) k items s),
        )
      ]
