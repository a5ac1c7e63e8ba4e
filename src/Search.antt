-- ===== src/Search.antt =====
-- Binary search in a sorted array of TIDs: `cuvs_u64_contains` of src/cuvs_util.c, with `size_t`
-- indices, and `cuvs_tid_in_filter` of src/pg_cuvs.c, with `uint32_t` ones.
pub mod Finds
use pg_cuvs.Base.{
  ℕ, zero, suc, ◌+◌, ◌-◌, ◌/◌, ◌%◌, ◌^◌, List, Bool, true, false, Option, none, some, get_elem?,
  ltb, ◌==◌,
}

-- The loop over [lo, hi) with indices of `w` bits. `none` is a read out of bounds or spent fuel.
pub search : ℕ → List ℕ → ℕ → ℕ → ℕ → ℕ → Option Bool
search w xs target zero lo hi = none
search w xs target (suc fuel) lo hi = elim (ltb lo hi) [
  | false ↦ some false
  | true ↦
      let mid = (lo + (hi - lo) / 2) % 2 ^ w in
      elim (get_elem? xs mid) [
        | none ↦ none
        | some value ↦ elim (value == target) [
          | true ↦ some true
          | false ↦ elim (ltb value target) [
            | true ↦ search w xs target fuel ((mid + 1) % 2 ^ w) hi
            | false ↦ search w xs target fuel lo mid
          ]
        ]
      ]
]

-- `cuvs_u64_contains(sorted_values, n, target)`. Each round shortens the range.
pub u64_contains : List ℕ → ℕ → ℕ → Option Bool
u64_contains sorted_values n target = search 64 sorted_values target (n + 1) 0 n

-- `cuvs_tid_in_filter(enc_tid, filter_arr, n_filter)`
pub tid_in_filter : ℕ → List ℕ → ℕ → Option Bool
tid_in_filter enc_tid filter_arr n_filter = search 32 filter_arr enc_tid (n_filter + 1) 0 n_filter
