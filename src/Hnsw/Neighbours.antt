-- ===== src/Hnsw/Neighbours.antt =====
-- `heuristic_select_neighbors` of src/hnsw_export.c. `closer c s q` is the test
-- `vec_dist_sq(c_vec, s_vec, dim) < d_q_c`: the candidate `c` is closer to `s` than to `q`.
pub mod Selection
use pg_cuvs.Base.{ℕ, List, [], ◌∷◌, ◌++◌, Bool, false, ◌||◌, length, ltb, if◌then◌else◌}

module _ (closer : ℕ → ℕ → Bool) where
  -- The inner loop over the selected ones; `closer c s` is for the query of the call.
  unfoldable pub dominated : ℕ → List ℕ → Bool
  dominated c [] = false
  dominated c (s ∷ selected) = closer c s || dominated c selected

  -- The outer loop, with `out_selected[0 .. n_sel)` so far.
  unfoldable pub select_loop : ℕ → List ℕ → List ℕ → List ℕ
  select_loop m selected [] = selected
  select_loop m selected (c ∷ candidates) =
      let skipped = select_loop m selected candidates in
      let taken = select_loop m (selected ++ (c ∷ [])) candidates in
      if ltb (length selected) m
      then (if dominated c selected then skipped else taken)
      else selected

  -- `heuristic_select_neighbors`: the first `n_sel` places of `out_selected`.
  unfoldable pub heuristic_select_neighbors : List ℕ → ℕ → List ℕ
  heuristic_select_neighbors candidates m = select_loop m [] candidates
