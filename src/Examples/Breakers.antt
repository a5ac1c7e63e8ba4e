-- ===== src/Examples/Breakers.antt =====
-- Breakers and batches at concrete inputs.
use pg_cuvs.Base.{ℕ, ◌≡◌, refl, List, [], ◌∷◌, true, arith, length, ◌↔◌}
use pg_cuvs.Breaker.{Breaker, fresh, is_tracked, Call, status, success, is_open, run, step}
use pg_cuvs.Breaker.Cells.{cell, accepts, cell_step, cell-step}
use pg_cuvs.Breaker.Runs.{has_run}
use pg_cuvs.Breaker.Machine.{outcomes, never_reset, is_open_iff_run}
use pg_cuvs.Batch.{Key, same_key, find_group, assign, batch_group}
use pg_cuvs.Batch.Groups.{batch_group_classes, length-batch_group}

abbrev one_breaker : List Breaker
one_breaker = fresh 7 ∷ []

-- Two errors of index 7, with one of index 8 between them.
abbrev two_errors : List Call
two_errors = status 7 1 ∷ status 8 1 ∷ status 7 1 ∷ []

is_open_iff_run_example :
    is_open 7 (run 2 two_errors one_breaker) ≡ has_run 2 (outcomes 7 two_errors)
unfolding is_tracked cell never_reset
is_open_iff_run_example = is_open_iff_run 2 7 two_errors one_breaker (omega arith) refl refl refl

cell-step_example :
    cell 7 (step 2 (success 7) one_breaker)
    ≡ cell_step 2 7 (accepts 7 one_breaker) (success 7) (cell 7 one_breaker)
cell-step_example = cell-step 2 7 (success 7) one_breaker

abbrev key : ℕ → ℕ → Key
key index_oid itopk_size = record {
  db_oid = 1;
  index_oid = index_oid;
  precision = 0;
  dim = 3;
  mode = 0;
  itopk_size = itopk_size;
  search_width = 1;
}

abbrev three_keys : List Key
three_keys = key 5 64 ∷ key 6 64 ∷ key 5 64 ∷ []

grouped : batch_group three_keys ≡ (0 ∷ 1 ∷ 0 ∷ [], 2)
unfolding batch_group assign find_group same_key
grouped = refl

abbrev first_group : ℕ
first_group = 0

batch_group_classes_example : (first_group ≡ first_group) ↔ (same_key (key 5 64) (key 5 64) ≡ true)
unfolding batch_group assign find_group same_key
batch_group_classes_example =
    batch_group_classes three_keys 0 2 (key 5 64) (key 5 64) 0 0 refl refl refl refl

length-batch_group_example : length (batch_group three_keys).0 ≡ length three_keys
length-batch_group_example = length-batch_group three_keys
