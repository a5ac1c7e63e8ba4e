-- ===== src/Breaker/Table.antt =====
-- The table keeps to its 64 places.
use pg_cuvs.Base.{ℕ, ◌≤◌, ◌≡◌, refl, List, [], ◌∷◌, ◌++◌, false, length, arith, length-append}
use pg_cuvs.Breaker.{
  Breaker, update, fresh, count_error, record_error, record_status, record_success, reset,
  reset_all, Call, status, success, clear, clear_all, step, run, max_tracked_indexes,
}

length-update :
    (i : ℕ) (f : Breaker → Breaker) (bs : List Breaker) → length (update i f bs) ≡ length bs
unfolding update
length-update i f [] = refl
length-update i f (b ∷ bs) = ground (arith, length-update i f bs)

length-record_error :
    (i threshold : ℕ) (bs : List Breaker)
    → length bs ≤ max_tracked_indexes
    → length (record_error i threshold bs) ≤ max_tracked_indexes
unfolding record_error
length-record_error i threshold bs h = ground (
  arith,
  length-update i (count_error threshold) bs,
  length-update i (count_error threshold) (bs ++ (fresh i ∷ [])),
  length-append bs (fresh i ∷ []),
)

length-step :
    (threshold : ℕ) (c : Call) (bs : List Breaker)
    → length bs ≤ max_tracked_indexes
    → length (step threshold c bs) ≤ max_tracked_indexes
unfolding step record_status record_success reset reset_all
length-step threshold (status i s) bs h = ground (arith, length-record_error i threshold bs h)
length-step threshold (success i) bs h =
    omega (arith, length-update i (λ b. record b { consecutive_errors = 0 }) bs)
length-step threshold (clear i) bs h =
    omega (arith, length-update i (λ b. record b { consecutive_errors = 0; is_tripped = false }) bs)
length-step threshold clear_all bs h = omega arith

-- No run of calls makes the table longer than its 64 places.
length-run :
    (threshold : ℕ) (calls : List Call) (bs : List Breaker)
    → length bs ≤ max_tracked_indexes
    → length (run threshold calls bs) ≤ max_tracked_indexes
unfolding run
length-run threshold [] bs h = h
length-run threshold (c ∷ cs) bs h = length-run threshold cs _ (length-step threshold c bs h)
