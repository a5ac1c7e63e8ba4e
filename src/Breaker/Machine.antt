-- ===== src/Breaker/Machine.antt =====
-- When a breaker opens: after a threshold of errors in a row, whatever happens to other indexes.
use pg_cuvs.Base.{
  ℕ, ◌≡◌, refl, List, [], ◌∷◌, ◌++◌, Bool, true, false, ◌||◌, ◌&&◌, ◌==◌, if◌then◌else◌, arith, ◌-◌,
  ◌<◌, not, ◌∙◌,
}
use pg_cuvs.Status.{is_benign}
use pg_cuvs.Breaker.{
  Breaker, is_tracked, update, fresh, count_error, record_error, record_status, record_success,
  reset, is_open, Call, status, success, clear, clear_all, step, run,
}
use pg_cuvs.Breaker.Cells.{Cell, closed, cell, accepts, cell_error, cell-step, is_open-cell}
use pg_cuvs.Breaker.Runs.{
  starts_run, has_run, starts_run_mono, starts_run-or-has_run, starts_run-nil, starts_run-success,
  starts_run-error, starts_run-zero,
}

-- The outcomes that count for an index, in the order of the calls.
pub outcomes : ℕ → List Call → List Bool
outcomes j [] = []
outcomes j (status i s ∷ cs) =
    if (i == j) && not (is_benign s) then true ∷ outcomes j cs else outcomes j cs
outcomes j (success i ∷ cs) = if i == j then false ∷ outcomes j cs else outcomes j cs
outcomes j (clear i ∷ cs) = outcomes j cs
outcomes j (clear_all ∷ cs) = outcomes j cs

-- No call resets the index.
unfoldable pub never_reset : ℕ → List Call → Bool
never_reset j [] = true
never_reset j (status i s ∷ cs) = never_reset j cs
never_reset j (success i ∷ cs) = never_reset j cs
never_reset j (clear i ∷ cs) = not (i == j) && never_reset j cs
never_reset j (clear_all ∷ cs) = false

is_tracked-update :
    (i j : ℕ) (f : Breaker → Breaker) (bs : List Breaker)
    → ((b : Breaker) → (f b).index_oid ≡ b.index_oid)
    → is_tracked j (update i f bs) ≡ is_tracked j bs
unfolding is_tracked update
is_tracked-update i j f [] h = refl
is_tracked-update i j f (b ∷ bs) h = ground (arith, h b, is_tracked-update i j f bs h)

is_tracked-append :
    (i j : ℕ) (bs : List Breaker)
    → is_tracked j bs ≡ true
    → is_tracked j (bs ++ (fresh i ∷ [])) ≡ true
unfolding is_tracked
is_tracked-append i j [] h = cc
is_tracked-append i j (b ∷ bs) h = ground (arith, is_tracked-append i j bs)

is_tracked-record_error :
    (i j threshold : ℕ) (bs : List Breaker)
    → is_tracked j bs ≡ true
    → is_tracked j (record_error i threshold bs) ≡ true
unfolding record_error
is_tracked-record_error i j threshold bs h = ground (
  arith,
  is_tracked-append i j bs,
  is_tracked-update i j (count_error threshold) bs (λ b. refl),
  is_tracked-update i j (count_error threshold) (bs ++ (fresh i ∷ [])) (λ b. refl),
)

is_tracked-step :
    (threshold j : ℕ) (c : Call) (bs : List Breaker)
    → never_reset j (c ∷ []) ≡ true
    → is_tracked j bs ≡ true
    → is_tracked j (step threshold c bs) ≡ true
unfolding step record_status record_success reset never_reset
is_tracked-step threshold j (status i s) bs n h =
    ground (arith, is_tracked-record_error i j threshold bs)
is_tracked-step threshold j (success i) bs n h = is_tracked-update i j _ bs (λ b. refl) ∙ h
is_tracked-step threshold j (clear i) bs n h = is_tracked-update i j _ bs (λ b. refl) ∙ h
is_tracked-step threshold j clear_all bs n h = cc

-- The cell of an index after its outcomes.
after : ℕ → List Bool → Cell → Cell
after threshold [] c = c
after threshold (true ∷ es) c = after threshold es (cell_error threshold c)
after threshold (false ∷ es) c =
    after threshold es (record { errors = 0; is_tripped = c.is_tripped })

cell-run :
    (threshold j : ℕ) (cs : List Call) (bs : List Breaker)
    → never_reset j cs ≡ true
    → is_tracked j bs ≡ true
    → cell j (run threshold cs bs) ≡ after threshold (outcomes j cs) (cell j bs)
unfolding run after outcomes never_reset accepts
cell-run threshold j [] bs n h = refl
cell-run threshold j (status i s ∷ cs) bs n h = ground (
  arith,
  cell-run threshold j cs (step threshold (status i s) bs) n
      (is_tracked-step threshold j (status i s) bs refl h),
  cell-step threshold j (status i s) bs,
)
cell-run threshold j (success i ∷ cs) bs n h = ground (
  arith,
  cell-run threshold j cs (step threshold (success i) bs) n
      (is_tracked-step threshold j (success i) bs refl h),
  cell-step threshold j (success i) bs,
)
cell-run threshold j (clear i ∷ cs) bs n h = ground (
  arith,
  cell-run threshold j cs (step threshold (clear i) bs),
  is_tracked-step threshold j (clear i) bs,
  cell-step threshold j (clear i) bs,
)
cell-run threshold j (clear_all ∷ cs) bs n h = cc

after_tripped :
    (threshold : ℕ) (es : List Bool) (c : Cell)
    → c.is_tripped ≡ true
    → (after threshold es c).is_tripped ≡ true
unfolding after
after_tripped threshold [] c h = h
after_tripped threshold (true ∷ es) c h = after_tripped threshold es _ (ground arith)
after_tripped threshold (false ∷ es) c h = after_tripped threshold es _ h

after-has_run :
    (threshold : ℕ) (es : List Bool) (c : Cell)
    → c.is_tripped ≡ false
    → c.errors < threshold
    → (after threshold es c).is_tripped
      ≡ starts_run (threshold - c.errors) es || has_run threshold es
unfolding after has_run
after-has_run threshold [] c h lt =
    ground (arith, starts_run-nil threshold, starts_run-nil (threshold - c.errors))
after-has_run threshold (false ∷ es) c h lt = ground (
  arith,
  after-has_run threshold es (record { errors = 0; is_tripped = c.is_tripped }),
  starts_run-success threshold es,
  starts_run-success (threshold - c.errors) es,
  starts_run-or-has_run threshold es,
)
after-has_run threshold (true ∷ es) c h lt = ground (
  arith,
  after-has_run threshold es (cell_error threshold c),
  after_tripped threshold es (cell_error threshold c),
  starts_run-error threshold es,
  starts_run-error (threshold - c.errors) es,
  starts_run-zero (threshold - c.errors - 1) es,
  starts_run_mono (threshold - c.errors - 1) (threshold - 1) es,
)

-- With a breaker for the index that is closed and has counted nothing, and as long as nobody resets
-- it, the breaker is open after a run of calls exactly when the run holds `threshold` errors of this
-- index with no success of it between them. Calls for other indexes make no difference.
pub is_open_iff_run :
    (threshold oid : ℕ) (calls : List Call) (bs : List Breaker)
    → 0 < threshold
    → is_tracked oid bs ≡ true
    → cell oid bs ≡ closed
    → never_reset oid calls ≡ true
    → is_open oid (run threshold calls bs) ≡ has_run threshold (outcomes oid calls)
is_open_iff_run threshold oid calls bs pos t c n = ground (
  arith,
  is_open-cell oid (run threshold calls bs),
  cell-run threshold oid calls bs n t,
  after-has_run threshold (outcomes oid calls) closed refl pos,
  starts_run-or-has_run threshold (outcomes oid calls),
)
