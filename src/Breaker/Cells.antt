-- ===== src/Breaker/Cells.antt =====
-- Each index sees a breaker of its own: the table behaves as one cell to an index.
use pg_cuvs.Base.{
  ℕ, ◌+◌, ◌≡◌, refl, List, [], ◌∷◌, ◌++◌, Bool, true, false, ◌||◌, ◌&&◌, length, ltb, leb, ◌==◌,
  if◌then◌else◌, arith,
}
use pg_cuvs.Status.{is_benign}
use pg_cuvs.Breaker.{
  Breaker, is_tracked, update, fresh, count_error, record_error, record_status, record_success,
  reset, is_open, reset_all, Call, status, success, clear, clear_all, step, max_tracked_indexes,
}

-- What one index sees: its consecutive errors, and whether its breaker is open.
pub record Cell : Type 0 where
  pub errors : ℕ
  pub is_tripped : Bool

abbrev pub closed : Cell
closed = record { errors = 0; is_tripped = false }

-- The cell of an index in a table; an index without a breaker is closed.
unfoldable pub cell : ℕ → List Breaker → Cell
cell oid [] = closed
cell oid (b ∷ bs) =
    if b.index_oid == oid
    then record { errors = b.consecutive_errors; is_tripped = b.is_tripped }
    else cell oid bs

-- There is a breaker for the index, or room for one.
unfoldable pub accepts : ℕ → List Breaker → Bool
accepts oid bs = is_tracked oid bs || ltb (length bs) max_tracked_indexes

abbrev pub cell_error : ℕ → Cell → Cell
cell_error threshold c = record {
  errors = c.errors + 1;
  is_tripped = leb threshold (c.errors + 1) || c.is_tripped;
}

cell-append : (j oid : ℕ) (bs : List Breaker) → cell j (bs ++ (fresh oid ∷ [])) ≡ cell j bs
unfolding cell
cell-append j oid [] = ground arith
cell-append j oid (b ∷ bs) = ground (arith, cell-append j oid bs)

is_tracked-append : (oid : ℕ) (bs : List Breaker) → is_tracked oid (bs ++ (fresh oid ∷ [])) ≡ true
unfolding is_tracked
is_tracked-append oid [] = ground arith
is_tracked-append oid (b ∷ bs) = ground (arith, is_tracked-append oid bs)

cell-count_error :
    (i j threshold : ℕ) (bs : List Breaker)
    → is_tracked i bs ≡ true
    → cell j (update i (count_error threshold) bs)
      ≡ (if i == j then cell_error threshold (cell j bs) else cell j bs)
unfolding cell update is_tracked
cell-count_error i j threshold [] h = ground arith
cell-count_error i j threshold (b ∷ bs) h = ground (arith, cell-count_error i j threshold bs)

cell-record_success :
    (i j : ℕ) (bs : List Breaker)
    → cell j (record_success i bs)
      ≡ (if i == j then record { errors = 0; is_tripped = (cell j bs).is_tripped } else cell j bs)
unfolding cell update record_success
cell-record_success i j [] = ground arith
cell-record_success i j (b ∷ bs) = ground (arith, cell-record_success i j bs)

cell-reset :
    (i j : ℕ) (bs : List Breaker) → cell j (reset i bs) ≡ (if i == j then closed else cell j bs)
unfolding cell update reset
cell-reset i j [] = ground arith
cell-reset i j (b ∷ bs) = ground (arith, cell-reset i j bs)

cell-record_error :
    (i j threshold : ℕ) (bs : List Breaker)
    → cell j (record_error i threshold bs)
      ≡ (if (i == j) && accepts i bs then cell_error threshold (cell j bs) else cell j bs)
unfolding record_error accepts
cell-record_error i j threshold bs = ground (
  arith,
  cell-count_error i j threshold bs,
  cell-count_error i j threshold (bs ++ (fresh i ∷ [])),
  cell-append j i bs,
  is_tracked-append i bs,
)

-- What a call does to the cell of index `j`, given whether the table takes the index.
abbrev pub cell_step : ℕ → ℕ → Bool → Call → Cell → Cell
cell_step threshold j room (status i s) c =
    if (i == j) && room then (if is_benign s then c else cell_error threshold c) else c
cell_step threshold j room (success i) c =
    if i == j then record { errors = 0; is_tripped = c.is_tripped } else c
cell_step threshold j room (clear i) c = if i == j then closed else c
cell_step threshold j room clear_all c = closed

-- Every call changes the cell of an index as `cell_step` says and no other call touches it: a
-- status of the index counts if it is not benign and the table tracks the index or has room, a
-- success forgets the errors and leaves an open breaker open, and a reset closes it.
pub cell-step :
    (threshold j : ℕ) (call : Call) (bs : List Breaker)
    → cell j (step threshold call bs) ≡ cell_step threshold j (accepts j bs) call (cell j bs)
unfolding step record_status reset_all cell
cell-step threshold j (status i s) bs = ground (arith, cell-record_error i j threshold bs)
cell-step threshold j (success i) bs = cell-record_success i j bs
cell-step threshold j (clear i) bs = cell-reset i j bs
cell-step threshold j clear_all bs = refl

pub is_open-cell : (oid : ℕ) (bs : List Breaker) → is_open oid bs ≡ (cell oid bs).is_tripped
unfolding is_open cell
is_open-cell oid [] = refl
is_open-cell oid (b ∷ bs) = ground (arith, is_open-cell oid bs)
