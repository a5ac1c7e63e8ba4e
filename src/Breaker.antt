-- ===== src/Breaker.antt =====
-- src/cuvs_util.c: the circuit breakers of a backend process, one to an index, in a table of at
-- most 64. The two globals `cuvs_circuit_breakers` and `cuvs_n_circuit_breakers` are one list.
pub mod Cells
pub mod Runs
pub mod Machine
pub mod Table
use pg_cuvs.Base.{
  ℕ, ◌+◌, List, [], ◌∷◌, ◌++◌, Bool, true, false, ◌||◌, length, ltb, leb, ◌==◌, if◌then◌else◌,
}
use pg_cuvs.Status.{is_benign}

-- `CuvsCircuitBreaker`
pub record Breaker : Type 0 where
  pub index_oid : ℕ
  pub consecutive_errors : ℕ
  pub is_tripped : Bool

abbrev pub max_tracked_indexes : ℕ
max_tracked_indexes = 64

-- The scan for a breaker of the index.
unfoldable pub is_tracked : ℕ → List Breaker → Bool
is_tracked oid [] = false
is_tracked oid (b ∷ bs) = b.index_oid == oid || is_tracked oid bs

-- A write through the pointer to the first breaker of the index.
pub update : ℕ → (Breaker → Breaker) → List Breaker → List Breaker
update oid f [] = []
update oid f (b ∷ bs) = if b.index_oid == oid then f b ∷ bs else b ∷ update oid f bs

abbrev pub fresh : ℕ → Breaker
fresh oid = record { index_oid = oid; consecutive_errors = 0; is_tripped = false }

-- `find_or_create_breaker`: whether there is a breaker, and the table with it.
pub find_or_create : ℕ → List Breaker → Bool × List Breaker
find_or_create oid bs =
    if is_tracked oid bs
    then (true, bs)
    else if ltb (length bs) max_tracked_indexes
    then (true, bs ++ (fresh oid ∷ []))
    else (false, bs)

-- The int of the count is taken not to overflow.
abbrev pub count_error : ℕ → Breaker → Breaker
count_error threshold b =
    let n = b.consecutive_errors + 1 in
    record b { consecutive_errors = n; is_tripped = leb threshold n || b.is_tripped }

-- `cuvs_circuit_record_error`
pub record_error : ℕ → ℕ → List Breaker → List Breaker
unfolding find_or_create
record_error oid threshold bs =
    let (found, bs') = find_or_create oid bs in
    if found then update oid (count_error threshold) bs' else bs'

-- `cuvs_circuit_record_status`
pub record_status : ℕ → ℕ → ℕ → List Breaker → List Breaker
record_status oid threshold status bs =
    if is_benign status then bs else record_error oid threshold bs

-- `cuvs_circuit_record_success`
pub record_success : ℕ → List Breaker → List Breaker
record_success oid = update oid (λ b. record b { consecutive_errors = 0 })

-- `cuvs_circuit_reset`
pub reset : ℕ → List Breaker → List Breaker
reset oid = update oid (λ b. record b { consecutive_errors = 0; is_tripped = false })

-- `cuvs_circuit_is_open`
pub is_open : ℕ → List Breaker → Bool
is_open oid [] = false
is_open oid (b ∷ bs) = if b.index_oid == oid then b.is_tripped else is_open oid bs

-- `cuvs_circuit_reset_all`
pub reset_all : List Breaker → List Breaker
reset_all bs = []

-- A call of the interface, and a run of calls.
pub data Call : Type 0 where
  status : ℕ → ℕ → Call
  success : ℕ → Call
  clear : ℕ → Call
  clear_all : Call

pub step : ℕ → Call → List Breaker → List Breaker
step threshold (status oid s) bs = record_status oid threshold s bs
step threshold (success oid) bs = record_success oid bs
step threshold (clear oid) bs = reset oid bs
step threshold clear_all bs = reset_all bs

pub run : ℕ → List Call → List Breaker → List Breaker
run threshold [] bs = bs
run threshold (c ∷ cs) bs = run threshold cs (step threshold c bs)
