-- ===== src/Warmup/Jobs.antt =====
-- The jobs in the ring, the oldest first.
use pg_cuvs.Base.{
  ℕ, zero, suc, ◌+◌, ◌%◌, ◌≤◌, ◌<◌, ◌≡◌, refl, ap, ap₂, Bool-cases, ◌∙◌, List, [], ◌∷◌, ◌++◌, Bool,
  true, false, not, ◌&&◌, ◌||◌, set, get_or, length, arith, inl, inr, get_or-set, get_or-set_other,
}
use pg_cuvs.Warmup.{Job, Queue, queue_max, no_job, same_index, is_queued}

-- The `k` jobs from slot `at` on, in order.
unfoldable pub jobs_from : List Job → ℕ → ℕ → List Job
jobs_from slots at zero = []
jobs_from slots at (suc k) = get_or slots (at % queue_max) no_job ∷ jobs_from slots (at + 1) k

-- The jobs in the queue, the oldest first.
unfoldable pub jobs : Queue → List Job
jobs q = jobs_from q.slots q.head q.count

-- A job for an index is among those of a list.
pub has_index : List Job → Job → Bool
has_index [] j = false
has_index (x ∷ xs) j = same_index x j || has_index xs j

-- No two jobs are for the same index.
unfoldable pub distinct : List Job → Bool
distinct [] = true
distinct (x ∷ xs) = not (has_index xs x) && distinct xs

-- What holds between the calls.
pub record IsValid (q : Queue) : Type 0 where
  pub slots_all : length q.slots ≡ queue_max
  pub head_in : q.head < queue_max
  pub tail_at : q.tail ≡ (q.head + q.count) % queue_max
  pub count_in : q.count ≤ queue_max
  pub distinct_jobs : distinct (jobs q) ≡ true

pub is_queued-has_index :
    (slots : List Job) (at k : ℕ) (j : Job)
    → is_queued slots at k j ≡ has_index (jobs_from slots at k) j
unfolding is_queued has_index jobs_from
is_queued-has_index slots at zero j = refl
is_queued-has_index slots at (suc k) j =
    ap (λ (b : Bool). same_index (get_or slots (at % queue_max) no_job) j || b)
      (is_queued-has_index slots (at + 1) k j)

-- Only the place in the ring counts.
pub jobs_from-mod :
    (slots : List Job) (at at' k : ℕ)
    → at % queue_max ≡ at' % queue_max
    → jobs_from slots at k ≡ jobs_from slots at' k
unfolding jobs_from
jobs_from-mod slots at at' zero e = refl
jobs_from-mod slots at at' (suc k) e =
    rw (e, jobs_from-mod slots (at + 1) (at' + 1) k (omega (arith, e))) refl

-- A write behind the last job appends it.
pub jobs_from-set :
    (slots : List Job) (at k : ℕ) (j : Job)
    → length slots ≡ queue_max
    → k < queue_max
    → jobs_from (set slots ((at + k) % queue_max) j) at (suc k) ≡ jobs_from slots at k ++ (j ∷ [])
unfolding jobs_from
jobs_from-set slots at zero j len room =
    let e : (at + 0) % queue_max ≡ at % queue_max = omega arith in
    rw (e, get_or-set slots (at % queue_max) j no_job (omega (arith, len))) refl
jobs_from-set slots at (suc k) j len room =
    let e : (at + suc k) % queue_max ≡ (at + 1 + k) % queue_max = omega arith in
    let later : jobs_from (set slots ((at + suc k) % queue_max) j) (at + 1) (suc k)
        ≡ jobs_from slots (at + 1) k ++ (j ∷ []) =
      ap (λ (i : ℕ). jobs_from (set slots i j) (at + 1) (suc k)) e
      ∙ jobs_from-set slots (at + 1) k j len (omega arith) in
    let first : get_or (set slots ((at + suc k) % queue_max) j) (at % queue_max) no_job
        ≡ get_or slots (at % queue_max) no_job =
      get_or-set_other slots ((at + suc k) % queue_max) (at % queue_max) j no_job (omega arith) in
    ap₂ ◌∷◌ first later

same_index_sym : (a b : Job) → same_index a b ≡ true → same_index b a ≡ true
unfolding same_index
same_index_sym a b e = ground (arith, e)

-- The index of a new job is found before only if it was there.
pub distinct-append :
    (xs : List Job) (y : Job)
    → distinct xs ≡ true
    → has_index xs y ≡ false
    → distinct (xs ++ (y ∷ [])) ≡ true
unfolding distinct has_index
distinct-append [] y d h = refl
distinct-append (x ∷ xs) y d h =
    let later : distinct (xs ++ (y ∷ [])) ≡ true =
      distinct-append xs y (ground (arith, d)) (ground (arith, h)) in
    let before : has_index (xs ++ (y ∷ [])) x ≡ false = apart xs (ground (arith, d)) in
    rw (before, later) refl
  where
    other : same_index y x ≡ false
    other = elim (Bool-cases (same_index y x)) [
      | inl same ↦ ground (arith, h, same_index_sym y x same)
      | inr differ ↦ differ
    ]

    apart : (zs : List Job) → has_index zs x ≡ false → has_index (zs ++ (y ∷ [])) x ≡ false
    apart [] e = rw other refl
    apart (z ∷ zs) e = rw (apart zs (ground (arith, e))) (ground (arith, e))
