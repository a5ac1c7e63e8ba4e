-- ===== src/Warmup/Cold.antt =====
-- The cold registry of src/pg_cuvs_server.c, and what a search does there when its index can neither
-- be found nor loaded: the loop over `g_cold_indexes` in `handle_search`.
pub mod Stuck
use pg_cuvs.Base.{
  ℕ, ◌+◌, ◌%◌, ◌^◌, ◌≤◌, ◌≡◌, refl, ◌∙◌, inl, inr, Option, none, some, subst, sym, ap, ◌⊎◌, List,
  [], ◌∷◌, Bool, true, false, ◌&&◌, ◌||◌, ◌==◌, if◌then◌else◌, arith, Bool-cases,
}
use pg_cuvs.Warmup.{Job, Queue, queue_max, warmup_enqueue, is_queued}

-- `WarmupState`, by its numbers
abbrev pub warmup_cold : ℕ
warmup_cold = 1

abbrev pub warmup_queued : ℕ
warmup_queued = 2

abbrev pub warmup_failed : ℕ
warmup_failed = 5

-- `ColdIndexEntry`, without its statistics of past downloads.
pub record ColdEntry : Type 0 where
  pub db_oid : ℕ
  pub index_oid : ℕ
  pub relfilenode : ℕ
  pub table_oid : ℕ
  pub warmup_state : ℕ
  pub cache_miss_count : ℕ
  pub valid : Bool

-- The entry of an index.
unfoldable pub is_for : ℕ → ℕ → ColdEntry → Bool
is_for db_oid index_oid ce = ce.valid && (ce.db_oid == db_oid) && (ce.index_oid == index_oid)

unfoldable pub wants_warmup : ColdEntry → Bool
wants_warmup ce = (ce.warmup_state == warmup_cold) || (ce.warmup_state == warmup_failed)

abbrev pub job_of : ColdEntry → Job
job_of ce = record {
  db_oid = ce.db_oid;
  index_oid = ce.index_oid;
  relfilenode = ce.relfilenode;
  table_oid = ce.table_oid;
  from_cache_miss = true;
}

-- What the body of the loop does with the entry and the queue.
unfoldable pub miss : ColdEntry → Queue → ColdEntry × Queue
miss ce q =
    let counted = record ce { cache_miss_count = (ce.cache_miss_count + 1) % 2 ^ 64 } in
    if wants_warmup ce
    then (record counted { warmup_state = warmup_queued }, (warmup_enqueue q (job_of ce)).1)
    else (counted, q)

-- The loop, up to the first entry of the index.
unfoldable pub cold_miss : ℕ → ℕ → List ColdEntry → Queue → List ColdEntry × Queue
cold_miss db_oid index_oid [] q = ([], q)
cold_miss db_oid index_oid (ce ∷ ces) q =
    let later = cold_miss db_oid index_oid ces q in
    if is_for db_oid index_oid ce
    then ((miss ce q).0 ∷ ces, (miss ce q).1)
    else (ce ∷ later.0, later.1)
