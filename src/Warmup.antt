-- ===== src/Warmup.antt =====
-- The queue of warm-up jobs: `warmup_enqueue` and `warmup_dequeue` of src/pg_cuvs_server.c, a ring
-- under a mutex. Each call is one step here.
pub mod Jobs
pub mod Fifo
pub mod Cold
use pg_cuvs.Base.{
  ℕ, zero, suc, ◌+◌, ◌-◌, ◌%◌, List, [], ◌∷◌, Bool, true, false, not, ◌&&◌, ◌||◌, leb, ◌==◌,
  if◌then◌else◌, set, get_or,
}

abbrev pub queue_max : ℕ
queue_max = 64

-- `WarmupJob`
pub record Job : Type 0 where
  pub db_oid : ℕ
  pub index_oid : ℕ
  pub relfilenode : ℕ
  pub table_oid : ℕ
  pub from_cache_miss : Bool

-- A slot that was never written.
abbrev pub no_job : Job
no_job = record {
  db_oid = 0;
  index_oid = 0;
  relfilenode = 0;
  table_oid = 0;
  from_cache_miss = false;
}

-- `g_warmup_queue`, `g_warmup_head`, `g_warmup_tail` and `g_warmup_count`
pub record Queue : Type 0 where
  pub slots : List Job
  pub head : ℕ
  pub tail : ℕ
  pub count : ℕ

unfoldable pub same_index : Job → Job → Bool
same_index a b = (a.db_oid == b.db_oid) && (a.index_oid == b.index_oid)

-- The loop of `warmup_enqueue` over the `k` jobs from `at` on.
unfoldable pub is_queued : List Job → ℕ → ℕ → Job → Bool
is_queued slots at zero j = false
is_queued slots at (suc k) j =
    same_index (get_or slots (at % queue_max) no_job) j || is_queued slots (at + 1) k j

-- `warmup_enqueue`; `true` is `return 0`.
pub warmup_enqueue : Queue → Job → Bool × Queue
warmup_enqueue q j =
    if is_queued q.slots q.head q.count j
    then (false, q)
    else if leb queue_max q.count
    then (false, q)
    else (
      true,
      record {
        slots = set q.slots q.tail j;
        head = q.head;
        tail = (q.tail + 1) % queue_max;
        count = q.count + 1;
      },
    )

-- What a worker gets: it waits for a job, is told to stop, or has a job.
pub data Dequeued : Type 0 where
  waits : Dequeued
  stops : Dequeued
  job : Job → Dequeued

-- `warmup_dequeue`
pub warmup_dequeue : Bool → Queue → Dequeued × Queue
warmup_dequeue shutdown q =
    if (q.count == 0) && not shutdown then (waits, q) else if shutdown then (stops, q) else (
      job (get_or q.slots q.head no_job),
      record {
        slots = q.slots;
        head = (q.head + 1) % queue_max;
        tail = q.tail;
        count = q.count - 1;
      },
    )
