-- ===== src/Examples/Queues.antt =====
-- The warm-up queue, the running top-k and the searches at concrete inputs.
use pg_cuvs.Base.{ℕ, zero, refl, List, [], ◌∷◌, true, false, arith, take, ltb, leb, ◌++◌, suc}
use pg_cuvs.Warmup.{Job, Queue, no_job, warmup_enqueue, warmup_dequeue}
use pg_cuvs.Warmup.Jobs.{jobs_from, jobs, distinct, IsValid}
use pg_cuvs.Warmup.Fifo.{Enqueues, Dequeues, warmup_enqueue-Enqueues, warmup_dequeue-Dequeues}
use pg_cuvs.TopK.{Floats, Result, topk_all}
use pg_cuvs.TopK.Insert.{insert_all}
use pg_cuvs.TopK.Nearest.{Filled, topk_all-nearest}
use pg_cuvs.Search.Finds.{IsSorted}

abbrev a_job : Job
a_job = record { db_oid = 1; index_oid = 5; relfilenode = 5; table_oid = 4; from_cache_miss = true }

abbrev eight : List Job
eight = no_job ∷ no_job ∷ no_job ∷ no_job ∷ no_job ∷ no_job ∷ no_job ∷ no_job ∷ []

abbrev empty_queue : Queue
empty_queue = record {
  slots = eight ++ eight ++ eight ++ eight ++ eight ++ eight ++ eight ++ eight;
  head = 63;
  tail = 63;
  count = 0;
}

empty_queue-IsValid : IsValid empty_queue
unfolding jobs jobs_from distinct
empty_queue-IsValid = record {
  slots_all = refl;
  head_in = omega arith;
  tail_at = refl;
  count_in = omega arith;
  distinct_jobs = refl;
}

warmup_enqueue-Enqueues_example :
    IsValid (warmup_enqueue empty_queue a_job).1
    × Enqueues
        (jobs empty_queue)
        a_job
        (warmup_enqueue empty_queue a_job).0
        (jobs (warmup_enqueue empty_queue a_job).1)
warmup_enqueue-Enqueues_example = warmup_enqueue-Enqueues empty_queue a_job empty_queue-IsValid

-- The queue with the job, in its last slot.
one_job-IsValid : IsValid (warmup_enqueue empty_queue a_job).1
one_job-IsValid = (warmup_enqueue-Enqueues empty_queue a_job empty_queue-IsValid).0

warmup_dequeue-Dequeues_example :
    IsValid (warmup_dequeue false (warmup_enqueue empty_queue a_job).1).1
    × Dequeues false
        (jobs (warmup_enqueue empty_queue a_job).1)
        (warmup_dequeue false (warmup_enqueue empty_queue a_job).1).0
        (jobs (warmup_dequeue false (warmup_enqueue empty_queue a_job).1).1)
warmup_dequeue-Dequeues_example =
    warmup_dequeue-Dequeues false (warmup_enqueue empty_queue a_job).1 one_job-IsValid

-- Distances that are whole numbers.
abbrev whole_numbers : Floats
whole_numbers = record {
  F = ℕ;
  gt = λ a b. ltb b a;
  ge = λ a b. leb b a;
  rank = λ a. a;
  gt_rank = λ a b. refl;
  ge_rank = λ a b. refl;
}

abbrev result : ℕ → ℕ → Result whole_numbers
result tid distance = record { tid = tid; distance = distance }

abbrev scanned : List (Result whole_numbers)
scanned = result 10 7 ∷ result 11 3 ∷ result 12 5 ∷ []

abbrev two_places : List (Result whole_numbers)
two_places = result 0 0 ∷ result 0 0 ∷ []

topk_all-nearest_example :
    Filled whole_numbers
      (topk_all whole_numbers (two_places, 0) 2 scanned)
      2
      (take 2 (insert_all whole_numbers [] scanned))
topk_all-nearest_example = topk_all-nearest whole_numbers two_places 2 scanned refl (omega arith)

abbrev sorted_tids : List ℕ
sorted_tids = 3 ∷ 8 ∷ []

sorted_tids-IsSorted : IsSorted sorted_tids 2
sorted_tids-IsSorted zero zero h k = omega arith
sorted_tids-IsSorted zero (suc zero) h k = omega arith
sorted_tids-IsSorted zero (suc (suc j)) h k = absurd (omega arith)
sorted_tids-IsSorted (suc i) zero h k = absurd (omega arith)
sorted_tids-IsSorted (suc zero) (suc zero) h k = omega arith
sorted_tids-IsSorted (suc zero) (suc (suc j)) h k = absurd (omega arith)
sorted_tids-IsSorted (suc (suc i)) (suc j) h k = absurd (omega arith)
