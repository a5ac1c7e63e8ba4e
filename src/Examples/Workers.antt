-- ===== src/Examples/Workers.antt =====
-- The micro-batch worker at a concrete run.
use pg_cuvs.Base.{
  ℕ, ◌≡◌, ◌≢◌, ◌↔◌, refl, List, [], ◌∷◌, true, false, Option, none, some, get_elem?, arith,
}
use pg_cuvs.Batch.{Key, same_key}
use pg_cuvs.Base.Member.{elem}
use pg_cuvs.Batch.Worker.{
  Answer, process, Daemon, Works, opens, takes, finishes, ends, enqueues, stops, init, Run, start,
  works, others,
}
use pg_cuvs.Batch.Worker.Dispatch.{process-one_dispatch}
use pg_cuvs.Batch.Worker.Invariant.{Inv, Run-Inv}
use pg_cuvs.Batch.Worker.Progress.{done_in_four_steps, pending-Works, late-request}

abbrev key : ℕ → Key
key r = record {
  db_oid = 1;
  index_oid = 5;
  precision = 0;
  dim = 3;
  mode = 0;
  itopk_size = 64;
  search_width = 1;
}

abbrev run : ℕ → List ℕ → ℕ → Answer
run mode ms r = record { status = 0; results = (r, mode) ∷ [] }

abbrev no_answers : ℕ → Option Answer
no_answers r = none

process-one_dispatch_example :
    (ms : List ℕ) × (process key run (3 ∷ 4 ∷ []) no_answers 4 ≡ some (run 0 ms 4))
    × ((j x : ℕ)
        → get_elem? (3 ∷ 4 ∷ []) j ≡ some x
        → (elem x ms ≡ true) ↔ (same_key (key 4) (key x) ≡ true))
process-one_dispatch_example =
    process-one_dispatch key (3 ∷ 4 ∷ []) run no_answers 0 1 4 (omega arith, (omega arith, tt)) refl

-- One request is in the queue.
abbrev queued : Daemon
queued = record init { next = 1; queue = 0 ∷ [] }

one_queued : Run key init 0 queued
one_queued = others start (enqueues (omega arith))

Run-Inv_example : Inv queued
Run-Inv_example = Run-Inv one_queued

one_in_queue : queued.queue ≢ []
one_in_queue = λ e. cc

-- The worker serves it, is told to shut down and ends.
abbrev four_steps : (t : Daemon) × Run key queued 4 t
four_steps = (
  _,
  works
      (others
        (works (works (works start (opens refl refl one_in_queue)) (takes refl))
          (finishes run refl))
        stops)
      (ends refl refl),
)

done_in_four_steps_example :
    (four_steps.0.done 0 ≡ true) × (a : Answer) × (four_steps.0.answers 0 ≡ some a)
done_in_four_steps_example =
    done_in_four_steps one_queued 0 (λ e. cc) (omega arith) four_steps.1 (omega arith)

pending-Works_example : (t : Daemon) × Works key queued t
pending-Works_example = pending-Works one_queued 0 (λ e. cc) (omega arith) refl

-- The worker has ended without a request.
abbrev ended : (t : Daemon) × Run key init 1 t
ended = (_, works (others start stops) (ends refl refl))

late-request_example : ended.0.done 0 ≡ false
unfolding elem
late-request_example = late-request ended.1 refl start
