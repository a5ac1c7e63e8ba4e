-- ===== src/Batch/Worker.antt =====
-- The micro-batch worker of src/pg_cuvs_server.c and its producers as a step relation:
-- `batch_process_locked`, `batch_worker_thread`, `batch_fail_all_locked`, and the enqueueing of
-- `handle_search`. A request is a number, in place of the pointer. What happens under `g_batch_mtx`
-- is one step.

pub mod Members
pub mod Dispatch
pub mod Invariant
pub mod Progress
use pg_cuvs.Base.{
  ℕ, zero, suc, ◌+◌, ◌≤◌, ◌<◌, ◌≡◌, ◌≢◌, List, [], ◌∷◌, ◌++◌, Bool, true, false, ◌||◌, Option, none,
  some, length, map, ◌==◌, if◌then◌else◌,
}
use pg_cuvs.Base.Member.{elem}
use pg_cuvs.Status.{status_unavailable}
use pg_cuvs.Batch.{Key, batch_group}

-- `CUVS_BATCH_MAX`
abbrev pub batch_max : ℕ
batch_max = 256

-- What the worker writes into a request: its status and the results, if there are any.
pub record Answer : Type 0 where
  pub status : ℕ
  pub results : List (ℕ × ℕ)

-- Requests with their groups, `batch[i]` and `gid[i]`.
abbrev pub tagged : List ℕ → List ℕ → List (ℕ × ℕ)
tagged [] gid = []
tagged (r ∷ rs) [] = []
tagged (r ∷ rs) (g ∷ gid) = (r, g) ∷ tagged rs gid

-- The requests of a group, `idx[0 .. Q)` of `bf_batch_run_group` and `cagra_batch_run_group`.
unfoldable pub members : ℕ → List (ℕ × ℕ) → List ℕ
members g [] = []
members g ((r, h) ∷ ts) = if h == g then r ∷ members g ts else members g ts

-- `gm`, the mode of the group's first member.
unfoldable pub group_mode : (ℕ → Key) → ℕ → List (ℕ × ℕ) → ℕ
group_mode key g [] = 1
group_mode key g ((r, h) ∷ ts) = if h == g then (key r).mode else group_mode key g ts

-- The loop over the groups: the `n` from `g` on. `run` is the dispatch of a group, for CAGRA if the
-- mode is 0 and for brute force otherwise; it answers all members.
unfoldable pub run_groups :
    (ℕ → Key)
    → (ℕ → List ℕ → ℕ → Answer)
    → List (ℕ × ℕ)
    → ℕ
    → ℕ
    → (ℕ → Option Answer)
    → ℕ
    → Option Answer
run_groups key run ts zero g answers r = answers r
run_groups key run ts (suc n) g answers r =
    run_groups key run ts n (g + 1)
      (λ x.
        if elem x (members g ts)
        then some (run (group_mode key g ts) (members g ts) x)
        else answers x)
      r

-- The part of `batch_process_locked` without the lock, on the batch that it took.
unfoldable pub process :
    (ℕ → Key) → (ℕ → List ℕ → ℕ → Answer) → List ℕ → (ℕ → Option Answer) → ℕ → Option Answer
process key run batch answers =
    let (gid, ng) = batch_group (map key batch) in
    run_groups key run (tagged batch gid) ng 0 answers

-- Where the worker is: at the test of `g_shutdown`, in the window of the first request, in a
-- dispatch, or at its end.
pub data Pc : Type 0 where
  idle : Pc
  window : Pc
  dispatch : Pc
  gone : Pc

-- The queue, the batch that the worker took, the `done` flags, the answers and `g_shutdown`. Requests
-- are numbered as they arrive, so `next` is the number of the next one.
pub record Daemon : Type 0 where
  pub next : ℕ
  pub queue : List ℕ
  pub batch : List ℕ
  pub done : ℕ → Bool
  pub answers : ℕ → Option Answer
  pub pc : Pc
  pub shutdown : Bool

-- `done = 1` for the requests of a list.
abbrev pub finish_all : List ℕ → (ℕ → Bool) → ℕ → Bool
finish_all rs done r = elem r rs || done r

-- `batch_fail_all_locked`
abbrev pub fail_all : List ℕ → (ℕ → Option Answer) → ℕ → Option Answer
fail_all rs answers r =
    if elem r rs then some (record { status = status_unavailable; results = [] }) else answers r

-- A step of the worker: on a non-empty queue it waits out the window, takes the queue, runs the
-- groups and finishes the batch; once told to shut down it fails what is queued and ends.
pub data Works (key : ℕ → Key) (s : Daemon) : Daemon → Type 0 where
  opens : s.pc ≡ idle → s.shutdown ≡ false → s.queue ≢ [] → Works key s (record s { pc = window })
  takes : s.pc ≡ window → Works key s (record s { pc = dispatch; batch = s.queue; queue = [] })
  finishes :
      (run : ℕ → List ℕ → ℕ → Answer)
      → s.pc ≡ dispatch
      → Works key s (record s {
        pc = idle;
        batch = [];
        answers = process key run s.batch s.answers;
        done = finish_all s.batch s.done;
      })
  ends :
      s.pc ≡ idle
      → s.shutdown ≡ true
      → Works key s (record s {
        pc = gone;
        queue = [];
        answers = fail_all s.queue s.answers;
        done = finish_all s.queue s.done;
      })

-- A step of the others: a producer puts a request with `done = 0` in the queue if there is room, and
-- then waits until it is done (without room it goes another way and changes nothing); or the signal
-- handler sets the flag.
pub data Others (s : Daemon) : Daemon → Type 0 where
  enqueues :
      length s.queue < batch_max
      → Others s (record s { next = s.next + 1; queue = s.queue ++ (s.next ∷ []) })
  stops : Others s (record s { shutdown = true })

-- The daemon after start-up, and what can come of a state in runs with so many steps of the worker.
abbrev pub init : Daemon
init = record {
  next = 0;
  queue = [];
  batch = [];
  done = λ r. false;
  answers = λ r. none;
  pc = idle;
  shutdown = false;
}

pub data Run (key : ℕ → Key) (s : Daemon) : ℕ → Daemon → Type 0 where
  start : Run key s 0 s
  works : {n : ℕ} {t u : Daemon} → Run key s n t → Works key t u → Run key s (suc n) u
  others : {n : ℕ} {t u : Daemon} → Run key s n t → Others t u → Run key s n u
