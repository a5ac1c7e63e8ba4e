-- ===== src/Warmup/Fifo.antt =====
-- The ring is a first-in first-out queue of at most 64 jobs, no two for the same index.
use pg_cuvs.Base.{
  ℕ, zero, suc, ◌+◌, ◌-◌, ◌%◌, ◌<◌, ◌≡◌, refl, ap, ap₂, ◌⊎◌, Bool-cases, sym, ◌∙◌, subst, List, [],
  ◌∷◌, ◌++◌, Bool, true, false, leb, ◌==◌, set, get_or, length, length-set, arith, inl, inr,
}
use pg_cuvs.Warmup.{
  Job, Queue, queue_max, no_job, is_queued, warmup_enqueue, warmup_dequeue, waits, stops, job,
  Dequeued,
}
use pg_cuvs.Warmup.Jobs.{
  jobs_from, jobs, has_index, distinct, IsValid, is_queued-has_index, jobs_from-mod, jobs_from-set,
  distinct-append,
}

-- What a call of `warmup_enqueue` does to the jobs.
pub data Enqueues (before : List Job) (j : Job) : Bool → List Job → Type 0 where
  refused :
      (has_index before j ≡ true) ⊎ (length before ≡ queue_max) → Enqueues before j false before
  appended : has_index before j ≡ false → Enqueues before j true (before ++ (j ∷ []))

length-jobs : (slots : List Job) (at k : ℕ) → length (jobs_from slots at k) ≡ k
unfolding jobs_from
length-jobs slots at zero = refl
length-jobs slots at (suc k) = ap suc (length-jobs slots (at + 1) k)

enqueued :
    (q : Queue) (j : Job)
    → IsValid q
    → q.count < queue_max
    → jobs_from (set q.slots q.tail j) q.head (q.count + 1) ≡ jobs q ++ (j ∷ [])
unfolding jobs
enqueued q j v room =
    let one_more : q.count + 1 ≡ suc q.count = omega arith in
    rw (v.tail_at, one_more) (jobs_from-set q.slots q.head q.count j v.slots_all room)

-- `warmup_enqueue` keeps the queue valid. It refuses a job whose index has one waiting, or that
-- finds 64 jobs waiting, and then changes nothing; any other job is put behind those that wait.
pub warmup_enqueue-Enqueues :
    (q : Queue) (j : Job)
    → IsValid q
    → IsValid (warmup_enqueue q j).1
      × Enqueues (jobs q) j (warmup_enqueue q j).0 (jobs (warmup_enqueue q j).1)
unfolding warmup_enqueue jobs
warmup_enqueue-Enqueues q j v =
    let found = is_queued-has_index q.slots q.head q.count j in
    elim (Bool-cases (is_queued q.slots q.head q.count j)) [
      | inl again ↦ rw again (v, refused (inl (sym found ∙ again)))
      | inr new ↦ elim (Bool-cases (leb queue_max q.count)) [
        | inl full ↦
            rw (new, full)
              (
                v,
                refused
                    (inr (ground (arith, length-jobs q.slots q.head q.count, v.count_in, full))),
              )
        | inr some_room ↦
            let room : q.count < queue_max = ground (arith, some_room) in
            let after = enqueued q j v room in
            rw (new, some_room)
              (
                record {
                  slots_all = length-set q.slots q.tail j ∙ v.slots_all;
                  head_in = v.head_in;
                  tail_at = omega (arith, v.tail_at);
                  count_in = omega arith;
                  distinct_jobs =
                      ap distinct after
                      ∙ distinct-append (jobs q) j v.distinct_jobs (sym found ∙ new);
                },
                subst (Enqueues (jobs q) j true) (sym after) (appended (sym found ∙ new)),
              )
      ]
    ]

-- What a call of `warmup_dequeue` does to the jobs.
pub data Dequeues (shutdown : Bool) (before : List Job) : Dequeued → List Job → Type 0 where
  nothing : shutdown ≡ false → before ≡ [] → Dequeues shutdown before waits before
  stopped : shutdown ≡ true → Dequeues shutdown before stops before
  oldest :
      (j : Job) (rest : List Job)
      → shutdown ≡ false
      → before ≡ j ∷ rest
      → Dequeues shutdown before (job j) rest

dequeued :
    (q : Queue) (k : ℕ)
    → IsValid q
    → q.count ≡ suc k
    → jobs q ≡ get_or q.slots q.head no_job ∷ jobs_from q.slots ((q.head + 1) % queue_max) k
unfolding jobs jobs_from
dequeued q k v e =
    let first : q.head % queue_max ≡ q.head = omega (arith, v.head_in) in
    let later = jobs_from-mod q.slots (q.head + 1) ((q.head + 1) % queue_max) k (omega arith) in
    ap (jobs_from q.slots q.head) e ∙ ap₂ ◌∷◌ (ap (λ (i : ℕ). get_or q.slots i no_job) first) later

-- The queue without its oldest job.
abbrev behind : Queue → Queue
behind q = record {
  slots = q.slots;
  head = (q.head + 1) % queue_max;
  tail = q.tail;
  count = q.count - 1;
}

stop_round : (q : Queue) → warmup_dequeue true q ≡ (stops, q)
unfolding warmup_dequeue
stop_round q = elim (Bool-cases (q.count == 0)) [ inl e ↦ rw e refl | inr e ↦ rw e refl ]

wait_round : (q : Queue) → (q.count == 0) ≡ true → warmup_dequeue false q ≡ (waits, q)
unfolding warmup_dequeue
wait_round q e = rw e refl

job_round :
    (q : Queue)
    → (q.count == 0) ≡ false
    → warmup_dequeue false q ≡ (job (get_or q.slots q.head no_job), behind q)
unfolding warmup_dequeue
job_round q e = rw e refl

behind-IsValid : (q : Queue) (k : ℕ) → IsValid q → q.count ≡ suc k → IsValid (behind q)
unfolding distinct jobs
behind-IsValid q k v e =
    let less : q.count - 1 ≡ k = omega arith in
    let apart : distinct (get_or q.slots q.head no_job ∷ jobs (behind q)) ≡ true =
      ap distinct (
        ap
          (λ (n : ℕ). get_or q.slots q.head no_job ∷ jobs_from q.slots ((q.head + 1) % queue_max) n)
          less
        ∙ sym (dequeued q k v e))
      ∙ v.distinct_jobs in
    record {
      slots_all = v.slots_all;
      head_in = omega arith;
      tail_at = omega (arith, v.tail_at);
      count_in = omega (arith, v.count_in);
      distinct_jobs = ground (arith, apart);
    }

-- `warmup_dequeue` keeps the queue valid. It hands out the job that has waited longest and takes it
-- off the queue; told to stop, it leaves all jobs, and it waits only if there is no job and nobody
-- has told it to stop.
pub warmup_dequeue-Dequeues :
    (shutdown : Bool) (q : Queue)
    → IsValid q
    → IsValid (warmup_dequeue shutdown q).1
      × Dequeues shutdown
          (jobs q)
          (warmup_dequeue shutdown q).0
          (jobs (warmup_dequeue shutdown q).1)
unfolding jobs jobs_from
warmup_dequeue-Dequeues true q v =
    subst (λ r. IsValid r.1 × Dequeues true (jobs q) r.0 (jobs r.1)) (sym (stop_round q))
      (v, stopped refl)
warmup_dequeue-Dequeues false q v = elim (Bool-cases (q.count == 0)) [
  | inl e ↦
      let none_left : q.count ≡ 0 = ground (arith, e) in
      subst (λ r. IsValid r.1 × Dequeues false (jobs q) r.0 (jobs r.1)) (sym (wait_round q e))
        (v, nothing refl (empty none_left))
  | inr e ↦
      let some_left : q.count ≡ suc (q.count - 1) = ground (arith, e) in
      subst (λ r. IsValid r.1 × Dequeues false (jobs q) r.0 (jobs r.1)) (sym (job_round q e))
        (
          behind-IsValid q (q.count - 1) v some_left,
          oldest _ _ refl (dequeued q (q.count - 1) v some_left),
        )
]
  where
    empty : q.count ≡ 0 → jobs_from q.slots q.head q.count ≡ []
    empty e = ap (jobs_from q.slots q.head) e
