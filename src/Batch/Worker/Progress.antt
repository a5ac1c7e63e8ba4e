-- ===== src/Batch/Worker/Progress.antt =====
-- Every request that arrives before the worker's end is done after four of the worker's steps; one
-- that arrives later never is.
use pg_cuvs.Base.{
  ℕ, suc, ◌+◌, ◌≤◌, ◌<◌, ◌≡◌, ◌≢◌, refl, ap, sym, subst, ◌∙◌, ◌⊎◌, inl, inr, List, [], ◌∷◌, ◌++◌,
  true, false, false≢true, some, arith, Bool-cases,
}
use pg_cuvs.Batch.{Key}
use pg_cuvs.Status.{status_unavailable}
use pg_cuvs.Base.Member.{elem, elem-append}
use pg_cuvs.Batch.Worker.{
  Answer, Pc, idle, window, dispatch, gone, Daemon, Works, opens, takes, finishes, ends, Others,
  enqueues, stops, init, Run, start, works, others,
}
use pg_cuvs.Batch.Worker.Invariant.{Inv, Run-Inv, run-Inv}

-- How many steps of the worker a queued request is away from its answer, at most.
queued_rank : Pc → ℕ
queued_rank idle = 3
queued_rank window = 2
queued_rank dispatch = 4
queued_rank gone = 0

-- `r` is done, or at most `n` steps of the worker away from it.
abbrev Near : Daemon → ℕ → ℕ → Type 0
Near s r n =
    (s.done r ≡ true)
    ⊎ ((elem r s.batch ≡ true) × (s.pc ≡ dispatch) × (1 ≤ n))
    ⊎ ((elem r s.queue ≡ true) × (s.pc ≢ gone) × (queued_rank s.pc ≤ n))

-- A step of the worker brings a request nearer.
Works-nearer :
    {key : ℕ → Key} {s t : Daemon} (r n : ℕ) → Works key s t → Near s r (suc n) → Near t r n
unfolding queued_rank
Works-nearer r n (opens at on some_queued) (inl done) = inl done
Works-nearer r n (opens at on some_queued) (inr (inl (taken, here, k))) = cc
Works-nearer r n (opens at on some_queued) (inr (inr (queued, here, k))) =
    inr (inr (queued, λ q. cc, omega (arith, ap queued_rank at)))
Works-nearer r n (takes at) (inl done) = inl done
Works-nearer r n (takes at) (inr (inl (taken, here, k))) = cc
Works-nearer r n (takes at) (inr (inr (queued, here, k))) =
    inr (inl (queued, refl, omega (arith, ap queued_rank at)))
Works-nearer r n (finishes run at) (inl done) = inl (ground (arith, done))
Works-nearer r n (finishes run at) (inr (inl (taken, here, k))) = inl (ground (arith, taken))
Works-nearer r n (finishes run at) (inr (inr (queued, here, k))) =
    inr (inr (queued, λ q. cc, omega (arith, ap queued_rank at)))
Works-nearer r n (ends at off) (inl done) = inl (ground (arith, done))
Works-nearer r n (ends at off) (inr (inl (taken, here, k))) = cc
Works-nearer r n (ends at off) (inr (inr (queued, here, k))) = inl (ground (arith, queued))

elem-left : (r : ℕ) (xs ys : List ℕ) → elem r xs ≡ true → elem r (xs ++ ys) ≡ true
elem-left r xs ys h = elem-append r xs ys ∙ rw h refl

Others-Near : {s t : Daemon} (r n : ℕ) → Others s t → Near s r n → Near t r n
Others-Near r n (enqueues room) (inl done) = inl done
Others-Near r n (enqueues room) (inr (inl taken)) = inr (inl taken)
Others-Near {s} r n (enqueues room) (inr (inr (queued, here, k))) =
    inr (inr (elem-left r s.queue (s.next ∷ []) queued, here, k))
Others-Near r n stops h = h

-- Each step of the worker in a run counts.
run_nearer :
    {key : ℕ → Key} (r : ℕ) {s : Daemon} {n : ℕ} {t : Daemon}
    → Run key s n t
    → (m : ℕ) → Near s r (n + m)
    → Near t r m
run_nearer r {s} start m h = subst (λ (k : ℕ). Near s r k) (omega arith) h
run_nearer r {s} (works {n} w v) m h =
    Works-nearer r m v (run_nearer r w (suc m) (subst (λ (k : ℕ). Near s r k) (omega arith) h))
run_nearer r (others w o) m h = Others-Near r m o (run_nearer r w m h)

rank_pos : (p : Pc) → p ≢ gone → 2 ≤ queued_rank p
unfolding queued_rank
rank_pos idle h = omega arith
rank_pos window h = omega arith
rank_pos dispatch h = omega arith
rank_pos gone h = absurd (h refl)

rank_le : (p : Pc) → queued_rank p ≤ 4
unfolding queued_rank
rank_le idle = omega arith
rank_le window = omega arith
rank_le dispatch = omega arith
rank_le gone = omega arith

Near-end : (s : Daemon) (r : ℕ) → Near s r 0 → s.done r ≡ true
Near-end s r (inl done) = done
Near-end s r (inr (inl (taken, here, k))) = absurd (omega arith)
Near-end s r (inr (inr (queued, here, k))) = absurd (omega (arith, rank_pos s.pc here))

Near-start : (s : Daemon) (r n : ℕ) → Inv s → s.pc ≢ gone → r < s.next → 4 ≤ n → Near s r n
unfolding elem
Near-start s r n v here come h = elim (v.kept r come) [
  | inl done ↦ inl done
  | inr (inl queued) ↦ inr (inr (queued, here, omega (arith, rank_le s.pc)))
  | inr (inr taken) ↦ elim v.held [
    | inl at ↦ inr (inl (taken, at, omega arith))
    | inr empty ↦ absurd (false≢true (ap (λ l. elem r l) (sym empty) ∙ taken))
  ]
]

Pc-cases : (p : Pc) → (p ≡ idle) ⊎ (p ≡ window) ⊎ (p ≡ dispatch) ⊎ (p ≡ gone)
Pc-cases idle = inl refl
Pc-cases window = inr (inl refl)
Pc-cases dispatch = inr (inr (inl refl))
Pc-cases gone = inr (inr (inr refl))

-- Outside a dispatch a request that is not done is queued.
queue-filled :
    (s : Daemon) (v : Inv s) (r : ℕ)
    → r < s.next
    → s.done r ≡ false
    → s.pc ≢ dispatch
    → s.queue ≢ []
unfolding elem
queue-filled s v r come pending outside e = elim (v.kept r come) [
  | inl done ↦ false≢true (sym pending ∙ done)
  | inr (inl queued) ↦ false≢true (ap (elem r) (sym e) ∙ queued)
  | inr (inr taken) ↦ elim v.held [
    | inl at ↦ outside at
    | inr empty ↦ false≢true (ap (elem r) (sym empty) ∙ taken)
  ]
]

next-undone : (s : Daemon) → Inv s → s.done s.next ≡ false
next-undone s v = elim (Bool-cases (s.done s.next)) [
  | inr undone ↦ undone
  | inl done ↦ absurd (omega (arith, v.arrived s.next (rw done refl)))
]

-- Without a worker nothing gets done.
stuck :
    {key : ℕ → Key} (r : ℕ) {s : Daemon} {n : ℕ} {t : Daemon}
    → Run key s n t
    → s.pc ≡ gone
    → s.done r ≡ false
    → (t.pc ≡ gone) × (t.done r ≡ false)
stuck r start at h = (at, h)
stuck r (works w (opens at' on some_queued)) at h = let (p, q) = stuck r w at h in cc
stuck r (works w (takes at')) at h = let (p, q) = stuck r w at h in cc
stuck r (works w (finishes run at')) at h = let (p, q) = stuck r w at h in cc
stuck r (works w (ends at' off)) at h = let (p, q) = stuck r w at h in cc
stuck r (others w (enqueues room)) at h = stuck r w at h
stuck r (others w stops) at h = stuck r w at h

module _ {key : ℕ → Key} {start_steps : ℕ} {s : Daemon} (reached : Run key init start_steps s) where
  -- In any run on from a state that the daemon reaches before the worker's end, whatever the
  -- producers and the signal do in between: once the worker has taken four more steps, every request
  -- that had arrived is done, with an answer.
  pub done_in_four_steps :
      {n : ℕ} {t : Daemon} (r : ℕ)
      → s.pc ≢ gone
      → r < s.next
      → Run key s n t
      → 4 ≤ n
      → (t.done r ≡ true) × (a : Answer) × (t.answers r ≡ some a)
  done_in_four_steps {n} {t} r here come run four =
      let near : Near s r (n + 0) =
        Near-start s r (n + 0) (Run-Inv reached) here come (omega arith) in
      let done : t.done r ≡ true = Near-end t r (run_nearer r run 0 near) in
      let (a, e) = (run-Inv run (Run-Inv reached)).answered r done in (done, a, e)

  -- As long as a request that has arrived is not done and the worker has not ended, the worker can
  -- take a step.
  pub pending-Works :
      (r : ℕ) → s.pc ≢ gone → r < s.next → s.done r ≡ false → (t : Daemon) × Works key s t
  pending-Works r here come pending =
      let v = Run-Inv reached in
      elim (Pc-cases s.pc) [
        | inl at ↦ elim (Bool-cases s.shutdown) [
          | inl off ↦ (_, ends at off)
          | inr on ↦ (_, opens at on (queue-filled s v r come pending (λ q. cc)))
        ]
        | inr (inl at) ↦ (_, takes at)
        | inr (inr (inl at)) ↦
            (_, finishes (λ m ms x. record { status = status_unavailable; results = [] }) at)
        | inr (inr (inr at)) ↦ absurd (here at)
      ]

  -- A request that is put in the queue after the worker's end is never done.
  pub late-request :
      {n : ℕ} {t : Daemon}
      → s.pc ≡ gone
      → Run key (record s { next = s.next + 1; queue = s.queue ++ (s.next ∷ []) }) n t
      → t.done s.next ≡ false
  late-request end run = (stuck s.next run end (next-undone s (Run-Inv reached))).1
