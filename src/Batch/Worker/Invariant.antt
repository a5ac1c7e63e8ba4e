-- ===== src/Batch/Worker/Invariant.antt =====
-- What holds of the requests in every state of the micro-batch worker.
use pg_cuvs.Base.{
  ℕ, suc, ◌+◌, ◌≤◌, ◌<◌, ◌≡◌, ◌≢◌, refl, sym, ◌∙◌, ◌⊎◌, inl, inr, List, [], ◌∷◌, ◌++◌, Bool, true,
  false, false≢true, ◌||◌, some, length, ◌==◌, ==_refl, arith, Bool-cases, length-append,
}
use pg_cuvs.Batch.{Key}
use pg_cuvs.Status.{status_unavailable}
use pg_cuvs.Base.Member.{elem, elem-append, elem-one, elem-index}
use pg_cuvs.Batch.Worker.{
  Answer, batch_max, process, Pc, idle, window, dispatch, gone, Daemon, finish_all, fail_all, Works,
  opens, takes, finishes, ends, Others, enqueues, stops, init, Run, start, works, others,
}
use pg_cuvs.Batch.Worker.Dispatch.{process-one_dispatch, process-others}
use pg_cuvs.Batch.Worker.Members.{Below}

-- Every request that has arrived is in exactly one place: done, in the queue or in the worker's
-- batch; a request that is done has its answer; queue and batch are in the order of arrival and no
-- longer than their arrays, and the worker has a batch in a dispatch only.
pub record Inv (s : Daemon) : Type 0 where
  pub kept :
      (r : ℕ) → r < s.next → (s.done r ≡ true) ⊎ (elem r s.queue ≡ true) ⊎ (elem r s.batch ≡ true)
  pub done_apart : (r : ℕ) → s.done r ≡ true → (elem r s.queue ≡ false) × (elem r s.batch ≡ false)
  pub batch_apart : (r : ℕ) → elem r s.batch ≡ true → elem r s.queue ≡ false
  pub arrived : (r : ℕ) → (s.done r || elem r s.queue || elem r s.batch) ≡ true → r < s.next
  pub answered : (r : ℕ) → s.done r ≡ true → (a : Answer) × (s.answers r ≡ some a)
  pub queue_order : Below 0 s.queue
  pub batch_order : Below 0 s.batch
  pub queue_room : length s.queue ≤ batch_max
  pub batch_room : length s.batch ≤ batch_max
  pub held : (s.pc ≡ dispatch) ⊎ (s.batch ≡ [])

Below-snoc :
    (b n : ℕ) (xs : List ℕ)
    → Below b xs
    → ((r : ℕ) → elem r xs ≡ true → r < n)
    → b ≤ n
    → Below b (xs ++ (n ∷ []))
unfolding elem
Below-snoc b n [] v known h = (h, tt)
Below-snoc b n (x ∷ xs) v known h = (
  v.0,
  Below-snoc (suc x) n xs v.1 (λ r e. known r (rw e (ground arith)))
      (known x (rw (==_refl x) refl)),
)

init-Inv : Inv init
unfolding elem
init-Inv = record {
  kept = λ r h. absurd (omega arith);
  done_apart = λ r h. absurd (false≢true h);
  batch_apart = λ r h. refl;
  arrived = λ r h. absurd (false≢true h);
  answered = λ r h. absurd (false≢true h);
  queue_order = tt;
  batch_order = tt;
  queue_room = omega arith;
  batch_room = omega arith;
  held = inr refl;
}

enqueues-Inv :
    (s : Daemon)
    → Inv s
    → length s.queue < batch_max
    → Inv (record s { next = s.next + 1; queue = s.queue ++ (s.next ∷ []) })
enqueues-Inv s v room =
    let new : (r : ℕ) → elem r (s.queue ++ (s.next ∷ [])) ≡ (elem r s.queue || (s.next == r)) =
      λ r. rw (elem-append r s.queue (s.next ∷ []), elem-one r s.next) refl in
    record {
      kept = λ r h. elim (Bool-cases (s.next == r)) [
        | inl here ↦ inr (inl (new r ∙ ground (arith, here)))
        | inr off ↦ elim (v.kept r (ground (arith, off))) [
          | inl done ↦ inl done
          | inr (inl queued) ↦ inr (inl (new r ∙ ground (arith, queued)))
          | inr (inr taken) ↦ inr (inr taken)
        ]
      ];
      done_apart = λ r h. (
        new r ∙ let lt : r < s.next = v.arrived r (rw h refl) in ground (arith, v.done_apart r h),
        (v.done_apart r h).1,
      );
      batch_apart = λ r h.
          let lt : r < s.next = v.arrived r (ground (arith, h)) in
          new r ∙ ground (arith, v.batch_apart r h);
      arrived = λ r h. elim (Bool-cases (s.next == r)) [
        | inl here ↦ ground (arith, here)
        | inr off ↦
            let old : (s.done r || elem r s.queue || elem r s.batch) ≡ true =
              ground (arith, new r, off) in
            omega (arith, v.arrived r old)
      ];
      answered = v.answered;
      queue_order =
          Below-snoc 0 s.next s.queue v.queue_order (λ r e. v.arrived r (ground (arith, e)))
            (omega arith);
      batch_order = v.batch_order;
      queue_room = omega (arith, length-append s.queue (s.next ∷ []));
      batch_room = v.batch_room;
      held = v.held;
    }

-- A worker outside a dispatch has no batch.
no_batch : (s : Daemon) → Inv s → s.pc ≢ dispatch → s.batch ≡ []
no_batch s v h = elim v.held [ inl at ↦ absurd (h at) | inr empty ↦ empty ]

takes-Inv :
    (s : Daemon)
    → Inv s
    → s.batch ≡ []
    → Inv (record s { pc = dispatch; batch = s.queue; queue = [] })
unfolding elem
takes-Inv s v empty =
    let none_there : (r : ℕ) → elem r s.batch ≡ false = λ r. rw empty refl in
    record {
      kept = λ r h. elim (v.kept r h) [
        | inl done ↦ inl done
        | inr (inl queued) ↦ inr (inr queued)
        | inr (inr taken) ↦ absurd (false≢true (sym (none_there r) ∙ taken))
      ];
      done_apart = λ r h. (refl, (v.done_apart r h).0);
      batch_apart = λ r h. refl;
      arrived = λ r h. v.arrived r (ground (arith, h));
      answered = v.answered;
      queue_order = tt;
      batch_order = v.queue_order;
      queue_room = omega arith;
      batch_room = v.queue_room;
      held = inl refl;
    }

finishes-Inv :
    (key : ℕ → Key) (run : ℕ → List ℕ → ℕ → Answer) (s : Daemon)
    → Inv s
    → Inv (record s {
      pc = idle;
      batch = [];
      answers = process key run s.batch s.answers;
      done = finish_all s.batch s.done;
    })
unfolding elem
finishes-Inv key run s v = record {
  kept = λ r h. elim (v.kept r h) [
    | inl done ↦ inl (ground (arith, done))
    | inr (inl queued) ↦ inr (inl queued)
    | inr (inr taken) ↦ inl (ground (arith, taken))
  ];
  done_apart = λ r h. elim (Bool-cases (elem r s.batch)) [
    | inl taken ↦ (v.batch_apart r taken, refl)
    | inr out ↦ ((v.done_apart r (ground (arith, out))).0, refl)
  ];
  batch_apart = λ r h. absurd (false≢true h);
  arrived = λ r h. v.arrived r (ground (arith, h));
  answered = λ r h. elim (Bool-cases (elem r s.batch)) [
    | inl taken ↦
        let (i, at) = elem-index r s.batch taken in
        let (ms, e, alike) =
          process-one_dispatch key s.batch run s.answers 0 i r v.batch_order at in
        (run (key r).mode ms r, e)
    | inr out ↦
        let (a, e) = v.answered r (ground (arith, out)) in
        (a, process-others key run s.batch s.answers r out ∙ e)
  ];
  queue_order = v.queue_order;
  batch_order = tt;
  queue_room = v.queue_room;
  batch_room = omega arith;
  held = inr refl;
}

ends-Inv :
    (s : Daemon)
    → Inv s
    → s.batch ≡ []
    → Inv (record s {
      pc = gone;
      queue = [];
      answers = fail_all s.queue s.answers;
      done = finish_all s.queue s.done;
    })
unfolding elem
ends-Inv s v empty = record {
  kept = λ r h. elim (v.kept r h) [
    | inl done ↦ inl (ground (arith, done))
    | inr (inl queued) ↦ inl (ground (arith, queued))
    | inr (inr taken) ↦ inr (inr taken)
  ];
  done_apart = λ r h. (refl, rw empty refl);
  batch_apart = λ r h. refl;
  arrived = λ r h. v.arrived r (ground (arith, h));
  answered = λ r h. elim (Bool-cases (elem r s.queue)) [
    | inl queued ↦ (record { status = status_unavailable; results = [] }, rw queued refl)
    | inr out ↦ let (a, e) = v.answered r (ground (arith, out)) in (a, rw out e)
  ];
  queue_order = tt;
  batch_order = v.batch_order;
  queue_room = omega arith;
  batch_room = v.batch_room;
  held = inr empty;
}

-- The flag and the place of the worker, outside a dispatch, do not matter to the requests.
moved-Inv :
    (s : Daemon) (p : Pc) (flag : Bool)
    → Inv s
    → (p ≡ dispatch) ⊎ (s.batch ≡ [])
    → Inv (record s { pc = p; shutdown = flag })
moved-Inv s p flag v h = record {
  kept = v.kept;
  done_apart = v.done_apart;
  batch_apart = v.batch_apart;
  arrived = v.arrived;
  answered = v.answered;
  queue_order = v.queue_order;
  batch_order = v.batch_order;
  queue_room = v.queue_room;
  batch_room = v.batch_room;
  held = h;
}

Works-Inv : {key : ℕ → Key} {s t : Daemon} → Works key s t → Inv s → Inv t
Works-Inv {s = s} (opens at on some_queued) v =
    moved-Inv s window s.shutdown v (inr (no_batch s v (λ q. cc)))
Works-Inv {s = s} (takes at) v = takes-Inv s v (no_batch s v (λ q. cc))
Works-Inv {key = key} {s = s} (finishes run at) v = finishes-Inv key run s v
Works-Inv {s = s} (ends at off) v = ends-Inv s v (no_batch s v (λ q. cc))

Others-Inv : {s t : Daemon} → Others s t → Inv s → Inv t
Others-Inv {s = s} (enqueues room) v = enqueues-Inv s v room
Others-Inv {s = s} stops v = moved-Inv s s.pc true v v.held

pub run-Inv : {key : ℕ → Key} {s : Daemon} {n : ℕ} {t : Daemon} → Run key s n t → Inv s → Inv t
run-Inv start v = v
run-Inv (works r w) v = Works-Inv w (run-Inv r v)
run-Inv (others r o) v = Others-Inv o (run-Inv r v)

-- In every state that the daemon reaches from its start, with the worker and the producers taking
-- their steps in any order, each request that has arrived is in exactly one place: done and answered,
-- in the queue, or in the batch that the worker is about to answer. Neither array overflows.
pub Run-Inv : {key : ℕ → Key} {n : ℕ} {s : Daemon} → Run key init n s → Inv s
Run-Inv r = run-Inv r init-Inv
