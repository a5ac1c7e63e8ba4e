-- ===== src/Warmup/Cold/Stuck.antt =====
-- What becomes of an index whose warm-up job the full queue refused.
use pg_cuvs.Base.{
  ℕ, ◌+◌, ◌%◌, ◌^◌, ◌≤◌, ◌≡◌, refl, ◌∙◌, inl, inr, Option, none, some, subst, sym, ap, ◌⊎◌, List,
  [], ◌∷◌, true, false, if◌then◌else◌, arith, Bool-cases,
}
use pg_cuvs.Warmup.{Job, Queue, queue_max, warmup_enqueue, is_queued}
use pg_cuvs.Warmup.Cold.{ColdEntry, warmup_queued, is_for, wants_warmup, job_of, miss, cold_miss}

refused : (q : Queue) (j : Job) → queue_max ≤ q.count → warmup_enqueue q j ≡ (false, q)
unfolding warmup_enqueue
refused q j full = ground (arith, full)

miss-wants : (ce : ColdEntry) (q : Queue) → wants_warmup (miss ce q).0 ≡ false
unfolding miss wants_warmup
miss-wants ce q = ground arith

miss-is_for :
    (db_oid index_oid : ℕ) (ce : ColdEntry) (q : Queue)
    → is_for db_oid index_oid (miss ce q).0 ≡ is_for db_oid index_oid ce
unfolding miss is_for
miss-is_for db_oid index_oid ce q = elim (Bool-cases (wants_warmup ce)) [
  | inl wants ↦ rw wants refl
  | inr busy ↦ rw busy refl
]

miss-full : (ce : ColdEntry) (q : Queue) → queue_max ≤ q.count → (miss ce q).1 ≡ q
unfolding miss
miss-full ce q full = elim (Bool-cases (wants_warmup ce)) [
  | inl wants ↦ rw (wants, refused q (job_of ce) full) refl
  | inr busy ↦ rw busy refl
]

queued-wants : (ce : ColdEntry) → ce.warmup_state ≡ warmup_queued → wants_warmup ce ≡ false
unfolding wants_warmup
queued-wants ce queued = ground (arith, queued)

miss-queued :
    (x ce : ColdEntry) (q : Queue)
    → x ≡ ce
    → wants_warmup ce ≡ true
    → (miss x q).0 ≡ record ce {
      cache_miss_count = (ce.cache_miss_count + 1) % 2 ^ 64;
      warmup_state = warmup_queued;
    }
unfolding miss
miss-queued x ce q same wants = rw (same, wants) refl

some-injective : {a b : ColdEntry} → some a ≡ some b → a ≡ b
some-injective e = cc

-- The entry of an index in the registry.
unfoldable pub find_cold : ℕ → ℕ → List ColdEntry → Option ColdEntry
find_cold db_oid index_oid [] = none
find_cold db_oid index_oid (ce ∷ ces) =
    let later = find_cold db_oid index_oid ces in
    if is_for db_oid index_oid ce then some ce else later

-- An index that is registered, and whose entry does not ask for a warm-up.
abbrev Busy : ℕ → ℕ → List ColdEntry → Type 0
Busy db_oid index_oid ces =
    (ce : ColdEntry) × (find_cold db_oid index_oid ces ≡ some ce) × (wants_warmup ce ≡ false)

Busy-skip :
    (db_oid index_oid : ℕ) (ce : ColdEntry) (ces : List ColdEntry)
    → is_for db_oid index_oid ce ≡ false
    → Busy db_oid index_oid ces
    → Busy db_oid index_oid (ce ∷ ces)
unfolding find_cold
Busy-skip db_oid index_oid ce ces other (e, found, busy) = (e, rw other found, busy)

Busy-first :
    (db_oid index_oid : ℕ) (ce : ColdEntry) (ces : List ColdEntry)
    → is_for db_oid index_oid ce ≡ true
    → wants_warmup ce ≡ false
    → Busy db_oid index_oid (ce ∷ ces)
unfolding find_cold
Busy-first db_oid index_oid ce ces here busy = (ce, rw here refl, busy)

-- What is known of a list with a busy index, by its first entry.
Busy-cases :
    (db_oid index_oid : ℕ) (ce : ColdEntry) (ces : List ColdEntry)
    → Busy db_oid index_oid (ce ∷ ces)
    → ((is_for db_oid index_oid ce ≡ true) × (wants_warmup ce ≡ false))
      ⊎ ((is_for db_oid index_oid ce ≡ false) × Busy db_oid index_oid ces)
unfolding find_cold
Busy-cases db_oid index_oid ce ces (e, found, busy) =
    elim (Bool-cases (is_for db_oid index_oid ce)) [
      | inl here ↦
          let same : some ce ≡ some e = rw here at found in
          inl (here, subst (λ x. wants_warmup x ≡ false) (sym (some-injective same)) busy)
      | inr other ↦ inr (other, (e, (rw other at found), busy))
    ]

-- Searches keep a busy index busy.
cold_miss-Busy :
    (db_oid index_oid d i : ℕ) (ces : List ColdEntry) (q : Queue)
    → Busy db_oid index_oid ces
    → Busy db_oid index_oid (cold_miss d i ces q).0
unfolding cold_miss
cold_miss-Busy db_oid index_oid d i [] q b = b
cold_miss-Busy db_oid index_oid d i (ce ∷ ces) q b = elim (Bool-cases (is_for d i ce)) [
  | inl hit ↦ simp hit (elim (Busy-cases db_oid index_oid ce ces b) [
    | inl (here, busy) ↦
        Busy-first db_oid index_oid (miss ce q).0 ces (miss-is_for db_oid index_oid ce q ∙ here)
          (miss-wants ce q)
    | inr (other, later) ↦
        Busy-skip db_oid index_oid (miss ce q).0 ces (miss-is_for db_oid index_oid ce q ∙ other)
          later
  ])
  | inr passed ↦ simp passed (elim (Busy-cases db_oid index_oid ce ces b) [
    | inl (here, busy) ↦ Busy-first db_oid index_oid ce (cold_miss d i ces q).0 here busy
    | inr (other, later) ↦
        Busy-skip db_oid index_oid ce (cold_miss d i ces q).0 other
          (cold_miss-Busy db_oid index_oid d i ces q later)
  ])
]

-- A search for a busy index leaves the queue alone.
cold_miss-queue :
    (db_oid index_oid : ℕ) (ces : List ColdEntry) (q : Queue)
    → Busy db_oid index_oid ces
    → (cold_miss db_oid index_oid ces q).1 ≡ q
unfolding cold_miss miss
cold_miss-queue db_oid index_oid [] q b = refl
cold_miss-queue db_oid index_oid (ce ∷ ces) q b = elim (Busy-cases db_oid index_oid ce ces b) [
  | inl (here, busy) ↦ rw (here, busy) refl
  | inr (other, later) ↦ rw other (cold_miss-queue db_oid index_oid ces q later)
]

-- The registry after misses of whatever indexes, each with the queue as it is then.
unfoldable pub after_misses : List (ℕ × ℕ × Queue) → List ColdEntry → List ColdEntry
after_misses [] ces = ces
after_misses ((d, i, q) ∷ misses) ces = after_misses misses (cold_miss d i ces q).0

after_misses-Busy :
    (db_oid index_oid : ℕ) (misses : List (ℕ × ℕ × Queue)) (ces : List ColdEntry)
    → Busy db_oid index_oid ces
    → Busy db_oid index_oid (after_misses misses ces)
unfolding after_misses
after_misses-Busy db_oid index_oid [] ces b = b
after_misses-Busy db_oid index_oid ((d, i, q) ∷ misses) ces b =
    after_misses-Busy db_oid index_oid misses (cold_miss d i ces q).0
      (cold_miss-Busy db_oid index_oid d i ces q b)

-- A first miss with a full queue.
cold_miss-queued :
    (db_oid index_oid : ℕ) (ces : List ColdEntry) (q : Queue) (ce : ColdEntry)
    → queue_max ≤ q.count
    → find_cold db_oid index_oid ces ≡ some ce
    → wants_warmup ce ≡ true
    → ((cold_miss db_oid index_oid ces q).1 ≡ q)
      × (find_cold db_oid index_oid (cold_miss db_oid index_oid ces q).0
          ≡ some (record ce {
            cache_miss_count = (ce.cache_miss_count + 1) % 2 ^ 64;
            warmup_state = warmup_queued;
          }))
unfolding cold_miss find_cold
cold_miss-queued db_oid index_oid [] q ce full found wants = absurd (ground arith)
cold_miss-queued db_oid index_oid (x ∷ ces) q ce full found wants =
    elim (Bool-cases (is_for db_oid index_oid x)) [
      | inr other ↦
          let (same, later) =
            cold_miss-queued db_oid index_oid ces q ce full (rw other at found) wants in
          rw other (same, rw other later)
      | inl here ↦
          let same : x ≡ ce = some-injective (rw here at found) in
          rw here (
            miss-full x q full,
            rw (miss-is_for db_oid index_oid x q ∙ here) (ap some (miss-queued x ce q same wants)),
          )
    ]

-- A search for a registered index that asks for its warm-up, while the queue is full and does not
-- hold it: the queue stays as it was, without the index, which is now in the state WARMUP_QUEUED;
-- and after any number of further misses, of this and other indexes and with whatever queues, a
-- search for the index still puts it into no queue, whether or not that has room.
pub full_queue-cold_miss :
    (db_oid index_oid : ℕ) (ces : List ColdEntry) (q : Queue) (ce : ColdEntry)
    (misses : List (ℕ × ℕ × Queue)) (q' : Queue)
    → queue_max ≤ q.count
    → find_cold db_oid index_oid ces ≡ some ce
    → wants_warmup ce ≡ true
    → is_queued q.slots q.head q.count (job_of ce) ≡ false
    → let after = cold_miss db_oid index_oid ces q in
      (after.1 ≡ q)
      × (is_queued after.1.slots after.1.head after.1.count (job_of ce) ≡ false)
      × (find_cold db_oid index_oid after.0
          ≡ some (record ce {
            cache_miss_count = (ce.cache_miss_count + 1) % 2 ^ 64;
            warmup_state = warmup_queued;
          }))
      × ((cold_miss db_oid index_oid (after_misses misses after.0) q').1 ≡ q')
full_queue-cold_miss db_oid index_oid ces q ce misses q' full found wants absent =
    let (same, queued) = cold_miss-queued db_oid index_oid ces q ce full found wants in
    let busy : Busy db_oid index_oid (cold_miss db_oid index_oid ces q).0 =
      (_, queued, queued-wants _ refl) in
    (
      same,
      ap (λ (x : Queue). is_queued x.slots x.head x.count (job_of ce)) same ∙ absent,
      queued,
      cold_miss-queue db_oid index_oid (after_misses misses (cold_miss db_oid index_oid ces q).0) q'
          (after_misses-Busy db_oid index_oid misses (cold_miss db_oid index_oid ces q).0 busy),
    )
