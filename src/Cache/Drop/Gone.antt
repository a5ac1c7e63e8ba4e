-- ===== src/Cache/Drop/Gone.antt =====
-- What a drop leaves, and who sees a stale mark.
use pg_cuvs.Base.{
  ℕ, zero, suc, ◌+◌, ◌<◌, ◌≤◌, ◌≡◌, ◌≢◌, ◌↔◌, refl, ◌⊎◌, inl, inr, List, [], ◌∷◌, Bool, true, false,
  false≢true, ◌&&◌, ◌||◌, none, ◌==◌, ==_refl, ==_ne, arith, Bool-cases, dec_lt, subst,
}
use pg_cuvs.Cache.{Entry, find_index}
use pg_cuvs.Cache.Drop.{
  Kind, cagra, tids, shards, delta, vectors, stale, relfilenode, tombstone, ivfpq, hnsw, shard,
  is_unlinked, unlinked_shards, shards_max, goes, unlink_all, drop_entry, Registry, handle_drop,
  touch, handle_mark_stale, index_is_stale,
}

-- The valid entries are of different indexes.
abbrev pub Others : ℕ → ℕ → List Entry → Type 0
Others db idx [] = Unit {0}
Others db idx (e ∷ es) =
    ((e.valid && (e.db_oid == db) && (e.index_oid == idx)) ≡ false) × Others db idx es

abbrev pub Unique : List Entry → Type 0
Unique [] = Unit {0}
Unique (e ∷ es) = ((e.valid ≡ false) ⊎ Others e.db_oid e.index_oid es) × Unique es

not_found : (db idx : ℕ) (es : List Entry) → Others db idx es → find_index es db idx ≡ none
unfolding find_index
not_found db idx [] v = refl
not_found db idx (e ∷ es) v = rw v.0 (not_found db idx es v.1)

tail-Others :
    (db idx : ℕ) (e : Entry) (es : List Entry)
    → (e.valid ≡ false) ⊎ Others e.db_oid e.index_oid es
    → (e.valid && (e.db_oid == db) && (e.index_oid == idx)) ≡ true
    → Others db idx es
tail-Others db idx e es (inl invalid) here = absurd (false≢true (ground (arith, invalid, here)))
tail-Others db idx e es (inr others) here =
    let same : e.db_oid ≡ db = ground (arith, here) in
    let same' : e.index_oid ≡ idx = ground (arith, here) in
    subst (λ (i : ℕ). Others db i es) same' (subst (λ (d : ℕ). Others d e.index_oid es) same others)

dropped :
    (db idx : ℕ) (es : List Entry) → Unique es → find_index (drop_entry db idx es) db idx ≡ none
unfolding find_index drop_entry
dropped db idx [] v = refl
dropped db idx (e ∷ es) v =
    elim (Bool-cases (e.valid && (e.db_oid == db) && (e.index_oid == idx))) [
      | inr other ↦ rw (other, other) (dropped db idx es v.1)
      | inl here ↦ rw here (not_found db idx es (tail-Others db idx e es v.0 here))
    ]

unlinked_shards-le : (there : ℕ → Bool) (n s : ℕ) → s ≤ unlinked_shards there n s
unfolding unlinked_shards
unlinked_shards-le there zero s = omega arith
unlinked_shards-le there (suc n) s = elim (Bool-cases (there s)) [
  | inl here ↦ rw here (omega (arith, unlinked_shards-le there n (s + 1)))
  | inr missing ↦ rw missing (omega arith)
]

-- The loop over the shards, of which those below `count` are there, comes past all of them.
shards_gone :
    (there : ℕ → Bool) (n s count : ℕ)
    → count ≤ s + n
    → ((i : ℕ) → (there i ≡ true) ↔ (i < count))
    → (i : ℕ) → s ≤ i
    → i < count
    → i < unlinked_shards there n s
unfolding unlinked_shards
shards_gone there zero s count few known i h lt = absurd (omega arith)
shards_gone there (suc n) s count few known i h lt =
    let here : there s ≡ true = (known s).1 (omega arith) in
    rw here (elim (dec_lt s i) [
      | yes later ↦ shards_gone there n (s + 1) count (omega arith) known i (omega arith) lt
      | no same ↦ omega (arith, unlinked_shards-le there n (s + 1))
    ])

and-false : (x : Bool) → (x && false) ≡ false
and-false true = refl
and-false false = refl

and-true : (x : Bool) → (x && true) ≡ x
and-true true = refl
and-true false = refl

-- The files of the index after a drop.
kind_gone :
    (removes : Kind → Bool) (there : ℕ → Bool) (count : ℕ) (k : Kind)
    → ((k : Kind) → removes k ≡ true)
    → count ≤ shards_max
    → ((i : ℕ) → (there i ≡ true) ↔ (i < count))
    → k ≢ ivfpq
    → k ≢ hnsw
    → (goes removes there k ≡ true) ⊎ ((s : ℕ) × (k ≡ shard s) × (count ≤ s))
unfolding goes is_unlinked
kind_gone removes there count cagra all few known a b = inl (all cagra)
kind_gone removes there count tids all few known a b = inl (all tids)
kind_gone removes there count shards all few known a b = inl (all shards)
kind_gone removes there count delta all few known a b = inl (all delta)
kind_gone removes there count vectors all few known a b = inl (all vectors)
kind_gone removes there count stale all few known a b = inl (all stale)
kind_gone removes there count relfilenode all few known a b = inl (all relfilenode)
kind_gone removes there count tombstone all few known a b = inl (all tombstone)
kind_gone removes there count ivfpq all few known a b = absurd (a refl)
kind_gone removes there count hnsw all few known a b = absurd (b refl)
kind_gone removes there count (shard s) all few known a b = elim (dec_lt s count) [
  | yes lt ↦
      let unlinks : ℕ → Bool = λ i. there i && removes (shard i) in
      let known' : (i : ℕ) → (unlinks i ≡ true) ↔ (i < count) =
        λ i. rw (all (shard i), and-true (there i)) (known i) in
      let gone : s < unlinked_shards unlinks shards_max 0 =
        shards_gone unlinks shards_max 0 count (omega arith) known' s (omega arith) lt in
      inl (ground (arith, gone))
  | no ge ↦ inr (s, refl, omega arith)
]

elsewhere :
    (d d' a a' b b' : ℕ) (k : Bool)
    → (d ≢ d') ⊎ (a ≢ a') ⊎ (b ≢ b')
    → ((d == d') && (a == a') && (b == b') && k) ≡ false
elsewhere d d' a a' b b' k (inl ne) = rw (==_ne d d' ne) refl
elsewhere d d' a a' b b' k (inr (inl ne)) = rw (==_ne a a' ne, and-false (d == d')) refl
elsewhere d d' a a' b b' k (inr (inr ne)) =
    rw (==_ne b b' ne, and-false ((d == d') && (a == a'))) refl

-- `handle_drop`, in a registry without two valid entries of one index, with the shard files of the
-- index, if any, numbered from 0 on without a gap, at most 256, and where no unlink of a file that is
-- there fails: the index is not found any more,
-- and none of its files is left in the daemon's directory but those of the kinds `.ivfpq` and
-- `.hnsw`, which stay if they were there; the files of other indexes and of other directories stay
-- too.
pub handle_drop-gone :
    (removes : Kind → Bool) (db idx count : ℕ) (r : Registry)
    → Unique r.indexes
    → ((k : Kind) → removes k ≡ true)
    → count ≤ shards_max
    → ((i : ℕ) → (r.files r.index_dir db idx (shard i) ≡ true) ↔ (i < count))
    → let after = handle_drop removes db idx r in
      (find_index after.indexes db idx ≡ none)
      × ((k : Kind) → k ≢ ivfpq → k ≢ hnsw → after.files r.index_dir db idx k ≡ false)
      × (after.files r.index_dir db idx ivfpq ≡ r.files r.index_dir db idx ivfpq)
      × (after.files r.index_dir db idx hnsw ≡ r.files r.index_dir db idx hnsw)
      × ((d a b : ℕ) (k : Kind)
          → (d ≢ r.index_dir) ⊎ (a ≢ db) ⊎ (b ≢ idx)
          → after.files d a b k ≡ r.files d a b k)
unfolding handle_drop unlink_all goes is_unlinked
handle_drop-gone removes db idx count r unique all few known =
    let there : ℕ → Bool = λ s. r.files r.index_dir db idx (shard s) in
    let absent : (s : ℕ) → count ≤ s → there s ≡ false = λ s ge. elim (Bool-cases (there s)) [
      | inr missing ↦ missing
      | inl here ↦ absurd (omega (arith, (known s).0 here))
    ] in
    (
      dropped db idx r.indexes unique,
      λ k a b. elim (kind_gone removes there count k all few known a b) [
        | inl goes_k ↦ rw (==_refl r.index_dir, ==_refl db, ==_refl idx, goes_k) refl
        | inr (s, e, ge) ↦ rw e (elim (Bool-cases (goes removes there (shard s))) [
          | inl unlinked ↦ rw (==_refl r.index_dir, ==_refl db, ==_refl idx, unlinked) refl
          | inr stays ↦ rw (==_refl r.index_dir, ==_refl db, ==_refl idx, stays) (absent s ge)
        ])
      ],
      rw (==_refl r.index_dir, ==_refl db, ==_refl idx) refl,
      rw (==_refl r.index_dir, ==_refl db, ==_refl idx) refl,
      λ d a b k other. rw (elsewhere d r.index_dir a db b idx (goes removes there k) other) refl,
    )

both_true : (a b rest : Bool) → ((a && b && true && true) || rest) ≡ ((a && b) || rest)
both_true true true rest = refl
both_true true false rest = refl
both_true false b rest = refl

-- A backend that looks in the daemon's directory finds an index stale after it was marked, unless
-- the marker could not be made; one that looks in another directory, as the `index_dir` option of
-- an index can tell it, finds what was there before.
index_is_stale-handle_mark_stale :
    (dir db idx : ℕ) (creates : Bool) (r : Registry)
    → index_is_stale dir db idx (handle_mark_stale creates db idx r).files
      ≡ ((creates && (dir == r.index_dir)) || index_is_stale dir db idx r.files)
unfolding index_is_stale handle_mark_stale touch
index_is_stale-handle_mark_stale dir db idx creates r =
    rw (==_refl db, ==_refl idx) (both_true creates (dir == r.index_dir) (r.files dir db idx stale))
