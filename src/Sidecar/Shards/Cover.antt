-- ===== src/Sidecar/Shards/Cover.antt =====
-- What the record loop of `cuvs_shards_read` accepts: shards that follow one another and that hold
-- every vector once.
use pg_cuvs.Base.{
  ℕ, zero, suc, ◌+◌, ◌*◌, ◌^◌, ◌%◌, ◌≤◌, ◌<◌, ◌≡◌, refl, ap, sym, ◌∙◌, List, [], ◌∷◌, true, some,
  arith, get_elem?, length, dec_lt, ==_refl,
}
use pg_cuvs.Sidecar.Tids.{count_ok}
use pg_cuvs.Sidecar.Shards.{ShardsHeader, ShardRecord, covers}

-- The shard holds the global position `x`.
abbrev pub Holds : ShardRecord → ℕ → Type 0
Holds r x = (r.tid_offset ≤ x) × (x < r.tid_offset + r.n_vecs)

-- Position `x` stands in the shard at place `place`, and in no other.
pub record OneShard (rs : List ShardRecord) (x : ℕ) : Type 0 where
  pub place : ℕ
  pub shard : ShardRecord
  pub at_place : get_elem? rs place ≡ some shard
  pub holds : Holds shard x
  pub alone : (j : ℕ) (r : ShardRecord) → get_elem? rs j ≡ some r → Holds r x → j ≡ place

-- What one round of the loop has tested.
pub record Accepted (h : ShardsHeader) (i sum_n : ℕ) (r : ShardRecord) (rs : List ShardRecord)
    : Type 0 where
  pub in_order : r.shard_id ≡ i
  pub starts : r.tid_offset ≡ sum_n
  pub some_vecs : 0 < r.n_vecs
  pub few_vecs : r.n_vecs ≤ 1000000000
  pub same_dim : r.dim ≡ h.dim
  pub same_metric : r.metric ≡ h.metric
  pub rest : covers h (i + 1) (sum_n + r.n_vecs) rs ≡ true

-- The sums stay below the wrap-around of the C type.
abbrev pub Room : ℕ → List ShardRecord → Type 0
Room sum_n rs = sum_n + length rs * 1000000000 < 2 ^ 64

pub round :
    (h : ShardsHeader) (i sum_n : ℕ) (r : ShardRecord) (rs : List ShardRecord)
    → Room sum_n (r ∷ rs)
    → covers h i sum_n (r ∷ rs) ≡ true
    → Accepted h i sum_n r rs
unfolding covers
round h i sum_n r rs room ok = record {
  in_order = ground arith;
  starts = ground arith;
  some_vecs = ground arith;
  few_vecs = few;
  same_dim = ground arith;
  same_metric = ground arith;
  rest = ap (λ (s : ℕ). covers h (i + 1) s rs) (sym wraps) ∙ tail;
}
  where
    few : r.n_vecs ≤ 1000000000
    few = ground arith

    wraps : (sum_n + r.n_vecs) % 2 ^ 64 ≡ sum_n + r.n_vecs
    wraps = omega (arith, few, room)

    tail : covers h (i + 1) ((sum_n + r.n_vecs) % 2 ^ 64) rs ≡ true
    tail = ground arith

Room-next :
    (h : ShardsHeader) (i sum_n : ℕ) (r : ShardRecord) (rs : List ShardRecord)
    → Room sum_n (r ∷ rs)
    → Accepted h i sum_n r rs
    → Room (sum_n + r.n_vecs) rs
Room-next h i sum_n r rs room a = omega (arith, a.few_vecs)

-- The sum that the loop starts from, and the end of every shard, stay within the header's count.
pub sum_below :
    (h : ShardsHeader) (i sum_n : ℕ) (rs : List ShardRecord)
    → Room sum_n rs
    → covers h i sum_n rs ≡ true
    → sum_n ≤ h.n_vecs
unfolding covers
sum_below h i sum_n [] room ok = ground arith
sum_below h i sum_n (r ∷ rs) room ok =
    let a = round h i sum_n r rs room ok in
    omega
      (arith, sum_below h (i + 1) (sum_n + r.n_vecs) rs (Room-next h i sum_n r rs room a) a.rest)

-- The record at a place carries the place as its identifier, and starts at or behind the sum.
pub at_place_lem :
    (h : ShardsHeader) (i sum_n : ℕ) (rs : List ShardRecord)
    → Room sum_n rs
    → covers h i sum_n rs ≡ true
    → (j : ℕ) (s : ShardRecord) → get_elem? rs j ≡ some s
    → (sum_n ≤ s.tid_offset) × (s.shard_id ≡ i + j)
at_place_lem h i sum_n [] room ok zero s e = ground arith
at_place_lem h i sum_n [] room ok (suc j) s e = ground arith
at_place_lem h i sum_n (r ∷ rs) room ok zero s e =
    let a = round h i sum_n r rs room ok in (ground (arith, a.starts), ground (arith, a.in_order))
at_place_lem h i sum_n (r ∷ rs) room ok (suc j) s e =
    let a = round h i sum_n r rs room ok in
    let later =
      at_place_lem h (i + 1) (sum_n + r.n_vecs) rs (Room-next h i sum_n r rs room a) a.rest j s e in
    (omega (arith, later.0), omega (arith, later.1))

-- Every position from the sum to the header's count stands in exactly one of the records.
pub covers-OneShard :
    (h : ShardsHeader) (i sum_n : ℕ) (rs : List ShardRecord)
    → Room sum_n rs
    → covers h i sum_n rs ≡ true
    → (x : ℕ) → sum_n ≤ x
    → x < h.n_vecs
    → OneShard rs x
unfolding covers
covers-OneShard h i sum_n [] room ok x low high = absurd (ground arith)
covers-OneShard h i sum_n (r ∷ rs) room ok x low high =
    let a = round h i sum_n r rs room ok in
    let room' = Room-next h i sum_n r rs room a in
    elim (dec_lt x (sum_n + r.n_vecs)) [
      | yes here ↦ record {
        place = 0;
        shard = r;
        at_place = refl;
        holds = (omega (arith, a.starts), omega (arith, a.starts));
        alone = alone_here a room' here;
      }
      | no there ↦
          let o =
            covers-OneShard h (i + 1) (sum_n + r.n_vecs) rs room' a.rest x (omega arith) high in
          record {
            place = suc o.place;
            shard = o.shard;
            at_place = o.at_place;
            holds = o.holds;
            alone = alone_there a o there;
          }
    ]
  where
    alone_here :
        Accepted h i sum_n r rs
        → Room (sum_n + r.n_vecs) rs
        → x < sum_n + r.n_vecs
        → (j : ℕ) (s : ShardRecord) → get_elem? (r ∷ rs) j ≡ some s
        → Holds s x
        → j ≡ 0
    alone_here a room' here zero s e hs = refl
    alone_here a room' here (suc j) s e hs =
        let later = at_place_lem h (i + 1) (sum_n + r.n_vecs) rs room' a.rest j s e in
        absurd (omega (arith, later.0, hs.0))

    alone_there :
        Accepted h i sum_n r rs
        → (o : OneShard rs x) → ¬ (x < sum_n + r.n_vecs)
        → (j : ℕ) (s : ShardRecord) → get_elem? (r ∷ rs) j ≡ some s
        → Holds s x
        → j ≡ suc o.place
    alone_there a o there zero s e hs =
        let same : r.tid_offset + r.n_vecs ≡ s.tid_offset + s.n_vecs = ground arith in
        absurd (there (omega (arith, hs.1, same, a.starts)))
    alone_there a o there (suc j) s e hs = omega (arith, o.alone j s e hs)

-- The same loop, read the other way.
pub covers_end : (h : ShardsHeader) (i : ℕ) → covers h i h.n_vecs [] ≡ true
unfolding covers
covers_end h i = ==_refl h.n_vecs

pub covers_next :
    (h : ShardsHeader) (i sum_n : ℕ) (r : ShardRecord) (rs : List ShardRecord)
    → r.reserved ≡ 0
    → Accepted h i sum_n r rs
    → sum_n + r.n_vecs < 2 ^ 64
    → covers h i sum_n (r ∷ rs) ≡ true
unfolding covers
covers_next h i sum_n r rs unused a room =
    let wraps : (sum_n + r.n_vecs) % 2 ^ 64 ≡ sum_n + r.n_vecs = omega arith in
    let counted : count_ok r.n_vecs ≡ true = ground (arith, a.some_vecs, a.few_vecs) in
    rw (
      unused,
      counted,
      wraps,
      a.in_order,
      a.starts,
      a.same_dim,
      a.same_metric,
      ==_refl i,
      ==_refl sum_n,
      ==_refl h.dim,
      ==_refl h.metric,
      a.rest,
    )
