-- ===== src/Plan/Split.antt =====
-- The shards that `build_sharded` makes cover the corpus, evenly.
use pg_cuvs.Base.{
  ℕ, zero, suc, ◌+◌, ◌-◌, ◌*◌, ◌/◌, ◌%◌, ◌≤◌, ◌<◌, ◌≡◌, refl, List, [], ◌∷◌, true, some, arith,
  dec_lt, ◌∙◌, ap, sym, length, get_elem?, Option-cases, inl, inr, ◌⊎◌,
}
use pg_cuvs.Sidecar.Shards.Cover.{covers_end, covers_next}
use native.Mathlib.Nat.{suc-mul, mul_comm, div-add-mod, mod-lt, le-div_iff_mul-le}
use pg_cuvs.Sidecar.Shards.{ShardRecord, ShardsHeader, covers, shards_max}
use pg_cuvs.Plan.{Place, clamp_shards, shard_size, shard_records, build_sharded}

-- One round: the shard was placed, and the loop goes on behind it.
record Round (place : Place) (base rem dim metric i off k : ℕ) (rs : List ShardRecord)
    : Type 0 where
  head : ShardRecord
  later : List ShardRecord
  parts : rs ≡ head ∷ later
  in_order : head.shard_id ≡ i
  starts : head.tid_offset ≡ off
  size : head.n_vecs ≡ shard_size base rem i
  same_dim : head.dim ≡ dim
  same_metric : head.metric ≡ metric
  unused : head.reserved ≡ 0
  goes_on :
      shard_records place base rem dim metric (i + 1) (off + shard_size base rem i) k ≡ some later

round :
    (place : Place) (base rem dim metric i off k : ℕ) (rs : List ShardRecord)
    → shard_records place base rem dim metric i off (suc k) ≡ some rs
    → Round place base rem dim metric i off k rs
unfolding shard_records
round place base rem dim metric i off k rs e =
    let size = shard_size base rem i in
    elim (Option-cases (place i off size)) [
      | inl q ↦ absurd (ground arith)
      | inr ((dev, acrc), q) ↦
          elim (Option-cases (shard_records place base rem dim metric (i + 1) (off + size) k)) [
            | inl q' ↦ absurd (ground arith)
            | inr (later, q') ↦ record {
              head = record {
                shard_id = i;
                gpu_device_id = dev;
                tid_offset = off;
                n_vecs = size;
                dim = dim;
                metric = metric;
                artifact_crc32 = acrc;
                reserved = 0;
              };
              later = later;
              parts = ground arith;
              in_order = refl;
              starts = refl;
              size = refl;
              same_dim = refl;
              same_metric = refl;
              unused = refl;
              goes_on = q';
            }
          ]
    ]

shard_size_cases :
    (base rem i : ℕ)
    → ((shard_size base rem i ≡ base + 1) × (i < rem))
      ⊎ ((shard_size base rem i ≡ base) × (rem ≤ i))
unfolding shard_size
shard_size_cases base rem i = elim (dec_lt i rem) [
  | yes early ↦ inl (ground arith, early)
  | no late ↦ inr (ground arith, omega arith)
]

-- From shard `i` on, `k` shards take the rest of the corpus.
records_cover :
    (h : ShardsHeader) (place : Place) (base rem i off k : ℕ) (rs : List ShardRecord)
    → shard_records place base rem h.dim h.metric i off k ≡ some rs
    → 0 < base
    → rem ≤ i + k
    → off + k * base + (rem - i) ≡ h.n_vecs
    → h.n_vecs ≤ 1000000000
    → (covers h i off rs ≡ true) × (length rs ≡ k)
unfolding shard_records
records_cover h place base rem i off zero [] e some_base last total few =
    (ap (λ (s : ℕ). covers h i s []) (omega arith) ∙ covers_end h i, refl)
records_cover h place base rem i off zero (r ∷ rs) e some_base last total few =
    absurd (ground arith)
records_cover h place base rem i off (suc k) rs e some_base last total few =
    let s = round place base rem h.dim h.metric i off k rs e in
    let sized : ((shard_size base rem i ≡ base + 1) × (i < rem))
        ⊎ ((shard_size base rem i ≡ base) × (rem ≤ i)) =
      shard_size_cases base rem i in
    let product = suc-mul k base in
    let total' : off + shard_size base rem i + k * base + (rem - (i + 1)) ≡ h.n_vecs = elim sized [
      | inl (size, early) ↦ omega (arith, size, early, product)
      | inr (size, late) ↦ omega (arith, size, late, product)
    ] in
    let below : shard_size base rem i ≤ h.n_vecs = omega arith in
    let positive : 0 < shard_size base rem i = elim sized [
      | inl (size, early) ↦ omega (arith, size)
      | inr (size, late) ↦ omega (arith, size)
    ] in
    let (covered, len) =
      records_cover h place base rem (i + 1) (off + shard_size base rem i) k s.later s.goes_on
        some_base (omega arith) total' few in
    rw s.parts (
      covers_next h i off s.head s.later s.unused
          (record {
            in_order = s.in_order;
            starts = s.starts;
            some_vecs = omega (arith, s.size, positive);
            few_vecs = omega (arith, s.size, below);
            same_dim = s.same_dim;
            same_metric = s.same_metric;
            rest = rw s.size covered;
          })
          (omega (arith, s.size, below, total')),
      omega (arith, len),
    )

-- Every shard has the base size, or one vector more.
records_even :
    (place : Place) (base rem dim metric i off k : ℕ) (rs : List ShardRecord)
    → shard_records place base rem dim metric i off k ≡ some rs
    → (j : ℕ) (r : ShardRecord) → get_elem? rs j ≡ some r
    → (base ≤ r.n_vecs) × (r.n_vecs ≤ base + 1)
unfolding shard_records shard_size
records_even place base rem dim metric i off zero [] e j r at = absurd (ground arith)
records_even place base rem dim metric i off zero (s ∷ rs) e j r at = absurd (ground arith)
records_even place base rem dim metric i off (suc k) rs e zero r at =
    let s = round place base rem dim metric i off k rs e in
    let here : some s.head ≡ some r =
      ap (λ (l : List ShardRecord). get_elem? l 0) (sym s.parts) ∙ at in
    let size : r.n_vecs ≡ shard_size base rem i = ground (arith, here, s.size) in
    (ground (arith, size), ground (arith, size))
records_even place base rem dim metric i off (suc k) rs e (suc j) r at =
    let s = round place base rem dim metric i off k rs e in
    let there : get_elem? s.later j ≡ some r =
      ap (λ (l : List ShardRecord). get_elem? l (suc j)) (sym s.parts) ∙ at in
    records_even place base rem dim metric (i + 1) (off + shard_size base rem i) k s.later s.goes_on
      j r there

clamped :
    (shard_count n_vecs sc : ℕ)
    → clamp_shards shard_count n_vecs ≡ some sc
    → (2 ≤ sc) × (sc ≤ shards_max) × (sc ≤ shard_count) × (2 * sc ≤ n_vecs)
unfolding clamp_shards
clamped shard_count n_vecs sc e = (ground arith, ground arith, ground arith, ground arith)

-- What `build_sharded` hands on for its manifest.
pub record Split (shard_count n_vecs dim metric : ℕ) (rs : List ShardRecord) : Type 0 where
  pub several : 2 ≤ length rs
  pub few : length rs ≤ shards_max
  pub at_most : length rs ≤ shard_count
  pub covered :
      (h : ShardsHeader)
      → h.n_vecs ≡ n_vecs
      → h.dim ≡ dim
      → h.metric ≡ metric
      → covers h 0 0 rs ≡ true
  pub even :
      (j : ℕ) (r : ShardRecord)
      → get_elem? rs j ≡ some r
      → (2 ≤ r.n_vecs) × (n_vecs / length rs ≤ r.n_vecs) × (r.n_vecs ≤ n_vecs / length rs + 1)

-- Whatever device and file each shard ends up with, the records of a sharded build are a manifest
-- that its reader accepts: between 2 and 256 shards, not more than were asked for, that pass the
-- reader's record loop against a header with the corpus' count, dimension and metric, each with at
-- least two vectors and with sizes that differ by one at most. The corpus has at most 10^9 vectors,
-- as the sidecar formats demand.
pub build_sharded-Split :
    (place : Place) (shard_count n_vecs dim metric : ℕ) (rs : List ShardRecord)
    → n_vecs ≤ 1000000000
    → build_sharded place shard_count n_vecs dim metric ≡ some rs
    → Split shard_count n_vecs dim metric rs
unfolding build_sharded
build_sharded-Split place shard_count n_vecs dim metric rs few e =
    elim (Option-cases (clamp_shards shard_count n_vecs)) [
      | inl q ↦ absurd (ground arith)
      | inr (sc, q) ↦ of_count sc (clamped shard_count n_vecs sc q) (ground arith)
    ]
  where
    some_header : ShardsHeader
    some_header = record {
      magic = 0;
      version = 0;
      shard_count = 0;
      base_tids_crc32 = 0;
      n_vecs = n_vecs;
      dim = dim;
      metric = metric;
      body_crc32 = 0;
      reserved = 0;
    }

    of_count :
        (sc : ℕ)
        → (2 ≤ sc) × (sc ≤ shards_max) × (sc ≤ shard_count) × (2 * sc ≤ n_vecs)
        → shard_records place (n_vecs / sc) (n_vecs % sc) dim metric 0 0 sc ≡ some rs
        → Split shard_count n_vecs dim metric rs
    of_count sc (several, at_most, asked, pairs) made =
        let pair_each : 2 ≤ n_vecs / sc =
          (le-div_iff_mul-le {k = sc} {x = 2} {y = n_vecs} (omega arith)).1
            (omega (arith, pairs)) in
        let whole = div-add-mod n_vecs sc in
        let part = mod-lt n_vecs {m = sc} (omega arith) in
        let covers_and =
          λ (h : ShardsHeader) (hn : h.n_vecs ≡ n_vecs) (hd : h.dim ≡ dim) (hm : h.metric ≡ metric).
            records_cover h place (n_vecs / sc) (n_vecs % sc) 0 0 sc rs (rw (hd, hm) made)
              (omega (arith, pair_each)) (omega (arith, part))
              (omega (arith, whole, hn, mul_comm sc (n_vecs / sc))) (omega (arith, hn)) in
        let len : length rs ≡ sc = (covers_and some_header refl refl refl).1 in
        record {
          several = omega (arith, len, several);
          few = omega (arith, len, at_most);
          at_most = omega (arith, len, asked);
          covered = λ h hn hd hm. (covers_and h hn hd hm).0;
          even = λ j r at.
              let (low, high) =
                records_even place (n_vecs / sc) (n_vecs % sc) dim metric 0 0 sc rs made j r at in
              let e : n_vecs / length rs ≡ n_vecs / sc = ap (λ (k : ℕ). n_vecs / k) len in
              (omega (arith, low, pair_each), omega (arith, low, e), omega (arith, high, e));
        }
