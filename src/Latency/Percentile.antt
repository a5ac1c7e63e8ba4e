-- ===== src/Latency/Percentile.antt =====
-- The percentile that is read off the histogram, against the latencies that went into it.
use native.Mathlib.Nat.{pow-le-pow_right}
use pg_cuvs.Base.{
  ℕ, suc, ◌+◌, ◌/◌, ◌%◌, ◌^◌, ◌≤◌, ◌<◌, ◌≡◌, ap, List, [], ◌∷◌, true, arith, ltb, leb, dec_lt,
  length, take,
}
use pg_cuvs.Latency.{
  bucket_index, bucket_upper_us, total_from, percentile_loop, at_least_one, percentile, histogram,
}
use pg_cuvs.Latency.Buckets.{bucket_upper_us_bounds}
use pg_cuvs.Latency.Histogram.{
  sum, count_if, count_if_mono, All, below_bucket, sum-histogram, sum_all,
}

total_from-sum : (acc : ℕ) (bs : List ℕ) → acc + sum bs < 2 ^ 64 → total_from acc bs ≡ acc + sum bs
unfolding total_from
total_from-sum acc [] h = omega arith
total_from-sum acc (b ∷ bs) h =
    let e : (acc + b) % 2 ^ 64 ≡ acc + b = omega arith in
    rw e (omega (arith, total_from-sum (acc + b) bs (omega arith)))

-- The bucket where the cumulated counts reach the target.
record Reaches (target i cum : ℕ) (bs : List ℕ) (r : ℕ) : Type 0 where
  j : ℕ
  within : j < length bs
  edge : r ≡ bucket_upper_us (i + j)
  reached : target ≤ cum + sum (take (suc j) bs)
  first : cum + sum (take j bs) < target

percentile_loop-Reaches :
    (target i cum : ℕ) (bs : List ℕ)
    → cum < target
    → target ≤ cum + sum bs
    → cum + sum bs < 2 ^ 64
    → Reaches target i cum bs (percentile_loop target i cum bs)
unfolding percentile_loop
percentile_loop-Reaches target i cum [] lt ge small = absurd (omega arith)
percentile_loop-Reaches target i cum (b ∷ bs) lt ge small =
    let e : (cum + b) % 2 ^ 64 ≡ cum + b = omega arith in
    elim (dec_lt (cum + b) target) [
      | yes short ↦
          let rest =
            percentile_loop-Reaches target (i + 1) (cum + b) bs short (omega arith) (omega arith) in
          record {
            j = suc rest.j;
            within = omega (arith, rest.within);
            edge = ground (arith, rest.edge, ap bucket_upper_us (shift rest.j));
            reached = omega (arith, rest.reached);
            first = omega (arith, rest.first);
          }
      | no enough ↦ record {
        j = 0;
        within = omega arith;
        edge = ground arith;
        reached = omega arith;
        first = omega arith;
      }
    ]
  where
    shift : (j : ℕ) → i + 1 + j ≡ i + suc j
    shift j = omega arith

-- The bucket whose edge is the percentile of some latencies.
record Quantile (target : ℕ) (ls : List ℕ) (r : ℕ) : Type 0 where
  k : ℕ
  edge : r ≡ bucket_upper_us k
  reached : target ≤ count_if (below_bucket (suc k)) ls
  first : count_if (below_bucket k) ls < target

module _ (scale : ℕ → ℕ) (ls : List ℕ) (some_latency : 0 < length ls) (few : length ls < 2 ^ 32)
    (scaled : scale (length ls) ≤ length ls) where
  abbrev target : ℕ
  target = at_least_one (scale (length ls))

  target_range : (0 < target) × (target ≤ length ls)
  target_range = ground arith

  percentile-Quantile : Quantile target ls (percentile scale (histogram ls))
  unfolding percentile
  percentile-Quantile =
      let all = sum_all ls few in
      let total = total_from-sum 0 (histogram ls) (omega arith) in
      let e : total_from 0 (histogram ls) ≡ length ls = omega arith in
      let r =
        percentile_loop-Reaches target 0 0 (histogram ls) target_range.0
          (omega (arith, target_range.1)) (omega arith) in
      record {
        k = r.j;
        edge = rw e (ground (arith, r.edge));
        reached = omega (arith, r.reached, sum-histogram (suc r.j) ls few);
        first = omega (arith, r.first, sum-histogram r.j ls few);
      }

bucket_upper_us_mono : (i j : ℕ) → i ≤ j → bucket_upper_us i ≤ bucket_upper_us j
unfolding bucket_upper_us
bucket_upper_us_mono i j h = ground (
  arith,
  pow-le-pow_right {n = 2} (omega arith) {i = i} {j = j} h,
  pow-le-pow_right {n = 2} (omega arith) {i = i} {j = 31},
  pow-le-pow_right {n = 2} (omega arith) {i = 0} {j = j},
)

-- The latencies that the edge of bucket `k` bounds, and those that its half does not reach.
edge_covers :
    (k us : ℕ) → us < 2 ^ 31 → below_bucket (suc k) us ≡ true → leb us (bucket_upper_us k) ≡ true
edge_covers k us small h =
    ground (arith, bucket_upper_us_bounds us small, bucket_upper_us_mono (bucket_index us) k)

half_edge_below :
    (k us : ℕ) → us < 2 ^ 31 → ltb us (bucket_upper_us k / 2) ≡ true → below_bucket k us ≡ true
half_edge_below k us small h =
    ground (arith, bucket_upper_us_bounds us small, bucket_upper_us_mono k (bucket_index us))

-- For latencies below 2 ^ 31 microseconds, fewer than 2 ^ 32 of them and at least one, the reported
-- percentile is within a factor of two of the exact one: at least `target` of the latencies are at
-- most the reported value, and fewer than `target` are below its half, where `target` is the scaled
-- count, or 1 if that is 0, and the scaling does not go above the count.
pub percentile_bounds :
    (scale : ℕ → ℕ) (ls : List ℕ)
    → 0 < length ls
    → length ls < 2 ^ 32
    → scale (length ls) ≤ length ls
    → All (λ us. us < 2 ^ 31) ls
    → (at_least_one (scale (length ls))
        ≤ count_if (λ us. leb us (percentile scale (histogram ls))) ls)
      × (count_if (λ us. ltb us (percentile scale (histogram ls) / 2)) ls
          < at_least_one (scale (length ls)))
percentile_bounds scale ls pos few scaled small =
    let q = percentile-Quantile scale ls pos few scaled in
    rw q.edge (
      omega (
        arith,
        q.reached,
        count_if_mono (below_bucket (suc q.k)) (λ us. leb us (bucket_upper_us q.k))
            (λ us. us < 2 ^ 31) ls (edge_covers q.k) small,
      ),
      omega (
        arith,
        q.first,
        count_if_mono (λ us. ltb us (bucket_upper_us q.k / 2)) (below_bucket q.k)
            (λ us. us < 2 ^ 31) ls (half_edge_below q.k) small,
      ),
    )
