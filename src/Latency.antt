-- ===== src/Latency.antt =====
-- The latency histogram of an index: `cuvs_lat_*` of src/cuvs_util.c, and the count that
-- `record_search_stat` of src/pg_cuvs_server.c keeps.
pub mod Buckets
pub mod Histogram
pub mod Percentile
use pg_cuvs.Base.{
  ℕ, zero, suc, ◌+◌, ◌-◌, ◌/◌, ◌%◌, ◌^◌, List, [], ◌∷◌, length, get_or, set, replicate, ltb, leb,
  ◌==◌, if◌then◌else◌,
}

abbrev pub lat_buckets : ℕ
lat_buckets = 32

-- The loop of `cuvs_lat_bucket_index`; `rounds` is CUVS_LAT_BUCKETS - 1 - idx.
pub bucket_loop : ℕ → ℕ → ℕ → ℕ
bucket_loop zero us idx = idx
bucket_loop (suc rounds) us idx = if us == 0 then idx else bucket_loop rounds (us / 2) (idx + 1)

-- `cuvs_lat_bucket_index(uint32_t us)`
pub bucket_index : ℕ → ℕ
bucket_index us = bucket_loop (lat_buckets - 1) us 0

-- `lat_bucket_upper_us(int idx)`, at the indices of a histogram.
pub bucket_upper_us : ℕ → ℕ
bucket_upper_us idx = if idx == 0 then 0 else if leb 31 idx then 0x80000000 else 2 ^ idx

-- `total += buckets[i]`, a uint64_t.
pub total_from : ℕ → List ℕ → ℕ
total_from acc [] = acc
total_from acc (b ∷ bs) = total_from ((acc + b) % 2 ^ 64) bs

-- The second loop: the first bucket whose cumulated count reaches the target, or the last bucket.
pub percentile_loop : ℕ → ℕ → ℕ → List ℕ → ℕ
percentile_loop target i cum [] = bucket_upper_us (i - 1)
percentile_loop target i cum (b ∷ bs) =
    let cum' = (cum + b) % 2 ^ 64 in
    if leb target cum' then bucket_upper_us i else percentile_loop target (i + 1) cum' bs

-- `if (target == 0) target = 1`
abbrev pub at_least_one : ℕ → ℕ
at_least_one target = if target == 0 then 1 else target

-- `cuvs_lat_percentile`. `scale total` is `(uint64_t)(q * (double)total)` with q clamped to [0, 1].
pub percentile : (ℕ → ℕ) → List ℕ → ℕ
unfolding total_from
percentile scale buckets =
    let total = total_from 0 buckets in
    if total == 0 then 0 else percentile_loop (at_least_one (scale total)) 0 0 buckets

-- `e->lat_buckets[cuvs_lat_bucket_index(latency_us)]++`, a uint32_t, after a successful search.
pub record_latency : List ℕ → ℕ → List ℕ
record_latency buckets us =
    let i = bucket_index us in set buckets i ((get_or buckets i 0 + 1) % 2 ^ 32)

-- The histogram after the latencies of a list, the last one first, from `reset_entry_stats`.
pub histogram : List ℕ → List ℕ
histogram [] = replicate lat_buckets 0
histogram (us ∷ earlier) = record_latency (histogram earlier) us
