-- ===== src/Plan.antt =====
-- How many shards an index is split into, and the shards themselves: `cuvs_auto_shard_count` of
-- src/cuvs_util.c, `estimate_vram_bytes` and the build loop of `build_sharded` of
-- src/pg_cuvs_server.c.
pub mod Auto
pub mod Split
use pg_cuvs.Base.{
  ℕ, zero, suc, ◌+◌, ◌-◌, ◌*◌, ◌/◌, ◌%◌, ◌^◌, List, [], ◌∷◌, Bool, true, false, ◌||◌, ◌&&◌, Option,
  none, some, ltb, leb, ◌==◌, if◌then◌else◌, ℤ, magnitude, at_most_zero,
}
use pg_cuvs.Sidecar.File.{◌>>=◌}
use pg_cuvs.Sidecar.Shards.{ShardRecord, shards_max}

-- `needed` of `cuvs_auto_shard_count`, a `size_t`.
pub needed_bytes : ℕ → ℕ → ℕ
needed_bytes n_vecs dim = n_vecs * (dim * 4 + 64) % 2 ^ 64

-- `estimate_vram_bytes`, of a graph degree that may be left open.
pub estimate_vram_bytes : ℕ → ℕ → ℤ → ℕ
estimate_vram_bytes n_vecs dim graph_degree =
    let gd = if at_most_zero graph_degree then 64 else magnitude graph_degree in
    n_vecs * (dim * 4 + gd * 4) % 2 ^ 64

-- `cap`: what the GPUs, the limit and two vectors for each shard allow.
pub shard_cap : ℕ → ℕ → ℕ → ℕ
shard_cap n_vecs n_gpus max_shards =
    let cap = if ltb 0 max_shards && ltb max_shards n_gpus then max_shards else n_gpus in
    if ltb (n_vecs / 2) cap then n_vecs / 2 else cap

-- `want`, with the cast to a C int.
pub wanted : ℕ → ℕ → ℕ
wanted needed budget =
    let want = (needed + (budget - 1)) % 2 ^ 64 / budget % 2 ^ 32 in
    if ltb want 2 || leb (2 ^ 31) want then 2 else want

-- The part of `cuvs_auto_shard_count` after its argument checks.
pub split_count : ℕ → ℕ → ℕ → ℕ → ℕ → ℕ
split_count n_vecs dim budget n_gpus max_shards =
    let needed = needed_bytes n_vecs dim in
    let cap = shard_cap n_vecs n_gpus max_shards in
    let want = wanted needed budget in
    if leb needed budget then 1 else if ltb cap 2 then 0 else if ltb cap want then 0 else want

-- `cuvs_auto_shard_count`
pub auto_shard_count : ℤ → ℤ → ℕ → ℤ → ℤ → ℕ
auto_shard_count n_vecs dim budget n_gpus max_shards =
    if at_most_zero n_vecs || at_most_zero dim || at_most_zero n_gpus
    then 1
    else if budget == 0
    then 1
    else split_count (magnitude n_vecs) (magnitude dim) budget (magnitude n_gpus)
        (magnitude max_shards)

-- The clamp at the start of `build_sharded`; `none` is its error reply.
unfoldable pub clamp_shards : ℕ → ℕ → Option ℕ
clamp_shards shard_count n_vecs =
    let at_most = if ltb shards_max shard_count then shards_max else shard_count in
    let sc = if ltb (n_vecs / 2) at_most then n_vecs / 2 else at_most in
    if ltb sc 2 then none else some sc

-- `shard_n` of shard `i`.
unfoldable pub shard_size : ℕ → ℕ → ℕ → ℕ
shard_size base rem i = base + (if ltb i rem then 1 else 0)

-- What building and saving shard `i` of `n` vectors from `off` on gives, the device that it stands
-- on and its file's CRC, or `none` where the loop breaks off.
abbrev pub Place : Type 0
Place = (i off n : ℕ) → Option (ℕ × ℕ)

-- The loop of `build_sharded` from shard `i` on, with `k` shards to go.
unfoldable pub shard_records : Place → ℕ → ℕ → ℕ → ℕ → ℕ → ℕ → ℕ → Option (List ShardRecord)
shard_records place base rem dim metric i off zero = some []
shard_records place base rem dim metric i off (suc k) = do
  let n = shard_size base rem i
  (dev, acrc) ← place i off n
  later ← shard_records place base rem dim metric (i + 1) (off + n) k
  some (
      record {
        shard_id = i;
        gpu_device_id = dev;
        tid_offset = off;
        n_vecs = n;
        dim = dim;
        metric = metric;
        artifact_crc32 = acrc;
        reserved = 0;
      }
      ∷ later)

-- The records of `build_sharded`.
unfoldable pub build_sharded : Place → ℕ → ℕ → ℕ → ℕ → Option (List ShardRecord)
build_sharded place shard_count n_vecs dim metric = do
  sc ← clamp_shards shard_count n_vecs
  shard_records place (n_vecs / sc) (n_vecs % sc) dim metric 0 0 sc
