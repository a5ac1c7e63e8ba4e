-- ===== src/Sidecar/Shards.antt =====
-- The `.shards` manifest: `CuvsShardsHeader`, `CuvsShardRecord`, `cuvs_shards_write` and
-- `cuvs_shards_read`. An int64_t is its bit pattern.
pub mod RoundTrip
pub mod Cover
pub mod Accepts
use pg_cuvs.Base.{
  ℕ, zero, suc, ◌+◌, ◌*◌, ◌^◌, ◌%◌, List, [], ◌∷◌, ◌++◌, Bool, true, false, ◌&&◌, Option, some,
  take, drop, ltb, leb, ◌==◌, if◌then◌else◌,
}
use pg_cuvs.Base.Bytes.{le, of_le}
use pg_cuvs.Crc.{crc32}
use pg_cuvs.Sidecar.File.{OutFile, fwrite, ◌then_write◌, fread, guard, ◌>>=◌, ◌>>◌}
use pg_cuvs.Sidecar.Tids.{count_ok}

abbrev pub shards_magic : ℕ
shards_magic = 0x53524853

abbrev pub shards_version : ℕ
shards_version = 1

abbrev pub shards_max : ℕ
shards_max = 256

-- `CuvsShardsHeader`
pub record ShardsHeader : Type 0 where
  pub magic : ℕ
  pub version : ℕ
  pub shard_count : ℕ
  pub base_tids_crc32 : ℕ
  pub n_vecs : ℕ
  pub dim : ℕ
  pub metric : ℕ
  pub body_crc32 : ℕ
  pub reserved : ℕ

-- `CuvsShardRecord`
pub record ShardRecord : Type 0 where
  pub shard_id : ℕ
  pub gpu_device_id : ℕ
  pub tid_offset : ℕ
  pub n_vecs : ℕ
  pub dim : ℕ
  pub metric : ℕ
  pub artifact_crc32 : ℕ
  pub reserved : ℕ

-- The structs as 40 bytes each, and back.
pub header_bytes : ShardsHeader → List ℕ
header_bytes h =
    le 4 h.magic
    ++ (le 4 h.version
        ++ (le 4 h.shard_count
            ++ (le 4 h.base_tids_crc32
                ++ (le 8 h.n_vecs
                    ++ (le 4 h.dim ++ (le 4 h.metric ++ (le 4 h.body_crc32 ++ le 4 h.reserved)))))))

pub header_of : List ℕ → ShardsHeader
header_of raw = record {
  magic = of_le (take 4 raw);
  version = of_le (take 4 (drop 4 raw));
  shard_count = of_le (take 4 (drop 8 raw));
  base_tids_crc32 = of_le (take 4 (drop 12 raw));
  n_vecs = of_le (take 8 (drop 16 raw));
  dim = of_le (take 4 (drop 24 raw));
  metric = of_le (take 4 (drop 28 raw));
  body_crc32 = of_le (take 4 (drop 32 raw));
  reserved = of_le (take 4 (drop 36 raw));
}

pub record_bytes : ShardRecord → List ℕ
record_bytes r =
    le 4 r.shard_id
    ++ (le 4 r.gpu_device_id
        ++ (le 8 r.tid_offset
            ++ (le 8 r.n_vecs
                ++ (le 4 r.dim ++ (le 4 r.metric ++ (le 4 r.artifact_crc32 ++ le 4 r.reserved))))))

pub record_of : List ℕ → ShardRecord
record_of raw = record {
  shard_id = of_le (take 4 raw);
  gpu_device_id = of_le (take 4 (drop 4 raw));
  tid_offset = of_le (take 8 (drop 8 raw));
  n_vecs = of_le (take 8 (drop 16 raw));
  dim = of_le (take 4 (drop 24 raw));
  metric = of_le (take 4 (drop 28 raw));
  artifact_crc32 = of_le (take 4 (drop 32 raw));
  reserved = of_le (take 4 (drop 36 raw));
}

-- The record array, and the first `n` records of a body.
unfoldable pub records_bytes : List ShardRecord → List ℕ
records_bytes [] = []
records_bytes (r ∷ rs) = record_bytes r ++ records_bytes rs

pub records_of : ℕ → List ℕ → List ShardRecord
records_of zero bs = []
records_of (suc n) bs = record_of (take 40 bs) ∷ records_of n (drop 40 bs)

-- The header that `cuvs_shards_write` fills in.
unfoldable pub shards_header : ℕ → ℕ → ℕ → ℕ → ℕ → List ShardRecord → ShardsHeader
shards_header shard_count n_vecs dim metric base_tids_crc32 recs = record {
  magic = shards_magic;
  version = shards_version;
  shard_count = shard_count;
  base_tids_crc32 = base_tids_crc32;
  n_vecs = n_vecs;
  dim = dim;
  metric = metric;
  body_crc32 = crc32 (records_bytes recs);
  reserved = 0;
}

-- `cuvs_shards_write`; `true` is `return 0`.
pub shards_write : OutFile → ℕ → ℕ → ℕ → ℕ → ℕ → List ShardRecord → Bool × OutFile
shards_write f shard_count n_vecs dim metric base_tids_crc32 recs =
    fwrite (header_bytes (shards_header shard_count n_vecs dim metric base_tids_crc32 recs)) f
    then_write records_bytes recs

-- The loop of `cuvs_shards_read` over the records from `i` on, and the test after it.
unfoldable pub covers : ShardsHeader → ℕ → ℕ → List ShardRecord → Bool
covers h i sum_n [] = sum_n == h.n_vecs
covers h i sum_n (r ∷ rs) =
    (r.reserved == 0)
    && (r.shard_id == i)
    && (r.tid_offset == sum_n)
    && count_ok r.n_vecs
    && (r.dim == h.dim)
    && (r.metric == h.metric)
    && covers h (i + 1) ((sum_n + r.n_vecs) % 2 ^ 64) rs

-- `cuvs_shards_read`; `malloc n` tells whether `n` bytes could be allocated.
pub shards_read : (ℕ → Bool) → List ℕ → Option (ShardsHeader × List ShardRecord)
shards_read malloc f = do
  (raw, f₁) ← fread 40 f
  let h = header_of raw
  guard (h.magic == shards_magic)
  guard (h.version == shards_version)
  guard (h.reserved == 0)
  guard (ltb 0 h.shard_count && leb h.shard_count shards_max)
  guard (count_ok h.n_vecs)
  guard (ltb 0 h.dim)
  let body_bytes = h.shard_count * 40
  guard (malloc body_bytes)
  (body, f₂) ← fread body_bytes f₁
  guard (crc32 body == h.body_crc32)
  let recs = records_of h.shard_count body
  guard (covers h 0 0 recs)
  some (h, recs)
