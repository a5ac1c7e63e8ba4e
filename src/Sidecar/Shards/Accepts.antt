-- ===== src/Sidecar/Shards/Accepts.antt =====
-- What a manifest that `cuvs_shards_read` returns is known to satisfy.
use pg_cuvs.Base.{zero, suc, drop, ℕ, ◌≤◌, ◌<◌, ◌≡◌, refl, List, Bool, true, some, length, arith}
use pg_cuvs.Sidecar.Shards.{ShardsHeader, ShardRecord, records_of, shards_read, shards_max, covers}
use pg_cuvs.Sidecar.Shards.Cover.{OneShard, covers-OneShard}

length-records_of : (n : ℕ) (bs : List ℕ) → length (records_of n bs) ≡ n
unfolding records_of
length-records_of zero bs = refl
length-records_of (suc n) bs = omega (arith, length-records_of n (drop 40 bs))

shards_read-covers :
    (malloc : ℕ → Bool) (f : List ℕ) (h : ShardsHeader) (rs : List ShardRecord)
    → shards_read malloc f ≡ some (h, rs)
    → covers h 0 0 rs ≡ true
unfolding shards_read
shards_read-covers malloc f h rs e = ground arith

shards_read-count :
    (malloc : ℕ → Bool) (f : List ℕ) (h : ShardsHeader) (rs : List ShardRecord)
    → shards_read malloc f ≡ some (h, rs)
    → h.shard_count ≤ shards_max
unfolding shards_read
shards_read-count malloc f h rs e = ground arith

shards_read-length :
    (malloc : ℕ → Bool) (f : List ℕ) (h : ShardsHeader) (rs : List ShardRecord)
    → shards_read malloc f ≡ some (h, rs)
    → length rs ≡ h.shard_count
unfolding shards_read
shards_read-length malloc f h rs e = grind (arith, length-records_of)

-- A manifest that `cuvs_shards_read` returns assigns every vector of the corpus to exactly one
-- shard: each global position below the header's count stands in the TID range of one record, and
-- of no other, for whatever bytes the file held.
pub shards_read-OneShard :
    (malloc : ℕ → Bool) (f : List ℕ) (h : ShardsHeader) (rs : List ShardRecord) (x : ℕ)
    → shards_read malloc f ≡ some (h, rs)
    → x < h.n_vecs
    → OneShard rs x
shards_read-OneShard malloc f h rs x e below =
    let few : length rs ≤ 256 =
      omega (arith, shards_read-count malloc f h rs e, shards_read-length malloc f h rs e) in
    covers-OneShard h 0 0 rs (omega arith) (shards_read-covers malloc f h rs e) x (omega arith)
      below
