-- ===== src/Examples/Registry.antt =====
-- The registry and the shard plan at concrete inputs.
use pg_cuvs.Base.{
  ℕ, zero, suc, ◌<◌, ◌≤◌, ◌^◌, get_or, inr, ◌*◌, ◌≡◌, refl, [], ◌∷◌, Bool, true, false, some, arith,
  ◌⊎◌, pos,
}
use pg_cuvs.Cache.Pick.{Gpus, n_usable_gpus, usable_gpu, pick_gpu_for_index}
use pg_cuvs.Cache.Pick.Picked.{Picked, pick_gpu_for_index-Picked}
use pg_cuvs.Cache.{Entry, total_vram_used, Cache, evict_lru, indexes_vram, entry_vram, is_sharded}
use pg_cuvs.Cache.Evict.{Evicts, evict_lru-Evicts}
use pg_cuvs.Sidecar.Shards.{ShardRecord}
use pg_cuvs.Plan.{Place, auto_shard_count, build_sharded, shard_records, shard_size, clamp_shards}
use pg_cuvs.Plan.Auto.{FitsOne, Splits, TooBig, auto_shard_count_answers}
use pg_cuvs.Plan.Split.{Split, build_sharded-Split}

abbrev entry : ℕ → ℕ → Entry
entry oid last_search = record {
  db_oid = 1;
  index_oid = oid;
  valid = true;
  shards = [];
  inflight = 0;
  last_search = last_search;
  ivfpq = false;
  is_flat = false;
  vram_bytes = 40;
  delta_vram_bytes = 0;
  main_bf_vram_bytes = 0;
  gpu_device_id = 0;
  stale = false;
}

abbrev two_indexes : Cache
two_indexes = record {
  indexes = entry 5 9 ∷ entry 6 3 ∷ [];
  pending_build = 0 ∷ [];
  evictions = 0 ∷ [];
  persist_fail = 0 ∷ [];
}

abbrev always_saves : Entry → Bool
always_saves e = true

abbrev much_free : Cache → ℕ → ℕ
much_free c dev = 1000

evict_lru-Evicts_example : Evicts always_saves 0 two_indexes (evict_lru always_saves 0 two_indexes)
evict_lru-Evicts_example = evict_lru-Evicts always_saves 0 two_indexes

auto_shard_count_answers_example :
    let r = auto_shard_count (pos 1000) (pos 4) 30000 (pos 4) (pos 256) in
    FitsOne (1000 * 80) 30000 r
    ⊎ (Splits (1000 * 80) 30000 1000 4 256 r ⊎ TooBig (1000 * 80) 30000 1000 4 256 r)
auto_shard_count_answers_example =
    auto_shard_count_answers 1000 4 30000 4 (pos 256) (omega arith) (omega arith) (omega arith)
      (omega arith) (omega arith) (omega arith)

abbrev on_first : Place
on_first i off n = some (0, 0)

abbrev made : ShardRecord × ShardRecord
made = (
  record {
    shard_id = 0;
    gpu_device_id = 0;
    tid_offset = 0;
    n_vecs = 3;
    dim = 4;
    metric = 0;
    artifact_crc32 = 0;
    reserved = 0;
  },
  record {
    shard_id = 1;
    gpu_device_id = 0;
    tid_offset = 3;
    n_vecs = 2;
    dim = 4;
    metric = 0;
    artifact_crc32 = 0;
    reserved = 0;
  },
)

build_sharded-Split_example : Split 2 5 4 0 (made.0 ∷ made.1 ∷ [])
unfolding build_sharded shard_records shard_size clamp_shards
build_sharded-Split_example =
    build_sharded-Split on_first 2 5 4 0 (made.0 ∷ made.1 ∷ []) (omega arith) refl

-- One device with a budget of 100 bytes, of which 80 are in use.
abbrev one_gpu : Gpus
one_gpu = record { allowed = []; n_gpus = 1; max_vram = 100 ∷ [] }

one_gpu_holds :
    (i : ℕ)
    → i < 1
    → (get_or one_gpu.max_vram i 0 < 2 ^ 64)
      × ((get_or one_gpu.max_vram i 0 ≡ 0)
          ⊎ (total_vram_used two_indexes i ≤ get_or one_gpu.max_vram i 0))
unfolding total_vram_used indexes_vram entry_vram is_sharded
one_gpu_holds zero lt = (omega arith, inr (omega arith))
one_gpu_holds (suc i) lt = absurd (omega arith)

pick_gpu_for_index-Picked_example :
    Picked one_gpu two_indexes
      (λ dev. 1000)
      10
      (n_usable_gpus one_gpu)
      (pick_gpu_for_index one_gpu two_indexes (λ dev. 1000) 10)
unfolding n_usable_gpus usable_gpu
pick_gpu_for_index-Picked_example =
    pick_gpu_for_index-Picked one_gpu two_indexes (λ dev. 1000) 10 one_gpu_holds
