-- ===== src/Cache.antt =====
-- The registry of resident indexes and its VRAM budgets: `total_vram_used`, `entry_on_device`,
-- `find_lru_index`, `evict_lru`, `ensure_vram` and `find_index` of src/pg_cuvs_server.c.
pub mod Lru
pub mod Evict
pub mod Freed
pub mod Ensure
pub mod Drop
pub mod Pick
use pg_cuvs.Base.{
  ℕ, zero, suc, ◌+◌, ◌-◌, ◌*◌, ◌%◌, ◌^◌, List, [], ◌∷◌, Bool, true, false, not, ◌&&◌, ◌||◌, Option,
  none, some, ltb, leb, ◌==◌, if◌then◌else◌, length, set, get_or,
}

-- The fields of `ShardEntry` that count for VRAM.
pub record Shard : Type 0 where
  pub valid : Bool
  pub gpu_device_id : ℕ
  pub vram_bytes : ℕ
  pub bf_vram_bytes : ℕ

-- The fields of `IndexEntry` that these functions read; `shards` has `shard_count` items, and none
-- for an index that is not sharded, and `ivfpq` tells whether `ivfpq_handle` is set.
pub record Entry : Type 0 where
  pub db_oid : ℕ
  pub index_oid : ℕ
  pub valid : Bool
  pub shards : List Shard
  pub inflight : ℕ
  pub last_search : ℕ
  pub ivfpq : Bool
  pub is_flat : Bool
  pub vram_bytes : ℕ
  pub delta_vram_bytes : ℕ
  pub main_bf_vram_bytes : ℕ
  pub gpu_device_id : ℕ
  pub stale : Bool

-- `g_indexes` up to `g_n_indexes`, and the counters of each device.
pub record Cache : Type 0 where
  pub indexes : List Entry
  pub pending_build : List ℕ
  pub evictions : List ℕ
  pub persist_fail : List ℕ

-- `shard_count >= 2`
unfoldable pub is_sharded : Entry → Bool
is_sharded e = leb 2 (length e.shards)

-- The sum of `size` over the valid shards on a device.
pub shard_sum : (Shard → ℕ) → ℕ → List Shard → ℕ
shard_sum size dev [] = 0
shard_sum size dev (s ∷ ss) =
    (if s.valid && (s.gpu_device_id == dev) then size s else 0) + shard_sum size dev ss

-- One round of the loop of `total_vram_used`.
unfoldable pub entry_vram : ℕ → Entry → ℕ
entry_vram dev e =
    if not e.valid
    then 0
    else if is_sharded e
    then shard_sum (λ s. s.vram_bytes + s.bf_vram_bytes) dev e.shards
    else if e.gpu_device_id == dev
    then e.vram_bytes + e.delta_vram_bytes + e.main_bf_vram_bytes
    else 0

unfoldable pub indexes_vram : ℕ → List Entry → ℕ
indexes_vram dev [] = 0
indexes_vram dev (e ∷ es) = entry_vram dev e + indexes_vram dev es

-- `total_vram_used` of a device that exists, a `size_t`.
unfoldable pub total_vram_used : Cache → ℕ → ℕ
total_vram_used c dev = (indexes_vram dev c.indexes + get_or c.pending_build dev 0) % 2 ^ 64

-- `entry_on_device`
pub any_on_device : ℕ → List Shard → Bool
any_on_device dev [] = false
any_on_device dev (s ∷ ss) = (s.valid && (s.gpu_device_id == dev)) || any_on_device dev ss

pub entry_on_device : Entry → ℕ → Bool
entry_on_device e dev = if is_sharded e then any_on_device dev e.shards else e.gpu_device_id == dev

-- The tests of `find_lru_index`: a sharded index that a search is running on stays.
pub is_pinned : Entry → Bool
is_pinned e = is_sharded e && ltb 0 e.inflight

pub evictable : ℕ → Entry → Bool
evictable dev e = e.valid && not (is_pinned e) && entry_on_device e dev

-- The loop of `find_lru_index` from place `i` on, with the best place and entry so far.
pub older : Entry → Option (ℕ × Entry) → Bool
older e none = true
older e (some (i, best)) = ltb e.last_search best.last_search

pub lru_loop : ℕ → ℕ → List Entry → Option (ℕ × Entry) → Option (ℕ × Entry)
lru_loop dev i [] lru = lru
lru_loop dev i (e ∷ es) lru =
    lru_loop dev (i + 1) es (if evictable dev e && older e lru then some (i, e) else lru)

pub find_lru_index : Cache → ℕ → Option (ℕ × Entry)
find_lru_index c dev = lru_loop dev 0 c.indexes none

-- `find_index`, with its place.
unfoldable pub find_index : List Entry → ℕ → ℕ → Option Entry
find_index [] db_oid index_oid = none
find_index (e ∷ es) db_oid index_oid =
    if e.valid && (e.db_oid == db_oid) && (e.index_oid == index_oid)
    then some e
    else find_index es db_oid index_oid

-- The entries behind a place move up by one.
pub remove_at : ℕ → List Entry → List Entry
remove_at i [] = []
remove_at zero (e ∷ es) = es
remove_at (suc i) (e ∷ es) = e ∷ remove_at i es

-- `freed` of `evict_lru`.
pub freed_bytes : ℕ → Entry → ℕ
freed_bytes dev e =
    if is_sharded e
    then shard_sum (λ s. s.vram_bytes) dev e.shards
    else if e.ivfpq
    then e.vram_bytes
    else if e.is_flat
    then e.main_bf_vram_bytes
    else e.vram_bytes

-- Only a plain CAGRA index is saved before it goes.
pub needs_save : Entry → Bool
needs_save e = not (is_sharded e) && not e.ivfpq && not e.is_flat

pub bump : List ℕ → ℕ → List ℕ
bump counts dev = set counts dev (get_or counts dev 0 + 1)

-- `evict_lru`: the bytes freed and the registry after it; `saves` is what `save_index` returns.
pub evict_entry : (Entry → Bool) → ℕ → Cache → Option (ℕ × Entry) → ℕ × Cache
evict_entry saves dev c none = (0, c)
evict_entry saves dev c (some (i, e)) =
    if needs_save e && not (saves e)
    then (
      0,
      record {
        indexes = c.indexes;
        pending_build = c.pending_build;
        evictions = c.evictions;
        persist_fail = bump c.persist_fail dev;
      },
    )
    else (
      freed_bytes dev e % 2 ^ 64,
      record {
        indexes = remove_at i c.indexes;
        pending_build = c.pending_build;
        evictions = bump c.evictions dev;
        persist_fail = c.persist_fail;
      },
    )

pub evict_lru : (Entry → Bool) → ℕ → Cache → ℕ × Cache
evict_lru saves dev c = evict_entry saves dev c (find_lru_index c dev)

-- A loop that evicts while `short` holds, and until an eviction frees nothing.
pub evict_while : (Entry → Bool) → ℕ → (Cache → Bool) → ℕ → Cache → Cache
evict_while saves dev short zero c = c
evict_while saves dev short (suc fuel) c =
    let next = evict_lru saves dev c in
    let rest = evict_while saves dev short fuel next.1 in
    if ltb 0 (length c.indexes) && short c then (if next.0 == 0 then next.1 else rest) else c

-- The test of the first loop of `ensure_vram`.
pub over_budget : ℕ → ℕ → ℕ → Cache → Bool
over_budget needed dev budget c = ltb budget ((total_vram_used c dev + needed) % 2 ^ 64)

-- The second loop, with the local variable `free_vram` and the registry after it. The variable is
-- set after an eviction that freed something, and is what it was if the loop breaks. The argument
-- `free_vram` is `gpu_free_vram_bytes`.
pub free_while : (Entry → Bool) → (Cache → ℕ → ℕ) → ℕ → ℕ → ℕ → ℕ → Cache → ℕ × Cache
free_while saves free_vram needed dev zero free c = (free, c)
free_while saves free_vram needed dev (suc fuel) free c =
    let next = evict_lru saves dev c in
    let rest = free_while saves free_vram needed dev fuel (free_vram next.1 dev) next.1 in
    if ltb 0 (length c.indexes) && ltb free needed
    then (if next.0 == 0 then (free, next.1) else rest)
    else (free, c)

-- `ensure_vram`, with the registry after it; `true` is `return 0`.
pub ensure_free : (Entry → Bool) → (Cache → ℕ → ℕ) → ℕ → ℕ → Cache → Bool × Cache
ensure_free saves free_vram needed dev c =
    let r = free_while saves free_vram needed dev (length c.indexes) (free_vram c dev) c in
    (leb needed r.0, r.1)

pub ensure_vram : (Entry → Bool) → (Cache → ℕ → ℕ) → ℕ → ℕ → ℕ → Cache → Bool × Cache
ensure_vram saves free_vram budget needed dev c =
    let c₁ = evict_while saves dev (over_budget needed dev budget) (length c.indexes) c in
    if ltb 0 budget && over_budget needed dev budget c
    then (if over_budget needed dev budget c₁
        then (false, c₁)
        else ensure_free saves free_vram needed dev c₁)
    else ensure_free saves free_vram needed dev c
