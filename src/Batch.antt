-- ===== src/Batch.antt =====
-- `cuvs_batch_group` of src/cuvs_util.c: concurrent searches with one key share a GPU dispatch.
pub mod Keys
pub mod Scan
pub mod Extend
pub mod Add
pub mod Groups
pub mod Worker
use pg_cuvs.Base.{
  ℕ, ◌+◌, List, [], ◌∷◌, ◌++◌, Bool, ◌&&◌, ◌||◌, not, Option, none, some, map, ◌==◌, if◌then◌else◌,
}

-- `CuvsBatchKey`
pub record Key : Type 0 where
  pub db_oid : ℕ
  pub index_oid : ℕ
  pub precision : ℕ
  pub dim : ℕ
  pub mode : ℕ
  pub itopk_size : ℕ
  pub search_width : ℕ

-- The test on `keys[j]` and `keys[i]`: the CAGRA parameters count for mode 0 only.
unfoldable pub same_key : Key → Key → Bool
same_key j i =
    (j.db_oid == i.db_oid)
    && (j.index_oid == i.index_oid)
    && (j.precision == i.precision)
    && (j.dim == i.dim)
    && (j.mode == i.mode)
    && (not (i.mode == 0) || (j.itopk_size == i.itopk_size) && (j.search_width == i.search_width))

-- The scan of the earlier requests, each with its group, for the first of the same key.
unfoldable pub find_group : List (Key × ℕ) → Key → Option ℕ
find_group [] key = none
find_group ((k, g) ∷ earlier) key = if same_key k key then some g else find_group earlier key

-- The loop: what is done, how many groups there are, and the requests to come.
unfoldable pub assign : List (Key × ℕ) → ℕ → List Key → List (Key × ℕ) × ℕ
assign earlier ng [] = (earlier, ng)
assign earlier ng (key ∷ keys) = elim (find_group earlier key) [
  | some g ↦ assign (earlier ++ ((key, g) ∷ [])) ng keys
  | none ↦ assign (earlier ++ ((key, ng) ∷ [])) (ng + 1) keys
]

-- `group_id_out` and `*n_groups_out`
unfoldable pub batch_group : List Key → List ℕ × ℕ
batch_group keys = let (done, ng) = assign [] 0 keys in (map (λ r. r.1) done, ng)
