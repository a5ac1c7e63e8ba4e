-- ===== src/Cache/Drop.antt =====
-- `handle_drop` and `handle_mark_stale` of src/pg_cuvs_server.c, and `cuvs_index_is_stale` of
-- src/pg_cuvs.c, with the files that they remove, make and look for.
pub mod Gone
use pg_cuvs.Base.{
  ℕ, zero, suc, ◌+◌, ◌<◌, ◌≤◌, ◌≡◌, ◌≢◌, refl, ap, sym, ◌∙◌, ◌⊎◌, inl, inr, List, [], ◌∷◌, Bool,
  true, false, false≢true, not, ◌&&◌, ◌||◌, Option, none, some, ltb, ◌==◌, if◌then◌else◌, ==_iff,
  ==_refl, arith, Bool-cases,
}
use pg_cuvs.Cache.{Entry, find_index}
use pg_cuvs.Warmup.Cold.{ColdEntry, is_for}

-- The files of an index in a directory.
pub data Kind : Type 0 where
  cagra : Kind
  tids : Kind
  shards : Kind
  delta : Kind
  vectors : Kind
  stale : Kind
  relfilenode : Kind
  tombstone : Kind
  ivfpq : Kind
  hnsw : Kind
  shard : ℕ → Kind

-- Whether a file is there; a directory is a number, in place of its name.
abbrev pub Files : Type 0
Files = ℕ → ℕ → ℕ → Kind → Bool

-- The kinds that `handle_drop` unlinks besides the shards.
unfoldable pub is_unlinked : Kind → Bool
is_unlinked cagra = true
is_unlinked tids = true
is_unlinked shards = true
is_unlinked delta = true
is_unlinked vectors = true
is_unlinked stale = true
is_unlinked relfilenode = true
is_unlinked tombstone = true
is_unlinked ivfpq = false
is_unlinked hnsw = false
is_unlinked (shard s) = false

-- How many shards, from `s` on, the loop over at most `n` of them unlinks: up to the first whose
-- unlink fails, since it is missing or cannot be removed.
unfoldable pub unlinked_shards : (ℕ → Bool) → ℕ → ℕ → ℕ
unlinked_shards unlinks zero s = s
unlinked_shards unlinks (suc n) s =
    let more = unlinked_shards unlinks n (s + 1) in if unlinks s then more else s

abbrev pub shards_max : ℕ
shards_max = 256

-- Whether a file of the index that is there goes: `removes` tells of each kind whether the system
-- lets it go. Failed unlinks are ignored.
unfoldable pub goes : (Kind → Bool) → (ℕ → Bool) → Kind → Bool
goes removes there (shard s) =
    ltb s (unlinked_shards (λ i. there i && removes (shard i)) shards_max 0)
goes removes there k = is_unlinked k && removes k

-- The files after the unlinking of an index in the daemon's directory.
unfoldable pub unlink_all : (Kind → Bool) → ℕ → ℕ → ℕ → Files → Files
unlink_all removes index_dir db idx files d a b k =
    if (d == index_dir)
      && (a == db)
      && (b == idx)
      && goes removes (λ s. files index_dir db idx (shard s)) k
    then false
    else files d a b k

-- The first entry of the index goes, and those behind it move up.
unfoldable pub drop_entry : ℕ → ℕ → List Entry → List Entry
drop_entry db idx [] = []
drop_entry db idx (e ∷ es) =
    let kept = drop_entry db idx es in
    if e.valid && (e.db_oid == db) && (e.index_oid == idx) then es else e ∷ kept

unfoldable pub drop_cold : ℕ → ℕ → List ColdEntry → List ColdEntry
drop_cold db idx [] = []
drop_cold db idx (ce ∷ ces) =
    let kept = drop_cold db idx ces in if is_for db idx ce then ces else ce ∷ kept

-- The state that the handlers change: both registries and the files, with the daemon's directory.
pub record Registry : Type 0 where
  pub index_dir : ℕ
  pub indexes : List Entry
  pub cold : List ColdEntry
  pub files : Files

-- `handle_drop`, without the frees of GPU memory
unfoldable pub handle_drop : (Kind → Bool) → ℕ → ℕ → Registry → Registry
handle_drop removes db idx r = record r {
  indexes = drop_entry db idx r.indexes;
  cold = drop_cold db idx r.cold;
  files = unlink_all removes r.index_dir db idx r.files;
}

-- The marker file, which `open` with O_CREAT makes if `creates` and it is not there.
unfoldable pub touch : Bool → ℕ → ℕ → ℕ → Files → Files
touch creates dir db idx files d a b stale =
    (creates && (d == dir) && (a == db) && (b == idx)) || files d a b stale
touch creates dir db idx files d a b k = files d a b k

-- The flag of the resident entry.
unfoldable pub flag_entry : ℕ → ℕ → List Entry → List Entry
flag_entry db idx [] = []
flag_entry db idx (e ∷ es) =
    let rest = flag_entry db idx es in
    if e.valid && (e.db_oid == db) && (e.index_oid == idx)
    then record e { stale = true } ∷ es
    else e ∷ rest

-- `handle_mark_stale`
unfoldable pub handle_mark_stale : Bool → ℕ → ℕ → Registry → Registry
handle_mark_stale creates db idx r = record r {
  indexes = flag_entry db idx r.indexes;
  files = touch creates r.index_dir db idx r.files;
}

-- `cuvs_index_is_stale` of a backend that looks in the directory `dir`: that of the index's
-- `index_dir` option, or else that of the setting.
unfoldable pub index_is_stale : ℕ → ℕ → ℕ → Files → Bool
index_is_stale dir db idx files = files dir db idx stale
