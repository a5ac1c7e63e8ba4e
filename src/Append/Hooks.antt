-- ===== src/Append/Hooks.antt =====
-- The write hooks of the index access method in src/pg_cuvs.c: `cuvs_aminsert` and
-- `cuvs_ambulkdelete`, with `cuvs_mark_index_stale`. The call of the daemon that compacts an index
-- after a delete is advisory there and left out.
pub mod Kept
use pg_cuvs.Base.{
  ℕ, zero, suc, ◌+◌, List, [], ◌∷◌, Bool, true, false, ◌||◌, Option, none, some, ◌==◌,
  if◌then◌else◌,
}
use pg_cuvs.Status.{status_ok}
use pg_cuvs.Append.{Io, ◌and_then◌, delta_append, tombstone_append}
use pg_cuvs.Append.DeltaRows.{Row}

-- What the hooks change of an index: whether the marker of a stale index is there, in the directory
-- that is both the daemon's and the one that the backend looks in, the two sidecars,
-- and whether `rd_amcache` is set.
pub record Index : Type 0 where
  pub stale : Bool
  pub delta : List ℕ
  pub tombstones : List ℕ
  pub amcache : Bool

-- `cuvs_mark_index_stale`, which the daemon hears or not.
unfoldable pub mark_index_stale : Bool → Index → Index
mark_index_stale hears s = record s { stale = s.stale || hears }

-- The end of `cuvs_aminsert`, behind `cuvs_delta_append`.
unfoldable pub or_mark : Bool → Index → Bool × List ℕ → Index
or_mark hears s (true, f) = record s { delta = f }
or_mark hears s (false, f) = mark_index_stale hears (record s { delta = f })

-- `extend` is the answer of the daemon to CUVS_OP_EXTEND, if it is asked.
unfoldable pub extended : Option ℕ → Bool
extended none = false
extended (some status) = status == status_ok

-- `cuvs_aminsert` of a row, or of none for a NULL.
unfoldable pub aminsert :
    Bool → Option ℕ → Io → Option (List ℕ) → ℕ → ℕ → ℕ → Option Row → Index → Index
aminsert hears extend io tids max_rows dim metric none s = s
aminsert hears extend io tids max_rows dim metric (some r) s =
    if max_rows == 0
    then (if s.amcache then s else record (mark_index_stale hears s) { amcache = true })
    else if s.stale
    then s
    else if extended extend
    then s
    else or_mark hears s (delta_append io tids max_rows r.tid r.vec dim metric s.delta)

-- The loop of `cuvs_ambulkdelete` over the TIDs of the base, of which `dead` tells the dead ones;
-- `ios` are the system calls of each append. `true` is `all_ok`.
unfoldable pub delete_loop :
    (ℕ → Bool) → (ℕ → Io) → Option (List ℕ) → ℕ → ℕ → ℕ → List ℕ → List ℕ → Bool × List ℕ
delete_loop dead ios tids max_rows xid n [] f = (true, f)
delete_loop dead ios tids max_rows xid n (t ∷ ts) f =
    let skipped = delete_loop dead ios tids max_rows xid n ts f in
    let appended =
      tombstone_append (ios n) tids max_rows t xid f
      and_then delete_loop dead ios tids max_rows xid (n + 1) ts in
    if dead t then appended else skipped

unfoldable pub or_mark_deleted : Bool → Index → Bool × List ℕ → Index
or_mark_deleted hears s (true, f) = record s { tombstones = f }
or_mark_deleted hears s (false, f) = mark_index_stale hears (record s { tombstones = f })

-- `cuvs_ambulkdelete`; `base` are the TIDs that `cuvs_tids_read` found, if it could.
unfoldable pub ambulkdelete :
    Bool → (ℕ → Bool) → (ℕ → Io) → Option (List ℕ) → Option (List ℕ) → ℕ → ℕ → Index → Index
ambulkdelete hears dead ios tids none max_rows xid s =
    if max_rows == 0
    then mark_index_stale hears s
    else if s.stale
    then s
    else mark_index_stale hears s
ambulkdelete hears dead ios tids (some base) max_rows xid s =
    if max_rows == 0
    then mark_index_stale hears s
    else if s.stale
    then s
    else or_mark_deleted hears s (delete_loop dead ios tids max_rows xid 0 base s.tombstones)
