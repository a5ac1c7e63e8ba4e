-- ===== src/Sidecar/Tombstones.antt =====
-- The `.tombstone` sidecar: the tombstone helpers of src/cuvs_util.c, and `cuvs_apply_tombstones` of
-- src/pg_cuvs.c, which drops deleted tuples from the results of a scan.
pub mod Filter
pub mod Visible
use pg_cuvs.Base.{
  ℕ, zero, suc, ◌+◌, ◌-◌, ◌*◌, ◌^◌, ◌%◌, List, [], ◌∷◌, Bool, true, false, not, ◌&&◌, ◌||◌, Option,
  none, some, length, take, drop, set, get_or, ltb, leb, ◌==◌, if◌then◌else◌,
}
use pg_cuvs.Base.Bytes.{of_le}
use pg_cuvs.Sidecar.File.{fread, guard, ◌>>=◌, ◌>>◌}
use pg_cuvs.Sidecar.Tids.{tids_max_vecs}

abbrev pub tombstone_magic : ℕ
tombstone_magic = 0x424D4F54

abbrev pub tombstone_version : ℕ
tombstone_version = 1

-- `CuvsTombstoneHeader` without its padding, and `CuvsTombstoneRecord`.
pub record TombstoneHeader : Type 0 where
  pub magic : ℕ
  pub version : ℕ
  pub n_entries : ℕ
  pub base_tids_crc32 : ℕ
  pub reserved : ℕ

pub record TombstoneRecord : Type 0 where
  pub tid : ℕ
  pub delete_xid : ℕ

-- The struct of 32 bytes, and the first `n` records of 16 bytes.
unfoldable pub header_of : List ℕ → TombstoneHeader
header_of raw = record {
  magic = of_le (take 4 raw);
  version = of_le (take 4 (drop 4 raw));
  n_entries = of_le (take 8 (drop 8 raw));
  base_tids_crc32 = of_le (take 4 (drop 16 raw));
  reserved = of_le (take 4 (drop 20 raw));
}

unfoldable pub tombstones_of : ℕ → List ℕ → List TombstoneRecord
tombstones_of zero bs = []
tombstones_of (suc n) bs =
    record { tid = of_le (take 8 bs); delete_xid = of_le (take 8 (drop 8 bs)) }
    ∷ tombstones_of n (drop 16 bs)

-- `cuvs_tombstone_header_init`
unfoldable pub tombstone_header_init : ℕ → TombstoneHeader
tombstone_header_init base_tids_crc32 = record {
  magic = tombstone_magic;
  version = tombstone_version;
  n_entries = 0;
  base_tids_crc32 = base_tids_crc32;
  reserved = 0;
}

-- `cuvs_tombstone_validate` of a body that is not shorter than empty; `true` is `return 0`.
unfoldable pub tombstone_validate : TombstoneHeader → ℕ → Bool
tombstone_validate h body_bytes =
    (h.magic == tombstone_magic)
    && (h.version == tombstone_version)
    && (h.reserved == 0)
    && ltb h.n_entries (2 ^ 63)
    && leb h.n_entries tids_max_vecs
    && (body_bytes == h.n_entries * 16 % 2 ^ 64)

-- `cuvs_tombstone_read_header`
pub tombstone_read_header : List ℕ → Option TombstoneHeader
tombstone_read_header f = do
  (raw, f₁) ← fread 32 f
  let h = header_of raw
  guard (h.magic == tombstone_magic)
  guard (h.version == tombstone_version)
  guard (h.reserved == 0)
  some h

-- The tombstones that `cuvs_apply_tombstones` goes by, of a file that could be opened or not, and of
-- the CRC of the `.tids` file if that could be read; `none` is one of its early returns.
unfoldable pub usable_tombstones : Option ℕ → Option (List ℕ) → Option (List TombstoneRecord)
usable_tombstones base_crc file = do
  f ← file
  (raw, body) ← fread 32 f
  let h = header_of raw
  guard (h.magic == tombstone_magic)
  guard (h.version == tombstone_version)
  guard (tombstone_validate h (length f - 32))
  crc ← base_crc
  guard (crc == h.base_tids_crc32)
  guard (not (h.n_entries == 0))
  (recs, f₂) ← fread (h.n_entries * 16) body
  some (tombstones_of h.n_entries recs)

-- A result of a scan, `tids[i]` and `distances[i]`; a distance is its bits.
pub record Hit : Type 0 where
  pub tid : ℕ
  pub distance : ℕ

-- The inner loop: a tombstone of the TID whose deleting transaction has committed and is not in
-- progress for the snapshot. `TransactionIdDidCommit` and `XidInMVCCSnapshot` are PostgreSQL's.
pub is_dead : (ℕ → Bool) → (ℕ → Bool) → List TombstoneRecord → ℕ → Bool
is_dead did_commit in_snapshot [] tid = false
is_dead did_commit in_snapshot (t ∷ ts) tid =
    (t.tid == tid)
      && did_commit (t.delete_xid % 2 ^ 32)
      && not (in_snapshot (t.delete_xid % 2 ^ 32))
    || is_dead did_commit in_snapshot ts tid

-- The outer loop over the `k` results from `i` on, with `out` kept so far: the array and `out`.
pub compact : (ℕ → Bool) → ℕ → ℕ → ℕ → List Hit → Hit → List Hit × ℕ
compact dead i out zero hits d = (hits, out)
compact dead i out (suc k) hits d =
    let h = get_or hits i d in
    let dropped = compact dead (i + 1) out k hits d in
    let kept = compact dead (i + 1) (out + 1) k (set hits out h) d in
    if dead h.tid then dropped else kept

-- `cuvs_apply_tombstones` on the `n_results` results of a scan, after and with its early returns.
pub drop_dead :
    (ℕ → Bool) → (ℕ → Bool) → Option (List TombstoneRecord) → List Hit → ℕ → List Hit × ℕ
drop_dead did_commit in_snapshot none hits n_results = (hits, n_results)
drop_dead did_commit in_snapshot (some recs) hits n_results =
    compact (is_dead did_commit in_snapshot recs) 0 0 n_results hits
      (record { tid = 0; distance = 0 })

pub apply_tombstones :
    (ℕ → Bool) → (ℕ → Bool) → Option ℕ → Option (List ℕ) → List Hit → ℕ → List Hit × ℕ
apply_tombstones did_commit in_snapshot base_crc file hits n_results =
    drop_dead did_commit in_snapshot (usable_tombstones base_crc file) hits n_results
