-- ===== src/Examples/Appends.antt =====
-- Appends to the sidecars at concrete inputs.
use pg_cuvs.Base.{
  ℕ, ◌<◌, ◌^◌, length, ◌≡◌, ◌⊎◌, ◌==◌, refl, List, [], ◌∷◌, ◌++◌, Bool, true, false, Option, none,
  some, arith, inl, inr,
}
use pg_cuvs.Base.Bytes.{le, of_le, words}
use pg_cuvs.Sidecar.File.{fread}
use pg_cuvs.Sidecar.Tids
use pg_cuvs.Sidecar.Tids.{tids_magic}
use pg_cuvs.Delta
use pg_cuvs.Delta.{
  DeltaHeader, delta_header_init, delta_record_bytes, merge_delta, merge_candidates,
}
use pg_cuvs.Sidecar.Tombstones.{TombstoneRecord, tombstone_header_init, usable_tombstones}
use pg_cuvs.Append.{
  Attempt, interrupted, wrote, Io, read_tids_crc, pwrite_all, write_at, ftruncate, finish,
  ◌and_then◌, delta_append, delta_append_row, delta_header, delta_header_bytes, at_cap,
  tombstone_append, tombstone_append_entry, tombstone_header, tombstone_header_bytes,
}
use pg_cuvs.Append.Rows.{Appended}
use pg_cuvs.Append.Deltas.{delta_append-Appended}
use pg_cuvs.Append.DeltaRows.{Row, row_bytes, rows_bytes, Heads, one_more}
use pg_cuvs.Append.Pending.{Holds, candidate, merge_delta-delta_append}
use pg_cuvs.Append.Deleted as Deleted
use pg_cuvs.Append.Deleted.{usable_tombstones-tombstone_append}
use pg_cuvs.Append.Hooks.{Index, aminsert, extended, ambulkdelete}
use pg_cuvs.Append.Hooks.Kept.{tombstones_for, aminsert-kept, ambulkdelete-kept}
use pg_cuvs.TopK.{Result}
use pg_cuvs.Examples.Merges.{whole, sort, first_float, base_results}

-- A write that is interrupted and then cut short.
abbrev in_pieces : List Attempt
in_pieces = interrupted ∷ wrote 3 ∷ wrote 100 ∷ []

abbrev io : Io
io = record {
  opens = true;
  locks = true;
  tid_write = in_pieces;
  vec_write = in_pieces;
  header_write = in_pieces;
  truncates = true;
  syncs = true;
}

-- A `.tids` file of a base build with the checksum 77.
abbrev tids : Option (List ℕ)
tids = some (le 4 tids_magic ++ (le 4 1 ++ (le 8 2 ++ (le 4 1 ++ (le 4 0 ++ (le 4 77 ++ le 4 0))))))

tids_crc : read_tids_crc tids ≡ some 77
unfolding read_tids_crc fread le of_le Tids.header_of
tids_crc = refl

abbrev header : DeltaHeader
header = record {
  magic = Delta.delta_magic;
  version = Delta.delta_version;
  n_rows = 1;
  dim = 1;
  metric = 0;
  base_tids_crc32 = 77;
  reserved = 0;
}

abbrev old_row : Row
old_row = record { tid = 131073; vec = 5 ∷ [] }

abbrev new_row : Row
new_row = record { tid = 131074; vec = 3 ∷ [] }

header-Heads : Heads 1 (old_row ∷ []) header
header-Heads = record {
  magic = refl;
  version = refl;
  n_rows = refl;
  dim = refl;
  rows_fit = ((refl, omega arith, (omega arith, tt)), tt);
  few_rows = omega arith;
  dim_fits = omega arith;
  metric_fits = omega arith;
  crc_fits = omega arith;
  reserved_fits = omega arith;
}

-- One row, and three bytes of an append that failed.
abbrev file : List ℕ
file = delta_header_bytes header ++ (rows_bytes (old_row ∷ []) ++ (1 ∷ 2 ∷ 3 ∷ []))

file_size : length file < 2 ^ 63
unfolding delta_header_bytes rows_bytes row_bytes le words
file_size = omega arith

delta_append-Appended_example :
    Appended
      (delta_append io tids 10 131074 (3 ∷ []) 1 0 file)
      (delta_header_bytes header)
      (delta_header_bytes (one_more header))
      (rows_bytes (old_row ∷ []))
      (le 8 131074 ++ words 4 (3 ∷ []))
delta_append-Appended_example =
    delta_append-Appended io tids 10 131074 (3 ∷ []) 1 0 (old_row ∷ []) header (1 ∷ 2 ∷ 3 ∷ [])
      header-Heads refl file_size

file-Holds : Holds 1 0 77 file (old_row ∷ [])
file-Holds = record {
  h = header;
  heads = header-Heads;
  reserved = refl;
  base = refl;
  size = file_size;
  file = inr (1 ∷ 2 ∷ 3 ∷ [], refl);
}

succeeds : (delta_append io tids 10 131074 (3 ∷ []) 1 0 file).0 ≡ true
unfolding delta_append delta_append_row delta_header delta_header_bytes at_cap pwrite_all write_at
    finish ftruncate ◌and_then◌ read_tids_crc fread le of_le words Delta.header_of
    delta_record_bytes rows_bytes row_bytes Tids.header_of
succeeds = refl

merge_delta-delta_append_example :
    merge_delta whole sort first_float 2
      (read_tids_crc tids)
      (some (delta_append io tids 10 131074 (3 ∷ []) 1 0 file).1)
      1
      1
      0
      base_results
    ≡ some (
        merge_candidates whole
          (sort 0)
          1
          base_results
          (candidate whole first_float old_row ∷ candidate whole first_float new_row ∷ []))
merge_delta-delta_append_example =
    merge_delta-delta_append whole first_float io tids 10 2 1 0 77 new_row file (old_row ∷ []) sort
      1 0 base_results file-Holds ((refl, omega arith, (omega arith, tt)), tt) (omega arith)
      (omega arith) (omega arith) tids_crc succeeds

abbrev tombstone : TombstoneRecord
tombstone = record { tid = 65537; delete_xid = 900 }

no_tombstones-Holds : Deleted.Holds 77 [] []
unfolding tombstone_header_init
no_tombstones-Holds = record {
  h = tombstone_header_init 77;
  heads = record {
    magic = refl;
    version = refl;
    n_entries = refl;
    fit = tt;
    few = omega arith;
    crc_fits = omega arith;
    reserved = refl;
  };
  base = refl;
  file = inl (refl, refl, refl);
}

deletes : (tombstone_append io tids 10 65537 900 []).0 ≡ true
unfolding tombstone_append tombstone_append_entry tombstone_header tombstone_header_bytes at_cap
    pwrite_all write_at finish ftruncate ◌and_then◌ read_tids_crc fread le of_le Tids.header_of
    tombstone_header_init
deletes = refl

usable_tombstones-tombstone_append_example :
    usable_tombstones (read_tids_crc tids) (some (tombstone_append io tids 10 65537 900 []).1)
    ≡ some (tombstone ∷ [])
usable_tombstones-tombstone_append_example =
    usable_tombstones-tombstone_append io 10 tids 77 tombstone [] [] no_tombstones-Holds
      ((omega arith, omega arith), tt) (omega arith) tids_crc deletes

abbrev no_rows : ℕ
no_rows = 0

abbrev an_index : Index
an_index = record { stale = false; delta = file; tombstones = []; amcache = false }

aminsert-kept_example :
    let s' = aminsert true none io tids 10 1 0 (some new_row) an_index in
    (extended none ≡ true)
    ⊎ (s'.stale ≡ true)
    ⊎ ((10 ≡ no_rows) × (an_index.amcache ≡ true))
    ⊎ ((sort : ℕ → List (Result whole) → List (Result whole)) (k search_metric : ℕ)
          (base : List (Result whole))
        → merge_delta whole sort first_float 2
            (read_tids_crc tids)
            (some s'.delta)
            1
            k
            search_metric
            base
          ≡ some (
              merge_candidates whole
                (sort search_metric)
                k
                base
                (candidate whole first_float old_row ∷ candidate whole first_float new_row ∷ [])))
aminsert-kept_example =
    aminsert-kept whole first_float none io tids 10 2 1 0 77 new_row (old_row ∷ []) an_index
      file-Holds ((refl, omega arith, (omega arith, tt)), tt) (omega arith) (omega arith)
      (omega arith) tids_crc

-- Of the two TIDs of the base, the second is dead.
abbrev is_second : ℕ → Bool
is_second t = t == 65538

abbrev base_tids : List ℕ
base_tids = 65537 ∷ 65538 ∷ []

ambulkdelete-kept_example :
    let s' = ambulkdelete true is_second (λ n. io) tids (some base_tids) 10 900 an_index in
    (s'.stale ≡ true)
    ⊎ Deleted.Holds 77 s'.tombstones ([] ++ tombstones_for is_second 900 base_tids)
ambulkdelete-kept_example =
    ambulkdelete-kept is_second (λ n. io) tids base_tids 10 900 77 [] an_index no_tombstones-Holds
      (omega arith, (omega arith, tt)) (omega arith) (omega arith) tids_crc
