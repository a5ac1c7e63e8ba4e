-- ===== src/Examples/Files.antt =====
-- The sidecar files at concrete inputs.
use pg_cuvs.Base.{
  ℕ, false, ◌-◌, ◌≡◌, ◌≢◌, refl, List, [], ◌∷◌, ◌++◌, Bool, true, none, some, arith, length, pos,
  negsuc,
}
use pg_cuvs.Base.Bytes.{words, le}
use pg_cuvs.Crc.{crc32}
use pg_cuvs.Sidecar.File.{OutFile}
use pg_cuvs.Sidecar.Tids.{tids_write, tids_read}
use pg_cuvs.Sidecar.Tids
use pg_cuvs.Sidecar.Tids.RoundTrip as TidsTrip
use pg_cuvs.Sidecar.Tids.RoundTrip.{tids_file, tids_read-tids_write, tids_read_corrupt}
use pg_cuvs.Sidecar.Vectors
use pg_cuvs.Sidecar.Vectors.{Part, vectors_write, vectors_write_multi, vectors_read}
use pg_cuvs.Sidecar.Vectors.Multi.{whole, count, vectors_write_multi-whole}
use pg_cuvs.Sidecar.Vectors.RoundTrip as VectorsTrip
use pg_cuvs.Sidecar.Shards
use pg_cuvs.Sidecar.Shards.{
  ShardRecord, ShardsHeader, shards_write, shards_read, records_bytes, covers, shards_header,
}
use pg_cuvs.Sidecar.Shards.RoundTrip as ShardsTrip
use pg_cuvs.Sidecar.Shards.RoundTrip.{
  shards_read-shards_write, RecordsFit, RecordFits, one_more, none_left,
}
use pg_cuvs.Sidecar.Shards.Cover.{OneShard}
use pg_cuvs.Sidecar.Shards.Accepts.{shards_read-OneShard}
use pg_cuvs.Sidecar.Tombstones.{Hit, apply_tombstones, usable_tombstones}
use pg_cuvs.Sidecar.Tombstones.Filter.{Kept}
use pg_cuvs.Sidecar.Tombstones.Visible.{Visible, apply_tombstones-Visible}

abbrev new_file : OutFile
new_file = record { bytes = []; room = 1000 }

abbrev enough_memory : ℕ → Bool
enough_memory n = true

abbrev two_tids : List ℕ
two_tids = 65537 ∷ 65538 ∷ []

two_tids-Writes : TidsTrip.Writes 2 4 0 two_tids
two_tids-Writes = record {
  counted = refl;
  words_fit = (omega arith, (omega arith, tt));
  some_vecs = omega arith;
  few_vecs = omega arith;
  dim_fits = omega arith;
  metric_fits = omega arith;
}

abbrev tids_bytes : List ℕ
tids_bytes = tids_file 2 4 0 two_tids

tids_read-tids_write_example :
    (tids_write new_file 2 4 0 two_tids
      ≡ (true, record { bytes = [] ++ tids_bytes; room = 1000 - length tids_bytes }))
    × (tids_read enough_memory (tids_bytes ++ [])
        ≡ some (Tids.tids_header 2 4 0 two_tids, two_tids))
tids_read-tids_write_example =
    tids_read-tids_write 2 4 0 two_tids two_tids-Writes new_file enough_memory [] (omega arith) refl

-- The body without its first byte.
abbrev later_bytes : List ℕ
later_bytes = 0 ∷ 1 ∷ 0 ∷ 0 ∷ 0 ∷ 0 ∷ 0 ∷ 2 ∷ 0 ∷ 1 ∷ 0 ∷ 0 ∷ 0 ∷ 0 ∷ 0 ∷ []

abbrev one : ℕ
one = 1

one_not_nine : one ≢ 9
one_not_nine e = omega arith

tids_read_corrupt_example :
    tids_read enough_memory
      (Tids.header_bytes (Tids.tids_header 2 4 0 two_tids) ++ (([] ++ (9 ∷ later_bytes)) ++ []))
    ≡ none
unfolding words le
tids_read_corrupt_example =
    tids_read_corrupt 2 4 0 two_tids two_tids-Writes enough_memory [] later_bytes [] one 9 refl
      (omega arith) (omega arith) one_not_nine

-- One vector of two floats, 1.0 and -2.0.
abbrev floats : List ℕ
floats = 0x3F800000 ∷ 0xC0000000 ∷ []

floats-Writes : VectorsTrip.Writes 1 2 0 77 floats
floats-Writes = record {
  counted = omega arith;
  floats_fit = (omega arith, (omega arith, tt));
  count_fits = refl;
  some_dim = omega arith;
  dim_fits = omega arith;
  metric_fits = omega arith;
  base_fits = omega arith;
}

abbrev vectors_bytes : List ℕ
vectors_bytes =
    Vectors.header_bytes (Vectors.vectors_header 1 2 0 77 (crc32 (words 4 floats)))
    ++ words 4 floats

-- Three partitions, the second of them skipped.
abbrev parts : List Part
parts =
    record { n_each = pos 1; vecs = floats }
    ∷ record { n_each = negsuc 0; vecs = floats }
    ∷ record { n_each = pos 1; vecs = floats }
    ∷ []

vectors_write_multi-whole_example :
    vectors_write_multi new_file parts 2 0 77
    ≡ vectors_write new_file (count parts) 2 0 77 (whole parts)
unfolding count
vectors_write_multi-whole_example = vectors_write_multi-whole new_file parts 2 0 77 (omega arith)

abbrev shard : ℕ → ℕ → ℕ → ShardRecord
shard i off n = record {
  shard_id = i;
  gpu_device_id = i;
  tid_offset = off;
  n_vecs = n;
  dim = 4;
  metric = 0;
  artifact_crc32 = 9;
  reserved = 0;
}

abbrev two_shards : List ShardRecord
two_shards = shard 0 0 3 ∷ shard 1 3 2 ∷ []

first_fits : RecordFits (shard 0 0 3)
first_fits = record {
  shard_id = omega arith;
  gpu_device_id = omega arith;
  tid_offset = omega arith;
  n_vecs = omega arith;
  dim = omega arith;
  metric = omega arith;
  artifact_crc32 = omega arith;
  reserved = omega arith;
}

second_fits : RecordFits (shard 1 3 2)
second_fits = record {
  shard_id = omega arith;
  gpu_device_id = omega arith;
  tid_offset = omega arith;
  n_vecs = omega arith;
  dim = omega arith;
  metric = omega arith;
  artifact_crc32 = omega arith;
  reserved = omega arith;
}

two_shards-Writes : ShardsTrip.Writes 5 4 0 77 two_shards
unfolding covers shards_header
two_shards-Writes = record {
  some_shards = omega arith;
  few_shards = omega arith;
  counted = refl;
  some_dim = omega arith;
  dim_fits = omega arith;
  metric_fits = omega arith;
  base_fits = omega arith;
  records = one_more first_fits (one_more second_fits none_left);
  covered = refl;
}

abbrev manifest : ShardsHeader
manifest = shards_header 2 5 4 0 77 two_shards

abbrev manifest_bytes : List ℕ
manifest_bytes = Shards.header_bytes manifest ++ records_bytes two_shards

shards_read-shards_write_example :
    (shards_write new_file 2 5 4 0 77 two_shards
      ≡ (true, record { bytes = [] ++ manifest_bytes; room = 1000 - length manifest_bytes }))
    × (shards_read enough_memory (manifest_bytes ++ []) ≡ some (manifest, two_shards))
shards_read-shards_write_example =
    shards_read-shards_write 5 4 0 77 two_shards two_shards-Writes new_file enough_memory []
      (omega arith) refl

two_shards_read : shards_read enough_memory (manifest_bytes ++ []) ≡ some (manifest, two_shards)
two_shards_read =
    (shards_read-shards_write 5 4 0 77 two_shards two_shards-Writes new_file enough_memory []
      (omega arith) refl).1

shards_read-OneShard_example : OneShard two_shards 4
unfolding shards_header
shards_read-OneShard_example =
    shards_read-OneShard enough_memory (manifest_bytes ++ []) manifest two_shards 4 two_shards_read
      (omega arith)

-- A file with one tombstone, of TID 65537 by transaction 900, for a `.tids` file with CRC 77.
abbrev one_tombstone : List ℕ
one_tombstone =
    le 4 0x424D4F54
    ++ (le 4 1 ++ (le 8 1 ++ (le 4 77 ++ (le 4 0 ++ (le 8 0 ++ (le 8 65537 ++ le 8 900))))))

abbrev two_hits : List Hit
two_hits = record { tid = 65537; distance = 5 } ∷ record { tid = 65538; distance = 6 } ∷ []

abbrev all_committed : ℕ → Bool
all_committed xid = true

abbrev none_running : ℕ → Bool
none_running xid = false

apply_tombstones-Visible_example :
    (kept : List Hit) × Kept
      (apply_tombstones all_committed none_running
        (some 77)
        (some one_tombstone)
        (two_hits ++ [])
        2)
      kept
    × Visible all_committed none_running
        (usable_tombstones (some 77) (some one_tombstone))
        two_hits
        kept
apply_tombstones-Visible_example =
    apply_tombstones-Visible all_committed none_running (some 77) (some one_tombstone) two_hits []
