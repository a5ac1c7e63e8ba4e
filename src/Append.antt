-- ===== src/Append.antt =====
-- Appends to a sidecar under its file lock: `cuvs_pwrite_all`, `cuvs_read_tids_crc`,
-- `cuvs_delta_append` and `cuvs_tombstone_append` of src/pg_cuvs.c. A file is the list of its bytes;
-- what the system calls do in turn is an argument.
pub mod Writes
pub mod Rows
pub mod DeltaRows
pub mod Deltas
pub mod DeltaValid
pub mod Pending
pub mod Tombs
pub mod Entries
pub mod Deleted
pub mod Hooks
use pg_cuvs.Base.{
  ℕ, zero, suc, ◌+◌, ◌-◌, ◌*◌, ◌^◌, ◌%◌, List, [], ◌∷◌, ◌++◌, Bool, true, false, not, ◌&&◌, ◌||◌,
  Option, none, some, length, take, drop, replicate, ltb, leb, ◌==◌, if◌then◌else◌,
}
use pg_cuvs.Base.Bytes.{le, words}
use pg_cuvs.Sidecar.File.{fread, guard, ◌>>=◌, ◌>>◌}
use pg_cuvs.Sidecar.Tids
use pg_cuvs.Sidecar.Tids.{tids_magic, tids_version}
use pg_cuvs.Delta
use pg_cuvs.Delta.{DeltaHeader, delta_magic, delta_version, delta_record_bytes, delta_header_init}
use pg_cuvs.Sidecar.Tombstones
use pg_cuvs.Sidecar.Tombstones.{
  TombstoneHeader, tombstone_magic, tombstone_version, tombstone_header_init,
}

-- The bytes of a file after some are written from an offset on.
unfoldable pub write_at : ℕ → List ℕ → List ℕ → List ℕ
write_at zero bytes f = bytes ++ drop (length bytes) f
write_at (suc off) bytes [] = 0 ∷ write_at off bytes []
write_at (suc off) bytes (b ∷ f) = b ∷ write_at off bytes f

-- What one call of `pwrite` does: it is interrupted (`EINTR`), fails, or writes so many bytes.
pub data Attempt : Type 0 where
  interrupted : Attempt
  failed : Attempt
  wrote : ℕ → Attempt

-- `cuvs_pwrite_all`, whose calls do what the list says in turn, and fail behind its end; `true` is
-- `return 0`.
unfoldable pub pwrite_all : List Attempt → ℕ → List ℕ → List ℕ → Bool × List ℕ
pwrite_all calls off [] f = (true, f)
pwrite_all [] off (b ∷ bytes) f = (false, f)
pwrite_all (interrupted ∷ calls) off (b ∷ bytes) f = pwrite_all calls off (b ∷ bytes) f
pwrite_all (failed ∷ calls) off (b ∷ bytes) f = (false, f)
pwrite_all (wrote zero ∷ calls) off (b ∷ bytes) f = (false, f)
pwrite_all (wrote (suc w) ∷ calls) off (b ∷ bytes) f =
    let part = b ∷ take w bytes in
    pwrite_all calls (off + length part) (drop w bytes) (write_at off part f)

-- `ftruncate` to a length.
unfoldable pub ftruncate : ℕ → List ℕ → List ℕ
ftruncate n f = take n f ++ replicate (n - length f) 0

-- Go on with the file unless the call before failed.
infixl 5 ◌and_then◌
unfoldable pub ◌and_then◌ : Bool × List ℕ → (List ℕ → Bool × List ℕ) → Bool × List ℕ
(ok, f) and_then k = if ok then k f else (false, f)

-- What the system calls of one append do; a tombstone is written at once, a row of a delta in two
-- writes.
pub record Io : Type 0 where
  pub opens : Bool
  pub locks : Bool
  pub tid_write : List Attempt
  pub vec_write : List Attempt
  pub header_write : List Attempt
  pub truncates : Bool
  pub syncs : Bool

-- The `ftruncate` and `pg_fsync` that end an append; `ftruncate` refuses a negative length.
unfoldable pub finish : Io → ℕ → List ℕ → Bool × List ℕ
finish io size f =
    if io.truncates && ltb size (2 ^ 63) then (io.syncs, ftruncate size f) else (false, f)

-- `cuvs_read_tids_crc` of the `.tids` file, if there is one.
unfoldable pub read_tids_crc : Option (List ℕ) → Option ℕ
read_tids_crc file = do
  f ← file
  (raw, rest) ← fread 32 f
  let h = Tids.header_of raw
  guard (h.magic == tids_magic)
  guard (h.version == tids_version)
  some h.body_crc32

-- The struct of 32 bytes in memory.
unfoldable pub delta_header_bytes : DeltaHeader → List ℕ
delta_header_bytes h =
    le 4 h.magic
    ++ (le 4 h.version
        ++ (le 8 h.n_rows
            ++ (le 4 h.dim ++ (le 4 h.metric ++ (le 4 h.base_tids_crc32 ++ le 4 h.reserved)))))

-- The header that the append goes on with; `none` is `goto done`.
unfoldable pub delta_header : Option ℕ → ℕ → ℕ → List ℕ → Option DeltaHeader
delta_header base_crc dim metric [] = do crc ← base_crc; some (delta_header_init dim metric crc)
delta_header base_crc dim metric (b ∷ f) = do
  (raw, body) ← fread 32 (b ∷ f)
  let h = Delta.header_of raw
  guard (h.magic == delta_magic)
  guard (h.version == delta_version)
  guard (h.dim == dim)
  some h

-- `cap reached`, of an int64_t count by its bits: a negative one is below any cap.
unfoldable pub at_cap : ℕ → ℕ → Bool
at_cap max_rows n = leb max_rows n && ltb n (2 ^ 63)

-- The writes of a row. An off_t is its bits, and wraps around as PostgreSQL's -fwrapv has it; `pwrite`
-- refuses a negative one.
unfoldable pub delta_append_row : Io → ℕ → DeltaHeader → ℕ → ℕ → List ℕ → List ℕ → Bool × List ℕ
delta_append_row io max_rows h dim tid vec f =
    let rec_bytes = delta_record_bytes dim in
    let rec_off = (32 + h.n_rows * rec_bytes) % 2 ^ 64 in
    let n_rows' = (h.n_rows + 1) % 2 ^ 64 in
    let h' = record h { n_rows = n_rows' } in
    if at_cap max_rows h.n_rows || leb (2 ^ 63) rec_off
    then (false, f)
    else pwrite_all io.tid_write rec_off (le 8 tid) f
      and_then pwrite_all io.vec_write (rec_off + 8) (words 4 vec)
      and_then pwrite_all io.header_write 0 (delta_header_bytes h')
      and_then finish io ((32 + n_rows' * rec_bytes) % 2 ^ 64)

-- `cuvs_delta_append` on the file with the bytes `f`, which is empty if it is new: the answer and
-- the file. `vec` are the `dim` floats of the row by their bits.
unfoldable pub delta_append : Io → Option (List ℕ) → ℕ → ℕ → List ℕ → ℕ → ℕ → List ℕ → Bool × List ℕ
delta_append io tids max_rows tid vec dim metric f =
    if io.opens && io.locks
    then elim (delta_header (read_tids_crc tids) dim metric f) [
      | none ↦ (false, f)
      | some h ↦ delta_append_row io max_rows h dim tid vec f
    ]
    else (false, f)

-- The struct of 32 bytes; its padding is 0 from `cuvs_tombstone_header_init` on.
unfoldable pub tombstone_header_bytes : TombstoneHeader → List ℕ
tombstone_header_bytes h =
    le 4 h.magic
    ++ (le 4 h.version
        ++ (le 8 h.n_entries ++ (le 4 h.base_tids_crc32 ++ (le 4 h.reserved ++ le 8 0))))

unfoldable pub tombstone_header : Option ℕ → List ℕ → Option TombstoneHeader
tombstone_header base_crc [] = do crc ← base_crc; some (tombstone_header_init crc)
tombstone_header base_crc (b ∷ f) = do
  (raw, body) ← fread 32 (b ∷ f)
  let h = Tombstones.header_of raw
  guard (h.magic == tombstone_magic)
  guard (h.version == tombstone_version)
  some h

unfoldable pub tombstone_append_entry : Io → ℕ → TombstoneHeader → ℕ → ℕ → List ℕ → Bool × List ℕ
tombstone_append_entry io max_rows h tid delete_xid f =
    let rec_off = (32 + h.n_entries * 16) % 2 ^ 64 in
    let n_entries' = (h.n_entries + 1) % 2 ^ 64 in
    let h' = record h { n_entries = n_entries' } in
    if at_cap max_rows h.n_entries || leb (2 ^ 63) rec_off
    then (false, f)
    else pwrite_all io.tid_write rec_off (le 8 tid ++ le 8 delete_xid) f
      and_then pwrite_all io.header_write 0 (tombstone_header_bytes h')
      and_then finish io ((32 + n_entries' * 16) % 2 ^ 64)

-- `cuvs_tombstone_append`
unfoldable pub tombstone_append : Io → Option (List ℕ) → ℕ → ℕ → ℕ → List ℕ → Bool × List ℕ
tombstone_append io tids max_rows tid delete_xid f =
    if io.opens && io.locks
    then elim (tombstone_header (read_tids_crc tids) f) [
      | none ↦ (false, f)
      | some h ↦ tombstone_append_entry io max_rows h tid delete_xid f
    ]
    else (false, f)
