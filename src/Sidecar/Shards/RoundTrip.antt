-- ===== src/Sidecar/Shards/RoundTrip.antt =====
-- A manifest reads back as it was written.
use pg_cuvs.Base.{
  ℕ, ◌+◌, ◌-◌, ◌*◌, ◌^◌, ◌≤◌, ◌<◌, ◌≡◌, refl, ap, sym, ◌∙◌, List, [], ◌∷◌, ◌++◌, Bool, true, ◌&&◌,
  some, length, take, drop, ltb, leb, arith, append_assoc, length-append, ==_refl, take-append,
  drop-append,
}
use pg_cuvs.Base.Bytes.{le, of_le-le}
use pg_cuvs.Crc.{crc32}
use pg_cuvs.Crc.Bounds.{crc32-lt}
use pg_cuvs.Sidecar.File.{OutFile}
use pg_cuvs.Sidecar.File.Laws.{fread-append, fwrite_fits, fwrite-append}
use pg_cuvs.Sidecar.Tids.{count_ok}
use pg_cuvs.Sidecar.Shards.{
  ShardsHeader, ShardRecord, header_bytes, header_of, record_bytes, record_of, records_bytes,
  records_of, shards_header, shards_write, shards_read, shards_max, covers,
}

-- The fields have their C widths.
pub record HeaderFits (h : ShardsHeader) : Type 0 where
  pub magic : h.magic < 2 ^ 32
  pub version : h.version < 2 ^ 32
  pub shard_count : h.shard_count < 2 ^ 32
  pub base_tids_crc32 : h.base_tids_crc32 < 2 ^ 32
  pub n_vecs : h.n_vecs < 2 ^ 64
  pub dim : h.dim < 2 ^ 32
  pub metric : h.metric < 2 ^ 32
  pub body_crc32 : h.body_crc32 < 2 ^ 32
  pub reserved : h.reserved < 2 ^ 32

pub record RecordFits (r : ShardRecord) : Type 0 where
  pub shard_id : r.shard_id < 2 ^ 32
  pub gpu_device_id : r.gpu_device_id < 2 ^ 32
  pub tid_offset : r.tid_offset < 2 ^ 64
  pub n_vecs : r.n_vecs < 2 ^ 64
  pub dim : r.dim < 2 ^ 32
  pub metric : r.metric < 2 ^ 32
  pub artifact_crc32 : r.artifact_crc32 < 2 ^ 32
  pub reserved : r.reserved < 2 ^ 32

pub data RecordsFit : List ShardRecord → Type 0 where
  none_left : RecordsFit []
  one_more :
      {r : ShardRecord} {rs : List ShardRecord} → RecordFits r → RecordsFit rs → RecordsFit (r ∷ rs)

length-header_bytes : (h : ShardsHeader) → length (header_bytes h) ≡ 40
unfolding header_bytes le
length-header_bytes h = refl

length-record_bytes : (r : ShardRecord) → length (record_bytes r) ≡ 40
unfolding record_bytes le
length-record_bytes r = refl

header_of-header_bytes : (h : ShardsHeader) → HeaderFits h → header_of (header_bytes h) ≡ h
unfolding header_of header_bytes le
header_of-header_bytes h v = λ i. record {
  magic = of_le-le 4 h.magic v.magic i;
  version = of_le-le 4 h.version v.version i;
  shard_count = of_le-le 4 h.shard_count v.shard_count i;
  base_tids_crc32 = of_le-le 4 h.base_tids_crc32 v.base_tids_crc32 i;
  n_vecs = of_le-le 8 h.n_vecs v.n_vecs i;
  dim = of_le-le 4 h.dim v.dim i;
  metric = of_le-le 4 h.metric v.metric i;
  body_crc32 = of_le-le 4 h.body_crc32 v.body_crc32 i;
  reserved = of_le-le 4 h.reserved v.reserved i;
}

record_of-record_bytes : (r : ShardRecord) → RecordFits r → record_of (record_bytes r) ≡ r
unfolding record_of record_bytes le
record_of-record_bytes r v = λ i. record {
  shard_id = of_le-le 4 r.shard_id v.shard_id i;
  gpu_device_id = of_le-le 4 r.gpu_device_id v.gpu_device_id i;
  tid_offset = of_le-le 8 r.tid_offset v.tid_offset i;
  n_vecs = of_le-le 8 r.n_vecs v.n_vecs i;
  dim = of_le-le 4 r.dim v.dim i;
  metric = of_le-le 4 r.metric v.metric i;
  artifact_crc32 = of_le-le 4 r.artifact_crc32 v.artifact_crc32 i;
  reserved = of_le-le 4 r.reserved v.reserved i;
}

length-records_bytes : (rs : List ShardRecord) → length (records_bytes rs) ≡ length rs * 40
unfolding records_bytes
length-records_bytes [] = refl
length-records_bytes (r ∷ rs) = omega (
  arith,
  length-append (record_bytes r) (records_bytes rs),
  length-record_bytes r,
  length-records_bytes rs,
)

records_of-records_bytes :
    (rs : List ShardRecord) → RecordsFit rs → records_of (length rs) (records_bytes rs) ≡ rs
unfolding records_bytes records_of
records_of-records_bytes [] v = refl
records_of-records_bytes (r ∷ rs) (one_more v vs) =
    let whole = record_bytes r ++ records_bytes rs in
    let first : take 40 whole ≡ record_bytes r =
      ap (λ (n : ℕ). take n whole) (sym (length-record_bytes r))
      ∙ take-append (record_bytes r) (records_bytes rs) in
    let later : drop 40 whole ≡ records_bytes rs =
      ap (λ (n : ℕ). drop n whole) (sym (length-record_bytes r))
      ∙ drop-append (record_bytes r) (records_bytes rs) in
    rw (first, later, record_of-record_bytes r v, records_of-records_bytes rs vs)

-- What `cuvs_shards_write` is called with: a table of records that the reader's loop accepts.
pub record Writes (n_vecs dim metric base : ℕ) (rs : List ShardRecord) : Type 0 where
  pub some_shards : 0 < length rs
  pub few_shards : length rs ≤ shards_max
  pub counted : count_ok n_vecs ≡ true
  pub some_dim : 0 < dim
  pub dim_fits : dim < 2 ^ 32
  pub metric_fits : metric < 2 ^ 32
  pub base_fits : base < 2 ^ 32
  pub records : RecordsFit rs
  pub covered : covers (shards_header (length rs) n_vecs dim metric base rs) 0 0 rs ≡ true

module _ (n_vecs dim metric base : ℕ) (rs : List ShardRecord)
    (v : Writes n_vecs dim metric base rs) where
  abbrev hdr : ShardsHeader
  hdr = shards_header (length rs) n_vecs dim metric base rs

  hdr-HeaderFits : HeaderFits hdr
  unfolding shards_header
  hdr-HeaderFits = record {
    magic = omega arith;
    version = omega arith;
    shard_count = omega (arith, v.few_shards);
    base_tids_crc32 = v.base_fits;
    n_vecs = ground (arith, v.counted);
    dim = v.dim_fits;
    metric = v.metric_fits;
    body_crc32 = crc32-lt (records_bytes rs);
    reserved = omega arith;
  }

  -- A manifest of 1 to 256 records that pass the reader's loop, for 1 to 10^9 vectors of a dimension
  -- above 0, reads back as it was written, whatever stands behind it in the file: if there is
  -- room for it the writer succeeds and appends it, and if the records can be allocated the reader
  -- returns the header and the records that were given.
  pub shards_read-shards_write :
      (f : OutFile) (malloc : ℕ → Bool) (rest : List ℕ)
      → 40 + length rs * 40 ≤ f.room
      → malloc (length rs * 40) ≡ true
      → (shards_write f (length rs) n_vecs dim metric base rs ≡ (
        true,
        record {
          bytes = f.bytes ++ (header_bytes hdr ++ records_bytes rs);
          room = f.room - length (header_bytes hdr ++ records_bytes rs);
        },
      ))
        × (shards_read malloc ((header_bytes hdr ++ records_bytes rs) ++ rest) ≡ some (hdr, rs))
  unfolding shards_write shards_read shards_header
  shards_read-shards_write f malloc rest room ok =
      let file = header_bytes hdr ++ records_bytes rs in
      let shards_ok : (ltb 0 (length rs) && leb (length rs) shards_max) ≡ true =
        ground (arith, v.some_shards, v.few_shards) in
      let dim_ok : ltb 0 dim ≡ true = ground (arith, v.some_dim) in
      let len : length (records_bytes rs) ≡ length rs * 40 = length-records_bytes rs in
      let len' : length file ≤ f.room =
        omega
          (arith, length-append (header_bytes hdr) (records_bytes rs), length-header_bytes hdr) in
      (
        fwrite-append (header_bytes hdr) (records_bytes rs) f ∙ fwrite_fits file f len',
        rw append_assoc (
            rw (
              fread-append 40 (header_bytes hdr) (records_bytes rs ++ rest)
                  (length-header_bytes hdr),
              header_of-header_bytes hdr hdr-HeaderFits,
              v.counted,
              shards_ok,
              dim_ok,
              ok,
              fread-append (length rs * 40) (records_bytes rs) rest len,
              ==_refl (crc32 (records_bytes rs)),
              records_of-records_bytes rs v.records,
              v.covered,
            )),
      )
