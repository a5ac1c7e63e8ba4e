-- ===== src/Append/DeltaRows.antt =====
-- The rows of a delta file and the headers that `cuvs_delta_append` takes for them.
use pg_cuvs.Base.{
  ℕ, ◌+◌, ◌*◌, ◌^◌, ◌<◌, ◌≤◌, ◌≡◌, refl, ap, ◌∙◌, List, [], ◌∷◌, ◌++◌, Option, some, ◌==◌, ==_refl,
  length, arith, length-append,
}
use pg_cuvs.Base.Bytes.{le, words, Fit, of_le-le, length-le, length-words}
use pg_cuvs.Sidecar.File.{fread, guard, ◌>>=◌, ◌>>◌}
use pg_cuvs.Sidecar.File.Laws.{fread-append}
use pg_cuvs.Delta.{
  DeltaHeader, header_of, delta_magic, delta_version, delta_record_bytes, delta_header_init,
}
use pg_cuvs.Append.{delta_header_bytes, delta_header}

-- A pending row.
pub record Row : Type 0 where
  pub tid : ℕ
  pub vec : List ℕ

unfoldable pub row_bytes : Row → List ℕ
row_bytes r = le 8 r.tid ++ words 4 r.vec

unfoldable pub rows_bytes : List Row → List ℕ
rows_bytes [] = []
rows_bytes (r ∷ rs) = row_bytes r ++ rows_bytes rs

-- Rows of `dim` floats that fit their C types.
abbrev pub RowsFit : ℕ → List Row → Type 0
RowsFit dim [] = Unit {0}
RowsFit dim (r ∷ rs) = ((length r.vec ≡ dim) × (r.tid < 2 ^ 64) × Fit 4 r.vec) × RowsFit dim rs

-- A header that an append takes for these rows.
pub record Heads (d : ℕ) (rows : List Row) (h : DeltaHeader) : Type 0 where
  pub magic : h.magic ≡ delta_magic
  pub version : h.version ≡ delta_version
  pub n_rows : h.n_rows ≡ length rows
  pub dim : h.dim ≡ d
  pub rows_fit : RowsFit d rows
  pub few_rows : length rows < 2 ^ 63
  pub dim_fits : d < 2 ^ 32
  pub metric_fits : h.metric < 2 ^ 32
  pub crc_fits : h.base_tids_crc32 < 2 ^ 32
  pub reserved_fits : h.reserved < 2 ^ 32

pub length-delta_header_bytes : (h : DeltaHeader) → length (delta_header_bytes h) ≡ 32
unfolding delta_header_bytes le
length-delta_header_bytes h = refl

pub length-row_bytes : (r : Row) → length (row_bytes r) ≡ delta_record_bytes (length r.vec)
unfolding row_bytes delta_record_bytes
length-row_bytes r =
    omega
      (arith, length-append (le 8 r.tid) (words 4 r.vec), length-le 8 r.tid, length-words 4 r.vec)

pub length-rows_bytes :
    (dim : ℕ) (rows : List Row)
    → RowsFit dim rows
    → length (rows_bytes rows) ≡ length rows * delta_record_bytes dim
unfolding rows_bytes
length-rows_bytes dim [] v = omega arith
length-rows_bytes dim (r ∷ rs) v =
    let e : length (row_bytes r) ≡ delta_record_bytes dim =
      length-row_bytes r ∙ ap delta_record_bytes v.0.0 in
    length-append (row_bytes r) (rows_bytes rs) ∙ omega (arith, e, length-rows_bytes dim rs v.1)

pub header_of-delta_header_bytes :
    (dim : ℕ) (rows : List Row) (h : DeltaHeader)
    → Heads dim rows h
    → header_of (delta_header_bytes h) ≡ h
unfolding header_of delta_header_bytes le
header_of-delta_header_bytes dim rows h v = λ i. record {
  magic = of_le-le 4 h.magic (omega (arith, v.magic)) i;
  version = of_le-le 4 h.version (omega (arith, v.version)) i;
  n_rows = of_le-le 8 h.n_rows (omega (arith, v.n_rows, v.few_rows)) i;
  dim = of_le-le 4 h.dim (omega (arith, v.dim, v.dim_fits)) i;
  metric = of_le-le 4 h.metric v.metric_fits i;
  base_tids_crc32 = of_le-le 4 h.base_tids_crc32 v.crc_fits i;
  reserved = of_le-le 4 h.reserved v.reserved_fits i;
}

cons_header :
    (base_crc : Option ℕ) (dim metric : ℕ) (h : DeltaHeader) (body : List ℕ)
    → delta_header base_crc dim metric (delta_header_bytes h ++ body) ≡ (do
      (raw, rest) ← fread 32 (delta_header_bytes h ++ body)
      let h' = header_of raw
      guard (h'.magic == delta_magic)
      guard (h'.version == delta_version)
      guard (h'.dim == dim)
      some h')
unfolding delta_header delta_header_bytes le
cons_header base_crc dim metric h body = refl

-- The header that is read is the one that was written.
pub delta_header-Heads :
    (base_crc : Option ℕ) (dim metric : ℕ) (rows : List Row) (h : DeltaHeader) (body : List ℕ)
    → Heads dim rows h
    → delta_header base_crc dim metric (delta_header_bytes h ++ body) ≡ some h
delta_header-Heads base_crc dim metric rows h body v =
    cons_header base_crc dim metric h body
    ∙ rw
        (
          fread-append 32 (delta_header_bytes h) body (length-delta_header_bytes h),
          header_of-delta_header_bytes dim rows h v,
          v.magic,
          v.version,
          v.dim,
          ==_refl dim,
        )
        refl

pub init_empty : (dim metric crc : ℕ) → (delta_header_init dim metric crc).n_rows ≡ 0
unfolding delta_header_init
init_empty dim metric crc = refl

pub one_more_times : (n w : ℕ) → (n + 1) * w ≡ n * w + w
one_more_times n w = omega arith

-- The header with one row more.
abbrev pub one_more : DeltaHeader → DeltaHeader
one_more h = record h { n_rows = h.n_rows + 1 }

pub record_bound : (dim : ℕ) → dim < 2 ^ 32 → delta_record_bytes dim ≤ 2 ^ 34 + 8
unfolding delta_record_bytes
record_bound dim h = omega arith
