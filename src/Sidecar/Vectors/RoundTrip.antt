-- ===== src/Sidecar/Vectors/RoundTrip.antt =====
-- What `cuvs_vectors_write` puts into a file, `cuvs_vectors_read` takes out of it.
use pg_cuvs.Base.{
  ℕ, ◌+◌, ◌-◌, ◌*◌, ◌^◌, ◌%◌, ◌≤◌, ◌<◌, ◌≡◌, refl, ◌∙◌, List, ◌++◌, Bool, true, ◌&&◌, some, length,
  ltb, leb, arith, append_assoc, length-append, ==_refl,
}
use pg_cuvs.Base.Bytes.{le, words, of_words, Fit, of_le-le, length-words, of_words-words}
use pg_cuvs.Crc.{crc32}
use pg_cuvs.Crc.Bounds.{crc32-lt}
use native.Mathlib.Nat.{mul-le-mul}
use pg_cuvs.Sidecar.File.{OutFile}
use pg_cuvs.Sidecar.File.Laws.{fread-append, fwrite_fits, fwrite-append}
use pg_cuvs.Sidecar.Tids.{count_ok, tids_max_vecs}
use pg_cuvs.Sidecar.Vectors.{
  VectorsHeader, header_bytes, header_of, vectors_header, vectors_write, vectors_read,
  vectors_max_dim,
}

-- The fields that a caller or the body decides have their C widths.
pub record HeaderFits (h : VectorsHeader) : Type 0 where
  pub magic : h.magic < 2 ^ 32
  pub version : h.version < 2 ^ 32
  pub n_vecs : h.n_vecs < 2 ^ 64
  pub dim : h.dim < 2 ^ 32
  pub metric : h.metric < 2 ^ 32
  pub body_crc32 : h.body_crc32 < 2 ^ 32
  pub base_tids_crc32 : h.base_tids_crc32 < 2 ^ 32
  pub reserved : h.reserved < 2 ^ 32

length-header_bytes : (h : VectorsHeader) → length (header_bytes h) ≡ 40
unfolding header_bytes le
length-header_bytes h = refl

header_of-header_bytes : (h : VectorsHeader) → HeaderFits h → header_of (header_bytes h) ≡ h
unfolding header_of header_bytes le
header_of-header_bytes h v = λ i. record {
  magic = of_le-le 4 h.magic v.magic i;
  version = of_le-le 4 h.version v.version i;
  n_vecs = of_le-le 8 h.n_vecs v.n_vecs i;
  dim = of_le-le 4 h.dim v.dim i;
  metric = of_le-le 4 h.metric v.metric i;
  body_crc32 = of_le-le 4 h.body_crc32 v.body_crc32 i;
  base_tids_crc32 = of_le-le 4 h.base_tids_crc32 v.base_tids_crc32 i;
  reserved = of_le-le 4 h.reserved v.reserved i;
}

-- What the writer is called with.
pub record Writes (n_vecs dim metric base : ℕ) (vecs : List ℕ) : Type 0 where
  pub counted : length vecs ≡ n_vecs * dim
  pub floats_fit : Fit 4 vecs
  pub count_fits : count_ok n_vecs ≡ true
  pub some_dim : 0 < dim
  pub dim_fits : dim ≤ vectors_max_dim
  pub metric_fits : metric < 2 ^ 32
  pub base_fits : base < 2 ^ 32

-- The matrix has fewer than 2^47 floats.
floats : (n dim : ℕ) → n ≤ tids_max_vecs → dim ≤ vectors_max_dim → n * dim < 2 ^ 47
floats n dim few narrow = omega (arith, mul-le-mul few narrow)

module _ (n_vecs dim metric base : ℕ) (vecs : List ℕ) (v : Writes n_vecs dim metric base vecs) where
  abbrev hdr : VectorsHeader
  hdr = vectors_header n_vecs dim metric base (crc32 (words 4 vecs))

  hdr-HeaderFits : HeaderFits hdr
  unfolding vectors_header
  hdr-HeaderFits = record {
    magic = omega arith;
    version = omega arith;
    n_vecs = ground (arith, v.count_fits);
    dim = omega (arith, v.dim_fits);
    metric = v.metric_fits;
    body_crc32 = crc32-lt (words 4 vecs);
    base_tids_crc32 = v.base_fits;
    reserved = omega arith;
  }

  -- A `.vectors` file reads back as it was written, whatever stands behind it: if there is room for
  -- it the writer succeeds and appends it, and if the matrix can be allocated the reader returns the
  -- header and the floats that were given, bit for bit.
  vectors_read-vectors_write :
      (f : OutFile) (malloc : ℕ → Bool) (rest : List ℕ)
      → 40 + n_vecs * dim * 4 ≤ f.room
      → malloc (n_vecs * dim * 4) ≡ true
      → (vectors_write f n_vecs dim metric base vecs ≡ (
        true,
        record {
          bytes = f.bytes ++ (header_bytes hdr ++ words 4 vecs);
          room = f.room - length (header_bytes hdr ++ words 4 vecs);
        },
      ))
        × (vectors_read malloc ((header_bytes hdr ++ words 4 vecs) ++ rest) ≡ some (hdr, vecs))
  unfolding vectors_write vectors_read vectors_header
  vectors_read-vectors_write f malloc rest room ok =
      let body = words 4 vecs in
      let len : length body ≡ n_vecs * dim * 4 = omega (arith, length-words 4 vecs, v.counted) in
      let few : n_vecs ≤ tids_max_vecs = ground (arith, v.count_fits) in
      let small : n_vecs * dim < 2 ^ 47 = floats n_vecs dim few v.dim_fits in
      let body_n : n_vecs * dim % 2 ^ 64 ≡ n_vecs * dim = omega (arith, small) in
      let body_bytes : n_vecs * dim * 4 % 2 ^ 64 ≡ n_vecs * dim * 4 = omega (arith, small) in
      let dim_ok : (ltb 0 dim && leb dim vectors_max_dim) ≡ true =
        ground (arith, v.some_dim, v.dim_fits) in
      let floats_back : of_words 4 (n_vecs * dim) body ≡ vecs =
        rw (← v.counted) (of_words-words 4 vecs v.floats_fit) in
      let fits : length (header_bytes hdr ++ body) ≤ f.room =
        omega (arith, length-append (header_bytes hdr) body, length-header_bytes hdr) in
      (
        fwrite-append (header_bytes hdr) body f ∙ fwrite_fits (header_bytes hdr ++ body) f fits,
        rw append_assoc (
            rw (
              fread-append 40 (header_bytes hdr) (body ++ rest) (length-header_bytes hdr),
              header_of-header_bytes hdr hdr-HeaderFits,
              v.count_fits,
              dim_ok,
              body_n,
              body_bytes,
              ok,
              fread-append (n_vecs * dim * 4) body rest len,
              ==_refl (crc32 body),
              floats_back,
            )),
      )
