-- ===== src/Sidecar/Tids/RoundTrip.antt =====
-- A `.tids` file reads back as it was written, and nothing else is accepted.
use pg_cuvs.Base.{
  ℕ, ◌+◌, ◌-◌, ◌*◌, ◌^◌, ◌%◌, ◌≤◌, ◌<◌, ◌≡◌, refl, ap, sym, ◌∙◌, List, ◌∷◌, ◌++◌, Bool, true, false,
  none, some, length, ◌==◌, arith, append_assoc, length-append, ==_refl, ==_ne, ◌≢◌,
}
use pg_cuvs.Base.Bytes.{le, words, of_words, Fit, of_le-le, length-words, of_words-words}
use pg_cuvs.Crc.{crc32}
use pg_cuvs.Crc.Bounds.{crc32-lt}
use pg_cuvs.Crc.Detect.{crc32_detects_byte}
use pg_cuvs.Sidecar.File.{OutFile, guard, ◌>>◌}
use pg_cuvs.Sidecar.File.Laws.{guard-false, fread-append, fwrite_fits, fwrite-append}
use pg_cuvs.Sidecar.Tids.{
  TidsHeader, header_bytes, header_of, tids_header, tids_write, tids_read, tids_max_vecs, count_ok,
}

-- The fields of a header have their C widths.
pub record HeaderFits (h : TidsHeader) : Type 0 where
  pub magic : h.magic < 2 ^ 32
  pub version : h.version < 2 ^ 32
  pub n_vecs : h.n_vecs < 2 ^ 64
  pub dim : h.dim < 2 ^ 32
  pub metric : h.metric < 2 ^ 32
  pub body_crc32 : h.body_crc32 < 2 ^ 32
  pub reserved : h.reserved < 2 ^ 32

length-header_bytes : (h : TidsHeader) → length (header_bytes h) ≡ 32
unfolding header_bytes le
length-header_bytes h = refl

header_of-header_bytes : (h : TidsHeader) → HeaderFits h → header_of (header_bytes h) ≡ h
unfolding header_of header_bytes le
header_of-header_bytes h v = λ i. record {
  magic = of_le-le 4 h.magic v.magic i;
  version = of_le-le 4 h.version v.version i;
  n_vecs = of_le-le 8 h.n_vecs v.n_vecs i;
  dim = of_le-le 4 h.dim v.dim i;
  metric = of_le-le 4 h.metric v.metric i;
  body_crc32 = of_le-le 4 h.body_crc32 v.body_crc32 i;
  reserved = of_le-le 4 h.reserved v.reserved i;
}

-- The bytes of a whole file.
pub tids_file : ℕ → ℕ → ℕ → List ℕ → List ℕ
tids_file n_vecs dim metric tids = header_bytes (tids_header n_vecs dim metric tids) ++ words 8 tids

-- What `cuvs_tids_write` is called with.
pub record Writes (n_vecs dim metric : ℕ) (tids : List ℕ) : Type 0 where
  pub counted : length tids ≡ n_vecs
  pub words_fit : Fit 8 tids
  pub some_vecs : 0 < n_vecs
  pub few_vecs : n_vecs ≤ tids_max_vecs
  pub dim_fits : dim < 2 ^ 32
  pub metric_fits : metric < 2 ^ 32

module _ (n_vecs dim metric : ℕ) (tids : List ℕ) (v : Writes n_vecs dim metric tids) where
  abbrev hdr : TidsHeader
  hdr = tids_header n_vecs dim metric tids

  hdr-HeaderFits : HeaderFits hdr
  unfolding tids_header
  hdr-HeaderFits = record {
    magic = omega arith;
    version = omega arith;
    n_vecs = omega arith;
    dim = v.dim_fits;
    metric = v.metric_fits;
    body_crc32 = crc32-lt (words 8 tids);
    reserved = omega arith;
  }

  -- `cuvs_tids_read` on a file with this header and some body.
  read_header :
      (malloc : ℕ → Bool) (body rest : List ℕ)
      → length body ≡ n_vecs * 8
      → tids_read malloc (header_bytes hdr ++ (body ++ rest)) ≡ (do
        guard (malloc (n_vecs * 8))
        guard (crc32 body == crc32 (words 8 tids))
        some (hdr, of_words 8 n_vecs body))
  unfolding tids_read tids_header
  read_header malloc body rest len =
      let e : n_vecs * 8 % 2 ^ 64 ≡ n_vecs * 8 = omega arith in
      let counted : count_ok n_vecs ≡ true = ground arith in
      rw (
        fread-append 32 (header_bytes hdr) (body ++ rest) (length-header_bytes hdr),
        header_of-header_bytes hdr hdr-HeaderFits,
        counted,
        e,
        fread-append (n_vecs * 8) body rest len,
      )

  -- What is written can be read back, whatever stands behind it in the file, if there are 1 to 10^9
  -- TIDs (with none the writer succeeds, but the reader rejects the file): if there is room for
  -- the whole file the writer succeeds and appends it, and if the body can be allocated the reader
  -- returns the header and the TIDs that were given.
  pub tids_read-tids_write :
      (f : OutFile) (malloc : ℕ → Bool) (rest : List ℕ)
      → 32 + n_vecs * 8 ≤ f.room
      → malloc (n_vecs * 8) ≡ true
      → (tids_write f n_vecs dim metric tids ≡ (
        true,
        record {
          bytes = f.bytes ++ tids_file n_vecs dim metric tids;
          room = f.room - length (tids_file n_vecs dim metric tids);
        },
      ))
        × (tids_read malloc (tids_file n_vecs dim metric tids ++ rest) ≡ some (hdr, tids))
  unfolding tids_write tids_file
  tids_read-tids_write f malloc rest room ok =
      let len : length (words 8 tids) ≡ n_vecs * 8 =
        omega (arith, length-words 8 tids, v.counted) in
      let file = header_bytes hdr ++ words 8 tids in
      let len' : length file ≤ f.room =
        omega (arith, length-append (header_bytes hdr) (words 8 tids), length-header_bytes hdr) in
      (
        fwrite-append (header_bytes hdr) (words 8 tids) f ∙ fwrite_fits file f len',
        rw append_assoc (
            read_header malloc (words 8 tids) rest len
            ∙ rw (
              ok,
              ==_refl (crc32 (words 8 tids)),
              ← v.counted,
              of_words-words 8 tids v.words_fit,
            )),
      )

  -- A file in whose body one byte has changed is rejected.
  pub tids_read_corrupt :
      (malloc : ℕ → Bool) (xs ys rest : List ℕ) (b b' : ℕ)
      → words 8 tids ≡ xs ++ (b ∷ ys)
      → b < 256
      → b' < 256
      → b ≢ b'
      → tids_read malloc (header_bytes hdr ++ ((xs ++ (b' ∷ ys)) ++ rest)) ≡ none
  tids_read_corrupt malloc xs ys rest b b' e h h' ne =
      let body = xs ++ (b' ∷ ys) in
      let len : length body ≡ n_vecs * 8 = omega (
        arith,
        length-words 8 tids,
        v.counted,
        ap length e,
        length-append xs (b ∷ ys),
        length-append xs (b' ∷ ys),
      ) in
      let differs : (crc32 body == crc32 (words 8 tids)) ≡ false =
        ==_ne (crc32 body) (crc32 (words 8 tids))
          (λ same. crc32_detects_byte xs ys b' b h' h (λ q. ne (sym q)) (same ∙ ap crc32 e)) in
      read_header malloc body rest len
      ∙ rw differs (guard-false (malloc (n_vecs * 8)) (some (hdr, of_words 8 n_vecs body)))
