-- ===== src/Sidecar/Tids.antt =====
-- The `.tids` sidecar: `CuvsTidsHeader`, `cuvs_tids_write` and `cuvs_tids_read`. An int64_t is its
-- bit pattern, which is positive below 2 ^ 63.
pub mod RoundTrip
use pg_cuvs.Base.{
  ℕ, ◌*◌, ◌^◌, ◌%◌, List, ◌++◌, Bool, ◌&&◌, Option, some, take, drop, ltb, leb, ◌==◌,
}
use pg_cuvs.Base.Bytes.{le, of_le, words, of_words}
use pg_cuvs.Crc.{crc32}
use pg_cuvs.Sidecar.File.{OutFile, fwrite, ◌then_write◌, fread, guard, ◌>>=◌, ◌>>◌}

abbrev pub tids_magic : ℕ
tids_magic = 0x53444954

abbrev pub tids_version : ℕ
tids_version = 1

abbrev pub tids_max_vecs : ℕ
tids_max_vecs = 1_000_000_000

-- `0 < n && n <= CUVS_TIDS_MAX_VECS` for an int64_t.
abbrev pub count_ok : ℕ → Bool
count_ok n = ltb 0 n && ltb n (2 ^ 63) && leb n tids_max_vecs

-- `CuvsTidsHeader`
pub record TidsHeader : Type 0 where
  pub magic : ℕ
  pub version : ℕ
  pub n_vecs : ℕ
  pub dim : ℕ
  pub metric : ℕ
  pub body_crc32 : ℕ
  pub reserved : ℕ

-- The 32 bytes of the struct, and the struct in 32 bytes.
pub header_bytes : TidsHeader → List ℕ
header_bytes h =
    le 4 h.magic
    ++ (le 4 h.version
        ++ (le 8 h.n_vecs
            ++ (le 4 h.dim ++ (le 4 h.metric ++ (le 4 h.body_crc32 ++ le 4 h.reserved)))))

unfoldable pub header_of : List ℕ → TidsHeader
header_of raw = record {
  magic = of_le (take 4 raw);
  version = of_le (take 4 (drop 4 raw));
  n_vecs = of_le (take 8 (drop 8 raw));
  dim = of_le (take 4 (drop 16 raw));
  metric = of_le (take 4 (drop 20 raw));
  body_crc32 = of_le (take 4 (drop 24 raw));
  reserved = of_le (take 4 (drop 28 raw));
}

-- The header that `cuvs_tids_write` fills in; `tids` are the `n_vecs` values behind the pointer.
pub tids_header : ℕ → ℕ → ℕ → List ℕ → TidsHeader
tids_header n_vecs dim metric tids = record {
  magic = tids_magic;
  version = tids_version;
  n_vecs = n_vecs;
  dim = dim;
  metric = metric;
  body_crc32 = crc32 (words 8 tids);
  reserved = 0;
}

-- `cuvs_tids_write`; `true` is `return 0`.
pub tids_write : OutFile → ℕ → ℕ → ℕ → List ℕ → Bool × OutFile
tids_write f n_vecs dim metric tids =
    fwrite (header_bytes (tids_header n_vecs dim metric tids)) f then_write words 8 tids

-- `cuvs_tids_read`; `malloc n` tells whether `n` bytes could be allocated.
pub tids_read : (ℕ → Bool) → List ℕ → Option (TidsHeader × List ℕ)
tids_read malloc f = do
  (raw, f₁) ← fread 32 f
  let h = header_of raw
  guard (h.magic == tids_magic)
  guard (h.version == tids_version)
  guard (count_ok h.n_vecs)
  guard (h.reserved == 0)
  let body_bytes = h.n_vecs * 8 % 2 ^ 64
  guard (malloc body_bytes)
  (body, f₂) ← fread (h.n_vecs * 8) f₁
  guard (crc32 body == h.body_crc32)
  some (h, of_words 8 h.n_vecs body)
