-- ===== src/Sidecar/Vectors.antt =====
-- The `.vectors` sidecar: `CuvsVectorsHeader`, `cuvs_vectors_write`, `cuvs_vectors_write_multi` and
-- `cuvs_vectors_read` of src/cuvs_util.c. A float is the 32 bits that stand in the file.
pub mod Multi
pub mod RoundTrip
use pg_cuvs.Base.{
  ℕ, ◌+◌, ◌*◌, ◌^◌, ◌%◌, List, [], ◌∷◌, ◌++◌, Bool, true, false, ◌&&◌, Option, some, take, drop,
  ltb, leb, ◌==◌, if◌then◌else◌, ℤ, magnitude, at_most_zero,
}
use pg_cuvs.Base.Bytes.{le, of_le, words, of_words}
use pg_cuvs.Crc.{crc32, stream_begin, stream_update, stream_end}
use pg_cuvs.Sidecar.File.{OutFile, fwrite, ◌then_write◌, fread, guard, ◌>>=◌, ◌>>◌}
use pg_cuvs.Sidecar.Tids.{count_ok}

abbrev pub vectors_magic : ℕ
vectors_magic = 0x53434556

abbrev pub vectors_version : ℕ
vectors_version = 1

abbrev pub vectors_max_dim : ℕ
vectors_max_dim = 65535

-- `CuvsVectorsHeader`
pub record VectorsHeader : Type 0 where
  pub magic : ℕ
  pub version : ℕ
  pub n_vecs : ℕ
  pub dim : ℕ
  pub metric : ℕ
  pub body_crc32 : ℕ
  pub base_tids_crc32 : ℕ
  pub reserved : ℕ

-- The 40 bytes of the struct, the last four of them padding, and back.
pub header_bytes : VectorsHeader → List ℕ
header_bytes h =
    le 4 h.magic
    ++ (le 4 h.version
        ++ (le 8 h.n_vecs
            ++ (le 4 h.dim
                ++ (le 4 h.metric
                    ++ (le 4 h.body_crc32
                        ++ (le 4 h.base_tids_crc32 ++ (le 4 h.reserved ++ le 4 0)))))))

pub header_of : List ℕ → VectorsHeader
header_of raw = record {
  magic = of_le (take 4 raw);
  version = of_le (take 4 (drop 4 raw));
  n_vecs = of_le (take 8 (drop 8 raw));
  dim = of_le (take 4 (drop 16 raw));
  metric = of_le (take 4 (drop 20 raw));
  body_crc32 = of_le (take 4 (drop 24 raw));
  base_tids_crc32 = of_le (take 4 (drop 28 raw));
  reserved = of_le (take 4 (drop 32 raw));
}

-- The header that both writers fill in.
pub vectors_header : ℕ → ℕ → ℕ → ℕ → ℕ → VectorsHeader
vectors_header n_vecs dim metric base_tids_crc32 body_crc32 = record {
  magic = vectors_magic;
  version = vectors_version;
  n_vecs = n_vecs;
  dim = dim;
  metric = metric;
  body_crc32 = body_crc32;
  base_tids_crc32 = base_tids_crc32;
  reserved = 0;
}

-- `cuvs_vectors_write`; `vecs` are the `n_vecs * dim` floats behind the pointer.
pub vectors_write : OutFile → ℕ → ℕ → ℕ → ℕ → List ℕ → Bool × OutFile
vectors_write f n_vecs dim metric base_tids_crc32 vecs =
    fwrite (header_bytes (vectors_header n_vecs dim metric base_tids_crc32 (crc32 (words 4 vecs))))
      f
    then_write words 4 vecs

-- One of the partitions: `n_each[i]`, and the floats behind `part_vecs[i]`.
pub record Part : Type 0 where
  pub n_each : ℤ
  pub vecs : List ℕ

-- The first loop of `cuvs_vectors_write_multi`: the CRC so far, and the count.
pub multi_crc : ℕ → List Part → ℕ
multi_crc crc [] = crc
multi_crc crc (p ∷ ps) =
    multi_crc (if at_most_zero p.n_each then crc else stream_update crc (words 4 p.vecs)) ps

pub multi_total : ℕ → List Part → ℕ
multi_total total [] = total
multi_total total (p ∷ ps) =
    multi_total (if at_most_zero p.n_each then total else (total + magnitude p.n_each) % 2 ^ 64) ps

-- The second loop, which stops at the first write that fails.
pub multi_body : Bool × OutFile → List Part → Bool × OutFile
multi_body f [] = f
multi_body f (p ∷ ps) =
    multi_body (if at_most_zero p.n_each then f else (f then_write words 4 p.vecs)) ps

-- `cuvs_vectors_write_multi`
pub vectors_write_multi : OutFile → List Part → ℕ → ℕ → ℕ → Bool × OutFile
vectors_write_multi f parts dim metric base_tids_crc32 =
    let crc = stream_end (multi_crc stream_begin parts) in
    let hdr = vectors_header (multi_total 0 parts) dim metric base_tids_crc32 crc in
    multi_body (fwrite (header_bytes hdr) f) parts

-- `cuvs_vectors_read`; `malloc n` tells whether `n` bytes could be allocated.
pub vectors_read : (ℕ → Bool) → List ℕ → Option (VectorsHeader × List ℕ)
vectors_read malloc f = do
  (raw, f₁) ← fread 40 f
  let h = header_of raw
  guard (h.magic == vectors_magic)
  guard (h.version == vectors_version)
  guard (count_ok h.n_vecs)
  guard (ltb 0 h.dim && leb h.dim vectors_max_dim)
  guard (h.reserved == 0)
  let body_n = h.n_vecs * h.dim % 2 ^ 64
  guard (malloc (body_n * 4 % 2 ^ 64))
  (body, f₂) ← fread (body_n * 4) f₁
  guard (crc32 body == h.body_crc32)
  some (h, of_words 4 body_n body)
