-- ===== src/Delta.antt =====
-- Pending inserts: the `.delta` helpers of src/cuvs_util.c, `cuvs_merge_delta` of src/pg_cuvs.c and
-- `cagra_finish_one` of src/pg_cuvs_server.c, which merge them into the results of the base index.
pub mod Nearest
pub mod Filtered
use pg_cuvs.Base.{
  ℕ, zero, suc, ◌+◌, ◌-◌, ◌*◌, ◌^◌, ◌%◌, List, [], ◌∷◌, ◌++◌, Bool, true, false, not, ◌&&◌, Option,
  none, some, length, take, drop, get_or, ltb, leb, ◌==◌, if◌then◌else◌, ℤ, pos, negsuc,
}
use pg_cuvs.Base.Bytes.{of_le, of_words}
use pg_cuvs.Sidecar.File.{fread, guard, ◌>>=◌, ◌>>◌}
use pg_cuvs.Sidecar.Tids.{tids_max_vecs}
use pg_cuvs.TopK.{Floats, Result}

abbrev pub delta_magic : ℕ
delta_magic = 0x544C4544

abbrev pub delta_version : ℕ
delta_version = 1

abbrev pub metric_ip : ℕ
metric_ip = 2

-- `CuvsDeltaHeader`
pub record DeltaHeader : Type 0 where
  pub magic : ℕ
  pub version : ℕ
  pub n_rows : ℕ
  pub dim : ℕ
  pub metric : ℕ
  pub base_tids_crc32 : ℕ
  pub reserved : ℕ

unfoldable pub header_of : List ℕ → DeltaHeader
header_of raw = record {
  magic = of_le (take 4 raw);
  version = of_le (take 4 (drop 4 raw));
  n_rows = of_le (take 8 (drop 8 raw));
  dim = of_le (take 4 (drop 16 raw));
  metric = of_le (take 4 (drop 20 raw));
  base_tids_crc32 = of_le (take 4 (drop 24 raw));
  reserved = of_le (take 4 (drop 28 raw));
}

-- `cuvs_delta_record_bytes`
unfoldable pub delta_record_bytes : ℕ → ℕ
delta_record_bytes dim = 8 + dim * 4

-- `cuvs_delta_header_init`
unfoldable pub delta_header_init : ℕ → ℕ → ℕ → DeltaHeader
delta_header_init dim metric base_tids_crc32 = record {
  magic = delta_magic;
  version = delta_version;
  n_rows = 0;
  dim = dim;
  metric = metric;
  base_tids_crc32 = base_tids_crc32;
  reserved = 0;
}

-- `cuvs_delta_validate` of a body that is not shorter than empty; `true` is `return 0`.
unfoldable pub delta_validate : DeltaHeader → ℕ → Bool
delta_validate h body_bytes =
    (h.magic == delta_magic)
    && (h.version == delta_version)
    && (h.reserved == 0)
    && not (h.dim == 0)
    && ltb h.n_rows (2 ^ 63)
    && leb h.n_rows tids_max_vecs
    && (body_bytes == h.n_rows * delta_record_bytes h.dim % 2 ^ 64)

-- `cuvs_delta_read_header`
pub delta_read_header : List ℕ → Option DeltaHeader
delta_read_header f = do
  (raw, f₁) ← fread 32 f
  let h = header_of raw
  guard (h.magic == delta_magic)
  guard (h.version == delta_version)
  guard (h.reserved == 0)
  some h

module _ (fl : Floats) where
  -- The comparators `cuvs_cand_cmp` and `delta_cand_cmp`: `x` comes before `y`.
  unfoldable pub nearer : ℕ → Result fl → Result fl → Bool
  nearer metric x y =
      if metric == metric_ip then fl.gt x.distance y.distance else fl.gt y.distance x.distance

  -- The rows of a delta file, each with its distance from the query.
  unfoldable pub delta_rows : (List ℕ → fl.F) → ℕ → ℕ → List ℕ → List (Result fl)
  delta_rows distance dim zero body = []
  delta_rows distance dim (suc n) body =
      record { tid = of_le (take 8 body); distance = distance (of_words 4 dim (drop 8 body)) }
      ∷ delta_rows distance dim n (drop (delta_record_bytes dim) body)

  -- The first `k` of all candidates, sorted.
  unfoldable pub merge_candidates :
      (List (Result fl) → List (Result fl))
      → ℕ
      → List (Result fl)
      → List (Result fl)
      → List (Result fl)
  merge_candidates sort k base delta = take k (sort (base ++ delta))

  -- `cuvs_merge_delta` on the base results of a scan: `sort` is `qsort_arg` with the metric's
  -- comparator, and `none` is the error that is raised.
  unfoldable pub merge_delta :
      (ℕ → List (Result fl) → List (Result fl))
      → (List ℕ → fl.F)
      → ℕ
      → Option ℕ
      → Option (List ℕ)
      → ℕ
      → ℕ
      → ℕ
      → List (Result fl)
      → Option (List (Result fl))
  merge_delta sort distance max_rows base_crc none dim k metric base = some base
  merge_delta sort distance max_rows base_crc (some f) dim k metric base = do
    (raw, body) ← fread 32 f
    let h = header_of raw
    guard (h.magic == delta_magic)
    guard (h.version == delta_version)
    guard (h.dim == dim)
    guard (delta_validate h (length f - 32))
    guard (leb h.n_rows max_rows)
    crc ← base_crc
    guard (crc == h.base_tids_crc32)
    some (
        if h.n_rows == 0
        then base
        else merge_candidates (sort metric) k base (delta_rows distance dim h.n_rows body))

  -- A neighbour that the GPU reports: an item number, which may be none, and a distance.
  pub record Neighbour : Type 0 where
    pub item_id : ℤ
    pub distance : fl.F

  -- The loops of `cagra_finish_one` from item numbers to TIDs, of an array of `n` TIDs.
  pub map_ids : ℕ → List ℕ → List Neighbour → List (Result fl)
  map_ids n tids [] = []
  map_ids n tids (x ∷ xs) = elim x.item_id [
    | negsuc id ↦ map_ids n tids xs
    | pos id ↦
        if ltb id n
        then record { tid = get_or tids id 0; distance = x.distance } ∷ map_ids n tids xs
        else map_ids n tids xs
  ]

  -- `cagra_finish_one` on the `k` neighbours `base`: the results written, `*delta_merged_out` and
  -- `e->delta_merged_count`; no delta candidates is the empty list, and `malloc` tells whether the
  -- candidates have room.
  pub cagra_finish_one :
      (ℕ → List (Result fl) → List (Result fl))
      → Bool
      → ℕ
      → List ℕ
      → List ℕ
      → ℕ
      → List Neighbour
      → List Neighbour
      → ℕ
      → List (Result fl) × Bool × ℕ
  cagra_finish_one sort malloc metric tids delta_tids k base draw merged_count =
      let base' = map_ids (length tids) tids base in
      if ltb 0 (length draw) && malloc
      then (
        merge_candidates (sort metric) k base' (map_ids (length delta_tids) delta_tids draw),
        true,
        (merged_count + 1) % 2 ^ 64,
      )
      else (base', false, merged_count)
