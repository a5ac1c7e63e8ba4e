-- ===== src/Append/Pending.antt =====
-- A row that `cuvs_delta_append` has put into the delta file takes part in every later merge.
use pg_cuvs.Base.{
  ℕ, ◌+◌, ◌-◌, ◌*◌, ◌^◌, ◌<◌, ◌≤◌, ◌≡◌, refl, ap, sym, ◌∙◌, ◌⊎◌, inl, inr, List, [], ◌∷◌, ◌++◌,
  Bool, true, false, false≢true, subst, Option, some, length, take, drop, map, leb, ◌==◌, ==_refl,
  arith, append-nil, append_assoc, length-append, take-append, drop-append,
}
use pg_cuvs.Base.Bytes.{le, of_le, words, of_words, of_le-le, of_words-words_behind}
use pg_cuvs.Sidecar.File.Laws.{fread-append}
use pg_cuvs.Sidecar.Tids.{tids_max_vecs}
use pg_cuvs.TopK.{Floats, Result}
use pg_cuvs.Delta.{
  DeltaHeader, delta_record_bytes, delta_validate, delta_rows, merge_delta, merge_candidates,
  delta_header_init,
}
use pg_cuvs.Append.{Io, delta_header_bytes, delta_append, delta_header, read_tids_crc}
use pg_cuvs.Append.Deltas.{delta_append-Appended, delta_append_first, delta_append_capped}
use pg_cuvs.Append.DeltaRows.{
  Row, row_bytes, rows_bytes, RowsFit, Heads, one_more, length-delta_header_bytes, length-row_bytes,
  length-rows_bytes, header_of-delta_header_bytes, delta_header-Heads, init_empty,
}
use pg_cuvs.Append.DeltaValid.{rows_bytes-append, rows-valid}

-- The delta file `f` of a base build holds these rows: it is new and empty, or has a header, the rows
-- and whatever an append that failed has left behind them, of a size that an off_t holds.
pub record Holds (d metric crc : ℕ) (f : List ℕ) (rows : List Row) : Type 0 where
  pub h : DeltaHeader
  pub heads : Heads d rows h
  pub reserved : h.reserved ≡ 0
  pub base : h.base_tids_crc32 ≡ crc
  pub size : length f < 2 ^ 63
  pub file :
      ((f ≡ []) × (rows ≡ []) × (h ≡ delta_header_init d metric crc))
      ⊎ ((tail : List ℕ) × (f ≡ delta_header_bytes h ++ (rows_bytes rows ++ tail)))

RowsFit-append :
    (dim : ℕ) (rows : List Row) (r : Row)
    → RowsFit dim rows
    → RowsFit dim (r ∷ [])
    → RowsFit dim (rows ++ (r ∷ []))
RowsFit-append dim [] r v v' = v'
RowsFit-append dim (x ∷ rows) r v v' = (v.0, RowsFit-append dim rows r v.1 v')

length-snoc : (rows : List Row) (r : Row) → length (rows ++ (r ∷ [])) ≡ length rows + 1
length-snoc rows r = length-append rows (r ∷ [])

Heads-one_more :
    (dim : ℕ) (rows : List Row) (h : DeltaHeader) (r : Row)
    → Heads dim rows h
    → RowsFit dim (r ∷ [])
    → length rows < tids_max_vecs
    → Heads dim (rows ++ (r ∷ [])) (one_more h)
Heads-one_more dim rows h r v fits few = record {
  magic = v.magic;
  version = v.version;
  n_rows = omega (arith, v.n_rows, length-snoc rows r);
  dim = v.dim;
  rows_fit = RowsFit-append dim rows r v.rows_fit fits;
  few_rows = omega (arith, length-snoc rows r);
  dim_fits = v.dim_fits;
  metric_fits = v.metric_fits;
  crc_fits = v.crc_fits;
  reserved_fits = v.reserved_fits;
}

module _ (io : Io) (tids : Option (List ℕ)) (max_rows dim metric crc : ℕ) (r : Row) where
  abbrev after : List ℕ → Bool × List ℕ
  after f = delta_append io tids max_rows r.tid r.vec dim metric f

  -- Either way the append leaves the header of one row more, the old rows and the new one.
  file_after :
      (f : List ℕ) (rows : List Row) (s : Holds dim metric crc f rows)
      → read_tids_crc tids ≡ some crc
      → length r.vec ≡ dim
      → (after f).0 ≡ true
      → ((after f).1 ≡ delta_header_bytes (one_more s.h) ++ rows_bytes (rows ++ (r ∷ [])))
        × (length rows < max_rows)
  unfolding delta_header row_bytes rows_bytes
  file_after f rows s read counted ok = elim s.file [
    | inl (e, none_yet, e') ↦
        let ok' : (after []).0 ≡ true = subst (λ g. (after g).0 ≡ true) e ok in
        let capped : (delta_header_init dim metric crc).n_rows < max_rows =
          delta_append_capped io tids max_rows r.tid r.vec dim metric []
            (delta_header_init dim metric crc) (rw read refl)
            (omega (arith, init_empty dim metric crc)) ok' in
        (
          rw (e, e', none_yet, append-nil (row_bytes r))
              (delta_append_first io tids max_rows r.tid r.vec dim metric crc read counted
                s.heads.dim_fits ok'),
          rw none_yet (omega (arith, capped)),
        )
    | inr (tail, e) ↦
        let g = delta_header_bytes s.h ++ (rows_bytes rows ++ tail) in
        let ok' : (after g).0 ≡ true = subst (λ l. (after l).0 ≡ true) e ok in
        let found : delta_header (read_tids_crc tids) dim metric g ≡ some s.h =
          delta_header-Heads (read_tids_crc tids) dim metric rows s.h (rows_bytes rows ++ tail)
            s.heads in
        let capped : s.h.n_rows < max_rows =
          delta_append_capped io tids max_rows r.tid r.vec dim metric g s.h found
            (omega (arith, s.heads.few_rows, s.heads.n_rows)) ok' in
        (
          rw (e, rows_bytes-append rows r)
              (elim (delta_append-Appended io tids max_rows r.tid r.vec dim metric rows s.h tail
                s.heads counted (subst (λ l. length l < 2 ^ 63) e s.size)) [
                  | inl (good, e') ↦ e'
                  | inr (bad, rest) ↦ absurd (false≢true (sym bad ∙ ok'))
                ]),
          omega (arith, s.heads.n_rows, capped),
        )
  ]

module _ (fl : Floats) (distance : List ℕ → fl.F) where
  -- The candidate that a pending row gives.
  abbrev pub candidate : Row → Result fl
  candidate r = record { tid = r.tid; distance = distance r.vec }

  delta_rows-rows_bytes :
      (dim : ℕ) (rows : List Row)
      → RowsFit dim rows
      → delta_rows fl distance dim (length rows) (rows_bytes rows) ≡ map candidate rows
  unfolding delta_rows rows_bytes row_bytes le of_le
  delta_rows-rows_bytes dim [] v = refl
  delta_rows-rows_bytes dim (r ∷ rs) v =
      let tid = le 8 r.tid in
      let rest = rows_bytes rs in
      let split : row_bytes r ++ rest ≡ tid ++ (words 4 r.vec ++ rest) =
        append_assoc tid (words 4 r.vec) rest in
      let first : of_le (take 8 (row_bytes r ++ rest)) ≡ r.tid =
        ap (λ l. of_le (take 8 l)) split
        ∙ ap of_le (take-append tid (words 4 r.vec ++ rest))
        ∙ of_le-le 8 r.tid v.0.1 in
      let second : of_words 4 dim (drop 8 (row_bytes r ++ rest)) ≡ r.vec =
        ap (λ l. of_words 4 dim (drop 8 l)) split
        ∙ ap (of_words 4 dim) (drop-append tid (words 4 r.vec ++ rest))
        ∙ ap (λ (n : ℕ). of_words 4 n (words 4 r.vec ++ rest)) (sym v.0.0)
        ∙ of_words-words_behind 4 r.vec rest v.0.2 in
      let behind : drop (delta_record_bytes dim) (row_bytes r ++ rest) ≡ rest =
        ap (λ (n : ℕ). drop n (row_bytes r ++ rest))
          (ap delta_record_bytes (sym v.0.0) ∙ sym (length-row_bytes r))
        ∙ drop-append (row_bytes r) rest in
      rw (first, second, behind, delta_rows-rows_bytes dim rs v.1) refl

  -- A delta file with rows, as it is after an append, takes part in the merge.
  merge_delta-rows :
      (sort : ℕ → List (Result fl) → List (Result fl)) (max_rows dim k metric : ℕ)
      (base : List (Result fl)) (h : DeltaHeader) (rows : List Row)
      → Heads dim rows h
      → h.reserved ≡ 0
      → 0 < dim
      → 0 < length rows
      → length rows ≤ max_rows
      → length rows ≤ tids_max_vecs
      → merge_delta fl sort distance max_rows
          (some h.base_tids_crc32)
          (some (delta_header_bytes h ++ rows_bytes rows))
          dim
          k
          metric
          base
        ≡ some (merge_candidates fl (sort metric) k base (map candidate rows))
  unfolding merge_delta
  merge_delta-rows sort max_rows dim k metric base h rows v reserved wide some_rows capped few =
      let hdr = delta_header_bytes h in
      let body = rows_bytes rows in
      let size : length body ≡ length rows * delta_record_bytes dim =
        length-rows_bytes dim rows v.rows_fit in
      let valid : delta_validate h (length (hdr ++ body) - 32) ≡ true =
        rows-valid dim rows h v reserved wide few (length (hdr ++ body) - 32)
          (omega (arith, length-append hdr body, length-delta_header_bytes h, size)) in
      let read : delta_rows fl distance dim h.n_rows body ≡ map candidate rows =
        ap (λ (n : ℕ). delta_rows fl distance dim n body) v.n_rows
        ∙ delta_rows-rows_bytes dim rows v.rows_fit in
      let capped' : leb h.n_rows max_rows ≡ true = ground (arith, v.n_rows) in
      let present : (h.n_rows == 0) ≡ false = ground (arith, v.n_rows) in
      rw
        (
          fread-append 32 hdr body (length-delta_header_bytes h),
          header_of-delta_header_bytes dim rows h v,
          valid,
          capped',
          present,
          read,
          v.magic,
          v.version,
          v.dim,
          ==_refl dim,
          ==_refl h.base_tids_crc32,
        )
        refl

  -- A row that was inserted, of dimension at least 1, is merged: after `cuvs_delta_append` has succeeded on the delta file of
  -- the current base build, whether or not earlier appends have failed there, `cuvs_merge_delta`
  -- accepts the file and answers from the base results, the rows of before and the new row, in
  -- whatever pieces the bytes were written. The file had fewer than 10^9 rows, and fewer than the
  -- session that merges allows, which may be another one than the session that inserted.
  pub merge_delta-delta_append :
      (io : Io) (tids : Option (List ℕ)) (max_rows search_max_rows dim metric crc : ℕ) (r : Row)
      (f : List ℕ) (rows : List Row) (sort : ℕ → List (Result fl) → List (Result fl))
      (k search_metric : ℕ) (base : List (Result fl))
      → Holds dim metric crc f rows
      → RowsFit dim (r ∷ [])
      → 0 < dim
      → length rows < tids_max_vecs
      → length rows < search_max_rows
      → read_tids_crc tids ≡ some crc
      → (delta_append io tids max_rows r.tid r.vec dim metric f).0 ≡ true
      → merge_delta fl sort distance search_max_rows
          (read_tids_crc tids)
          (some (delta_append io tids max_rows r.tid r.vec dim metric f).1)
          dim
          k
          search_metric
          base
        ≡ some (merge_candidates fl (sort search_metric) k base (map candidate (rows ++ (r ∷ []))))
  merge_delta-delta_append io tids max_rows search_max_rows dim metric crc r f rows sort k
        search_metric base s fits wide few cap read ok =
      let (e, capped) = file_after io tids max_rows dim metric crc r f rows s read fits.0.0 ok in
      let size : length (rows ++ (r ∷ [])) ≡ length rows + 1 = length-snoc rows r in
      rw (e, read, ← s.base)
        (merge_delta-rows sort search_max_rows dim k search_metric base (one_more s.h)
          (rows ++ (r ∷ [])) (Heads-one_more dim rows s.h r s.heads fits (omega arith)) s.reserved
          wide (omega arith) (omega arith) (omega arith))
