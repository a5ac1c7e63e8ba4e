-- ===== src/Append/Deltas.antt =====
-- `cuvs_delta_append`: what it leaves in the file, on every outcome of its system calls.
use pg_cuvs.Base.{
  ℕ, ◌+◌, ◌/◌, ◌%◌, replicate, ◌*◌, ◌^◌, ◌≤◌, ◌<◌, ◌≡◌, refl, ap, sym, ◌∙◌, inl, inr, List, [],
  ◌++◌, true, false, leb, if◌then◌else◌, or-false, false≢true, ◌&&◌, Option, some, length, arith,
  append_assoc, length-append, Bool-cases,
}
use pg_cuvs.Base.Bytes.{le, words, length-le, length-words}
use pg_cuvs.Delta.{DeltaHeader, delta_record_bytes, delta_header_init}
use pg_cuvs.Append.{
  Io, pwrite_all, ◌and_then◌, delta_header_bytes, delta_header, delta_append_row, delta_append,
  at_cap, read_tids_crc, finish,
}
use pg_cuvs.Append.Rows.{
  Appended, pwrite_all-Behind, pwrite_all-Behind_next, pwrite_all-Behind_first,
  header_write-Appended,
}
use pg_cuvs.Append.DeltaRows.{
  Row, row_bytes, rows_bytes, Heads, length-delta_header_bytes, length-row_bytes, length-rows_bytes,
  delta_header-Heads, init_empty, one_more_times, one_more, record_bound,
}

-- Where no off_t overflows, the writes of a row go behind those that the header counts.
delta_append_row-fits :
    (io : Io) (max_rows : ℕ) (h : DeltaHeader) (dim tid : ℕ) (vec f : List ℕ)
    → 32 + h.n_rows * delta_record_bytes dim < 2 ^ 63
    → h.n_rows < 2 ^ 63
    → dim < 2 ^ 32
    → delta_append_row io max_rows h dim tid vec f ≡ (
        if at_cap max_rows h.n_rows
        then (false, f)
        else pwrite_all io.tid_write (32 + h.n_rows * delta_record_bytes dim) (le 8 tid) f
          and_then pwrite_all io.vec_write
              (32 + h.n_rows * delta_record_bytes dim + 8)
              (words 4 vec)
          and_then pwrite_all io.header_write 0 (delta_header_bytes (one_more h))
          and_then finish io (32 + (h.n_rows + 1) * delta_record_bytes dim))
unfolding delta_append_row
delta_append_row-fits io max_rows h dim tid vec f inside few narrow =
    let w = delta_record_bytes dim in
    let off = 32 + h.n_rows * w in
    let width : w ≤ 2 ^ 34 + 8 = record_bound dim narrow in
    let same : off % 2 ^ 64 ≡ off = omega (arith, inside) in
    let next : (h.n_rows + 1) % 2 ^ 64 ≡ h.n_rows + 1 = omega (arith, few) in
    let size : (32 + (h.n_rows + 1) * w) % 2 ^ 64 ≡ 32 + (h.n_rows + 1) * w =
      omega (arith, inside, width, one_more_times h.n_rows w) in
    let positive : leb (2 ^ 63) off ≡ false = ground (arith, inside) in
    rw (same, next, size, positive, or-false (at_cap max_rows h.n_rows)) refl

-- Whatever the system calls of `cuvs_delta_append` do: if it succeeds, the file has the old rows,
-- the new one and nothing else; if not, the old header and rows are still there, whatever stands
-- behind them, or the new row is whole behind the old ones and the header is being replaced. The
-- file's size is one that an off_t holds.
pub delta_append-Appended :
    (io : Io) (tids : Option (List ℕ)) (max_rows tid : ℕ) (vec : List ℕ) (dim metric : ℕ)
    (rows : List Row) (h : DeltaHeader) (tail : List ℕ)
    → Heads dim rows h
    → length vec ≡ dim
    → length (delta_header_bytes h ++ (rows_bytes rows ++ tail)) < 2 ^ 63
    → Appended
        (delta_append io tids max_rows tid vec dim metric
          (delta_header_bytes h ++ (rows_bytes rows ++ tail)))
        (delta_header_bytes h)
        (delta_header_bytes (one_more h))
        (rows_bytes rows)
        (le 8 tid ++ words 4 vec)
unfolding delta_append delta_record_bytes
delta_append-Appended io tids max_rows tid vec dim metric rows h tail v counted small =
    let hdr = delta_header_bytes h in
    let body = rows_bytes rows in
    let crc = read_tids_crc tids in
    let off = 32 + h.n_rows * delta_record_bytes dim in
    let f = hdr ++ (body ++ tail) in
    let header : delta_header crc dim metric f ≡ some h =
      delta_header-Heads crc dim metric rows h (body ++ tail) v in
    let size : length (hdr ++ body) ≡ off = omega (
      arith,
      length-append hdr body,
      length-delta_header_bytes h,
      ap (λ (n : ℕ). n * delta_record_bytes dim) v.n_rows,
      length-rows_bytes dim rows v.rows_fit,
    ) in
    let rec_bytes : delta_record_bytes dim ≡ 8 + length vec * 4 =
      ap (λ (n : ℕ). 8 + n * 4) (sym counted) in
    let next : length (hdr ++ (body ++ le 8 tid)) ≡ off + 8 = omega (
      arith,
      ap length (append_assoc hdr body (le 8 tid)),
      length-append (hdr ++ body) (le 8 tid),
      length-le 8 tid,
    ) in
    let same : length (delta_header_bytes (one_more h)) ≡ length hdr =
      length-delta_header_bytes (one_more h) ∙ sym (length-delta_header_bytes h) in
    let whole : length (delta_header_bytes (one_more h) ++ (body ++ (le 8 tid ++ words 4 vec)))
        ≡ 32 + (h.n_rows + 1) * delta_record_bytes dim =
      omega (
        arith,
        next,
        one_more_times h.n_rows (delta_record_bytes dim),
        length-append (delta_header_bytes (one_more h)) (body ++ (le 8 tid ++ words 4 vec)),
        length-append hdr (body ++ le 8 tid),
        length-append body (le 8 tid ++ words 4 vec),
        length-append body (le 8 tid),
        length-append (le 8 tid) (words 4 vec),
        same,
        length-words 4 vec,
        rec_bytes,
      ) in
    let inside : off < 2 ^ 63 = omega (
      arith,
      small,
      size,
      length-append hdr body,
      length-append hdr (body ++ tail),
      length-append body tail,
    ) in
    let row =
      delta_append_row-fits io max_rows h dim tid vec f inside (omega (arith, v.few_rows, v.n_rows))
        v.dim_fits in
    elim (Bool-cases (io.opens && io.locks)) [
      | inr closed ↦ rw closed (inr (refl, inl (tail, refl)))
      | inl locked ↦
          rw (locked, header, row)
            (elim (Bool-cases (at_cap max_rows h.n_rows)) [
              | inl full ↦ rw full (inr (refl, inl (tail, refl)))
              | inr fits ↦ rw fits (
                  header_write-Appended io io.header_write
                    (32 + (h.n_rows + 1) * delta_record_bytes dim) hdr
                    (delta_header_bytes (one_more h)) body (le 8 tid ++ words 4 vec) _ same whole
                    (pwrite_all-Behind_next io.vec_write (off + 8) hdr body (le 8 tid) (words 4 vec)
                      _ next (pwrite_all-Behind io.tid_write off hdr body (le 8 tid) tail size)))
            ])
    ]

row_first :
    (io : Io) (max_rows : ℕ) (h : DeltaHeader) (dim tid : ℕ) (vec : List ℕ)
    → h.n_rows ≡ 0
    → length vec ≡ dim
    → dim < 2 ^ 32
    → (delta_append_row io max_rows h dim tid vec []).0 ≡ true
    → (delta_append_row io max_rows h dim tid vec []).1
      ≡ delta_header_bytes (one_more h) ++ (le 8 tid ++ words 4 vec)
unfolding ◌and_then◌ row_bytes le
row_first io max_rows h dim tid vec none_yet counted narrow =
    let hdr' = delta_header_bytes (one_more h) in
    let bytes = le 8 tid ++ words 4 vec in
    let start : 32 + h.n_rows * delta_record_bytes dim ≡ 32 =
      ap (λ (n : ℕ). 32 + n * delta_record_bytes dim) none_yet ∙ omega arith in
    let size : length (hdr' ++ bytes) ≡ 32 + (h.n_rows + 1) * delta_record_bytes dim = omega (
      arith,
      length-append hdr' bytes,
      length-delta_header_bytes (one_more h),
      length-row_bytes (record { tid = tid; vec = vec }),
      ap delta_record_bytes counted,
      one_more_times h.n_rows (delta_record_bytes dim),
      start,
    ) in
    let row =
      delta_append_row-fits io max_rows h dim tid vec [] (omega (arith, start))
        (omega (arith, none_yet)) narrow in
    rw row (elim (Bool-cases (at_cap max_rows h.n_rows)) [
      | inl full ↦ rw full (λ ok. absurd (false≢true ok))
      | inr fits ↦
          rw (fits, start)
            (elim (Bool-cases (pwrite_all io.tid_write 32 (le 8 tid) []).0) [
              | inr bad ↦ rw bad (λ ok. absurd (false≢true ok))
              | inl good ↦ λ ok.
                  elim (header_write-Appended io io.header_write
                    (32 + (h.n_rows + 1) * delta_record_bytes dim) (replicate 32 0) hdr' [] bytes _
                    (length-delta_header_bytes (one_more h)) size
                    (pwrite_all-Behind_next io.vec_write 40 (replicate 32 0) [] (le 8 tid)
                      (words 4 vec) _ refl
                      (pwrite_all-Behind_first io.tid_write (tid % 256) (le 7 (tid / 256)) good))) [
                        | inl (ok', e) ↦ e
                        | inr (bad, rest) ↦ absurd (false≢true (sym bad ∙ ok))
                      ]
            ])
    ])

-- A successful append has found fewer rows than the cap.
pub delta_append_capped :
    (io : Io) (tids : Option (List ℕ)) (max_rows tid : ℕ) (vec : List ℕ) (dim metric : ℕ)
    (f : List ℕ) (h : DeltaHeader)
    → delta_header (read_tids_crc tids) dim metric f ≡ some h
    → h.n_rows < 2 ^ 63
    → (delta_append io tids max_rows tid vec dim metric f).0 ≡ true
    → h.n_rows < max_rows
unfolding delta_append delta_append_row at_cap
delta_append_capped io tids max_rows tid vec dim metric f h header few =
    elim (Bool-cases (io.opens && io.locks)) [
      | inr closed ↦ rw closed (λ ok. absurd (false≢true ok))
      | inl locked ↦
          rw (locked, header)
            (elim (Bool-cases (at_cap max_rows h.n_rows)) [
              | inl full ↦ rw full (λ ok. absurd (false≢true ok))
              | inr fits ↦ λ ok. ground (arith, fits, few)
            ])
    ]

-- In an empty file a successful append leaves a new header and the row.
pub delta_append_first :
    (io : Io) (tids : Option (List ℕ)) (max_rows tid : ℕ) (vec : List ℕ) (dim metric crc : ℕ)
    → read_tids_crc tids ≡ some crc
    → length vec ≡ dim
    → dim < 2 ^ 32
    → (delta_append io tids max_rows tid vec dim metric []).0 ≡ true
    → (delta_append io tids max_rows tid vec dim metric []).1
      ≡ delta_header_bytes (one_more (delta_header_init dim metric crc))
        ++ (le 8 tid ++ words 4 vec)
unfolding delta_append delta_header
delta_append_first io tids max_rows tid vec dim metric crc read counted narrow =
    let h = delta_header_init dim metric crc in
    elim (Bool-cases (io.opens && io.locks)) [
      | inr closed ↦ rw (read, closed) (λ ok. absurd (false≢true ok))
      | inl locked ↦
          rw (read, locked)
            (row_first io max_rows h dim tid vec (init_empty dim metric crc) counted narrow)
    ]
