-- ===== src/Append/DeltaValid.antt =====
-- The header of a delta file is valid for a body of just its rows.
use pg_cuvs.Base.{
  ℕ, ◌+◌, ◌*◌, ◌^◌, ◌%◌, ◌<◌, ◌≤◌, ◌≡◌, ap, ap₂, sym, ◌∙◌, List, [], ◌∷◌, ◌++◌, true, length,
  ==_refl, arith, append-nil, append_assoc,
}
use native.Mathlib.Nat.{mul-le-mul}
use pg_cuvs.Sidecar.Tids.{tids_max_vecs}
use pg_cuvs.Delta.{DeltaHeader, delta_record_bytes, delta_validate}
use pg_cuvs.Append.DeltaRows.{Row, row_bytes, rows_bytes, Heads, record_bound}

pub rows_bytes-append :
    (rows : List Row) (r : Row) → rows_bytes (rows ++ (r ∷ [])) ≡ rows_bytes rows ++ row_bytes r
unfolding rows_bytes
rows_bytes-append [] r = append-nil (row_bytes r)
rows_bytes-append (x ∷ rows) r =
    ap (λ l. row_bytes x ++ l) (rows_bytes-append rows r)
    ∙ sym (append_assoc (row_bytes x) (rows_bytes rows) (row_bytes r))

-- The header is valid for a body of just these rows.
pub rows-valid :
    (dim : ℕ) (rows : List Row) (h : DeltaHeader)
    → Heads dim rows h
    → h.reserved ≡ 0
    → 0 < dim
    → length rows ≤ tids_max_vecs
    → (body_bytes : ℕ) → body_bytes ≡ length rows * delta_record_bytes dim
    → delta_validate h body_bytes ≡ true
unfolding delta_validate
rows-valid dim rows h v reserved wide few n e =
    let rec_bound : delta_record_bytes dim ≤ 2 ^ 34 + 8 = record_bound dim v.dim_fits in
    let small : length rows * delta_record_bytes dim ≤ tids_max_vecs * (2 ^ 34 + 8) =
      mul-le-mul few rec_bound in
    let width : h.n_rows * delta_record_bytes h.dim ≡ length rows * delta_record_bytes dim =
      ap₂ (λ (m n : ℕ). m * delta_record_bytes n) v.n_rows v.dim in
    let whole : h.n_rows * delta_record_bytes h.dim % 2 ^ 64 ≡ n = omega (arith, width, small, e) in
    rw (whole, v.magic, v.version, reserved, ==_refl n) (ground (arith, v.n_rows, v.dim, wide, few))
