-- ===== src/Append/Hooks/Kept.antt =====
-- No write is lost to the searches of the index, as long as the daemon hears the marks.
use pg_cuvs.Base.{
  ℕ, ◌+◌, ◌^◌, ◌<◌, ◌≤◌, ◌≡◌, refl, ap, sym, subst, ◌∙◌, ◌⊎◌, inl, inr, List, [], ◌∷◌, ◌++◌, Bool,
  true, false, false≢true, ◌||◌, Option, some, ◌==◌, ==_iff, if◌then◌else◌, map, Bool-cases,
  append_assoc, append-nil, length,
}
use pg_cuvs.Base.Bytes.{Fit}
use pg_cuvs.Sidecar.Tids.{tids_max_vecs}
use pg_cuvs.Sidecar.Tombstones.{TombstoneRecord}
use pg_cuvs.TopK.{Floats, Result}
use pg_cuvs.Delta.{merge_delta, merge_candidates}
use pg_cuvs.Append.{Io, ◌and_then◌, read_tids_crc, delta_append, tombstone_append}
use pg_cuvs.Append.DeltaRows.{Row, RowsFit}
use pg_cuvs.Append.Pending.{Holds, candidate, merge_delta-delta_append}
use pg_cuvs.Append.Deleted as Deleted
use pg_cuvs.Append.Hooks.{
  Index, mark_index_stale, or_mark, extended, aminsert, delete_loop, or_mark_deleted, ambulkdelete,
}

or-true : (b : Bool) → (b || true) ≡ true
or-true true = refl
or-true false = refl

or_mark-true :
    (hears : Bool) (s : Index) (p : Bool × List ℕ)
    → p.0 ≡ true
    → or_mark hears s p ≡ record s { delta = p.1 }
unfolding or_mark
or_mark-true hears s (true, f) e = refl
or_mark-true hears s (false, f) e = absurd (false≢true e)

or_mark-false :
    (hears : Bool) (s : Index) (p : Bool × List ℕ)
    → p.0 ≡ false
    → or_mark hears s p ≡ mark_index_stale hears (record s { delta = p.1 })
unfolding or_mark
or_mark-false hears s (true, f) e = absurd (false≢true (sym e))
or_mark-false hears s (false, f) e = refl

-- A row that is not NULL, of dimension at least 1, is never lost, if the daemon hears the marks and
-- the delta file holds the rows of the current base build, fewer than 10^9: after `cuvs_aminsert` the
-- daemon has taken it into its graph, or the index is marked stale, so that the planner goes another
-- way, or every merge that finds the delta file, in a session whose cuvs.max_delta_rows is more than
-- the rows of before, goes over the old rows and the new one. With the delta switched off (no rows
-- allowed), the index is marked, unless this relation's cache says that it has been.
pub aminsert-kept :
    (fl : Floats) (distance : List ℕ → fl.F) (extend : Option ℕ) (io : Io) (tids : Option (List ℕ))
    (max_rows search_max_rows dim metric crc : ℕ) (r : Row) (rows : List Row) (s : Index)
    → Holds dim metric crc s.delta rows
    → RowsFit dim (r ∷ [])
    → 0 < dim
    → length rows < tids_max_vecs
    → length rows < search_max_rows
    → read_tids_crc tids ≡ some crc
    → let s' = aminsert true extend io tids max_rows dim metric (some r) s in
      (extended extend ≡ true)
      ⊎ (s'.stale ≡ true)
      ⊎ ((max_rows ≡ 0) × (s.amcache ≡ true))
      ⊎ ((sort : ℕ → List (Result fl) → List (Result fl)) (k search_metric : ℕ)
            (base : List (Result fl))
          → merge_delta fl sort distance search_max_rows
              (read_tids_crc tids)
              (some s'.delta)
              dim
              k
              search_metric
              base
            ≡ some (
                merge_candidates fl
                  (sort search_metric)
                  k
                  base
                  (map (candidate fl distance) (rows ++ (r ∷ [])))))
unfolding aminsert mark_index_stale
aminsert-kept fl distance extend io tids max_rows search_max_rows dim metric crc r rows s holds fits
      wide few capped read =
    let p = delta_append io tids max_rows r.tid r.vec dim metric s.delta in
    elim (Bool-cases (max_rows == 0)) [
      | inl off ↦ rw off (elim (Bool-cases s.amcache) [
        | inl seen ↦ inr (inr (inl ((==_iff max_rows 0).0 off, seen)))
        | inr new ↦ rw new (inr (inl (or-true s.stale)))
      ])
      | inr on ↦ rw on (elim (Bool-cases s.stale) [
        | inl stale ↦ rw stale (inr (inl refl))
        | inr fresh ↦ simp fresh (elim (Bool-cases (extended extend)) [
          | inl taken ↦ inl taken
          | inr left ↦ rw left (elim (Bool-cases p.0) [
            | inr bad ↦ rw (or_mark-false true s p bad) (inr (inl (or-true s.stale)))
            | inl ok ↦ rw (or_mark-true true s p ok) (
                inr (
                  inr (
                    inr (λ sort k search_metric base.
                      merge_delta-delta_append fl distance io tids max_rows search_max_rows dim
                        metric crc r s.delta rows sort k search_metric base holds fits wide few
                        capped read ok))))
          ])
        ])
      ])
    ]

-- The tombstones of the dead TIDs, in their order.
unfoldable pub tombstones_for : (ℕ → Bool) → ℕ → List ℕ → List TombstoneRecord
tombstones_for dead xid [] = []
tombstones_for dead xid (t ∷ ts) =
    let rest = tombstones_for dead xid ts in
    if dead t then record { tid = t; delete_xid = xid } ∷ rest else rest

and_then-true :
    (p : Bool × List ℕ) (k : List ℕ → Bool × List ℕ)
    → (p and_then k).0 ≡ true
    → (p.0 ≡ true) × ((p and_then k) ≡ k p.1)
unfolding ◌and_then◌
and_then-true (true, f) k h = (refl, refl)
and_then-true (false, f) k h = absurd (false≢true h)

delete_loop-Holds :
    (dead : ℕ → Bool) (ios : ℕ → Io) (tids : Option (List ℕ)) (max_rows xid crc : ℕ) (ts : List ℕ)
    (n : ℕ) (f : List ℕ) (recs : List TombstoneRecord)
    → Deleted.Holds crc f recs
    → Fit 8 ts
    → xid < 2 ^ 64
    → max_rows ≤ tids_max_vecs
    → read_tids_crc tids ≡ some crc
    → (delete_loop dead ios tids max_rows xid n ts f).0 ≡ true
    → Deleted.Holds crc
        (delete_loop dead ios tids max_rows xid n ts f).1
        (recs ++ tombstones_for dead xid ts)
unfolding delete_loop tombstones_for
delete_loop-Holds dead ios tids max_rows xid crc [] n f recs s fits x capped read =
    λ ok. subst (Deleted.Holds crc f) (sym (append-nil recs)) s
delete_loop-Holds dead ios tids max_rows xid crc (t ∷ ts) n f recs s fits x capped read =
    elim (Bool-cases (dead t)) [
      | inr alive ↦
          rw alive
            (delete_loop-Holds dead ios tids max_rows xid crc ts n f recs s fits.1 x capped read)
      | inl gone ↦ rw gone (λ ok.
          let r : TombstoneRecord = record { tid = t; delete_xid = xid } in
          let (ok', e) =
            and_then-true (tombstone_append (ios n) tids max_rows t xid f)
              (delete_loop dead ios tids max_rows xid (n + 1) ts) ok in
          let after =
            Deleted.append-Holds (ios n) max_rows tids crc r f recs s ((fits.0, x), tt) capped read
              ok' in
          let ok'' = sym (ap (λ p. p.0) e) ∙ ok in
          let done =
            delete_loop-Holds dead ios tids max_rows xid crc ts (n + 1)
              (tombstone_append (ios n) tids max_rows t xid f).1 (recs ++ (r ∷ [])) after fits.1 x
              capped read ok'' in
          subst (λ g. Deleted.Holds crc g (recs ++ (r ∷ tombstones_for dead xid ts)))
            (sym (ap (λ p. p.1) e))
            (subst
              (Deleted.Holds crc
                (delete_loop dead ios tids max_rows xid (n + 1) ts
                  (tombstone_append (ios n) tids max_rows t xid f).1).1)
              (append_assoc recs (r ∷ []) (tombstones_for dead xid ts)) done))
    ]

or_mark_deleted-cases :
    (s : Index) (p : Bool × List ℕ)
    → ((or_mark_deleted true s p).stale ≡ true)
      ⊎ ((p.0 ≡ true) × ((or_mark_deleted true s p).tombstones ≡ p.1))
unfolding or_mark_deleted mark_index_stale
or_mark_deleted-cases s (true, f) = inr (refl, refl)
or_mark_deleted-cases s (false, f) = inl (or-true s.stale)

-- No deletion is lost, if the daemon hears the marks, the tombstone file holds the tombstones of the
-- current base build, and cuvs.max_delta_rows is at most 10^9: after `cuvs_ambulkdelete` the index is marked stale, or its tombstone file
-- holds those of before and one for each dead TID of the base, in their order.
pub ambulkdelete-kept :
    (dead : ℕ → Bool) (ios : ℕ → Io) (tids : Option (List ℕ)) (base : List ℕ) (max_rows xid crc : ℕ)
    (recs : List TombstoneRecord) (s : Index)
    → Deleted.Holds crc s.tombstones recs
    → Fit 8 base
    → xid < 2 ^ 64
    → max_rows ≤ tids_max_vecs
    → read_tids_crc tids ≡ some crc
    → let s' = ambulkdelete true dead ios tids (some base) max_rows xid s in
      (s'.stale ≡ true) ⊎ Deleted.Holds crc s'.tombstones (recs ++ tombstones_for dead xid base)
unfolding ambulkdelete mark_index_stale
ambulkdelete-kept dead ios tids base max_rows xid crc recs s holds fits x capped read =
    let p = delete_loop dead ios tids max_rows xid 0 base s.tombstones in
    elim (Bool-cases (max_rows == 0)) [
      | inl off ↦ rw off (inl (or-true s.stale))
      | inr on ↦ rw on (elim (Bool-cases s.stale) [
        | inl stale ↦ rw stale (inl refl)
        | inr fresh ↦ simp fresh (elim (or_mark_deleted-cases s p) [
          | inl marked ↦ inl marked
          | inr (ok, e) ↦ inr (
              subst (λ g. Deleted.Holds crc g (recs ++ tombstones_for dead xid base)) (sym e)
                (delete_loop-Holds dead ios tids max_rows xid crc base 0 s.tombstones recs holds
                  fits x capped read ok))
        ])
      ])
    ]
