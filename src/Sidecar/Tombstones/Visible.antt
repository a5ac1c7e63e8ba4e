-- ===== src/Sidecar/Tombstones/Visible.antt =====
-- What a scan still shows after `cuvs_apply_tombstones`.
use pg_cuvs.Base.{
  ℕ, zero, suc, ◌%◌, ◌^◌, ◌≡◌, refl, sym, ◌∙◌, inl, inr, List, [], ◌∷◌, ◌++◌, Bool, true, false,
  false≢true, not, ◌&&◌, Option, none, some, length, get_elem?, ◌==◌, ==_iff, arith, Bool-cases,
}
use pg_cuvs.Sidecar.Tombstones.{
  Hit, TombstoneRecord, is_dead, usable_tombstones, drop_dead, apply_tombstones,
}
use pg_cuvs.Sidecar.Tombstones.Filter.{Kept, live, compact-live}

module _ (did_commit in_snapshot : ℕ → Bool) where
  -- One of the tombstones is of the TID, and its transaction has committed and is not in progress for
  -- the snapshot.
  abbrev pub Hides : List TombstoneRecord → ℕ → Type 0
  Hides recs tid =
      (i : ℕ) × (t : TombstoneRecord) × (get_elem? recs i ≡ some t)
      × (t.tid ≡ tid)
      × (did_commit (t.delete_xid % 2 ^ 32) ≡ true)
      × (in_snapshot (t.delete_xid % 2 ^ 32) ≡ false)

  is_dead-Hides :
      (recs : List TombstoneRecord) (tid : ℕ)
      → is_dead did_commit in_snapshot recs tid ≡ true
      → Hides recs tid
  unfolding is_dead
  is_dead-Hides [] tid dead = absurd (false≢true dead)
  is_dead-Hides (t ∷ ts) tid dead =
      let xid = t.delete_xid % 2 ^ 32 in
      elim (Bool-cases ((t.tid == tid) && did_commit xid && not (in_snapshot xid))) [
        | inl here ↦ (0, t, refl, ground (arith, here), ground (arith, here), ground (arith, here))
        | inr other ↦
            let (i, t', at, same, commits, past) =
              is_dead-Hides ts tid (ground (arith, dead, other)) in
            (suc i, t', at, same, commits, past)
      ]

  Hides-is_dead :
      (recs : List TombstoneRecord) (tid : ℕ)
      → Hides recs tid
      → is_dead did_commit in_snapshot recs tid ≡ true
  unfolding is_dead
  Hides-is_dead [] tid (i, t, at, same, commits, past) = absurd (ground arith)
  Hides-is_dead (x ∷ ts) tid (zero, t, at, same, commits, past) =
      let e : x ≡ t = cc in rw (e, (==_iff t.tid tid).1 same, commits, past) refl
  Hides-is_dead (x ∷ ts) tid (suc i, t, at, same, commits, past) =
      let later = Hides-is_dead ts tid (i, t, at, same, commits, past) in ground (arith, later)

  -- The results that are left, in order: each one that no tombstone hides, and no other.
  pub data Leaves (recs : List TombstoneRecord) : List Hit → List Hit → Type 0 where
    no_more : Leaves recs [] []
    drops :
        {hits kept : List Hit} (h : Hit)
        → Hides recs h.tid
        → Leaves recs hits kept
        → Leaves recs (h ∷ hits) kept
    keeps :
        {hits kept : List Hit} (h : Hit)
        → ¬ Hides recs h.tid
        → Leaves recs hits kept
        → Leaves recs (h ∷ hits) (h ∷ kept)

  -- What a reader of the usable tombstones is to see; without such a file it is everything.
  abbrev pub Visible : Option (List TombstoneRecord) → List Hit → List Hit → Type 0
  Visible none hits kept = kept ≡ hits
  Visible (some recs) hits kept = Leaves recs hits kept

  live-Leaves :
      (recs : List TombstoneRecord) (hits : List Hit)
      → Leaves recs hits (live (is_dead did_commit in_snapshot recs) hits)
  unfolding live
  live-Leaves recs [] = no_more
  live-Leaves recs (h ∷ hits) = elim (Bool-cases (is_dead did_commit in_snapshot recs h.tid)) [
    | inl dead ↦ rw dead (drops h (is_dead-Hides recs h.tid dead) (live-Leaves recs hits))
    | inr alive ↦ rw alive (
        keeps h (λ hidden. false≢true (sym alive ∙ Hides-is_dead recs h.tid hidden))
          (live-Leaves recs hits))
  ]

  drop_dead-Visible :
      (o : Option (List TombstoneRecord)) (hits rest : List Hit)
      → (kept : List Hit) × Kept
          (drop_dead did_commit in_snapshot o (hits ++ rest) (length hits))
          kept
        × Visible o hits kept
  unfolding drop_dead
  drop_dead-Visible none hits rest =
      (hits, record { rest = rest; parts = refl; counted = refl }, refl)
  drop_dead-Visible (some recs) hits rest = (
    live (is_dead did_commit in_snapshot recs) hits,
    compact-live (is_dead did_commit in_snapshot recs) hits rest _,
    live-Leaves recs hits,
  )

  -- `cuvs_apply_tombstones` drops the dead results in place and nothing else: of the first results of
  -- an array it keeps, in order, those that no tombstone hides, where a tombstone hides its TID once
  -- its transaction has committed and is not in progress for the snapshot. Without a tombstone file
  -- that is whole and belongs to the index, it keeps all.
  pub apply_tombstones-Visible :
      (base_crc : Option ℕ) (file : Option (List ℕ)) (hits rest : List Hit)
      → (kept : List Hit) × Kept
          (apply_tombstones did_commit in_snapshot base_crc file (hits ++ rest) (length hits))
          kept
        × Visible (usable_tombstones base_crc file) hits kept
  unfolding apply_tombstones
  apply_tombstones-Visible base_crc file hits rest =
      drop_dead-Visible (usable_tombstones base_crc file) hits rest
