-- ===== src/Append/Deleted.antt =====
-- After `cuvs_tombstone_append` the tombstones that scans go by are those of before and the new one.
use pg_cuvs.Base.{
  ℕ, ◌+◌, ◌^◌, ◌<◌, ◌≤◌, ◌≡◌, refl, ap, sym, subst, ◌∙◌, ◌⊎◌, inl, inr, List, [], ◌∷◌, ◌++◌, Bool,
  true, false≢true, ◌&&◌, Option, some, length, arith, append-nil, length-append, Bool-cases,
}
use pg_cuvs.Sidecar.Tids.{tids_max_vecs}
use pg_cuvs.Sidecar.Tombstones.{
  TombstoneHeader, TombstoneRecord, usable_tombstones, tombstone_header_init,
}
use pg_cuvs.Append.{
  Io, at_cap, read_tids_crc, tombstone_header_bytes, tombstone_header, tombstone_append_entry,
  tombstone_append,
}
use pg_cuvs.Append.Tombs.{
  entry_bytes, entries_bytes, EntriesFit, Heads, one_more, tombstone_header-Heads,
  entries_bytes-append, entry-Appended,
}
use pg_cuvs.Append.Entries.{usable_tombstones-entries, entry_first}

-- The tombstone file `f` of a base build holds these tombstones: it is new and empty, or has a
-- header, the tombstones and whatever an append that failed has left behind them.
pub record Holds (crc : ℕ) (f : List ℕ) (recs : List TombstoneRecord) : Type 0 where
  pub h : TombstoneHeader
  pub heads : Heads recs h
  pub base : h.base_tids_crc32 ≡ crc
  pub file :
      ((f ≡ []) × (recs ≡ []) × (h ≡ tombstone_header_init crc))
      ⊎ ((tail : List ℕ) × (f ≡ tombstone_header_bytes h ++ (entries_bytes recs ++ tail)))

length-snoc :
    (recs : List TombstoneRecord) (r : TombstoneRecord)
    → length (recs ++ (r ∷ [])) ≡ length recs + 1
length-snoc recs r = length-append recs (r ∷ [])

EntriesFit-append :
    (recs : List TombstoneRecord) (r : TombstoneRecord)
    → EntriesFit recs
    → EntriesFit (r ∷ [])
    → EntriesFit (recs ++ (r ∷ []))
EntriesFit-append [] r v v' = v'
EntriesFit-append (x ∷ recs) r v v' = (v.0, EntriesFit-append recs r v.1 v')

Heads-one_more :
    (recs : List TombstoneRecord) (h : TombstoneHeader) (r : TombstoneRecord)
    → Heads recs h
    → EntriesFit (r ∷ [])
    → length recs < tids_max_vecs
    → Heads (recs ++ (r ∷ [])) (one_more h)
Heads-one_more recs h r v fits few = record {
  magic = v.magic;
  version = v.version;
  n_entries = omega (arith, v.n_entries, length-snoc recs r);
  fit = EntriesFit-append recs r v.fit fits;
  few = omega (arith, length-snoc recs r);
  crc_fits = v.crc_fits;
  reserved = v.reserved;
}

init_empty : (crc : ℕ) → (tombstone_header_init crc).n_entries ≡ 0
unfolding tombstone_header_init
init_empty crc = refl

module _ (io : Io) (max_rows : ℕ) (tids : Option (List ℕ)) (crc : ℕ) (r : TombstoneRecord) where
  abbrev after : List ℕ → Bool × List ℕ
  after f = tombstone_append io tids max_rows r.tid r.delete_xid f

  -- What a successful append has done with the header that it went on with.
  unlocked :
      (f : List ℕ) (h : TombstoneHeader)
      → tombstone_header (read_tids_crc tids) f ≡ some h
      → h.n_entries < 2 ^ 63
      → (after f).0 ≡ true
      → (after f ≡ tombstone_append_entry io max_rows h r.tid r.delete_xid f)
        × (h.n_entries < max_rows)
  unfolding tombstone_append tombstone_append_entry at_cap
  unlocked f h found few = elim (Bool-cases (io.opens && io.locks)) [
    | inr closed ↦ rw closed (λ ok. absurd (false≢true ok))
    | inl locked ↦
        rw (locked, found)
          (elim (Bool-cases (at_cap max_rows h.n_entries)) [
            | inl full ↦ rw full (λ ok. absurd (false≢true ok))
            | inr fits ↦ λ ok. (refl, ground (arith, fits, few))
          ])
  ]

  -- Either way the append leaves the header of one entry more, the old entries and the new one.
  file_after :
      (f : List ℕ) (recs : List TombstoneRecord) (s : Holds crc f recs)
      → read_tids_crc tids ≡ some crc
      → (after f).0 ≡ true
      → ((after f).1 ≡ tombstone_header_bytes (one_more s.h) ++ entries_bytes (recs ++ (r ∷ [])))
        × (length recs < max_rows)
  unfolding tombstone_header entries_bytes
  file_after f recs s read ok = elim s.file [
    | inl (e, none_yet, e') ↦
        let h = tombstone_header_init crc in
        let ok' : (after []).0 ≡ true = subst (λ g. (after g).0 ≡ true) e ok in
        let (went, capped) = unlocked [] h (rw read refl) (omega (arith, init_empty crc)) ok' in
        let ok'' : (tombstone_append_entry io max_rows h r.tid r.delete_xid []).0 ≡ true =
          sym (ap (λ p. p.0) went) ∙ ok' in
        (
          rw (e, e', none_yet, append-nil (entry_bytes r))
              (ap (λ p. p.1) went ∙ entry_first io max_rows h r (init_empty crc) ok''),
          rw none_yet (omega (arith, capped)),
        )
    | inr (tail, e) ↦
        let g = tombstone_header_bytes s.h ++ (entries_bytes recs ++ tail) in
        let ok' : (after g).0 ≡ true = subst (λ l. (after l).0 ≡ true) e ok in
        let (went, capped) =
          unlocked g s.h
            (tombstone_header-Heads (read_tids_crc tids) recs s.h (entries_bytes recs ++ tail)
              s.heads)
            (omega (arith, s.heads.n_entries, s.heads.few)) ok' in
        (
          rw (e, entries_bytes-append recs r)
              (ap (λ p. p.1) went
                ∙ elim (entry-Appended io max_rows s.h r recs tail s.heads.n_entries s.heads.few) [
                  | inl (good, e') ↦ e'
                  | inr (bad, rest) ↦ absurd (false≢true (sym bad ∙ sym (ap (λ p. p.0) went) ∙ ok'))
                ]),
          omega (arith, s.heads.n_entries, capped),
        )
  ]

  -- A deletion that was recorded is one that scans go by: after `cuvs_tombstone_append` has
  -- succeeded on the tombstone file of the current base build, whether or not earlier appends have
  -- failed there, the tombstones that `cuvs_apply_tombstones` goes by are those of before and the
  -- new one, in this order. The cap of the session, cuvs.max_delta_rows, is at most 10^9.
  pub usable_tombstones-tombstone_append :
      (f : List ℕ) (recs : List TombstoneRecord)
      → Holds crc f recs
      → EntriesFit (r ∷ [])
      → max_rows ≤ tids_max_vecs
      → read_tids_crc tids ≡ some crc
      → (tombstone_append io tids max_rows r.tid r.delete_xid f).0 ≡ true
      → usable_tombstones
          (read_tids_crc tids)
          (some (tombstone_append io tids max_rows r.tid r.delete_xid f).1)
        ≡ some (recs ++ (r ∷ []))
  usable_tombstones-tombstone_append f recs s fits cap read ok =
      let (e, capped) = file_after f recs s read ok in
      let size : length (recs ++ (r ∷ [])) ≡ length recs + 1 = length-snoc recs r in
      rw (e, read, ← s.base)
        (usable_tombstones-entries (recs ++ (r ∷ [])) (one_more s.h)
          (Heads-one_more recs s.h r s.heads fits (omega arith)) (omega arith))

  -- The file then holds the new tombstone too, and nothing behind it.
  pub append-Holds :
      (f : List ℕ) (recs : List TombstoneRecord)
      → Holds crc f recs
      → EntriesFit (r ∷ [])
      → max_rows ≤ tids_max_vecs
      → read_tids_crc tids ≡ some crc
      → (tombstone_append io tids max_rows r.tid r.delete_xid f).0 ≡ true
      → Holds crc (tombstone_append io tids max_rows r.tid r.delete_xid f).1 (recs ++ (r ∷ []))
  append-Holds f recs s fits cap read ok =
      let (e, capped) = file_after f recs s read ok in
      record {
        h = one_more s.h;
        heads = Heads-one_more recs s.h r s.heads fits (omega arith);
        base = s.base;
        file = inr (
          [],
          e
              ∙ ap (λ l. tombstone_header_bytes (one_more s.h) ++ l)
                  (sym (append-nil (entries_bytes (recs ++ (r ∷ []))))),
        );
      }
