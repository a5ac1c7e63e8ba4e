-- ===== src/Append/Entries.antt =====
-- A tombstone file of a header and its entries, as a scan reads it and as a first append leaves it.
use pg_cuvs.Base.{
  ℕ, ◌+◌, ◌-◌, ◌*◌, ◌/◌, ◌^◌, ◌%◌, ◌<◌, ◌≡◌, ap, sym, ◌∙◌, inl, inr, List, [], ◌++◌, true, false,
  false≢true, some, length, replicate, leb, ◌==◌, ==_refl, arith, append-nil, length-append,
  Bool-cases,
}
use pg_cuvs.Base.Bytes.{le}
use pg_cuvs.Sidecar.File.{fread}
use pg_cuvs.Sidecar.File.Laws.{fread-append}
use pg_cuvs.Sidecar.Tids.{tids_max_vecs}
use pg_cuvs.Sidecar.Tombstones.{
  TombstoneHeader, TombstoneRecord, tombstones_of, tombstone_validate, usable_tombstones,
}
use pg_cuvs.Append.{
  Io, pwrite_all, ◌and_then◌, at_cap, tombstone_header_bytes, tombstone_append_entry,
}
use pg_cuvs.Append.Rows.{pwrite_all-Behind_first, header_write-Appended}
use pg_cuvs.Append.Tombs.{
  entry_bytes, entries_bytes, Heads, one_more, length-header, length-entry_bytes,
  length-entries_bytes, header_of-bytes, tombstones_of-entries_bytes, tombstone_append_entry-fits,
}

-- A file of a header and its entries is one that scans go by.
pub usable_tombstones-entries :
    (recs : List TombstoneRecord) (h : TombstoneHeader)
    → Heads recs h
    → 0 < length recs
    → usable_tombstones
        (some h.base_tids_crc32)
        (some (tombstone_header_bytes h ++ entries_bytes recs))
      ≡ some recs
unfolding usable_tombstones tombstone_validate
usable_tombstones-entries recs h v some_recs =
    let hdr = tombstone_header_bytes h in
    let body = entries_bytes recs in
    let size : length (hdr ++ body) - 32 ≡ h.n_entries * 16 =
      omega
        (arith, length-append hdr body, length-header h, length-entries_bytes recs, v.n_entries) in
    let whole : h.n_entries * 16 % 2 ^ 64 ≡ h.n_entries * 16 = omega (arith, v.n_entries, v.few) in
    let counted : leb h.n_entries tids_max_vecs ≡ true = ground (arith, v.n_entries, v.few) in
    let read : fread (h.n_entries * 16) body ≡ some (body, []) =
      ap (fread (h.n_entries * 16)) (sym (append-nil body))
      ∙ fread-append (h.n_entries * 16) body []
          (omega (arith, length-entries_bytes recs, v.n_entries)) in
    let present : (h.n_entries == 0) ≡ false = ground (arith, v.n_entries, some_recs) in
    let listed : tombstones_of h.n_entries body ≡ recs =
      ap (λ (n : ℕ). tombstones_of n body) v.n_entries ∙ tombstones_of-entries_bytes recs v.fit in
    rw
      (
        fread-append 32 hdr body (length-header h),
        header_of-bytes recs h v,
        size,
        whole,
        present,
        read,
        listed,
        v.magic,
        v.version,
        v.reserved,
        ==_refl h.base_tids_crc32,
      )
      (ground (arith, v.n_entries, v.few))

-- The first entry of an empty file.
pub entry_first :
    (io : Io) (max_rows : ℕ) (h : TombstoneHeader) (r : TombstoneRecord)
    → h.n_entries ≡ 0
    → (tombstone_append_entry io max_rows h r.tid r.delete_xid []).0 ≡ true
    → (tombstone_append_entry io max_rows h r.tid r.delete_xid []).1
      ≡ tombstone_header_bytes (one_more h) ++ entry_bytes r
unfolding entry_bytes ◌and_then◌ le
entry_first io max_rows h r none_yet =
    let hdr' = tombstone_header_bytes (one_more h) in
    let start : 32 + h.n_entries * 16 ≡ 32 = omega (arith, none_yet) in
    let size : length (hdr' ++ entry_bytes r) ≡ 32 + (h.n_entries + 1) * 16 = omega (
      arith,
      length-append hdr' (entry_bytes r),
      length-header (one_more h),
      length-entry_bytes r,
      none_yet,
    ) in
    rw (tombstone_append_entry-fits io max_rows h r.tid r.delete_xid [] (omega (arith, none_yet)))
      (elim (Bool-cases (at_cap max_rows h.n_entries)) [
        | inl full ↦ rw full (λ ok. absurd (false≢true ok))
        | inr fits ↦
            rw (fits, start)
              (elim (Bool-cases
                (pwrite_all io.tid_write 32 (le 8 r.tid ++ le 8 r.delete_xid) []).0) [
                  | inr bad ↦ rw bad (λ ok. absurd (false≢true ok))
                  | inl good ↦ λ ok.
                      elim (header_write-Appended io io.header_write (32 + (h.n_entries + 1) * 16)
                        (replicate 32 0) hdr' [] (entry_bytes r) _ (length-header (one_more h)) size
                        (pwrite_all-Behind_first io.tid_write (r.tid % 256)
                          (le 7 (r.tid / 256) ++ le 8 r.delete_xid) good)) [
                            | inl (ok', e) ↦ e
                            | inr (bad, rest) ↦ absurd (false≢true (sym bad ∙ ok))
                          ]
                ])
      ])
