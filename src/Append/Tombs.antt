-- ===== src/Append/Tombs.antt =====
-- A tombstone that `cuvs_tombstone_append` has put into its file is one that scans go by.
use pg_cuvs.Base.{
  ℕ, ◌+◌, ◌*◌, ◌%◌, ◌^◌, false, leb, if◌then◌else◌, or-false, ◌<◌, ◌≤◌, ◌≡◌, refl, ap, sym, ◌∙◌,
  inl, inr, List, [], ◌∷◌, ◌++◌, Option, some, length, ◌==◌, arith, append-nil, append_assoc,
  length-append, Bool-cases,
}
use pg_cuvs.Base.Bytes.{le, of_le-le}
use pg_cuvs.Sidecar.File.{fread, guard, ◌>>=◌, ◌>>◌}
use pg_cuvs.Sidecar.File.Laws.{fread-append}
use pg_cuvs.Sidecar.Tids.{tids_max_vecs}
use pg_cuvs.Sidecar.Tombstones.{
  TombstoneHeader, TombstoneRecord, header_of, tombstones_of, tombstone_magic, tombstone_version,
}
use pg_cuvs.Append.{
  Io, pwrite_all, ◌and_then◌, finish, at_cap, tombstone_header_bytes, tombstone_header,
  tombstone_append_entry,
}
use pg_cuvs.Append.Rows.{Appended, pwrite_all-Behind, header_write-Appended}

unfoldable pub entry_bytes : TombstoneRecord → List ℕ
entry_bytes r = le 8 r.tid ++ le 8 r.delete_xid

unfoldable pub entries_bytes : List TombstoneRecord → List ℕ
entries_bytes [] = []
entries_bytes (r ∷ rs) = entry_bytes r ++ entries_bytes rs

abbrev pub EntriesFit : List TombstoneRecord → Type 0
EntriesFit [] = Unit {0}
EntriesFit (r ∷ rs) = ((r.tid < 2 ^ 64) × (r.delete_xid < 2 ^ 64)) × EntriesFit rs

-- A header that an append takes for these entries.
pub record Heads (recs : List TombstoneRecord) (h : TombstoneHeader) : Type 0 where
  pub magic : h.magic ≡ tombstone_magic
  pub version : h.version ≡ tombstone_version
  pub n_entries : h.n_entries ≡ length recs
  pub fit : EntriesFit recs
  pub few : length recs ≤ tids_max_vecs
  pub crc_fits : h.base_tids_crc32 < 2 ^ 32
  pub reserved : h.reserved ≡ 0

abbrev pub one_more : TombstoneHeader → TombstoneHeader
one_more h = record h { n_entries = h.n_entries + 1 }

pub length-header : (h : TombstoneHeader) → length (tombstone_header_bytes h) ≡ 32
unfolding tombstone_header_bytes le
length-header h = refl

pub length-entry_bytes : (r : TombstoneRecord) → length (entry_bytes r) ≡ 16
unfolding entry_bytes le
length-entry_bytes r = refl

pub length-entries_bytes :
    (recs : List TombstoneRecord) → length (entries_bytes recs) ≡ length recs * 16
unfolding entries_bytes
length-entries_bytes [] = omega arith
length-entries_bytes (r ∷ rs) = omega (
  arith,
  length-append (entry_bytes r) (entries_bytes rs),
  length-entry_bytes r,
  length-entries_bytes rs,
)

pub header_of-bytes :
    (recs : List TombstoneRecord) (h : TombstoneHeader)
    → Heads recs h
    → header_of (tombstone_header_bytes h) ≡ h
unfolding header_of tombstone_header_bytes le
header_of-bytes recs h v = λ i. record {
  magic = of_le-le 4 h.magic (omega (arith, v.magic)) i;
  version = of_le-le 4 h.version (omega (arith, v.version)) i;
  n_entries = of_le-le 8 h.n_entries (omega (arith, v.n_entries, v.few)) i;
  base_tids_crc32 = of_le-le 4 h.base_tids_crc32 v.crc_fits i;
  reserved = of_le-le 4 h.reserved (omega (arith, v.reserved)) i;
}

cons_header :
    (base_crc : Option ℕ) (h : TombstoneHeader) (body : List ℕ)
    → tombstone_header base_crc (tombstone_header_bytes h ++ body) ≡ (do
      (raw, rest) ← fread 32 (tombstone_header_bytes h ++ body)
      let h' = header_of raw
      guard (h'.magic == tombstone_magic)
      guard (h'.version == tombstone_version)
      some h')
unfolding tombstone_header tombstone_header_bytes le
cons_header base_crc h body = refl

pub tombstone_header-Heads :
    (base_crc : Option ℕ) (recs : List TombstoneRecord) (h : TombstoneHeader) (body : List ℕ)
    → Heads recs h
    → tombstone_header base_crc (tombstone_header_bytes h ++ body) ≡ some h
tombstone_header-Heads base_crc recs h body v =
    cons_header base_crc h body
    ∙ rw
        (
          fread-append 32 (tombstone_header_bytes h) body (length-header h),
          header_of-bytes recs h v,
          v.magic,
          v.version,
        )
        refl

pub entries_bytes-append :
    (recs : List TombstoneRecord) (r : TombstoneRecord)
    → entries_bytes (recs ++ (r ∷ [])) ≡ entries_bytes recs ++ entry_bytes r
unfolding entries_bytes
entries_bytes-append [] r = append-nil (entry_bytes r)
entries_bytes-append (x ∷ recs) r =
    ap (λ l. entry_bytes x ++ l) (entries_bytes-append recs r)
    ∙ sym (append_assoc (entry_bytes x) (entries_bytes recs) (entry_bytes r))

pub tombstones_of-entries_bytes :
    (recs : List TombstoneRecord)
    → EntriesFit recs
    → tombstones_of (length recs) (entries_bytes recs) ≡ recs
unfolding tombstones_of entries_bytes entry_bytes le
tombstones_of-entries_bytes [] v = refl
tombstones_of-entries_bytes (r ∷ rs) v = λ i.
    record { tid = of_le-le 8 r.tid v.0.0 i; delete_xid = of_le-le 8 r.delete_xid v.0.1 i }
    ∷ tombstones_of-entries_bytes rs v.1 i

-- Where the entries are few, the writes of an entry go behind those that the header counts.
pub tombstone_append_entry-fits :
    (io : Io) (max_rows : ℕ) (h : TombstoneHeader) (tid delete_xid : ℕ) (f : List ℕ)
    → h.n_entries ≤ tids_max_vecs
    → tombstone_append_entry io max_rows h tid delete_xid f ≡ (
        if at_cap max_rows h.n_entries
        then (false, f)
        else pwrite_all io.tid_write (32 + h.n_entries * 16) (le 8 tid ++ le 8 delete_xid) f
          and_then pwrite_all io.header_write 0 (tombstone_header_bytes (one_more h))
          and_then finish io (32 + (h.n_entries + 1) * 16))
unfolding tombstone_append_entry
tombstone_append_entry-fits io max_rows h tid delete_xid f few =
    let off = 32 + h.n_entries * 16 in
    let same : off % 2 ^ 64 ≡ off = omega (arith, few) in
    let next : (h.n_entries + 1) % 2 ^ 64 ≡ h.n_entries + 1 = omega (arith, few) in
    let size : (32 + (h.n_entries + 1) * 16) % 2 ^ 64 ≡ 32 + (h.n_entries + 1) * 16 =
      omega (arith, few) in
    let positive : leb (2 ^ 63) off ≡ false = ground (arith, few) in
    rw (same, next, size, positive, or-false (at_cap max_rows h.n_entries)) refl

-- What the append of an entry leaves, in a file that holds entries or in an empty one.
pub entry-Appended :
    (io : Io) (max_rows : ℕ) (h : TombstoneHeader) (r : TombstoneRecord)
    (recs : List TombstoneRecord) (tail : List ℕ)
    → h.n_entries ≡ length recs
    → length recs ≤ tids_max_vecs
    → Appended
        (tombstone_append_entry io max_rows h r.tid r.delete_xid
          (tombstone_header_bytes h ++ (entries_bytes recs ++ tail)))
        (tombstone_header_bytes h)
        (tombstone_header_bytes (one_more h))
        (entries_bytes recs)
        (entry_bytes r)
unfolding entry_bytes
entry-Appended io max_rows h r recs tail counted few =
    let hdr = tombstone_header_bytes h in
    let hdr' = tombstone_header_bytes (one_more h) in
    let body = entries_bytes recs in
    let size : length (hdr ++ body) ≡ 32 + h.n_entries * 16 =
      omega (arith, length-append hdr body, length-header h, length-entries_bytes recs, counted) in
    let whole : length (hdr' ++ (body ++ entry_bytes r)) ≡ 32 + (h.n_entries + 1) * 16 = omega (
      arith,
      length-append hdr' (body ++ entry_bytes r),
      length-append body (entry_bytes r),
      length-header (one_more h),
      length-entry_bytes r,
      length-entries_bytes recs,
      counted,
    ) in
    rw
      (tombstone_append_entry-fits io max_rows h r.tid r.delete_xid (hdr ++ (body ++ tail))
        (omega (arith, counted, few)))
      (elim (Bool-cases (at_cap max_rows h.n_entries)) [
        | inl full ↦ rw full (inr (refl, inl (tail, refl)))
        | inr fits ↦ rw fits (
            header_write-Appended io io.header_write (32 + (h.n_entries + 1) * 16) hdr hdr' body
              (entry_bytes r) _ (length-header (one_more h) ∙ sym (length-header h)) whole
              (pwrite_all-Behind io.tid_write (32 + h.n_entries * 16) hdr body (entry_bytes r) tail
                size))
      ])
