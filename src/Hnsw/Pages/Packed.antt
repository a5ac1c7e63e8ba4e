-- ===== src/Hnsw/Pages/Packed.antt =====
-- The writer puts every element where the layout pass has placed it.
use pg_cuvs.Base.{
  ℕ, zero, suc, ◌+◌, ◌-◌, ◌*◌, ◌/◌, ◌%◌, ◌≤◌, ◌<◌, ◌≡◌, refl, ap, sym, ◌∙◌, inl, inr, List, Bool,
  true, false, some, get_elem?, length, ltb, leb, ◌==◌, if◌then◌else◌, min, arith, Bool-cases,
  dec_lt, false≢true,
}
use native.Mathlib.Nat.{
  div-add-mod', mod-lt, div-le_self, mul-le-mul_right, div-mul-le_self, div-lt_iff_lt-mul,
}
use pg_cuvs.Hnsw.Pages.{
  usable_bytes, maxalign, neigh_tuple_size, needed, elems_per_page, check_hnsw_page_fit, fits_one,
  pack, place, upto, pages, write_elem_pages_packed,
}

get_elem?-upto : (n i j : ℕ) → j < n → get_elem? (upto n i) j ≡ some (i + j)
unfolding upto
get_elem?-upto zero i j h = absurd (omega arith)
get_elem?-upto (suc n) i zero h = ap some (omega arith)
get_elem?-upto (suc n) i (suc j) h =
    get_elem?-upto n (i + 1) j (omega arith) ∙ ap some (omega arith)

-- The page `p` from `start` on has the elements from `start + p * k` on.
get_elem?-pages :
    (fuel k n start p : ℕ)
    → p < fuel
    → start + p * k < n
    → get_elem? (pages fuel k n start) p
      ≡ some (upto (min (start + p * k + k) n - (start + p * k)) (start + p * k))
unfolding pages
get_elem?-pages zero k n start p few h = absurd (omega arith)
get_elem?-pages (suc fuel) k n start zero few h =
    let here : start + 0 * k ≡ start = omega arith in
    let more : ltb start n ≡ true = ground (arith, here) in rw (more, here) refl
get_elem?-pages (suc fuel) k n start (suc p) few h =
    let next : start + suc p * k ≡ start + k + p * k = omega arith in
    let more : ltb start n ≡ true = ground (arith, next) in
    rw (more, next) (get_elem?-pages fuel k n (start + k) p (omega arith) (omega (arith, next)))

length-upto : (n i : ℕ) → length (upto n i) ≡ n
unfolding upto
length-upto zero i = refl
length-upto (suc n) i = ap suc (length-upto n (i + 1))

-- On block `blkno` (the metapage is block 0, so it is the page before that number), the element `i`
-- is the one that is written with as many pairs before it as its offsets say, two tuples a pair; no
-- page has more than `k` pairs.
pub write_elem_pages_packed-place :
    (n_elems k i : ℕ)
    → 0 < k
    → i < n_elems
    → (page : List ℕ) × (get_elem? (write_elem_pages_packed n_elems k) ((place k i).blkno - 1)
        ≡ some page)
      × (get_elem? page (((place k i).elem_offno - 1) / 2) ≡ some i)
      × ((place k i).neigh_offno ≡ (place k i).elem_offno + 1)
      × (length page ≤ k)
unfolding place write_elem_pages_packed
write_elem_pages_packed-place n k i pos h =
    let p = i / k in
    let j = i % k in
    let whole : p * k + j ≡ i = div-add-mod' i k in
    let slot : j < k = mod-lt i pos in
    let few : p < n = omega (arith, div-le_self i k) in
    let block : i / k + 1 - 1 ≡ p = omega arith in
    let pair : (2 * (i % k) + 1 - 1) / 2 ≡ j = omega arith in
    let size = min (0 + p * k + k) n - (0 + p * k) in
    (
      upto size (0 + p * k),
      rw block (get_elem?-pages n k n 0 p few (omega (arith, whole))),
      rw pair (
          get_elem?-upto size (0 + p * k) j (omega (arith, whole, slot))
          ∙ ap some (omega (arith, whole))),
      omega arith,
      omega (arith, length-upto size (0 + p * k)),
    )

needed_mono : (dim w m l l' : ℕ) → l ≤ l' → needed dim w m l ≤ needed dim w m l'
unfolding needed neigh_tuple_size maxalign
needed_mono dim w m l l' h =
    let slots : (l + 2) * m ≤ (l' + 2) * m =
      mul-le-mul_right {m = l + 2} {n = l' + 2} m (omega arith) in
    omega (arith, slots)

needed_pos : (dim w m l : ℕ) → 0 < needed dim w m l
unfolding needed
needed_pos dim w m l = omega arith

-- The page takes as many pairs as `elems_per_page` says.
fits : (n d : ℕ) → 0 < d → n ≡ usable_bytes / d → n * d ≤ usable_bytes
fits n d pos e = omega (arith, div-mul-le_self usable_bytes d, ap (λ (k : ℕ). k * d) e)

one_or_more : (u d : ℕ) → 0 < d → d ≤ u → 1 ≤ u / d
one_or_more u d pos h = elim (dec_lt (u / d) 1) [
  | yes lt ↦ absurd (omega (arith, (div-lt_iff_lt-mul pos).0 lt))
  | no ge ↦ omega arith
]

leb_one : (n : ℕ) → leb 1 n ≡ true → 1 ≤ n
leb_one n h = ground arith

at_least_leb : (n : ℕ) → 1 ≤ n → leb 1 n ≡ true
at_least_leb n h = ground arith

rw_level :
    (hierarchy : Bool) (top level : ℕ)
    → hierarchy ≡ true
    → level ≤ (if hierarchy then top else 0)
    → level ≤ top
rw_level true top level on h = h
rw_level false top level on h = absurd (false≢true on)

no_level :
    (hierarchy : Bool) (top level : ℕ)
    → hierarchy ≡ false
    → level ≤ (if hierarchy then top else 0)
    → level ≡ 0
no_level true top level off h = absurd (false≢true (sym off))
no_level false top level off h = omega arith

-- What a check that passed has found.
one_fits :
    (dim w m top : ℕ)
    → check_hnsw_page_fit dim w m top ≡ true
    → ((dim == 0) ≡ false) × (1 ≤ usable_bytes / needed dim w m top)
unfolding check_hnsw_page_fit fits_one elems_per_page
one_fits dim w m top = elim (Bool-cases (dim == 0)) [
  | inl unset ↦ rw unset (λ ok. absurd (false≢true ok))
  | inr dim_set ↦ rw dim_set (λ ok. (refl, leb_one (usable_bytes / needed dim w m top) ok))
]

-- After the check of the largest level has passed, a pair number to pack is found, so that the
-- error behind it is never raised and the layout pass never divides by zero, and so many pairs of
-- any level that the graph has (0 without a hierarchy) fit on a page.
pub pack_fits :
    (do_hierarchy : Bool) (dim bytes_per_dim m max_level : ℕ)
    → check_hnsw_page_fit dim bytes_per_dim m max_level ≡ true
    → (k : ℕ) × (pack do_hierarchy dim bytes_per_dim m max_level ≡ some k)
      × (1 ≤ k)
      × ((level : ℕ)
          → level ≤ (if do_hierarchy then max_level else 0)
          → k * needed dim bytes_per_dim m level ≤ usable_bytes)
unfolding pack check_hnsw_page_fit fits_one elems_per_page
pack_fits hierarchy dim w m top ok =
    let (dim_set, at_least) = one_fits dim w m top ok in
    let top_fits : needed dim w m top ≤ usable_bytes = omega (
      arith,
      fits (usable_bytes / needed dim w m top) (needed dim w m top) (needed_pos dim w m top) refl,
      mul-le-mul_right (needed dim w m top) at_least,
    ) in
    let d = needed dim w m 0 in
    let flat : d ≤ usable_bytes = omega (arith, needed_mono dim w m 0 top (omega arith)) in
    elim (Bool-cases hierarchy) [
      | inl on ↦ (
        1,
        rw (dim_set, at_least_leb (usable_bytes / needed dim w m top) at_least, on) refl,
        omega arith,
        λ level h.
            let h' : level ≤ top = rw_level hierarchy top level on h in
            omega (arith, needed_mono dim w m level top h', top_fits),
      )
      | inr off ↦ (
        usable_bytes / d,
        rw (dim_set, at_least_leb (usable_bytes / needed dim w m top) at_least, off) refl,
        one_or_more usable_bytes d (needed_pos dim w m 0) flat,
        λ level h.
            let zero_level : level ≡ 0 = no_level hierarchy top level off h in
            rw zero_level (fits (usable_bytes / d) d (needed_pos dim w m 0) refl),
      )
    ]
