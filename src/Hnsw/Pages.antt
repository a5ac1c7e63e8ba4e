-- ===== src/Hnsw/Pages.antt =====
-- The page layout of src/hnsw_export.c: `elem_tuple_size`, `neigh_tuple_size`, `elems_per_page`,
-- `check_hnsw_page_fit`, the layout pass of `fill_hnsw_from_cagra_ipc_impl` and the loops of
-- `write_elem_pages_packed`. Sizes fit their C types.
pub mod Packed
use pg_cuvs.Base.{
  ℕ, zero, suc, ◌+◌, ◌-◌, ◌*◌, ◌/◌, ◌%◌, List, [], ◌∷◌, Bool, false, Option, none, some, ltb, leb,
  ◌==◌, if◌then◌else◌, min,
}

-- `PGV_USABLE_BYTES`, `PGV_ITEM_OVERHEAD` and `MAXALIGN8`
abbrev pub usable_bytes : ℕ
usable_bytes = 8192 - 24 - 8

abbrev pub item_overhead : ℕ
item_overhead = 4

unfoldable pub maxalign : ℕ → ℕ
maxalign n = (n + 7) / 8 * 8

-- The headers of an element have 72 and 8 bytes, that of a neighbour tuple 4 and a slot 6.
unfoldable pub elem_tuple_size : ℕ → ℕ → ℕ
elem_tuple_size dim bytes_per_dim = maxalign (72 + 8 + dim * bytes_per_dim)

unfoldable pub neigh_tuple_size : ℕ → ℕ → ℕ
neigh_tuple_size level m = maxalign (4 + (level + 2) * m * 6)

-- `needed`, the bytes of a pair with its two line pointers, each counted twice.
unfoldable pub needed : ℕ → ℕ → ℕ → ℕ → ℕ
needed dim bytes_per_dim m level =
    elem_tuple_size dim bytes_per_dim
    + 2 * item_overhead
    + neigh_tuple_size level m
    + 2 * item_overhead

-- `elems_per_page`; `none` is the error of a column without a dimension.
unfoldable pub elems_per_page : ℕ → ℕ → ℕ → ℕ → Option ℕ
elems_per_page dim bytes_per_dim m level =
    if dim == 0 then none else some (usable_bytes / needed dim bytes_per_dim m level)

unfoldable pub fits_one : Option ℕ → Bool
fits_one none = false
fits_one (some n) = leb 1 n

-- `check_hnsw_page_fit`; `true` is no error.
unfoldable pub check_hnsw_page_fit : ℕ → ℕ → ℕ → ℕ → Bool
check_hnsw_page_fit dim bytes_per_dim m maxlevel =
    fits_one (elems_per_page dim bytes_per_dim m maxlevel)

-- `pack_k` behind the check; `none` is one of the errors.
unfoldable pub pack : Bool → ℕ → ℕ → ℕ → ℕ → Option ℕ
pack do_hierarchy dim bytes_per_dim m max_level =
    if check_hnsw_page_fit dim bytes_per_dim m max_level
    then (if do_hierarchy then some 1 else elems_per_page dim bytes_per_dim m 0)
    else none

-- Where the layout pass puts the element `i`: block, and the offsets of its two tuples.
pub record Place : Type 0 where
  pub blkno : ℕ
  pub elem_offno : ℕ
  pub neigh_offno : ℕ

unfoldable pub place : ℕ → ℕ → Place
place pack_k i = record {
  blkno = i / pack_k + 1;
  elem_offno = 2 * (i % pack_k) + 1;
  neigh_offno = 2 * (i % pack_k) + 2;
}

-- The elements that the inner loop of `write_elem_pages_packed` puts on a page, in order.
unfoldable pub upto : ℕ → ℕ → List ℕ
upto zero i = []
upto (suc n) i = i ∷ upto n (i + 1)

-- The outer loop, from `page_start` on, of at most `fuel` rounds: the pages in order.
unfoldable pub pages : ℕ → ℕ → ℕ → ℕ → List (List ℕ)
pages zero k n_elems page_start = []
pages (suc fuel) k n_elems page_start =
    let rest = pages fuel k n_elems (page_start + k) in
    if ltb page_start n_elems
    then upto (min (page_start + k) n_elems - page_start) page_start ∷ rest
    else []

-- `write_elem_pages_packed`
unfoldable pub write_elem_pages_packed : ℕ → ℕ → List (List ℕ)
write_elem_pages_packed n_elems k = pages n_elems k n_elems 0
