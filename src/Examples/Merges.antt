-- ===== src/Examples/Merges.antt =====
-- Merging pending inserts at concrete inputs.
use mathlib.Core.List
use mathlib.Core.List.{Perm}
use pg_cuvs.Base.{
  ℕ, ◌<◌, false, zero, suc, ◌+◌, ◌-◌, ◌*◌, ◌^◌, ◌%◌, ◌≤◌, ◌≡◌, refl, ◌⊎◌, List, [], ◌∷◌, ◌++◌, true,
  false, some, length, take, drop, ltb, leb, if◌then◌else◌, pos, negsuc, arith, Bool-cases, inl,
  inr,
}
use pg_cuvs.Base.Bytes.{le, of_le, of_words}
use pg_cuvs.Sidecar.File.{fread}
use pg_cuvs.TopK.{Floats, Result}
use pg_cuvs.Search.Finds.{IsSorted}
use pg_cuvs.Delta.Filtered.{merge_delta_filtered}
use pg_cuvs.Delta.Filtered.Merged.{wanted_rows, merge_delta_filtered-Nearest}
use pg_cuvs.Delta.{
  Neighbour, nearer, header_of, delta_rows, delta_record_bytes, cagra_finish_one, merge_delta,
  merge_candidates, delta_validate,
}
use pg_cuvs.Delta.Nearest.{
  Sorts, Nearest, Ordered, NoneBefore, resolved, cagra_finish_one-Nearest, merge_delta-Nearest,
}

-- Distances that are whole numbers.
abbrev pub whole : Floats
whole = record {
  F = ℕ;
  gt = λ a b. ltb b a;
  ge = λ a b. leb b a;
  rank = λ a. a;
  gt_rank = λ a b. refl;
  ge_rank = λ a b. refl;
}

-- An insertion sort by distance, the nearest first.
put : Result whole → List (Result whole) → List (Result whole)
put r [] = r ∷ []
put r (x ∷ xs) = if ltb x.distance r.distance then x ∷ put r xs else r ∷ x ∷ xs

pub sort : ℕ → List (Result whole) → List (Result whole)
sort metric [] = []
sort metric (x ∷ xs) = put x (sort metric xs)

put-Perm : (r : Result whole) (xs : List (Result whole)) → Perm (put r xs) (r ∷ xs)
unfolding put
put-Perm r [] = List.Perm.refl (r ∷ [])
put-Perm r (x ∷ xs) = elim (Bool-cases (ltb x.distance r.distance)) [
  | inl before ↦
      rw before (List.Perm.trans (List.Perm.cons x (put-Perm r xs)) (List.Perm.swap r x xs))
  | inr behind ↦ rw behind (List.Perm.refl (r ∷ x ∷ xs))
]

sort-Perm : (xs : List (Result whole)) → Perm (sort 0 xs) xs
unfolding sort
sort-Perm [] = List.Perm.refl []
sort-Perm (x ∷ xs) = List.Perm.trans (put-Perm x (sort 0 xs)) (List.Perm.cons x (sort-Perm xs))

NoneBefore-put :
    (y r : Result whole) (xs : List (Result whole))
    → y.distance ≤ r.distance
    → NoneBefore (nearer whole 0) xs y
    → NoneBefore (nearer whole 0) (put r xs) y
unfolding NoneBefore put nearer
NoneBefore-put y r [] h n = (ground (arith, h), tt)
NoneBefore-put y r (x ∷ xs) h n = elim (Bool-cases (ltb x.distance r.distance)) [
  | inl before ↦ rw before (n.0, NoneBefore-put y r xs h n.1)
  | inr behind ↦ rw behind (ground (arith, h), n)
]

NoneBefore-mono :
    (y r : Result whole) (xs : List (Result whole))
    → r.distance ≤ y.distance
    → NoneBefore (nearer whole 0) xs y
    → NoneBefore (nearer whole 0) xs r
unfolding NoneBefore nearer
NoneBefore-mono y r [] h n = tt
NoneBefore-mono y r (x ∷ xs) h n = (ground (arith, h, n.0), NoneBefore-mono y r xs h n.1)

put-Ordered :
    (r : Result whole) (xs : List (Result whole))
    → Ordered (nearer whole 0) xs
    → Ordered (nearer whole 0) (put r xs)
unfolding Ordered NoneBefore put nearer
put-Ordered r [] o = (tt, tt)
put-Ordered r (x ∷ xs) o = elim (Bool-cases (ltb x.distance r.distance)) [
  | inl before ↦
      rw before (NoneBefore-put x r xs (ground (arith, before)) o.0, put-Ordered r xs o.1)
  | inr behind ↦
      rw behind ((ground (arith, behind), NoneBefore-mono x r xs (ground (arith, behind)) o.0), o)
]

sort-Ordered : (xs : List (Result whole)) → Ordered (nearer whole 0) (sort 0 xs)
unfolding sort Ordered
sort-Ordered [] = tt
sort-Ordered (x ∷ xs) = put-Ordered x (sort 0 xs) (sort-Ordered xs)

sort-Sorts : Sorts (nearer whole 0) (sort 0)
sort-Sorts = record { permutes = sort-Perm; ordered = sort-Ordered }

abbrev base : List (Neighbour whole)
base = record { item_id = pos 1; distance = 4 } ∷ record { item_id = negsuc 0; distance = 9 } ∷ []

abbrev pending : List (Neighbour whole)
pending = record { item_id = pos 0; distance = 2 } ∷ []

abbrev tids : List ℕ
tids = 65537 ∷ 65538 ∷ []

abbrev delta_tids : List ℕ
delta_tids = 131073 ∷ []

cagra_finish_one-Nearest_example :
    let r = cagra_finish_one whole sort true 0 tids delta_tids 2 base pending 7 in
    ((0 < length pending)
      × (true ≡ true)
      × (r.1 ≡ true)
      × (r.2 ≡ (7 + 1) % 2 ^ 64)
      × Nearest
          (nearer whole 0)
          2
          (resolved whole tids base ++ resolved whole delta_tids pending)
          r.0)
    ⊎ (((length pending ≡ 0) ⊎ (true ≡ false)) × (r ≡ (resolved whole tids base, false, 7)))
cagra_finish_one-Nearest_example =
    cagra_finish_one-Nearest whole sort true 0 tids delta_tids 2 base pending 7 sort-Sorts

-- A delta file with one row, of dimension 1.
abbrev one_row : List ℕ
one_row =
    le 4 0x544C4544
    ++ (le 4 1
        ++ (le 8 1 ++ (le 4 1 ++ (le 4 0 ++ (le 4 77 ++ (le 4 0 ++ (le 8 131073 ++ le 4 5)))))))

abbrev pub first_float : List ℕ → ℕ
first_float [] = 0
first_float (x ∷ xs) = x

abbrev pub base_results : List (Result whole)
base_results = record { tid = 65537; distance = 8 } ∷ []

abbrev merged : List (Result whole)
merged = record { tid = 131073; distance = 5 } ∷ []

merges :
    merge_delta whole sort first_float 50000 (some 77) (some one_row) 1 1 0 base_results
    ≡ some merged
unfolding merge_delta merge_candidates delta_rows delta_record_bytes header_of delta_validate fread
    le of_le of_words put sort
merges = refl

merge_delta-Nearest_example :
    let n_rows = (header_of (take 32 one_row)).n_rows in
    ((n_rows ≡ 0) × (merged ≡ base_results))
    ⊎ (Nearest
          (nearer whole 0)
          1
          (base_results ++ delta_rows whole first_float 1 n_rows (drop 32 one_row))
          merged
        × (length one_row - 32 ≡ n_rows * delta_record_bytes 1 % 2 ^ 64))
merge_delta-Nearest_example =
    merge_delta-Nearest whole sort first_float 50000 (some 77) one_row 1 1 0 base_results merged
      sort-Sorts merges

abbrev one_wanted : List ℕ
one_wanted = 131073 ∷ []

one_wanted-IsSorted : IsSorted one_wanted (length one_wanted)
one_wanted-IsSorted zero zero le lt = omega arith
one_wanted-IsSorted zero (suc j) le lt = absurd (omega arith)
one_wanted-IsSorted (suc i) zero le lt = absurd (omega arith)
one_wanted-IsSorted (suc i) (suc j) le lt = absurd (omega arith)

merge_delta_filtered-Nearest_example :
    let n_rows = (header_of (take 32 one_row)).n_rows in
    let rows = delta_rows whole first_float 1 n_rows (drop 32 one_row) in
    (out : List (Result whole)) × (merge_delta_filtered whole sort first_float 50000
        (some 77)
        one_wanted
        (length one_wanted)
        (some one_row)
        1
        1
        0
        base_results
      ≡ some out)
    × (((n_rows ≡ 0) × (out ≡ base_results))
        ⊎ Nearest (nearer whole 0) 1 (base_results ++ wanted_rows whole one_wanted rows) out)
merge_delta_filtered-Nearest_example =
    merge_delta_filtered-Nearest whole sort first_float 50000 (some 77) one_wanted one_row 1 1 0
      base_results merged sort-Sorts (omega arith) one_wanted-IsSorted merges
