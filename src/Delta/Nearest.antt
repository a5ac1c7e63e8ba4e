-- ===== src/Delta/Nearest.antt =====
-- The merged results are the nearest of all candidates.

use mathlib.Core.List.{Perm}
use pg_cuvs.Base.{
  ℕ, zero, suc, ◌+◌, ◌*◌, ◌^◌, ◌%◌, ◌-◌, ◌==◌, ◌≡◌, refl, ap, sym, subst, ◌⊎◌, inl, inr, List, [],
  ◌∷◌, ◌++◌, Bool, true, false, Option, none, some, ◌<◌, ◌≤◌, ℤ, pos, negsuc, length, get_elem?,
  get_elem?-eq-get_or, take, drop, ltb, arith, Bool-cases, dec_lt,
}
use pg_cuvs.TopK.{Floats, Result}
use pg_cuvs.Sidecar.File.{fread}
use pg_cuvs.Delta.{
  header_of, delta_rows, delta_validate, merge_delta, delta_record_bytes, nearer, merge_candidates,
  cagra_finish_one, Neighbour, map_ids,
}

module _ {A : Type 0} (before : A → A → Bool) where
  -- None of the items comes before `x`, none before any of `xs`, and none before one that stands
  -- earlier.
  unfoldable pub NoneBefore : List A → A → Type 0
  NoneBefore [] x = Unit {0}
  NoneBefore (y ∷ ys) x = (before y x ≡ false) × NoneBefore ys x

  pub Apart : List A → List A → Type 0
  Apart [] ys = Unit {0}
  Apart (x ∷ xs) ys = NoneBefore ys x × Apart xs ys

  unfoldable pub Ordered : List A → Type 0
  Ordered [] = Unit {0}
  Ordered (x ∷ xs) = NoneBefore xs x × Ordered xs

  -- What the C library and PostgreSQL say of `qsort`: the items in an order of the comparator.
  pub record Sorts (sort : List A → List A) : Type 0 where
    pub permutes : (xs : List A) → Perm (sort xs) xs
    pub ordered : (xs : List A) → Ordered (sort xs)

  -- `result` are `k` items of a list, or all of them, and none that is left out comes before one.
  pub record Nearest (k : ℕ) (items result : List A) : Type 0 where
    pub left : List A
    pub all : Perm (result ++ left) items
    pub apart : Apart result left
    pub full : (left ≡ []) ⊎ (length result ≡ k)

  NoneBefore-drop : (k : ℕ) (xs : List A) (x : A) → NoneBefore xs x → NoneBefore (drop k xs) x
  unfolding NoneBefore
  NoneBefore-drop zero xs x h = h
  NoneBefore-drop (suc k) [] x h = tt
  NoneBefore-drop (suc k) (y ∷ ys) x h = NoneBefore-drop k ys x h.1

  Ordered-Apart : (k : ℕ) (xs : List A) → Ordered xs → Apart (take k xs) (drop k xs)
  unfolding Ordered Apart
  Ordered-Apart zero xs h = tt
  Ordered-Apart (suc k) [] h = tt
  Ordered-Apart (suc k) (x ∷ xs) h = (NoneBefore-drop k xs x h.0, Ordered-Apart k xs h.1)

  take-drop : (k : ℕ) (xs : List A) → take k xs ++ drop k xs ≡ xs
  take-drop zero xs = refl
  take-drop (suc k) [] = refl
  take-drop (suc k) (x ∷ xs) = ap (λ l. x ∷ l) (take-drop k xs)

  take_full : (k : ℕ) (xs : List A) → (drop k xs ≡ []) ⊎ (length (take k xs) ≡ k)
  take_full zero xs = inr refl
  take_full (suc k) [] = inl refl
  take_full (suc k) (x ∷ xs) = elim (take_full k xs) [
    | inl none_left ↦ inl none_left
    | inr size ↦ inr (ap suc size)
  ]

  pub take-Nearest :
      (sort : List A → List A) (k : ℕ) (xs : List A) → Sorts sort → Nearest k xs (take k (sort xs))
  take-Nearest sort k xs s = record {
    left = drop k (sort xs);
    all = subst (λ l. Perm l xs) (sym (take-drop k (sort xs))) (s.permutes xs);
    apart = Ordered-Apart k (sort xs) (s.ordered xs);
    full = take_full k (sort xs);
  }

past_end : (xs : List ℕ) (i : ℕ) → length xs ≤ i → get_elem? xs i ≡ none
past_end [] i h = refl
past_end (x ∷ xs) zero h = absurd (omega arith)
past_end (x ∷ xs) (suc i) h = past_end xs i (omega arith)

-- The TID that an item number stands for, if the array has that place.
abbrev pub tid_at : List ℕ → ℤ → Option ℕ
tid_at tids (pos i) = get_elem? tids i
tid_at tids (negsuc i) = none

module _ (fl : Floats) where
  -- The results that neighbours stand for: those with a TID, with it and their distance.
  abbrev pub add_resolved : Option ℕ → fl.F → List (Result fl) → List (Result fl)
  add_resolved none d rs = rs
  add_resolved (some t) d rs = record { tid = t; distance = d } ∷ rs

  abbrev pub resolved : List ℕ → List (Neighbour fl) → List (Result fl)
  resolved tids [] = []
  resolved tids (x ∷ xs) = add_resolved (tid_at tids x.item_id) x.distance (resolved tids xs)

  -- One neighbour, by its item number.
  map_ids_first :
      (tids : List ℕ) (id : ℤ) (d : fl.F) (xs : List (Neighbour fl))
      → map_ids fl (length tids) tids xs ≡ resolved tids xs
      → map_ids fl (length tids) tids (record { item_id = id; distance = d } ∷ xs)
        ≡ resolved tids (record { item_id = id; distance = d } ∷ xs)
  unfolding map_ids
  map_ids_first tids (negsuc i) d xs later = later
  map_ids_first tids (pos i) d xs later = elim (dec_lt i (length tids)) [
    | yes inside ↦
        let test : ltb i (length tids) ≡ true = ground arith in
        rw (test, get_elem?-eq-get_or tids i 0 inside, later) refl
    | no outside ↦
        let test : ltb i (length tids) ≡ false = ground arith in
        rw (test, past_end tids i (omega arith), later) refl
  ]

  map_ids-resolved :
      (tids : List ℕ) (xs : List (Neighbour fl))
      → map_ids fl (length tids) tids xs ≡ resolved tids xs
  unfolding map_ids
  map_ids-resolved tids [] = refl
  map_ids-resolved tids (x ∷ xs) =
      map_ids_first tids x.item_id x.distance xs (map_ids-resolved tids xs)

  -- `cagra_finish_one` answers with the `k` nearest by the metric of all candidates whose item
  -- numbers are places of their arrays of TIDs, each with the TID there, those of the base index and
  -- those of the delta cache, if there are delta candidates and room to merge them, and counts the
  -- merge; otherwise it answers with those of the base index, in the order in which they came, and
  -- counts nothing.
  pub cagra_finish_one-Nearest :
      (sort : ℕ → List (Result fl) → List (Result fl)) (malloc : Bool) (metric : ℕ)
      (tids delta_tids : List ℕ) (k : ℕ) (base draw : List (Neighbour fl)) (merged_count : ℕ)
      → Sorts (nearer fl metric) (sort metric)
      → let r = cagra_finish_one fl sort malloc metric tids delta_tids k base draw merged_count in
        ((0 < length draw)
          × (malloc ≡ true)
          × (r.1 ≡ true)
          × (r.2 ≡ (merged_count + 1) % 2 ^ 64)
          × Nearest (nearer fl metric) k (resolved tids base ++ resolved delta_tids draw) r.0)
        ⊎ (((length draw ≡ 0) ⊎ (malloc ≡ false)) × (r ≡ (resolved tids base, false, merged_count)))
  unfolding cagra_finish_one merge_candidates
  cagra_finish_one-Nearest sort malloc metric tids delta_tids k base draw merged_count s =
      let ids = map_ids-resolved tids base in
      let ids' = map_ids-resolved delta_tids draw in
      elim (dec_lt 0 (length draw)) [
        | no no_draw ↦
            let none_drawn : ltb 0 (length draw) ≡ false = ground arith in
            inr (inl (omega arith), rw (none_drawn, ids) refl)
        | yes drawn ↦
            let some_drawn : ltb 0 (length draw) ≡ true = ground arith in
            elim (Bool-cases malloc) [
              | inl merges ↦
                  rw (some_drawn, merges, ids, ids')
                    (inl (
                      drawn,
                      refl,
                      refl,
                      refl,
                      take-Nearest (nearer fl metric) (sort metric) k _ s,
                    ))
              | inr alone ↦ inr (inr alone, rw (some_drawn, alone, ids) refl)
            ]
      ]

  -- If `cuvs_merge_delta` returns and there is a delta file, no pending row is missing: either the
  -- file has none and the base results stay, or the results are the `k` nearest by the metric of
  -- the base results and all rows of the file, and the file ends with its last row.
  pub merge_delta-Nearest :
      (sort : ℕ → List (Result fl) → List (Result fl)) (distance : List ℕ → fl.F) (max_rows : ℕ)
      (base_crc : Option ℕ) (f : List ℕ) (dim k metric : ℕ) (base out : List (Result fl))
      → Sorts (nearer fl metric) (sort metric)
      → merge_delta fl sort distance max_rows base_crc (some f) dim k metric base ≡ some out
      → let n_rows = (header_of (take 32 f)).n_rows in
        ((n_rows ≡ 0) × (out ≡ base))
        ⊎ (Nearest (nearer fl metric) k (base ++ delta_rows fl distance dim n_rows (drop 32 f)) out
            × (length f - 32 ≡ n_rows * delta_record_bytes dim % 2 ^ 64))
  unfolding merge_delta merge_candidates fread delta_validate
  merge_delta-Nearest sort distance max_rows base_crc f dim k metric base out s e =
      let n_rows = (header_of (take 32 f)).n_rows in
      let items = base ++ delta_rows fl distance dim n_rows (drop 32 f) in
      elim (Bool-cases (n_rows == 0)) [
        | inl none_left ↦ inl (ground (arith, none_left), ground (arith, none_left))
        | inr some_left ↦
            let same : take k (sort metric items) ≡ out = ground (arith, some_left) in
            inr (
              subst (Nearest (nearer fl metric) k items) same
                  (take-Nearest (nearer fl metric) (sort metric) k items s),
              ground (arith, some_left),
            )
      ]
