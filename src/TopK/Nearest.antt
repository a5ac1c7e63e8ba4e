-- ===== src/TopK/Nearest.antt =====
-- The array of the running top-k holds the nearest results, in order.
use pg_cuvs.Base.{
  ℕ, zero, suc, ◌+◌, ◌-◌, ◌≤◌, ◌<◌, ◌≡◌, refl, ap, sym, subst, ◌∙◌, List, [], ◌∷◌, ◌++◌, leb,
  get_or, take, length, length-append, append-nil, arith, Bool-cases, inl, inr, dec_lt, take-append,
  take_of_le,
}
use pg_cuvs.TopK.{Floats, Result, shift_in, topk_insert, topk_all}
use pg_cuvs.TopK.Insert.{
  Last-of, rank, insert, insert_all, IsSorted, IsSorted-last, insert-last_far, insert-Within,
  Within-append, Within-mono, insert-IsSorted, length-insert, take-insert,
}
use pg_cuvs.TopK.Shift.{get_or-append, shift_in-insert}

module _ (fl : Floats) where
  -- The first `n` of the `k` places hold `xs`, in order.
  pub record Filled (s : List (Result fl) × ℕ) (k : ℕ) (xs : List (Result fl)) : Type 0 where
    pub rest : List (Result fl)
    pub parts : s.0 ≡ xs ++ rest
    pub fill : length xs ≡ s.1
    pub in_array : length s.0 ≡ k
    pub sorted : IsSorted fl xs

  has_room :
      (top : List (Result fl)) (n k : ℕ) (r : Result fl) (xs : List (Result fl))
      → Filled (top, n) k xs
      → n < k
      → Filled (topk_insert fl top n k r) k (take k (insert fl r xs))
  unfolding topk_insert
  has_room top n k r xs v room = free v.rest v.parts
    where
      all : take k (insert fl r xs) ≡ insert fl r xs
      all = take_of_le k (insert fl r xs) (omega (arith, length-insert fl r xs, v.fill))

      free :
          (rest : List (Result fl))
          → top ≡ xs ++ rest
          → Filled (topk_insert fl top n k r) k (take k (insert fl r xs))
      free [] e = absurd (omega (arith, ap length e, length-append xs [], v.fill, v.in_array))
      free (z ∷ ys) e =
          let round : topk_insert fl top n k r ≡ (insert fl r xs ++ ys, n + 1) = ground (
            arith,
            ap (λ t. shift_in fl t n r) e ∙ shift_in-insert fl n xs z r ys v.fill v.sorted,
          ) in
          rw (round, all)
            (record {
              rest = ys;
              parts = refl;
              fill = omega (arith, length-insert fl r xs, v.fill);
              in_array = omega (
                arith,
                length-append (insert fl r xs) ys,
                length-insert fl r xs,
                length-append xs (z ∷ ys),
                ap length e,
                v.in_array,
              );
              sorted = insert-IsSorted fl r xs v.sorted;
            })

  cut : (k : ℕ) (xs ys : List (Result fl)) → length xs ≡ k → take k (xs ++ ys) ≡ xs
  cut k xs ys e = ap (λ (n : ℕ). take n (xs ++ ys)) (sym e) ∙ take-append xs ys

  is_full :
      (top : List (Result fl)) (n k : ℕ) (r : Result fl) (front : List (Result fl))
      (last : Result fl)
      → Filled (top, n) k (front ++ (last ∷ []))
      → n ≡ k
      → Filled (topk_insert fl top n k r) k (take k (insert fl r (front ++ (last ∷ []))))
  unfolding topk_insert
  is_full top n k r front last v full =
      let xs = front ++ (last ∷ []) in
      let whole : top ≡ xs = no_rest v.rest v.parts in
      let len : length front ≡ k - 1 = omega (arith, length-append front (last ∷ []), v.fill) in
      let some_k : k ≡ suc (k - 1) = omega (arith, length-append front (last ∷ []), v.fill) in
      let worst : get_or top (k - 1) r ≡ last =
        ap (λ t. get_or t (k - 1) r) whole
        ∙ ap (λ (i : ℕ). get_or xs i r) (sym len)
        ∙ get_or-append front last r [] in
      let ge : fl.ge r.distance (get_or top (k - 1) r).distance ≡ leb (rank fl last) (rank fl r) =
        ap (λ (w : Result fl). fl.ge r.distance w.distance) worst
        ∙ fl.ge_rank r.distance last.distance in
      let order = IsSorted-last fl front last v.sorted in
      elim (Bool-cases (leb (rank fl last) (rank fl r))) [
        | inl no_better ↦
            let round : topk_insert fl top n k r ≡ (top, n) = ground (arith, ge, no_better, full) in
            let close : rank fl last ≤ rank fl r = ground (arith, no_better) in
            let behind = insert-Within fl r xs (
              Within-append fl (rank fl r) front last
                (Within-mono fl (rank fl last) (rank fl r) front close order.0) close) in
            let kept : take k (insert fl r xs) ≡ xs =
              ap (take k) behind ∙ cut k xs (r ∷ []) (omega (arith, v.fill)) in
            rw (round, kept) v
        | inr better ↦
            let shifted : shift_in fl top (k - 1) r ≡ insert fl r front =
              ap (λ t. shift_in fl t (k - 1) r) whole
              ∙ shift_in-insert fl (k - 1) front last r [] len order.1
              ∙ append-nil (insert fl r front) in
            let round : topk_insert fl top n k r ≡ (insert fl r front, n) =
              ground (arith, ge, better, full, shifted) in
            let near : rank fl r < rank fl last = ground (arith, better) in
            let size : length (insert fl r front) ≡ k =
              omega (arith, length-insert fl r front, len, some_k) in
            let kept : take k (insert fl r xs) ≡ insert fl r front =
              ap (take k) (insert-last_far fl r last front near)
              ∙ cut k (insert fl r front) (last ∷ []) size in
            rw (round, kept)
              (record {
                rest = [];
                parts = sym (append-nil (insert fl r front));
                fill = omega (arith, size, full);
                in_array = size;
                sorted = insert-IsSorted fl r front order.1;
              })
      ]
    where
      no_rest :
          (rest : List (Result fl))
          → top ≡ (front ++ (last ∷ [])) ++ rest
          → top ≡ front ++ (last ∷ [])
      no_rest [] e = e ∙ append-nil (front ++ (last ∷ []))
      no_rest (z ∷ ys) e = absurd (
          omega
            (arith, ap length e, length-append (front ++ (last ∷ [])) (z ∷ ys), v.fill, v.in_array))

  -- A call of `topk_insert` on an array of `k` places, at least one, keeps the first `k` of the
  -- results it had and the new one, sorted by distance, the new one behind its equals.
  topk_insert-Filled :
      (s : List (Result fl) × ℕ) (k : ℕ) (r : Result fl) (xs : List (Result fl))
      → 0 < k
      → Filled s k xs
      → Filled (topk_insert fl s.0 s.1 k r) k (take k (insert fl r xs))
  topk_insert-Filled (top, n) k r xs some_k v = elim (dec_lt n k) [
    | yes room ↦ has_room top n k r xs v room
    | no full ↦
        of_last xs v
          (omega (arith, full, v.fill, v.in_array, ap length v.parts, length-append xs v.rest))
  ]
    where
      of_last :
          (xs : List (Result fl))
          → Filled (top, n) k xs
          → n ≡ k
          → Filled (topk_insert fl top n k r) k (take k (insert fl r xs))
      of_last [] v e = absurd (omega (arith, v.fill))
      of_last (x ∷ xs) v e =
          let l = Last-of x xs in
          subst (λ l. Filled (topk_insert fl top n k r) k (take k (insert fl r l))) (sym l.parts)
            (is_full top n k r l.front l.last (subst (Filled (top, n) k) l.parts v) e)

  best_of : ℕ → List (Result fl) → List (Result fl) → List (Result fl)
  best_of k xs [] = xs
  best_of k xs (r ∷ rs) = best_of k (take k (insert fl r xs)) rs

  topk_all-Filled :
      (s : List (Result fl) × ℕ) (k : ℕ) (xs rs : List (Result fl))
      → 0 < k
      → Filled s k xs
      → Filled (topk_all fl s k rs) k (best_of k xs rs)
  unfolding topk_all best_of
  topk_all-Filled s k xs [] some_k v = v
  topk_all-Filled s k xs (r ∷ rs) some_k v =
      topk_all-Filled (topk_insert fl s.0 s.1 k r) k (take k (insert fl r xs)) rs some_k
        (topk_insert-Filled s k r xs some_k v)

  best_of-take :
      (k : ℕ) (xs rs : List (Result fl)) → best_of k (take k xs) rs ≡ take k (insert_all fl xs rs)
  unfolding best_of insert_all
  best_of-take k xs [] = refl
  best_of-take k xs (r ∷ rs) =
      ap (λ l. best_of k l rs) (take-insert fl k r xs) ∙ best_of-take k (insert fl r xs) rs

  -- After a scan, the array of `k` places, at least one, holds the `k` nearest of all results that
  -- were put in, or all of them if they are fewer: they are the first `k` of the results sorted by
  -- distance, and among equals those that came first.
  pub topk_all-nearest :
      (top : List (Result fl)) (k : ℕ) (rs : List (Result fl))
      → length top ≡ k
      → 0 < k
      → Filled (topk_all fl (top, 0) k rs) k (take k (insert_all fl [] rs))
  unfolding topk_all IsSorted
  topk_all-nearest top k rs len some_k =
      subst (Filled (topk_all fl (top, 0) k rs) k) (from_none k) (
        topk_all-Filled (top, 0) k [] rs some_k
          (record { rest = top; parts = refl; fill = refl; in_array = len; sorted = none_sorted }))
    where
      from_none : (k : ℕ) → best_of k [] rs ≡ take k (insert_all fl [] rs)
      from_none zero = best_of-take zero [] rs
      from_none (suc k) = best_of-take (suc k) [] rs

      none_sorted : IsSorted fl []
      none_sorted = tt
