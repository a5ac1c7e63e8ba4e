-- ===== src/TopK/Shift.antt =====
-- The loop of `topk_insert` inserts.
use pg_cuvs.Base.{
  ℕ, zero, suc, ◌≤◌, ◌≡◌, refl, ap, sym, subst, ◌∙◌, List, [], ◌∷◌, ◌++◌, ltb, set, get_or, length,
  length-append, append_assoc, arith, Bool-cases, inl, inr,
}
use pg_cuvs.TopK.{Floats, Result, shift_in}
use pg_cuvs.TopK.Insert.{
  Last-of, rank, insert, IsSorted, IsSorted-last, insert-last_far, insert-Within, Within-append,
  Within-mono,
}

set-second {ℓ} :
    {A : Type ℓ} (xs : List A) (y z w : A) (ys : List A)
    → set (xs ++ (y ∷ z ∷ ys)) (suc (length xs)) w ≡ xs ++ (y ∷ w ∷ ys)
set-second [] y z w ys = refl
set-second (x ∷ xs) y z w ys = ap (λ zs. x ∷ zs) (set-second xs y z w ys)

pub get_or-append {ℓ} :
    {A : Type ℓ} (xs : List A) (z d : A) (ys : List A) → get_or (xs ++ (z ∷ ys)) (length xs) d ≡ z
get_or-append [] z d ys = refl
get_or-append (x ∷ xs) z d ys = get_or-append xs z d ys

module _ (fl : Floats) where
  -- One round of the loop, on the worst of the results before the free slot.
  shift_round :
      (n : ℕ) (xs : List (Result fl)) (y z r : Result fl) (ys : List (Result fl))
      → length xs ≡ n
      → IsSorted fl (xs ++ (y ∷ []))
      → shift_in fl (xs ++ (y ∷ y ∷ ys)) n r ≡ insert fl r xs ++ (y ∷ ys)
      → shift_in fl (xs ++ (y ∷ z ∷ ys)) (suc n) r ≡ insert fl r (xs ++ (y ∷ [])) ++ ys
  unfolding shift_in
  shift_round n xs y z r ys len s rest =
      let below : get_or (xs ++ (y ∷ z ∷ ys)) n r ≡ y =
        ap (λ (i : ℕ). get_or (xs ++ (y ∷ z ∷ ys)) i r) (sym len) ∙ get_or-append xs y r (z ∷ ys) in
      let put : (w : Result fl) → set (xs ++ (y ∷ z ∷ ys)) (suc n) w ≡ xs ++ (y ∷ w ∷ ys) = λ w.
        ap (λ (i : ℕ). set (xs ++ (y ∷ z ∷ ys)) (suc i) w) (sym len) ∙ set-second xs y z w ys in
      elim (Bool-cases (ltb (rank fl r) (rank fl y))) [
        | inl near ↦
            rw (below, fl.gt_rank y.distance r.distance, near, put y)
              (rest
                ∙ sym (append_assoc (insert fl r xs) (y ∷ []) ys)
                ∙ ap (λ l. l ++ ys) (sym (insert-last_far fl r y xs (ground (arith, near)))))
        | inr far ↦
            let all_near = IsSorted-last fl xs y s in
            let close : rank fl y ≤ rank fl r = ground (arith, far) in
            let behind = insert-Within fl r (xs ++ (y ∷ [])) (
              Within-append fl (rank fl r) xs y
                (Within-mono fl (rank fl y) (rank fl r) xs close all_near.0) close) in
            rw (below, fl.gt_rank y.distance r.distance, far, put r)
              (sym (
                ap (λ l. l ++ ys) behind
                ∙ append_assoc (xs ++ (y ∷ [])) (r ∷ []) ys
                ∙ append_assoc xs (y ∷ []) (r ∷ ys)))
      ]

  -- The loop puts a result into its place among the sorted ones before the free slot.
  pub shift_in-insert :
      (n : ℕ) (xs : List (Result fl)) (z r : Result fl) (ys : List (Result fl))
      → length xs ≡ n
      → IsSorted fl xs
      → shift_in fl (xs ++ (z ∷ ys)) n r ≡ insert fl r xs ++ ys
  unfolding shift_in insert
  shift_in-insert zero [] z r ys len s = refl
  shift_in-insert zero (x ∷ xs) z r ys len s = absurd (omega arith)
  shift_in-insert (suc n) [] z r ys len s = absurd (omega arith)
  shift_in-insert (suc n) (x ∷ xs) z r ys len s =
      let l = Last-of x xs in
      let sorted : IsSorted fl (l.front ++ (l.last ∷ [])) = subst (IsSorted fl) l.parts s in
      let short : length l.front ≡ n =
        omega (arith, ap length l.parts, length-append l.front (l.last ∷ [])) in
      let rest =
        shift_in-insert n l.front l.last r (l.last ∷ ys) short
          (IsSorted-last fl l.front l.last sorted).1 in
      let top : (x ∷ xs) ++ (z ∷ ys) ≡ l.front ++ (l.last ∷ z ∷ ys) =
        ap (λ k. k ++ (z ∷ ys)) l.parts ∙ append_assoc l.front (l.last ∷ []) (z ∷ ys) in
      ap (λ k. shift_in fl k (suc n) r) top
      ∙ shift_round n l.front l.last z r ys short sorted rest
      ∙ ap (λ k. insert fl r k ++ ys) (sym l.parts)
