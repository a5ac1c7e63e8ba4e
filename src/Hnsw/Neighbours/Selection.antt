-- ===== src/Hnsw/Neighbours/Selection.antt =====
-- What the selection has, and why the others are left out.
use pg_cuvs.Base.{
  ℕ, zero, suc, ◌≤◌, ◌<◌, ◌≡◌, ◌⊎◌, refl, ap, sym, subst, ◌∙◌, inl, inr, List, [], ◌∷◌, ◌++◌, Bool,
  true, false, false≢true, some, length, ltb, get_elem?, arith, Bool-cases, length-append,
  get_elem?-append_cases, get_elem?-lt,
}
use pg_cuvs.Hnsw.Neighbours.{dominated, select_loop, heuristic_select_neighbors}

module _ (closer : ℕ → ℕ → Bool) where
  -- The candidate is closer to one of the selected than to the query, or to none of them.
  abbrev pub CloserToOne : ℕ → List ℕ → Type 0
  CloserToOne c selected = (i : ℕ) × (s : ℕ) × (get_elem? selected i ≡ some s) × (closer c s ≡ true)

  abbrev pub CloserToNone : ℕ → List ℕ → Type 0
  CloserToNone c selected = (i s : ℕ) → get_elem? selected i ≡ some s → closer c s ≡ false

  dominated-CloserToOne :
      (c : ℕ) (selected : List ℕ) → dominated closer c selected ≡ true → CloserToOne c selected
  unfolding dominated
  dominated-CloserToOne c [] h = absurd (false≢true h)
  dominated-CloserToOne c (s ∷ selected) h = elim (Bool-cases (closer c s)) [
    | inl here ↦ (0, s, refl, here)
    | inr far ↦
        let (i, s', at, near) = dominated-CloserToOne c selected (ground (arith, h, far)) in
        (suc i, s', at, near)
  ]

  dominated-CloserToNone :
      (c : ℕ) (selected : List ℕ) → dominated closer c selected ≡ false → CloserToNone c selected
  unfolding dominated
  dominated-CloserToNone c [] h i s at = absurd (ground arith)
  dominated-CloserToNone c (x ∷ selected) h zero s at =
      let same : x ≡ s = cc in
      let far : closer c x ≡ false = ground (arith, h) in ap (closer c) (sym same) ∙ far
  dominated-CloserToNone c (x ∷ selected) h (suc i) s at =
      dominated-CloserToNone c selected (ground (arith, h)) i s at

  -- None of the list is closer to one before it than to the query.
  abbrev pub Diverse : List ℕ → Type 0
  Diverse selected =
      (i j s c : ℕ)
      → i < j
      → get_elem? selected i ≡ some s
      → get_elem? selected j ≡ some c
      → closer c s ≡ false

  -- What one more candidate `c` makes of a selection: it goes to the end if there is room and it is
  -- closer to none of them than to the query, and otherwise nothing changes.
  abbrev pub Decided : ℕ → ℕ → List ℕ → List ℕ → Type 0
  Decided m c selected selected' =
      ((length selected < m) × CloserToNone c selected × (selected' ≡ selected ++ (c ∷ [])))
      ⊎ ((length selected < m) × CloserToOne c selected × (selected' ≡ selected))
      ⊎ ((m ≤ length selected) × (selected' ≡ selected))

  full-select_loop :
      (m : ℕ) (selected cs : List ℕ)
      → m ≤ length selected
      → select_loop closer m selected cs ≡ selected
  unfolding select_loop
  full-select_loop m selected [] full = refl
  full-select_loop m selected (c ∷ cs) full =
      let no_room : ltb (length selected) m ≡ false = ground arith in rw no_room refl

  -- The loop goes on from what it has selected.
  select_loop-append :
      (m : ℕ) (selected cs ds : List ℕ)
      → select_loop closer m selected (cs ++ ds)
        ≡ select_loop closer m (select_loop closer m selected cs) ds
  unfolding select_loop
  select_loop-append m selected [] ds = refl
  select_loop-append m selected (c ∷ cs) ds = elim (Bool-cases (ltb (length selected) m)) [
    | inr no_room ↦ simp no_room (sym (full-select_loop m selected ds (ground (arith, no_room))))
    | inl room ↦ elim (Bool-cases (dominated closer c selected)) [
      | inl worse ↦ simp (room, worse) (select_loop-append m selected cs ds)
      | inr better ↦ simp (room, better) (select_loop-append m (selected ++ (c ∷ [])) cs ds)
    ]
  ]

  select_loop-Decided :
      (m c : ℕ) (selected : List ℕ) → Decided m c selected (select_loop closer m selected (c ∷ []))
  unfolding select_loop
  select_loop-Decided m c selected = elim (Bool-cases (ltb (length selected) m)) [
    | inr no_room ↦ simp no_room (inr (inr (ground (arith, no_room), refl)))
    | inl room ↦ elim (Bool-cases (dominated closer c selected)) [
      | inl worse ↦
          simp (room, worse)
            (inr (inl (ground (arith, room), dominated-CloserToOne c selected worse, refl)))
      | inr better ↦
          simp (room, better)
            (inl (ground (arith, room), dominated-CloserToNone c selected better, refl))
    ]
  ]

  Diverse-snoc :
      (selected : List ℕ) (c : ℕ)
      → Diverse selected
      → CloserToNone c selected
      → Diverse (selected ++ (c ∷ []))
  Diverse-snoc selected c apart far i j s d lt at at' =
      elim (get_elem?-append_cases selected c j at') [
        | inl old ↦ elim (get_elem?-append_cases selected c i at) [
          | inl old' ↦ apart i j s d lt old' old
          | inr (last, same) ↦ absurd (omega (arith, last, lt, get_elem?-lt selected j old))
        ]
        | inr (last, same) ↦ elim (get_elem?-append_cases selected c i at) [
          | inl old' ↦ ap (λ (x : ℕ). closer x s) (sym same) ∙ far i s old'
          | inr (last', same') ↦ absurd (omega (arith, last, last', lt))
        ]
      ]

  loop-Diverse :
      (m : ℕ) (selected cs : List ℕ)
      → Diverse selected
      → length selected ≤ m
      → Diverse (select_loop closer m selected cs) × (length (select_loop closer m selected cs) ≤ m)
  unfolding select_loop
  loop-Diverse m selected [] apart few = (apart, few)
  loop-Diverse m selected (c ∷ cs) apart few = elim (Bool-cases (ltb (length selected) m)) [
    | inr no_room ↦ simp no_room (apart, few)
    | inl room ↦ elim (Bool-cases (dominated closer c selected)) [
      | inl worse ↦ simp (room, worse) (loop-Diverse m selected cs apart few)
      | inr better ↦
          simp (room, better)
            (loop-Diverse m (selected ++ (c ∷ [])) cs
              (Diverse-snoc selected c apart (dominated-CloserToNone c selected better))
              (ground (arith, room, length-append selected (c ∷ []))))
    ]
  ]

  -- `heuristic_select_neighbors` selects nothing of no candidates; a candidate more goes to the end
  -- of the selection if fewer than `m` are selected and it is closer to none of them than to the
  -- query, and changes nothing if it is closer to one of them or `m` are selected. So none of the
  -- selected is closer to an earlier one than to the query, and there are at most `m`.
  pub heuristic_select_neighbors-Decided :
      (candidates : List ℕ) (c m : ℕ)
      → let selected = heuristic_select_neighbors closer candidates m in
        (heuristic_select_neighbors closer [] m ≡ [])
        × Decided m c selected (heuristic_select_neighbors closer (candidates ++ (c ∷ [])) m)
        × Diverse selected
        × (length selected ≤ m)
  unfolding heuristic_select_neighbors select_loop
  heuristic_select_neighbors-Decided candidates c m =
      let selected = select_loop closer m [] candidates in
      let none_yet : Diverse [] = λ i j s d lt at at'. absurd (ground arith) in
      let (apart, few) = loop-Diverse m [] candidates none_yet (omega arith) in
      (
        refl,
        subst (Decided m c selected) (sym (select_loop-append m [] candidates (c ∷ [])))
            (select_loop-Decided m c selected),
        apart,
        few,
      )
