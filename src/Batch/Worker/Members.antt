-- ===== src/Batch/Worker/Members.antt =====
-- The members of a group and what the loop over the groups does with them.
use pg_cuvs.Base.{
  ℕ, zero, suc, ◌+◌, ◌≤◌, ◌<◌, ◌≡◌, ◌≢◌, refl, ap, sym, ◌∙◌, ◌⊎◌, inl, inr, List, [], ◌∷◌, true,
  false, Option, some, get_elem?, ◌==◌, ==_iff, ==_refl, arith, Bool-cases,
}
use pg_cuvs.Batch.{Key}
use pg_cuvs.Base.Member.{elem}
use pg_cuvs.Batch.Worker.{Answer, tagged, members, group_mode, run_groups}

-- Strictly ascending, as requests are in the order of arrival.
abbrev pub Below : ℕ → List ℕ → Type 0
Below b [] = Unit {0}
Below b (x ∷ xs) = (b ≤ x) × Below (suc x) xs

-- A request with this tag, and no other.
pub Tagged : ℕ → ℕ → List (ℕ × ℕ) → Type 0
Tagged r g [] = Unit {0}
Tagged r g ((x, h) ∷ ts) = ((x ≡ r) → h ≡ g) × Tagged r g ts

pub members-other :
    (r g h : ℕ) (ts : List (ℕ × ℕ)) → Tagged r g ts → h ≢ g → elem r (members h ts) ≡ false
unfolding members elem Tagged
members-other r g h [] v ne = refl
members-other r g h ((x, k) ∷ ts) v ne = elim (Bool-cases (k == h)) [
  | inr off ↦ rw off (members-other r g h ts v.1 ne)
  | inl on ↦ rw on (elim (Bool-cases (x == r)) [
    | inl same ↦ absurd (ne (sym ((==_iff k h).0 on) ∙ v.0 ((==_iff x r).0 same)))
    | inr apart ↦ rw apart (members-other r g h ts v.1 ne)
  ])
]

pub members-own :
    (batch gid : List ℕ) (i r g : ℕ)
    → get_elem? batch i ≡ some r
    → get_elem? gid i ≡ some g
    → elem r (members g (tagged batch gid)) ≡ true
unfolding members elem
members-own [] gid i r g e e' = cc
members-own (x ∷ batch) [] i r g e e' = cc
members-own (x ∷ batch) (k ∷ gid) zero r g e e' =
    let same : x ≡ r = cc in let tag : k ≡ g = cc in rw (tag, ==_refl g, same, ==_refl r) refl
members-own (x ∷ batch) (k ∷ gid) (suc i) r g e e' = elim (Bool-cases (k == g)) [
  | inr off ↦ rw off (members-own batch gid i r g e e')
  | inl on ↦ rw (on, members-own batch gid i r g e e') (ground arith)
]

at_least : (batch : List ℕ) (b i r : ℕ) → Below b batch → get_elem? batch i ≡ some r → b ≤ r
at_least [] b i r v e = cc
at_least (x ∷ batch) b zero r v e = let same : x ≡ r = cc in omega (arith, same, v.0)
at_least (x ∷ batch) b (suc i) r v e = omega (arith, v.0, at_least batch (suc x) i r v.1 e)

Tagged-above :
    (batch gid : List ℕ) (b r g : ℕ) → Below b batch → r < b → Tagged r g (tagged batch gid)
unfolding Tagged
Tagged-above [] gid b r g v h = tt
Tagged-above (x ∷ batch) [] b r g v h = tt
Tagged-above (x ∷ batch) (k ∷ gid) b r g v h =
    (λ e. absurd (omega (arith, v.0)), Tagged-above batch gid (suc x) r g v.1 (omega (arith, v.0)))

pub Tagged-at :
    (batch gid : List ℕ) (b i r g : ℕ)
    → Below b batch
    → get_elem? batch i ≡ some r
    → get_elem? gid i ≡ some g
    → Tagged r g (tagged batch gid)
unfolding Tagged
Tagged-at [] gid b i r g v e e' = tt
Tagged-at (x ∷ batch) [] b i r g v e e' = tt
Tagged-at (x ∷ batch) (k ∷ gid) b zero r g v e e' =
    let same : x ≡ r = cc in
    let tag : k ≡ g = cc in (λ q. tag, Tagged-above batch gid (suc x) r g v.1 (omega (arith, same)))
Tagged-at (x ∷ batch) (k ∷ gid) b (suc i) r g v e e' = (
  λ q. absurd (omega (arith, at_least batch (suc x) i r v.1 e)),
  Tagged-at batch gid (suc x) i r g v.1 e e',
)

-- The mode of a group is that of one of its members.
pub group_mode-at :
    (key : ℕ → Key) (batch gid : List ℕ) (i r g : ℕ)
    → get_elem? batch i ≡ some r
    → get_elem? gid i ≡ some g
    → (j : ℕ) × (x : ℕ) × (get_elem? batch j ≡ some x)
      × (get_elem? gid j ≡ some g)
      × (group_mode key g (tagged batch gid) ≡ (key x).mode)
unfolding group_mode
group_mode-at key [] gid i r g e e' = cc
group_mode-at key (x ∷ batch) [] i r g e e' = cc
group_mode-at key (x ∷ batch) (k ∷ gid) zero r g e e' =
    let tag : k ≡ g = cc in (0, x, refl, ap some tag, rw (tag, ==_refl g) refl)
group_mode-at key (x ∷ batch) (k ∷ gid) (suc i) r g e e' = elim (Bool-cases (k == g)) [
  | inl on ↦ (0, x, refl, ap some ((==_iff k g).0 on), rw on refl)
  | inr off ↦
      let (j, y, at, at', mode) = group_mode-at key batch gid i r g e e' in
      (suc j, y, at, at', rw off mode)
]

module _ (key : ℕ → Key) (run : ℕ → List ℕ → ℕ → Answer) (ts : List (ℕ × ℕ)) where
  -- Groups without the request leave its answer alone.
  run_groups-far :
      (n g h r : ℕ) (answers : ℕ → Option Answer)
      → Tagged r h ts
      → (h < g) ⊎ (g + n ≤ h)
      → run_groups key run ts n g answers r ≡ answers r
  unfolding run_groups
  run_groups-far zero g h r answers v far = refl
  run_groups-far (suc n) g h r answers v far =
      run_groups-far n (g + 1) h r _ v (omega arith)
      ∙ rw (members-other r h g ts v (omega arith)) refl

  -- Its own group answers it.
  pub run_groups-near :
      (n g h r : ℕ) (answers : ℕ → Option Answer)
      → Tagged r h ts
      → elem r (members h ts) ≡ true
      → g ≤ h
      → h < g + n
      → run_groups key run ts n g answers r ≡ some (run (group_mode key h ts) (members h ts) r)
  unfolding run_groups
  run_groups-near zero g h r answers v own low high = absurd (omega arith)
  run_groups-near (suc n) g h r answers v own low high = elim (Bool-cases (g == h)) [
    | inl here ↦
        let e : g ≡ h = (==_iff g h).0 here in
        run_groups-far n (g + 1) h r _ v (inl (omega arith)) ∙ rw (e, own) refl
    | inr later ↦ run_groups-near n (g + 1) h r _ v own (ground arith) (omega arith)
  ]

pub members-out :
    (batch gid : List ℕ) (r g : ℕ)
    → elem r batch ≡ false
    → elem r (members g (tagged batch gid)) ≡ false
unfolding members elem
members-out [] gid r g h = refl
members-out (x ∷ batch) [] r g h = refl
members-out (x ∷ batch) (k ∷ gid) r g h = elim (Bool-cases (k == g)) [
  | inr off ↦ rw off (members-out batch gid r g (ground arith))
  | inl on ↦ rw (on, members-out batch gid r g (ground arith)) (ground arith)
]

pub run_groups-out :
    (key : ℕ → Key) (run : ℕ → List ℕ → ℕ → Answer) (ts : List (ℕ × ℕ)) (n g : ℕ)
    (answers : ℕ → Option Answer) (r : ℕ)
    → ((h : ℕ) → elem r (members h ts) ≡ false)
    → run_groups key run ts n g answers r ≡ answers r
unfolding run_groups
run_groups-out key run ts zero g answers r out = refl
run_groups-out key run ts (suc n) g answers r out =
    run_groups-out key run ts n (g + 1) _ r out ∙ rw (out g) refl
