-- ===== src/Search/Finds.antt =====
-- The binary searches are total, stay inside the array, and answer membership.
use pg_cuvs.Base.{
  ℕ, zero, suc, ◌+◌, ◌-◌, ◌/◌, ◌%◌, ◌^◌, ◌≤◌, ◌<◌, ◌≡◌, ◌≢◌, refl, List, Bool, true, false, Option,
  some, get_elem?, get_or, ltb, ◌==◌, length, arith, mod-eq_of_lt, dec_lt, if◌then◌else◌,
  get_elem?-eq-get_or, Bool-cases, ltb→lt, ==_iff, inl, inr,
}
use pg_cuvs.Search.{search, u64_contains, tid_in_filter}

-- The first `n` values ascend.
abbrev pub IsSorted : List ℕ → ℕ → Type 0
IsSorted xs n = (i j : ℕ) → i ≤ j → j < n → get_or xs i 0 ≤ get_or xs j 0

-- What an answer says: a place that holds the target, or that none of the first `n` does.
abbrev pub Answers : List ℕ → ℕ → ℕ → Bool → Type 0
Answers xs n target true = (i : ℕ) × (i < n) × (get_elem? xs i ≡ some target)
Answers xs n target false = (i : ℕ) → i < n → get_or xs i 0 ≢ target

-- The target lies nowhere below `lo`, nor in [hi, n).
record Excludes (xs : List ℕ) (n target lo hi : ℕ) : Type 0 where
  ordered : lo ≤ hi
  within : hi ≤ n
  below : (i : ℕ) → i < lo → get_or xs i 0 < target
  above : (i : ℕ) → hi ≤ i → i < n → target < get_or xs i 0

module _ (w : ℕ) (xs : List ℕ) (target fuel lo hi : ℕ) where
  abbrev mid : ℕ
  mid = lo + (hi - lo) / 2

  search_empty : hi ≤ lo → search w xs target (suc fuel) lo hi ≡ some false
  unfolding search
  search_empty h = ground arith

  -- One round, at a value `v` that is inside the array.
  search_round :
      (v : ℕ)
      → lo < hi
      → hi < 2 ^ w
      → get_elem? xs mid ≡ some v
      → search w xs target (suc fuel) lo hi ≡ (
          if v == target
          then some true
          else if ltb v target
          then search w xs target fuel (mid + 1) hi
          else search w xs target fuel lo mid)
  unfolding search
  search_round v h s e =
      let e₁ : mid % 2 ^ w ≡ mid = mod-eq_of_lt (omega arith) in
      let e₂ : (mid + 1) % 2 ^ w ≡ mid + 1 = mod-eq_of_lt (omega arith) in ground arith

module _ (w : ℕ) (xs : List ℕ) (n target : ℕ) (small : n < 2 ^ w) (fits : n ≤ length xs)
    (sorted : IsSorted xs n) where
  abbrev Correct : Option Bool → Type 0
  Correct r = (b : Bool) × (r ≡ some b) × Answers xs n target b

  excluded :
      (lo hi : ℕ) → Excludes xs n target lo hi → hi ≤ lo → (i : ℕ) → i < n → get_or xs i 0 ≢ target
  excluded lo hi v h i lt = elim (dec_lt i lo) [
    | yes below ↦ omega (arith, v.below i below)
    | no above ↦ omega (arith, v.above i (omega arith) lt)
  ]

  found :
      (m x : ℕ) → m < n → get_or xs m 0 ≡ x → (x == target) ≡ true → get_elem? xs m ≡ some target
  found m x lt e hit = ground (arith, get_elem?-eq-get_or xs m 0, (==_iff x target).0 hit)

  -- The halves of a range that still has to be searched.
  upper :
      (lo hi m : ℕ)
      → Excludes xs n target lo hi
      → m < hi
      → get_or xs m 0 < target
      → Excludes xs n target (m + 1) hi
  upper lo hi m v h less = record {
    ordered = omega arith;
    within = v.within;
    below = λ i lt. omega (arith, sorted i m (omega arith) (omega (arith, v.within)));
    above = v.above;
  }

  lower :
      (lo hi m : ℕ)
      → Excludes xs n target lo hi
      → lo ≤ m
      → m < hi
      → target < get_or xs m 0
      → Excludes xs n target lo m
  lower lo hi m v h h' more = record {
    ordered = h;
    within = omega (arith, v.within);
    below = v.below;
    above = λ i ge lt. omega (arith, sorted m i ge lt);
  }

  search-Correct :
      (fuel lo hi : ℕ)
      → hi - lo < fuel
      → Excludes xs n target lo hi
      → Correct (search w xs target fuel lo hi)
  search-Correct zero lo hi f v = absurd (omega arith)
  search-Correct (suc fuel) lo hi f v = elim (dec_lt lo hi) [
    | no empty ↦
        (false, search_empty w xs target fuel lo hi (omega arith), excluded lo hi v (omega arith))
    | yes h ↦
        let m : ℕ = lo + (hi - lo) / 2 in
        let x : ℕ = get_or xs m 0 in
        let step =
          search_round w xs target fuel lo hi x h (omega (arith, v.within))
            (get_elem?-eq-get_or xs m 0 (omega (arith, v.within))) in
        rw step (elim (Bool-cases (x == target)) [
          | inl hit ↦ rw hit (
            true,
            refl,
            (m, omega (arith, v.within), found m x (omega (arith, v.within)) refl hit),
          )
          | inr miss ↦ rw miss (elim (Bool-cases (ltb x target)) [
            | inl less ↦ rw less (
                search-Correct fuel (m + 1) hi (omega arith)
                  (upper lo hi m v (omega arith) (ltb→lt _ _ less)))
            | inr more ↦ rw more (
                search-Correct fuel lo m (omega arith)
                  (lower lo hi m v (omega arith) (omega arith) (ground arith)))
          ])
        ])
  ]

-- In an ascending array of `n` TIDs the search of `cuvs_u64_contains` ends, reads only inside the
-- array, and answers whether the target is one of the `n` values.
u64_contains-Answers :
    (xs : List ℕ) (n target : ℕ)
    → n < 2 ^ 64
    → n ≤ length xs
    → IsSorted xs n
    → (b : Bool) × (u64_contains xs n target ≡ some b) × Answers xs n target b
unfolding u64_contains
u64_contains-Answers xs n target small fits sorted =
    search-Correct 64 xs n target small fits sorted (n + 1) 0 n (omega arith) (record {
      ordered = omega arith;
      within = omega arith;
      below = λ i lt. absurd (omega arith);
      above = λ i ge lt. absurd (omega arith);
    })

-- The same of `cuvs_tid_in_filter`, whose indices have 32 bits.
pub tid_in_filter-Answers :
    (xs : List ℕ) (n target : ℕ)
    → n < 2 ^ 32
    → n ≤ length xs
    → IsSorted xs n
    → (b : Bool) × (tid_in_filter target xs n ≡ some b) × Answers xs n target b
unfolding tid_in_filter
tid_in_filter-Answers xs n target small fits sorted =
    search-Correct 32 xs n target small fits sorted (n + 1) 0 n (omega arith) (record {
      ordered = omega arith;
      within = omega arith;
      below = λ i lt. absurd (omega arith);
      above = λ i ge lt. absurd (omega arith);
    })
