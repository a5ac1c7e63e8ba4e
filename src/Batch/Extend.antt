-- ===== src/Batch/Extend.antt =====
-- A grouping stays one when a request is added at the end.

use pg_cuvs.Base.{
  ℕ, suc, ◌≤◌, ◌<◌, ◌≡◌, refl, sym, ◌⊎◌, inl, inr, ◌↔◌, List, [], ◌∷◌, ◌++◌, true, some, arith,
  length, get_elem?, get_elem?-append_left, get_elem?-append_end, get_elem?-append_cases, subst,
}
use pg_cuvs.Batch.{Key, same_key}
use pg_cuvs.Batch.Keys.{same_key_refl, same_key_symm}
use pg_cuvs.Batch.Scan.{Request}

-- What holds of the requests that are done.
pub record IsGrouped (done : List Request) (ng : ℕ) : Type 0 where
  pub together :
      (i j : ℕ) (p q : Request)
      → get_elem? done i ≡ some p
      → get_elem? done j ≡ some q
      → (p.1 ≡ q.1) ↔ (same_key p.0 q.0 ≡ true)
  pub bounded : (i : ℕ) (p : Request) → get_elem? done i ≡ some p → p.1 < ng
  pub used : (g : ℕ) → g < ng → (i : ℕ) × (p : Request) × (get_elem? done i ≡ some p) × (p.1 ≡ g)
  pub in_order :
      (i : ℕ) (p : Request)
      → get_elem? done i ≡ some p
      → (p.1 ≡ 0)
        ⊎ ((j : ℕ) × (q : Request) × (j < i) × (get_elem? done j ≡ some q) × (suc q.1 ≡ p.1))

pub empty-IsGrouped : IsGrouped [] 0
empty-IsGrouped = record {
  together = λ i j p q h h'. cc;
  bounded = λ i p h. cc;
  used = λ g h. absurd (omega arith);
  in_order = λ i p h. cc;
}

-- A request is added at the end, in a group `g` that is right for it.
module _ (done : List Request) (ng : ℕ) (v : IsGrouped done ng) (key : Key) (g : ℕ) (ng' : ℕ)
    (grows : ng ≤ ng') (g_bounded : g < ng')
    (fits : (i : ℕ) (p : Request)
      → get_elem? done i ≡ some p
      → (p.1 ≡ g) ↔ (same_key p.0 key ≡ true))
    (preceded : (g ≡ 0)
      ⊎ ((j : ℕ) × (q : Request) × (j < length done) × (get_elem? done j ≡ some q) × (suc q.1 ≡ g)))
    (fresh_only : (h : ℕ) → h < ng' → (h < ng) ⊎ (h ≡ g)) where
  abbrev more : List Request
  more = done ++ ((key, g) ∷ [])

  fits' : (i : ℕ) (p : Request) → get_elem? done i ≡ some p → (g ≡ p.1) ↔ (same_key key p.0 ≡ true)
  fits' i p h = (
    λ e. same_key_symm p.0 key ((fits i p h).0 (sym e)),
    λ s. sym ((fits i p h).1 (same_key_symm key p.0 s)),
  )

  extend-together :
      (i j : ℕ) (p q : Request)
      → get_elem? more i ≡ some p
      → get_elem? more j ≡ some q
      → (p.1 ≡ q.1) ↔ (same_key p.0 q.0 ≡ true)
  extend-together i j p q hp hq = elim (get_elem?-append_cases done (key, g) i hp) [
    | inl old ↦ elim (get_elem?-append_cases done (key, g) j hq) [
      | inl old' ↦ v.together i j p q old old'
      | inr (_, e) ↦
          subst (λ (t : Request). (p.1 ≡ t.1) ↔ (same_key p.0 t.0 ≡ true)) e (fits i p old)
    ]
    | inr (_, e) ↦ elim (get_elem?-append_cases done (key, g) j hq) [
      | inl old' ↦
          subst (λ (t : Request). (t.1 ≡ q.1) ↔ (same_key t.0 q.0 ≡ true)) e (fits' j q old')
      | inr (_, e') ↦
          subst (λ (t : Request). (t.1 ≡ q.1) ↔ (same_key t.0 q.0 ≡ true)) e
            (subst (λ (t : Request). (g ≡ t.1) ↔ (same_key key t.0 ≡ true)) e'
              (λ _. same_key_refl key, λ _. refl))
    ]
  ]

  extend-in_order :
      (i : ℕ) (p : Request)
      → get_elem? more i ≡ some p
      → (p.1 ≡ 0)
        ⊎ ((j : ℕ) × (q : Request) × (j < i) × (get_elem? more j ≡ some q) × (suc q.1 ≡ p.1))
  extend-in_order i p hp = elim (get_elem?-append_cases done (key, g) i hp) [
    | inl old ↦ elim (v.in_order i p old) [
      | inl first ↦ inl first
      | inr (j, q, lt, h, e) ↦ inr (j, q, lt, get_elem?-append_left done _ j h, e)
    ]
    | inr (at_end, e) ↦ elim preceded [
      | inl first ↦ inl (ground arith)
      | inr (j, q, lt, h, e') ↦
          inr (j, q, omega arith, get_elem?-append_left done _ j h, ground arith)
    ]
  ]

  extend-used :
      (h : ℕ) → h < ng' → (i : ℕ) × (p : Request) × (get_elem? more i ≡ some p) × (p.1 ≡ h)
  extend-used h lt = elim (fresh_only h lt) [
    | inl old ↦ let (i, p, e, e') = v.used h old in (i, p, get_elem?-append_left done _ i e, e')
    | inr new ↦ (length done, (key, g), get_elem?-append_end done (key, g), sym new)
  ]

  extend-bounded : (i : ℕ) (p : Request) → get_elem? more i ≡ some p → p.1 < ng'
  extend-bounded i p hp = elim (get_elem?-append_cases done (key, g) i hp) [
    | inl old ↦ omega (arith, v.bounded i p old)
    | inr (_, e) ↦ ground arith
  ]

  pub extend-IsGrouped : IsGrouped more ng'
  extend-IsGrouped = record {
    together = extend-together;
    bounded = extend-bounded;
    used = extend-used;
    in_order = extend-in_order;
  }
