-- ===== src/Batch/Add.antt =====
-- The two ways in which the loop of `cuvs_batch_group` adds a request.

use pg_cuvs.Base.{
  ℕ, zero, suc, ◌+◌, ◌≤◌, ◌<◌, ◌≡◌, refl, sym, ◌∙◌, ◌⊎◌, inl, inr, ◌↔◌, List, [], ◌∷◌, ◌++◌, true,
  none, some, arith, length, get_elem?, get_elem?-lt, subst, dec_lt, false≢true,
}
use pg_cuvs.Batch.{Key, same_key}
use pg_cuvs.Batch.Keys.{same_key_symm, same_key_trans}
use pg_cuvs.Batch.Scan.{Request, Scanned}
use pg_cuvs.Batch.Extend.{IsGrouped, extend-IsGrouped}

module _ (done : List Request) (ng : ℕ) (v : IsGrouped done ng) (key : Key) where
  -- The request joins the group of an earlier one with its key.
  pub join-IsGrouped : (g : ℕ) → Scanned done key (some g) → IsGrouped (done ++ ((key, g) ∷ [])) ng
  join-IsGrouped g (i, r, hr, same, e) =
      extend-IsGrouped done ng v key g ng (omega arith)
        (subst (λ (t : ℕ). t < ng) e (v.bounded i r hr)) fits preceded (λ h lt. inl lt)
    where
      fits :
          (j : ℕ) (p : Request) → get_elem? done j ≡ some p → (p.1 ≡ g) ↔ (same_key p.0 key ≡ true)
      fits j p hp = (
        λ eq. same_key_trans p.0 r.0 key ((v.together j i p r hp hr).0 (eq ∙ sym e)) same,
        λ s.
            (v.together j i p r hp hr).1 (same_key_trans p.0 key r.0 s (same_key_symm r.0 key same))
            ∙ e,
      )

      preceded :
          (g ≡ 0)
          ⊎ ((j : ℕ) × (q : Request) × (j < length done)
              × (get_elem? done j ≡ some q)
              × (suc q.1 ≡ g))
      preceded = elim (v.in_order i r hr) [
        | inl first ↦ inl (sym e ∙ first)
        | inr (j, q, lt, h, e') ↦ inr (j, q, get_elem?-lt done j h, h, e' ∙ e)
      ]

  -- The request opens the next group.
  pub open-IsGrouped : Scanned done key none → IsGrouped (done ++ ((key, ng) ∷ [])) (ng + 1)
  open-IsGrouped none_same =
      extend-IsGrouped done ng v key ng (ng + 1) (omega arith) (omega arith) fits (preceded ng refl)
        (λ h lt. split h (omega arith))
    where
      fits :
          (j : ℕ) (p : Request) → get_elem? done j ≡ some p → (p.1 ≡ ng) ↔ (same_key p.0 key ≡ true)
      fits j p hp = (
        λ eq. absurd (omega (arith, v.bounded j p hp)),
        λ s. absurd (false≢true (sym (none_same j p hp) ∙ s)),
      )

      preceded :
          (n : ℕ)
          → n ≡ ng
          → (ng ≡ 0)
            ⊎ ((j : ℕ) × (q : Request) × (j < length done)
                × (get_elem? done j ≡ some q)
                × (suc q.1 ≡ ng))
      preceded zero e = inl (sym e)
      preceded (suc n) e =
          let (i, p, h, e') = v.used n (omega arith) in
          inr (i, p, get_elem?-lt done i h, h, omega arith)

      split : (h : ℕ) → h ≤ ng → (h < ng) ⊎ (h ≡ ng)
      split h le = elim (dec_lt h ng) [ yes lt ↦ inl lt | no ge ↦ inr (omega arith) ]
