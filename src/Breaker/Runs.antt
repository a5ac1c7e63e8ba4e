-- ===== src/Breaker/Runs.antt =====
-- Errors in a row among the outcomes of an index.
use pg_cuvs.Base.{
  ℕ, suc, ◌≤◌, ◌≡◌, refl, List, [], ◌∷◌, Bool, true, false, ◌||◌, arith, zero, ◌-◌, ◌<◌, ap,
}

-- `es` begins with `n` errors in a row (`true` is an error, `false` a success).
unfoldable pub starts_run : ℕ → List Bool → Bool
starts_run zero es = true
starts_run (suc n) [] = false
starts_run (suc n) (false ∷ es) = false
starts_run (suc n) (true ∷ es) = starts_run n es

-- Somewhere in `es` there are `n` errors in a row.
unfoldable pub has_run : ℕ → List Bool → Bool
has_run n [] = starts_run n []
has_run n (e ∷ es) = starts_run n (e ∷ es) || has_run n es

pub starts_run_mono :
    (m n : ℕ) (es : List Bool) → m ≤ n → starts_run n es ≡ true → starts_run m es ≡ true
unfolding starts_run
starts_run_mono zero n es h p = refl
starts_run_mono (suc m) zero es h p = absurd (omega arith)
starts_run_mono (suc m) (suc n) [] h p = p
starts_run_mono (suc m) (suc n) (false ∷ es) h p = p
starts_run_mono (suc m) (suc n) (true ∷ es) h p = starts_run_mono m n es (omega arith) p

pub starts_run-or-has_run :
    (n : ℕ) (es : List Bool) → starts_run n es || has_run n es ≡ has_run n es
unfolding has_run
starts_run-or-has_run n [] = ground arith
starts_run-or-has_run n (e ∷ es) = ground arith

-- The first outcome decides a run of at least one error, or leaves one error less to look for.
pub starts_run-nil : (n : ℕ) → 0 < n → starts_run n [] ≡ false
unfolding starts_run
starts_run-nil zero h = absurd (omega arith)
starts_run-nil (suc n) h = refl

pub starts_run-success : (n : ℕ) (es : List Bool) → 0 < n → starts_run n (false ∷ es) ≡ false
unfolding starts_run
starts_run-success zero es h = absurd (omega arith)
starts_run-success (suc n) es h = refl

pub starts_run-error :
    (n : ℕ) (es : List Bool) → 0 < n → starts_run n (true ∷ es) ≡ starts_run (n - 1) es
unfolding starts_run
starts_run-error zero es h = absurd (omega arith)
starts_run-error (suc n) es h = ap (λ k. starts_run k es) (omega arith)

pub starts_run-zero : (n : ℕ) (es : List Bool) → n ≡ 0 → starts_run n es ≡ true
unfolding starts_run
starts_run-zero zero es h = refl
starts_run-zero (suc n) es h = absurd (omega arith)
