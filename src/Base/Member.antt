-- ===== src/Base/Member.antt =====
-- Whether a number is in a list, by a linear scan.
use Prim.Native.Nat.{ℕ, zero, suc, ◌<◌}
use mathlib.Core.Path.{◌≡◌, refl, ap}
use mathlib.Core.Logic.{◌≢◌, inl, inr}
use mathlib.Core.Bool.{Bool, true, false, false≢true, ◌||◌}
use mathlib.Core.Option.{some}
use mathlib.Core.List.{List, [], ◌∷◌, ◌++◌}
use native.Mathlib.Omega.{arith}
use pg_cuvs.Base.Tests.{◌==◌, ==_iff, Bool-cases}
use pg_cuvs.Base.Lists.{length, get_elem?, get_or}

unfoldable pub elem : ℕ → List ℕ → Bool
elem r [] = false
elem r (x ∷ xs) = x == r || elem r xs

pub elem-get_elem? : (xs : List ℕ) (i r : ℕ) → get_elem? xs i ≡ some r → elem r xs ≡ true
unfolding elem
elem-get_elem? [] i r h = ground arith
elem-get_elem? (x ∷ xs) zero r h = ground (arith, h)
elem-get_elem? (x ∷ xs) (suc i) r h = ground (arith, elem-get_elem? xs i r h)

pub elem-none :
    (xs : List ℕ) (r : ℕ) → ((i : ℕ) → i < length xs → get_or xs i 0 ≢ r) → elem r xs ≡ false
unfolding elem
elem-none [] r h = refl
elem-none (x ∷ xs) r h =
    let first : x ≢ r = h 0 (omega arith) in
    let others = elem-none xs r (λ i lt. h (suc i) (omega arith)) in ground (arith, first, others)

pub elem-append : (r : ℕ) (xs ys : List ℕ) → elem r (xs ++ ys) ≡ (elem r xs || elem r ys)
unfolding elem
elem-append r [] ys = refl
elem-append r (x ∷ xs) ys = elim (Bool-cases (x == r)) [
  | inl here ↦ rw here refl
  | inr off ↦ rw off (elem-append r xs ys)
]

pub elem-one : (r x : ℕ) → elem r (x ∷ []) ≡ (x == r)
unfolding elem
elem-one r x = ground arith

pub elem-index : (r : ℕ) (xs : List ℕ) → elem r xs ≡ true → (i : ℕ) × (get_elem? xs i ≡ some r)
unfolding elem
elem-index r [] h = absurd (false≢true h)
elem-index r (x ∷ xs) h = elim (Bool-cases (x == r)) [
  | inl here ↦ (0, ap some ((==_iff x r).0 here))
  | inr off ↦ let (i, e) = elem-index r xs (ground (arith, off)) in (suc i, e)
]
