-- ===== src/Base/Bits/Digits.antt =====
-- The recursion over binary digits that the native bit operations stand for: `z` is what it does once
-- the first number has no digits left, and `f` combines two digits.
use Prim.Native.Nat.{ℕ, zero, suc, ◌+◌, ◌*◌, ◌/◌, ◌%◌, ◌≤◌, digits}
use mathlib.Core.Path.{◌≡◌, refl, sym, ap, ◌∙◌}
use native.Mathlib.Omega.{arith}

module _ (z : ℕ → ℕ) (f : ℕ → ℕ → ℕ) where
  -- Any fuel from the first number on gives the same result.
  fuel_same :
      (fuel spare x y : ℕ) → x ≤ fuel → x ≤ spare → digits z f fuel x y ≡ digits z f spare x y
  fuel_same zero zero x y h k = refl
  fuel_same zero (suc spare) zero y h k = refl
  fuel_same (suc fuel) zero zero y h k = refl
  fuel_same (suc fuel) (suc spare) zero y h k = refl
  fuel_same zero spare (suc x) y h k = absurd (omega arith)
  fuel_same (suc fuel) zero (suc x) y h k = absurd (omega arith)
  fuel_same (suc fuel) (suc spare) (suc x) y h k =
      let halves = fuel_same fuel spare (suc x / 2) (y / 2) (omega arith) (omega arith) in
      ap (λ (t : ℕ). t * 2 + f (suc x % 2) (y % 2)) halves

  -- An operation that is this recursion takes its digits apart, the last one first.
  pub last_digit :
      (op : ℕ → ℕ → ℕ)
      → ((x y : ℕ) → op x y ≡ digits z f x x y)
      → ((y : ℕ) → z y ≡ z (y / 2) * 2 + f 0 (y % 2))
      → (x y : ℕ) → op x y ≡ op (x / 2) (y / 2) * 2 + f (x % 2) (y % 2)
  last_digit op is_digits none_left zero y =
      is_digits 0 y ∙ none_left y ∙ ap (λ (t : ℕ). t * 2 + f 0 (y % 2)) (sym (is_digits 0 (y / 2)))
  last_digit op is_digits none_left (suc x) y =
      is_digits (suc x) y
      ∙ ap (λ (t : ℕ). t * 2 + f (suc x % 2) (y % 2))
          (fuel_same x (suc x / 2) (suc x / 2) (y / 2) (omega arith) (omega arith)
            ∙ sym (is_digits (suc x / 2) (y / 2)))
