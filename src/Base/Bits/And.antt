-- ===== src/Base/Bits/And.antt =====
-- `&` with a mask of ones is a remainder.
use Prim.Native.Nat.{
  ℕ, zero, suc, ◌+◌, ◌-◌, ◌*◌, ◌/◌, ◌%◌, ◌^◌, ◌≤◌, ◌<◌, min, bit_and, bit_and-bitwise,
}
use mathlib.Core.Path.{◌≡◌, refl, ap, ◌∙◌}
use pg_cuvs.Base.Bits.Digits.{last_digit}
use native.Mathlib.Omega.{arith}
use native.Mathlib.Nat.{pow-suc, div-add-mod, mul-add-mod_self_left, mod-eq_of_lt, mod-lt}

and_last : (x y : ℕ) → bit_and x y ≡ bit_and (x / 2) (y / 2) * 2 + min (x % 2) (y % 2)
and_last = last_digit (λ y. 0) min bit_and bit_and-bitwise (λ y. omega arith)

-- Nothing is left of a number under no mask; `bound` is any bound of it.
under_none : (bound x : ℕ) → x ≤ bound → bit_and x 0 ≡ 0
under_none bound zero h = refl
under_none zero (suc x) h = absurd (omega arith)
under_none (suc bound) (suc x) h =
    omega (arith, under_none bound (suc x / 2) (omega arith), and_last (suc x) 0)

-- A remainder by an even number is that of the half, with the last digit put back.
pub mod-double : (a m : ℕ) → 0 < m → a % (m * 2) ≡ a / 2 % m * 2 + a % 2
mod-double a m h =
    let q : ℕ = a / 2 / m in
    let r : ℕ = a / 2 % m * 2 + a % 2 in
    let parts : m * q + a / 2 % m ≡ a / 2 = div-add-mod (a / 2) m in
    let below : a / 2 % m < m = mod-lt (a / 2) h in
    let split : a ≡ m * 2 * q + r = omega (arith, parts) in
    ap (λ (t : ℕ). t % (m * 2)) split
    ∙ mul-add-mod_self_left (m * 2) q r
    ∙ mod-eq_of_lt (omega (arith, below))

pub pow-pos : (k : ℕ) → 0 < 2 ^ k
pow-pos zero = omega arith
pow-pos (suc k) = omega (arith, pow-suc 2 k, pow-pos k)

pub bit_and-mask : (k a : ℕ) → bit_and a (2 ^ k - 1) ≡ a % 2 ^ k
bit_and-mask zero a = omega (arith, under_none a a (omega arith))
bit_and-mask (suc k) a =
    let p : 2 ^ suc k ≡ 2 ^ k * 2 = pow-suc 2 k in
    let half : (2 ^ suc k - 1) / 2 ≡ 2 ^ k - 1 = omega (arith, pow-pos k) in
    let rest : bit_and (a / 2) ((2 ^ suc k - 1) / 2) ≡ a / 2 % 2 ^ k =
      ap (λ (t : ℕ). bit_and (a / 2) t) half ∙ bit_and-mask k (a / 2) in
    let whole : a % 2 ^ suc k ≡ a / 2 % 2 ^ k * 2 + a % 2 =
      ap (λ (t : ℕ). a % t) p ∙ mod-double a (2 ^ k) (pow-pos k) in
    omega (arith, and_last a (2 ^ suc k - 1), rest, whole, pow-pos k)
