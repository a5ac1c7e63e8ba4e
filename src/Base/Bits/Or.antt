-- ===== src/Base/Bits/Or.antt =====
-- `|` of fields that do not overlap is a sum.
use Prim.Native.Nat.{ℕ, zero, suc, ◌+◌, ◌*◌, ◌/◌, ◌%◌, ◌^◌, ◌≤◌, ◌<◌, max, bit_or, bit_or-bitwise}
use mathlib.Core.Path.{◌≡◌, refl, ap}
use pg_cuvs.Base.Bits.Digits.{last_digit}
use native.Mathlib.Omega.{arith}
use native.Mathlib.Nat.{pow-suc}

or_last : (x y : ℕ) → bit_or x y ≡ bit_or (x / 2) (y / 2) * 2 + max (x % 2) (y % 2)
or_last = last_digit (λ y. y) max bit_or bit_or-bitwise (λ y. omega arith)

-- A number stays as it is; `bound` is any bound of it.
or_none : (bound x : ℕ) → x ≤ bound → bit_or x 0 ≡ x
or_none bound zero h = refl
or_none zero (suc x) h = absurd (omega arith)
or_none (suc bound) (suc x) h =
    omega (arith, or_none bound (suc x / 2) (omega arith), or_last (suc x) 0)

-- Fields that do not overlap: `(a << k) | b` is a sum when `b` has at most `k` binary digits.
pub bit_or-add : (k a b : ℕ) → b < 2 ^ k → bit_or (a * 2 ^ k) b ≡ a * 2 ^ k + b
bit_or-add zero a zero h = omega (arith, or_none (a * 2 ^ 0) (a * 2 ^ 0) (omega arith))
bit_or-add zero a (suc b) h = absurd (omega arith)
bit_or-add (suc k) a b h =
    let p : 2 ^ suc k ≡ 2 ^ k * 2 = pow-suc 2 k in
    let e : a * 2 ^ suc k ≡ a * 2 ^ k * 2 = omega (arith, ap (λ (t : ℕ). a * t) p) in
    let half : a * 2 ^ suc k / 2 ≡ a * 2 ^ k = omega arith in
    let ih : bit_or (a * 2 ^ k) (b / 2) ≡ a * 2 ^ k + b / 2 =
      bit_or-add k a (b / 2) (omega arith) in
    let st : bit_or (a * 2 ^ suc k / 2) (b / 2) ≡ bit_or (a * 2 ^ k) (b / 2) =
      ap (λ (t : ℕ). bit_or t (b / 2)) half in
    omega (arith, or_last (a * 2 ^ suc k) b, st, ih)
