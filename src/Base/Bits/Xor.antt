-- ===== src/Base/Bits/Xor.antt =====
-- Laws of `^` (exclusive or) at variables.
use Prim.Native.Nat.{
  ℕ, zero, suc, ◌+◌, ◌*◌, ◌/◌, ◌%◌, ◌^◌, ◌≤◌, ◌<◌, bit_xor, bit_xor-bitwise, differ,
}
use mathlib.Core.Path.{◌≡◌, refl, ap, ap₂, ◌∙◌, sym}
use pg_cuvs.Base.Bits.Digits.{last_digit}
use native.Mathlib.Omega.{arith}
use native.Mathlib.Decide.{dec_lt}
use native.Mathlib.Nat.{pow-suc, div-div-eq-div-mul}
use pg_cuvs.Base.Bits.And.{mod-double, pow-pos}

differ_lem : (a b : ℕ) → a < 2 → b < 2 → differ a b ≡ (a + b) % 2
differ_lem zero b h k = omega arith
differ_lem (suc zero) zero h k = refl
differ_lem (suc zero) (suc zero) h k = refl
differ_lem (suc zero) (suc (suc b)) h k = absurd (omega arith)
differ_lem (suc (suc a)) b h k = absurd (omega arith)

zero-bit_xor : (b : ℕ) → bit_xor 0 b ≡ b
zero-bit_xor b = bit_xor-bitwise 0 b

differ_none : (y : ℕ) → y ≡ y / 2 * 2 + differ 0 (y % 2)
differ_none y = omega (arith, differ_lem 0 (y % 2) (omega arith) (omega arith))

bit_xor_step : (a b : ℕ) → bit_xor a b ≡ bit_xor (a / 2) (b / 2) * 2 + (a + b) % 2
bit_xor_step a b = omega (
  arith,
  last_digit (λ y. y) differ bit_xor bit_xor-bitwise differ_none a b,
  differ_lem (a % 2) (b % 2) (omega arith) (omega arith),
)

pub bit_xor-lt : (k a b : ℕ) → a < 2 ^ k → b < 2 ^ k → bit_xor a b < 2 ^ k
bit_xor-lt zero a b h h' = omega (arith, ap (λ (t : ℕ). bit_xor t b) a_zero, zero-bit_xor b)
  where
    a_zero : a ≡ 0
    a_zero = omega arith
bit_xor-lt (suc k) a b h h' =
    let p : 2 ^ suc k ≡ 2 ^ k * 2 = pow-suc 2 k in
    omega (arith, bit_xor_step a b, bit_xor-lt k (a / 2) (b / 2) (omega arith) (omega arith))

bit_xor-half : (a b : ℕ) → bit_xor a b / 2 ≡ bit_xor (a / 2) (b / 2)
bit_xor-half a b = omega (arith, bit_xor_step a b)

-- A shift by one more is a shift of the half.
shift_suc : (k a : ℕ) → a / 2 ^ suc k ≡ a / 2 / 2 ^ k
shift_suc k a = ap (λ (t : ℕ). a / t) (pow-suc' k) ∙ sym (div-div-eq-div-mul a 2 (2 ^ k))
  where
    pow-suc' : (k : ℕ) → 2 ^ suc k ≡ 2 * 2 ^ k
    pow-suc' k = omega (arith, pow-suc 2 k)

pub bit_xor-shift : (k a b : ℕ) → bit_xor a b / 2 ^ k ≡ bit_xor (a / 2 ^ k) (b / 2 ^ k)
bit_xor-shift zero a b =
    let whole : bit_xor a b / 2 ^ 0 ≡ bit_xor a b = omega arith in
    whole ∙ sym (ap₂ bit_xor (div-one a) (div-one b))
  where
    div-one : (n : ℕ) → n / 2 ^ 0 ≡ n
    div-one n = omega arith
bit_xor-shift (suc k) a b =
    shift_suc k (bit_xor a b)
    ∙ ap (λ (t : ℕ). t / 2 ^ k) (bit_xor-half a b)
    ∙ bit_xor-shift k (a / 2) (b / 2)
    ∙ sym (ap₂ bit_xor (shift_suc k a) (shift_suc k b))

pub bit_xor-mod : (k a b : ℕ) → bit_xor a b % 2 ^ k ≡ bit_xor (a % 2 ^ k) (b % 2 ^ k)
bit_xor-mod zero a b = omega (arith, ap₂ bit_xor (mod-one a) (mod-one b))
  where
    mod-one : (n : ℕ) → n % 2 ^ 0 ≡ 0
    mod-one n = omega arith
bit_xor-mod (suc k) a b =
    let m : ℕ = 2 ^ k in
    let p : 2 ^ suc k ≡ m * 2 = pow-suc 2 k in
    let low : bit_xor a b % 2 ^ suc k ≡ bit_xor a b / 2 % m * 2 + bit_xor a b % 2 =
      split (bit_xor a b) in
    let high : bit_xor a b / 2 % m ≡ bit_xor (a / 2 % m) (b / 2 % m) =
      ap (λ (t : ℕ). t % m) (bit_xor-half a b) ∙ bit_xor-mod k (a / 2) (b / 2) in
    let halves : bit_xor (a % 2 ^ suc k / 2) (b % 2 ^ suc k / 2) ≡ bit_xor (a / 2 % m) (b / 2 % m) =
      ap₂ bit_xor (half a) (half b) in
    omega (
      arith,
      low,
      high,
      halves,
      split a,
      split b,
      bit_xor_step a b,
      bit_xor_step (a % 2 ^ suc k) (b % 2 ^ suc k),
    )
  where
    split : (n : ℕ) → n % 2 ^ suc k ≡ n / 2 % 2 ^ k * 2 + n % 2
    split n = ap (λ (t : ℕ). n % t) (pow-suc 2 k) ∙ mod-double n (2 ^ k) (pow-pos k)

    half : (n : ℕ) → n % 2 ^ suc k / 2 ≡ n / 2 % 2 ^ k
    half n = omega (arith, split n)

pub bit_xor-zero : (n a : ℕ) → a ≤ n → bit_xor a 0 ≡ a
bit_xor-zero n zero h = refl
bit_xor-zero zero (suc a) h = absurd (omega arith)
bit_xor-zero (suc n) (suc a) h =
    omega (arith, bit_xor_step (suc a) 0, bit_xor-zero n (suc a / 2) (omega arith))

-- Equal sums with the same number have equal halves and equal last digits.
cancel_fuel : (n a b c : ℕ) → a + b ≤ n → bit_xor a c ≡ bit_xor b c → a ≡ b
cancel_fuel zero a b c h e = omega arith
cancel_fuel (suc n) a b c h e =
    let halves : bit_xor (a / 2) (c / 2) ≡ bit_xor (b / 2) (c / 2) =
      omega (arith, bit_xor_step a c, bit_xor_step b c) in
    elim (dec_lt (a + b) 1) [
      | yes none_left ↦ omega arith
      | no some_left ↦ omega (
        arith,
        cancel_fuel n (a / 2) (b / 2) (c / 2) (omega arith) halves,
        bit_xor_step a c,
        bit_xor_step b c,
      )
    ]

pub bit_xor-cancel_right : (a b c : ℕ) → bit_xor a c ≡ bit_xor b c → a ≡ b
bit_xor-cancel_right a b c e = cancel_fuel (a + b) a b c (omega arith) e

comm_fuel : (n a b : ℕ) → a + b ≤ n → bit_xor a b ≡ bit_xor b a
comm_fuel zero a b h = ap₂ bit_xor (both a b h) (both b a (omega arith))
  where
    both : (x y : ℕ) → x + y ≤ 0 → x ≡ y
    both x y h = omega arith
comm_fuel (suc n) a b h = elim (dec_lt (a + b) 1) [
  | yes none_left ↦ comm_fuel n a b (omega arith)
  | no some_left ↦
      omega (arith, bit_xor_step a b, bit_xor_step b a, comm_fuel n (a / 2) (b / 2) (omega arith))
]

pub bit_xor_comm : (a b : ℕ) → bit_xor a b ≡ bit_xor b a
bit_xor_comm a b = comm_fuel (a + b) a b (omega arith)

pub bit_xor-cancel_left : (a b c : ℕ) → bit_xor c a ≡ bit_xor c b → a ≡ b
bit_xor-cancel_left a b c e = bit_xor-cancel_right a b c (bit_xor_comm a c ∙ e ∙ bit_xor_comm c b)
