-- ===== src/Hnsw/Half/Nearest.antt =====
-- `float_to_half` rounds to the nearest half, and to the even one of two that are equally near.
use pg_cuvs.Base.{
  ℕ, zero, suc, ◌+◌, ◌-◌, ◌*◌, ◌/◌, ◌%◌, ◌^◌, ◌≤◌, ◌<◌, ◌≡◌, refl, ap, sym, subst, ◌∙◌, inl, inr,
  true, false, ltb, leb, ◌==◌, if◌then◌else◌, ==_iff, arith, Bool-cases, dec_lt,
}
use native.Mathlib.Nat.{pow-suc, mul-le-mul, pow-le-pow_right, div-lt_iff_lt-mul}
use pg_cuvs.Hnsw.Half.{round_bits, half_bits, sign_of, exponent_of, mantissa_of, float_to_half}
use pg_cuvs.Hnsw.Half.Rounding.{Rounds, round_bits-Rounds, Rounds-scale, Rounds-shift, pow_pos}

-- The magnitude of a float32 that is not Inf or NaN, in units of 2^-149.
unfoldable pub float_value : ℕ → ℕ → ℕ
float_value e mant = if e == 0 then mant else (mant + 2 ^ 23) * 2 ^ (e - 1)

-- The magnitude of a half in units of 2^-24; Inf as the first value out of range, 2^16.
unfoldable pub half_value : ℕ → ℕ
half_value r = if r / 2 ^ 10 == 0 then r % 2 ^ 10 else (r % 2 ^ 10 + 2 ^ 10) * 2 ^ (r / 2 ^ 10 - 1)

pow_sum : (a b : ℕ) → 2 ^ (a + b) ≡ 2 ^ a * 2 ^ b
pow_sum a zero = let e : a + 0 ≡ a = omega arith in rw e (omega arith)
pow_sum a (suc b) =
    let e : a + suc b ≡ suc (a + b) = omega arith in
    rw (e, pow-suc 2 (a + b), pow_sum a b, pow-suc 2 b) (omega arith)

exponents : (a b : ℕ) → a ≡ b → 2 ^ a ≡ 2 ^ b
exponents a b e = ap (λ (n : ℕ). 2 ^ n) e

-- A half by its exponent and significand.
half_value-normal :
    (exp m : ℕ) → m < 2 ^ 10 → half_value (suc exp * 2 ^ 10 + m) ≡ (m + 2 ^ 10) * 2 ^ exp
unfolding half_value
half_value-normal exp m h =
    let high : (suc exp * 2 ^ 10 + m) / 2 ^ 10 ≡ suc exp = omega arith in
    let low : (suc exp * 2 ^ 10 + m) % 2 ^ 10 ≡ m = omega arith in
    let before : suc exp - 1 ≡ exp = omega arith in
    let set : (suc exp == 0) ≡ false = ground arith in rw (high, low, set, before) refl

half_value-subnormal : (m : ℕ) → m ≤ 2 ^ 10 → half_value m ≡ m
unfolding half_value
half_value-subnormal m h = elim (dec_lt m 1024) [
  | yes lt ↦
      let high : m / 1024 ≡ 0 = omega arith in
      let low : m % 1024 ≡ m = omega arith in rw (high, low) refl
  | no ge ↦ let e : m ≡ 1024 = omega arith in rw e refl
]

round_bits-le : (m s bound : ℕ) → m < bound * 2 ^ s → round_bits m s ≤ bound
unfolding round_bits
round_bits-le m s bound h =
    let q : m / 2 ^ s < bound = (div-lt_iff_lt-mul (pow_pos s)).1 h in ground (arith, q)

-- The half `r` is so many units of a power of two, nearest to the float.
pub record Nearest (r e mant : ℕ) : Type 0 where
  pub units : ℕ
  pub value : half_value r ≡ units * 2 ^ (e - 113)
  pub rounds : Rounds (float_value e mant) (2 ^ (125 + (e - 113))) units

flushed : (e mant : ℕ) → e < 102 → mant < 2 ^ 23 → Nearest (half_bits e mant) e mant
unfolding half_bits float_value half_value
flushed e mant small h =
    let not_max : (e == 255) ≡ false = ground arith in
    let in_range : leb (112 + 0x1F) e ≡ false = ground arith in
    let under : leb e 112 ≡ true = ground arith in
    let tiny : ltb e 102 ≡ true = ground arith in
    let no_units : e - 113 ≡ 0 = omega arith in
    let bound : (if e == 0 then mant else (mant + 2 ^ 23) * 2 ^ (e - 1)) ≤ 2 ^ 24 * 2 ^ 100 =
      elim (Bool-cases (e == 0)) [
        | inl zero_exp ↦ rw zero_exp (omega arith)
        | inr some_exp ↦ rw some_exp (
            mul-le-mul {n₁ = mant + 2 ^ 23} {m₁ = 2 ^ (e - 1)} {n₂ = 2 ^ 24} {m₂ = 2 ^ 100}
              (omega arith) (pow-le-pow_right (omega arith) {i = e - 1} {j = 100} (omega arith)))
      ] in
    record {
      units = 0;
      value = rw (not_max, in_range, under, tiny) (omega arith);
      rounds =
          rw no_units (record { low = omega (arith, bound); high = omega arith; tie = λ t. refl });
    }

subnormal : (e mant : ℕ) → 102 ≤ e → e ≤ 112 → mant < 2 ^ 23 → Nearest (half_bits e mant) e mant
unfolding half_bits float_value
subnormal e mant low high h =
    let not_max : (e == 255) ≡ false = ground arith in
    let in_range : leb (112 + 0x1F) e ≡ false = ground arith in
    let under : leb e 112 ≡ true = ground arith in
    let not_tiny : ltb e 102 ≡ false = ground arith in
    let some_exp : (e == 0) ≡ false = ground arith in
    let no_units : e - 113 ≡ 0 = omega arith in
    let shift : 14 + 112 - e ≡ suc (125 - e) = omega arith in
    let r = round_bits (mant + 2 ^ 23) (suc (125 - e)) in
    let wide : 2 ^ 14 ≤ 2 ^ suc (125 - e) =
      pow-le-pow_right (omega arith) {i = 14} {j = suc (125 - e)} (omega arith) in
    let fits : r ≤ 1024 =
      round_bits-le (mant + 2 ^ 23) (suc (125 - e)) 1024 (omega (arith, wide)) in
    let unit : 2 ^ suc (125 - e) * 2 ^ (e - 1) ≡ 2 ^ 125 =
      sym (pow_sum (suc (125 - e)) (e - 1))
      ∙ exponents (suc (125 - e) + (e - 1)) 125 (omega arith) in
    record {
      units = r;
      value =
          rw (not_max, in_range, under, not_tiny, shift, no_units)
            (half_value-subnormal r fits ∙ omega arith);
      rounds =
          rw (no_units, some_exp, ← unit)
            (Rounds-scale (mant + 2 ^ 23) (2 ^ suc (125 - e)) r (2 ^ (e - 1)) (pow_pos (e - 1))
              (round_bits-Rounds (mant + 2 ^ 23) (125 - e)));
    }

-- In the normal range the significand may carry into the exponent.
normal_value :
    (k m : ℕ)
    → k ≤ 29
    → m ≤ 1024
    → half_value (
        if m == 0x400
        then (if leb (112 + 0x1F) (113 + k + 1) then 0x7C00 else (113 + k + 1 - 112) * 2 ^ 10)
        else (113 + k - 112) * 2 ^ 10 + m)
      ≡ (m + 2 ^ 10) * 2 ^ k
normal_value k m small h = elim (Bool-cases (m == 0x400)) [
  | inl carry ↦
      let bits : (if leb (112 + 0x1F) (113 + k + 1) then 0x7C00 else (113 + k + 1 - 112) * 2 ^ 10)
          ≡ suc (suc k) * 2 ^ 10 + 0 =
        ground arith in
      let e : m ≡ 1024 = (==_iff m 1024).0 carry in
      rw (carry, bits, half_value-normal (suc k) 0 (omega arith), e, pow-suc 2 k) (omega arith)
  | inr stays ↦
      let bits : (113 + k - 112) * 2 ^ 10 + m ≡ suc k * 2 ^ 10 + m = omega arith in
      rw (stays, bits) (half_value-normal k m (ground arith))
]

normal : (e mant : ℕ) → 113 ≤ e → e < 143 → mant < 2 ^ 23 → Nearest (half_bits e mant) e mant
unfolding half_bits float_value
normal e mant low high h =
    let k = e - 113 in
    let m = round_bits mant 13 in
    let not_max : (e == 255) ≡ false = ground arith in
    let in_range : leb (112 + 0x1F) e ≡ false = ground arith in
    let over : leb e 112 ≡ false = ground arith in
    let some_exp : (e == 0) ≡ false = ground arith in
    let fits : m ≤ 1024 = round_bits-le mant 13 1024 (omega arith) in
    let back : 113 + k ≡ e = omega arith in
    let unit : 2 ^ 13 * 2 ^ (e - 1) ≡ 2 ^ (125 + k) =
      sym (pow_sum 13 (e - 1)) ∙ exponents (13 + (e - 1)) (125 + k) (omega arith) in
    record {
      units = m + 2 * 512;
      value =
          rw (not_max, in_range, over)
            (subst
              (λ (n : ℕ).
                half_value (
                  if m == 0x400
                  then (if leb (112 + 0x1F) (n + 1) then 0x7C00 else (n + 1 - 112) * 2 ^ 10)
                  else (n - 112) * 2 ^ 10 + m)
                ≡ (m + 2 ^ 10) * 2 ^ k)
              back (normal_value k m (omega arith) fits));
      rounds =
          rw (some_exp, ← unit)
            (Rounds-scale (mant + 2 * 512 * 2 ^ 13) (2 ^ 13) (m + 2 * 512) (2 ^ (e - 1))
              (pow_pos (e - 1)) (Rounds-shift mant (2 ^ 13) m 512 (round_bits-Rounds mant 12)));
    }

half_bits-Nearest : (e mant : ℕ) → e < 143 → mant < 2 ^ 23 → Nearest (half_bits e mant) e mant
half_bits-Nearest e mant high h = elim (dec_lt e 102) [
  | yes tiny ↦ flushed e mant tiny h
  | no big ↦ elim (dec_lt e 113) [
    | yes under ↦ subnormal e mant (omega arith) (omega arith) h
    | no over ↦ normal e mant (omega arith) high h
  ]
]

-- The sign bit stays free.
half_bits-lt : (e mant : ℕ) → e < 143 → mant < 2 ^ 23 → half_bits e mant < 2 ^ 15
unfolding half_bits
half_bits-lt e mant high h =
    let fits : round_bits mant 13 ≤ 1024 = round_bits-le mant 13 1024 (omega arith) in
    elim (dec_lt e 102) [
      | yes tiny ↦ ground arith
      | no big ↦ elim (dec_lt e 113) [
        | no over ↦ ground (arith, fits)
        | yes under ↦
            let wide : 2 ^ 14 ≤ 2 ^ (14 + 112 - e) =
              pow-le-pow_right (omega arith) {i = 14} {j = 14 + 112 - e} (omega arith) in
            let fits' : round_bits (mant + 2 ^ 23) (14 + 112 - e) ≤ 1024 =
              round_bits-le (mant + 2 ^ 23) (14 + 112 - e) 1024 (omega (arith, wide)) in
            ground (arith, fits')
      ]
    ]

-- `float_to_half` keeps the sign bit, and for a float32 below 2^16 in magnitude, by its biased
-- exponent below 143, answers with a whole number of the units in which halves of its size are
-- spaced (2^-24 up to 2^-13, then one more power of two for each of the float's), nearest to it, and
-- with an even number of them if two are equally near.
pub float_to_half-Nearest :
    (x : ℕ)
    → exponent_of x < 143
    → (float_to_half x / 2 ^ 15 ≡ x / 2 ^ 31 % 2)
      × Nearest (float_to_half x % 2 ^ 15) (exponent_of x) (mantissa_of x)
unfolding float_to_half sign_of mantissa_of
float_to_half-Nearest x high =
    let e = exponent_of x in
    let mant = x % 2 ^ 23 in
    let lt : half_bits e mant < 2 ^ 15 = half_bits-lt e mant high (omega arith) in
    let magnitude : (x / 2 ^ 31 % 2 * 2 ^ 15 + half_bits e mant) % 2 ^ 15 ≡ half_bits e mant =
      omega (arith, lt) in
    (omega (arith, lt), rw magnitude (half_bits-Nearest e mant high (omega arith)))
