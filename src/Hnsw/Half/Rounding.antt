-- ===== src/Hnsw/Half/Rounding.antt =====
-- Rounding to a multiple, and what `round_bits` does.
use pg_cuvs.Base.{
  ℕ, zero, suc, ◌+◌, ◌-◌, ◌*◌, ◌/◌, ◌%◌, ◌^◌, ◌≤◌, ◌<◌, ◌≡◌, ap, sym, ◌⊎◌, inl, inr, true, false,
  not, ◌&&◌, ◌||◌, ◌==◌, if◌then◌else◌, arith, Bool-cases, dec_lt,
}
use native.Mathlib.Nat.{
  pow-suc, div-add-mod', div-eq_of_lt-le, mod-lt, mul-le-mul_right, mul-lt-mul_of_pos_right,
}
use pg_cuvs.Hnsw.Half.{round_bits}

times-cancel : (c a b : ℕ) → 0 < c → a * c ≡ b * c → a ≡ b
times-cancel c a b pos e = elim (dec_lt a b) [
  | yes lt ↦ absurd (omega (arith, mul-lt-mul_of_pos_right lt pos, e))
  | no ge ↦ elim (dec_lt b a) [
    | yes lt ↦ absurd (omega (arith, mul-lt-mul_of_pos_right lt pos, e))
    | no le ↦ omega arith
  ]
]

-- `q` units are nearest to `a`, and of two that are equally near, the even one.
pub record Rounds (a unit q : ℕ) : Type 0 where
  pub low : 2 * a ≤ 2 * (q * unit) + unit
  pub high : 2 * (q * unit) ≤ 2 * a + unit
  pub tie : (2 * a ≡ 2 * (q * unit) + unit) ⊎ (2 * (q * unit) ≡ 2 * a + unit) → q % 2 ≡ 0

pub pow_pos : (s : ℕ) → 0 < 2 ^ s
pow_pos zero = omega arith
pow_pos (suc s) = omega (arith, pow-suc 2 s, pow_pos s)

round_up :
    (h m q r : ℕ)
    → 0 < h
    → m ≡ q * (h * 2) + r
    → r < h * 2
    → h ≤ r
    → Rounds m (h * 2) (if not (r - h == 0) || (q % 2 == 1) then q + 1 else q)
round_up h m q r pos e lt above = elim (Bool-cases (r - h == 0)) [
  | inr past ↦ rw past (record {
    low = omega (arith, e);
    high = omega (arith, e);
    tie = λ t. ground (arith, e, past, above);
  })
  | inl half ↦ rw half (elim (Bool-cases (q % 2 == 1)) [
    | inl odd ↦
        rw odd (record {
          low = omega (arith, e);
          high = omega (arith, e);
          tie = λ t. ground (arith, odd);
        })
    | inr even ↦ rw even (record {
      low = ground (arith, e, half, above);
      high = omega (arith, e);
      tie = λ t. ground (arith, even);
    })
  ])
]

-- With a unit that is twice another one.
round_by :
    (h m q r : ℕ)
    → 0 < h
    → m ≡ q * (h * 2) + r
    → r < h * 2
    → Rounds m (h * 2) (if (m / h % 2 == 1) && (not (m % h == 0) || (q % 2 == 1)) then q + 1 else q)
round_by h m q r pos e lt = elim (dec_lt r h) [
  | yes below ↦
      let quotient : m / h ≡ 2 * q = div-eq_of_lt-le h (omega (arith, e)) (omega (arith, e)) in
      let bit : (m / h % 2 == 1) ≡ false = rw quotient (ground arith) in
      rw bit (record {
        low = omega (arith, e);
        high = omega (arith, e);
        tie = λ t. elim t [ inl u ↦ absurd (omega (arith, e)) | inr u ↦ absurd (omega (arith, e)) ];
      })
  | no above ↦
      let quotient : m / h ≡ 2 * q + 1 = div-eq_of_lt-le h (omega (arith, e)) (omega (arith, e)) in
      let bit : (m / h % 2 == 1) ≡ true = rw quotient (ground arith) in
      let rest : m % h ≡ r - h =
        omega (arith, div-add-mod' m h, ap (λ (n : ℕ). n * h) quotient, e) in
      rw (bit, rest) (round_up h m q r pos e lt (omega arith))
]

pub round_bits-Rounds : (m s : ℕ) → Rounds m (2 ^ suc s) (round_bits m (suc s))
unfolding round_bits
round_bits-Rounds m s =
    let unit : 2 ^ suc s ≡ 2 ^ s * 2 = pow-suc 2 s in
    let before : suc s - 1 ≡ s = omega arith in
    rw (before, unit)
      (round_by (2 ^ s) m (m / (2 ^ s * 2)) (m % (2 ^ s * 2)) (pow_pos s)
        (sym (div-add-mod' m (2 ^ s * 2))) (mod-lt m (omega (arith, pow_pos s))))

-- The same in finer units.
pub Rounds-scale : (a unit q c : ℕ) → 0 < c → Rounds a unit q → Rounds (a * c) (unit * c) q
Rounds-scale a unit q c pos v =
    let low : 2 * a * c ≤ (2 * (q * unit) + unit) * c = mul-le-mul_right c v.low in
    let high : 2 * (q * unit) * c ≤ (2 * a + unit) * c = mul-le-mul_right c v.high in
    record {
      low = omega (arith, low);
      high = omega (arith, high);
      tie = λ t. v.tie (elim t [
        | inl e ↦ inl (times-cancel c (2 * a) (2 * (q * unit) + unit) pos (omega (arith, e)))
        | inr e ↦ inr (times-cancel c (2 * (q * unit)) (2 * a + unit) pos (omega (arith, e)))
      ]);
    }

-- With an even number of units more.
pub Rounds-shift : (a unit q n : ℕ) → Rounds a unit q → Rounds (a + 2 * n * unit) unit (q + 2 * n)
Rounds-shift a unit q n v = record {
  low = omega (arith, v.low);
  high = omega (arith, v.high);
  tie = λ t.
      let even : q % 2 ≡ 0 =
        v.tie (elim t [ inl e ↦ inl (omega (arith, e)) | inr e ↦ inr (omega (arith, e)) ]) in
      omega (arith, even);
}
