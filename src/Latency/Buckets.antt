-- ===== src/Latency/Buckets.antt =====
-- Which latencies a bucket holds, and what its upper edge tells of them.
use native.Mathlib.Nat.{pow-suc, pow-le-pow_right}
use pg_cuvs.Base.{
  ℕ, zero, suc, ◌+◌, ◌-◌, ◌*◌, ◌/◌, ◌^◌, ◌≤◌, ◌<◌, ◌≡◌, ◌↔◌, refl, ap, subst, ◌∙◌, arith, ◌==◌,
  if◌then◌else◌, dec_lt,
}
use pg_cuvs.Latency.{bucket_loop, bucket_index, bucket_upper_us}

-- The bits of `us`, at most `rounds`.
abbrev bits : ℕ → ℕ → ℕ
bits rounds us = bucket_loop rounds us 0

bucket_loop-idx : (rounds us idx : ℕ) → bucket_loop rounds us idx ≡ idx + bits rounds us
unfolding bucket_loop
bucket_loop-idx zero us idx = omega arith
bucket_loop-idx (suc rounds) us idx =
    ground (arith, bucket_loop-idx rounds (us / 2) (idx + 1), bucket_loop-idx rounds (us / 2) 1)

bits-suc :
    (rounds us : ℕ) → bits (suc rounds) us ≡ (if us == 0 then 0 else suc (bits rounds (us / 2)))
unfolding bucket_loop
bits-suc rounds us = ground (arith, bucket_loop-idx rounds (us / 2) 1)

bits-zero : (rounds : ℕ) → bits rounds 0 ≡ 0
unfolding bucket_loop
bits-zero zero = refl
bits-zero (suc rounds) = refl

bits-le : (rounds us : ℕ) → bits rounds us ≤ rounds
unfolding bucket_loop
bits-le zero us = omega arith
bits-le (suc rounds) us = ground (arith, bits-suc rounds us, bits-le rounds (us / 2))

low_edge : (rounds us b : ℕ) → bits rounds us ≡ suc b → 2 ^ b ≤ us
low_edge zero us b e = absurd (omega (arith, bits-le 0 us))
low_edge (suc rounds) us zero e = ground (arith, bits-suc rounds us)
low_edge (suc rounds) us (suc b) e =
    let tail_bits : bits rounds (us / 2) ≡ suc b = ground (arith, bits-suc rounds us) in
    omega (arith, low_edge rounds (us / 2) b tail_bits, pow-suc 2 b)

high_edge : (rounds us b : ℕ) → bits rounds us ≡ b → b < rounds → us < 2 ^ b
high_edge zero us b e lt = absurd (omega arith)
high_edge (suc rounds) us zero e lt = ground (arith, bits-suc rounds us)
high_edge (suc rounds) us (suc b) e lt =
    let tail_bits : bits rounds (us / 2) ≡ b = ground (arith, bits-suc rounds us) in
    omega (arith, high_edge rounds (us / 2) b tail_bits (omega arith), pow-suc 2 b)

-- Bucket `k + 1` starts at 2 ^ k microseconds.
pub bucket_index_low : (us k : ℕ) → bucket_index us ≡ suc k → 2 ^ k ≤ us
unfolding bucket_index
bucket_index_low us k e = low_edge 31 us k e

-- Every bucket but the last one ends below 2 ^ k microseconds.
pub bucket_index_high : (us k : ℕ) → bucket_index us ≡ k → k < 31 → us < 2 ^ k
unfolding bucket_index
bucket_index_high us k e lt = high_edge 31 us k e lt

pub bucket_index_bound : (us : ℕ) → bucket_index us ≤ 31
unfolding bucket_index
bucket_index_bound us = bits-le 31 us

-- The number of a bucket above the first, one less: where its lower edge stands.
low_edge_at : (us b : ℕ) → bucket_index us ≡ b → 0 < b → 2 ^ (b - 1) ≤ us
low_edge_at us zero e h = absurd (omega arith)
low_edge_at us (suc b) e h = subst (λ (t : ℕ). 2 ^ t ≤ us) (omega arith) (bucket_index_low us b e)

-- A longer latency is never put in a lower bucket.
pub bucket_index_mono : (a b : ℕ) → a ≤ b → bucket_index a ≤ bucket_index b
bucket_index_mono a b h = elim (dec_lt (bucket_index b) (bucket_index a)) [
  | no le ↦ omega arith
  | yes lt ↦
      let i = bucket_index a in
      let j = bucket_index b in
      let low : 2 ^ (i - 1) ≤ a = low_edge_at a i refl (omega arith) in
      let high : b < 2 ^ j = bucket_index_high b j refl (omega (arith, bucket_index_bound a)) in
      let grows : 2 ^ j ≤ 2 ^ (i - 1) = pow-le-pow_right (omega arith) (omega arith) in
      absurd (omega arith)
]

-- For `k` below 30 the bucket of a latency is `k + 1` exactly when it lies in [2 ^ k, 2 ^ (k + 1)).
bucket_index_iff :
    (us k : ℕ) → k < 30 → (bucket_index us ≡ suc k) ↔ ((2 ^ k ≤ us) × (us < 2 ^ suc k))
bucket_index_iff us k small = (
  λ e. (bucket_index_low us k e, bucket_index_high us (suc k) e (omega arith)),
  λ (low, high).
      let b = bucket_index us in
      elim (dec_lt b (suc k)) [
        | yes lt ↦
            let top : us < 2 ^ b = bucket_index_high us b refl (omega arith) in
            let grows : 2 ^ b ≤ 2 ^ k = pow-le-pow_right (omega arith) (omega arith) in
            absurd (omega arith)
        | no ge ↦ elim (dec_lt (suc k) b) [
          | yes lt ↦
              let bottom : 2 ^ (b - 1) ≤ us = low_edge_at us b refl (omega arith) in
              let grows : 2 ^ suc k ≤ 2 ^ (b - 1) = pow-le-pow_right (omega arith) (omega arith) in
              absurd (omega arith)
          | no le ↦ omega arith
        ]
      ],
)

-- The first bucket holds 0 alone, and the last one all from 2 ^ 30 microseconds on.
pub bucket_index_ends :
    (us : ℕ) → ((bucket_index us ≡ 0) ↔ (us ≡ 0)) × ((bucket_index us ≡ 31) ↔ (2 ^ 30 ≤ us))
bucket_index_ends us = (
  (λ e. omega (arith, bucket_index_high us 0 e (omega arith)), λ e. bucket_of_zero e),
  (λ e. bucket_index_low us 30 e, λ h. omega (arith, bucket_index_bound us, reaches_last h)),
)
  where
    bucket_of_zero : us ≡ 0 → bucket_index us ≡ 0
    bucket_of_zero e = elim (dec_lt 0 (bucket_index us)) [
      | yes lt ↦ absurd (
          omega (
            arith,
            low_edge_at us (bucket_index us) refl lt,
            pow-le-pow_right {n = 2} (omega arith) {i = 0} {j = bucket_index us - 1} (omega arith),
          ))
      | no le ↦ omega arith
    ]

    reaches_last : 2 ^ 30 ≤ us → 31 ≤ bucket_index us
    reaches_last h = elim (dec_lt (bucket_index us) 31) [
      | yes lt ↦ absurd (
          omega (
            arith,
            bucket_index_high us (bucket_index us) refl lt,
            pow-le-pow_right {n = 2} (omega arith) {i = bucket_index us} {j = 30} (omega arith),
          ))
      | no ge ↦ omega arith
    ]

-- The upper edge of its bucket bounds a latency below 2 ^ 31, and by no more than a factor of two.
pub bucket_upper_us_bounds :
    (us : ℕ)
    → us < 2 ^ 31
    → (us ≤ bucket_upper_us (bucket_index us)) × (bucket_upper_us (bucket_index us) ≤ 2 * us)
unfolding bucket_upper_us
bucket_upper_us_bounds us lt = split (bucket_index us) refl
  where
    split : (b : ℕ) → bucket_index us ≡ b → (us ≤ bucket_upper_us b) × (bucket_upper_us b ≤ 2 * us)
    split zero e = let none_left = (bucket_index_ends us).0.0 e in (omega arith, omega arith)
    split (suc b) e =
        let low : 2 ^ b ≤ us = bucket_index_low us b e in
        let double : 2 ^ suc b ≡ 2 ^ b * 2 = pow-suc 2 b in
        elim (dec_lt (suc b) 31) [
          | yes inner ↦
              let high : us < 2 ^ suc b = bucket_index_high us (suc b) e inner in
              let edge : bucket_upper_us (suc b) ≡ 2 ^ suc b = ground arith in
              (omega arith, omega arith)
          | no last ↦
              let is_last : suc b ≡ 31 = omega (arith, bucket_index_bound us) in
              let edge : bucket_upper_us (suc b) ≡ 2 ^ 31 = ap bucket_upper_us is_last in
              let last_low = bucket_index_low us 30 (e ∙ is_last) in (omega arith, omega arith)
        ]

-- From 2 ^ 31 microseconds on the edge that stands for a latency is no longer above it.
pub bucket_upper_us_saturates : (us : ℕ) → 2 ^ 31 ≤ us → bucket_upper_us (bucket_index us) ≡ 2 ^ 31
unfolding bucket_upper_us
bucket_upper_us_saturates us h =
    ap bucket_upper_us ((bucket_index_ends us).1.1 (omega arith)) ∙ last
  where
    last : bucket_upper_us 31 ≡ 2 ^ 31
    last = refl
