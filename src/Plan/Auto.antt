-- ===== src/Plan/Auto.antt =====
-- `cuvs_auto_shard_count` splits into the fewest shards whose budgets add up to the need.
use pg_cuvs.Base.{
  ℕ, zero, suc, ◌+◌, ◌-◌, ◌*◌, ◌/◌, ◌%◌, ◌^◌, ◌≤◌, ◌<◌, ◌≡◌, refl, ◌⊎◌, inl, inr, arith, dec_lt, ap,
  ℤ, pos, magnitude,
}
use native.Mathlib.Nat.{div-mul-le_self, lt-div-mul-add, mul-le-mul_right}
use pg_cuvs.Plan.{needed_bytes, shard_cap, wanted, split_count, auto_shard_count}

-- The bytes of one vector in the index, by the planner's account.
abbrev pub row_bytes : ℕ → ℕ
row_bytes dim = dim * 4 + 64

-- `c` shards are allowed.
pub record Allowed (n_vecs n_gpus max_shards c : ℕ) : Type 0 where
  pub gpus : c ≤ n_gpus
  pub limit : (max_shards ≡ 0) ⊎ (c ≤ max_shards)
  pub pairs : 2 * c ≤ n_vecs

-- The three answers, of a need in bytes.
pub record FitsOne (need budget r : ℕ) : Type 0 where
  pub one : r ≡ 1
  pub fits : need ≤ budget

pub record Splits (need budget n_vecs n_gpus max_shards r : ℕ) : Type 0 where
  pub several : 2 ≤ r
  pub too_big : budget < need
  pub allowed : Allowed n_vecs n_gpus max_shards r
  pub fits : need ≤ r * budget
  pub fewest : (r - 1) * budget < need

pub record TooBig (need budget n_vecs n_gpus max_shards r : ℕ) : Type 0 where
  pub none_left : r ≡ 0
  pub too_big : budget < need
  pub never : (c : ℕ) → 1 ≤ c → Allowed n_vecs n_gpus max_shards c → c * budget < need

cap-Allowed :
    (n_vecs n_gpus max_shards c : ℕ)
    → c ≤ shard_cap n_vecs n_gpus max_shards
    → Allowed n_vecs n_gpus max_shards c
unfolding shard_cap
cap-Allowed n_vecs n_gpus max_shards c h = record {
  gpus = ground arith;
  limit = elim (dec_lt 0 max_shards) [
    | yes some_limit ↦ inr (ground arith)
    | no no_limit ↦ inl (omega arith)
  ];
  pairs = ground arith;
}

Allowed-cap :
    (n_vecs n_gpus max_shards c : ℕ)
    → Allowed n_vecs n_gpus max_shards c
    → c ≤ shard_cap n_vecs n_gpus max_shards
unfolding shard_cap
Allowed-cap n_vecs n_gpus max_shards c a = elim a.limit [
  | inl no_limit ↦ ground (arith, a.gpus, a.pairs, no_limit)
  | inr limited ↦ ground (arith, a.gpus, a.pairs, limited)
]

-- A quotient that is rounded up.
round_up :
    (need b q : ℕ)
    → q ≡ (need + (b - 1)) / b
    → 0 < b
    → b < need
    → (2 ≤ q) × (need ≤ q * b) × ((q - 1) * b < need)
round_up need b zero e hb h =
    absurd (omega (arith, lt-div-mul-add {a = need + (b - 1)} {b = b} hb, ap (λ (t : ℕ). t * b) e))
round_up need b (suc zero) e hb h =
    absurd (omega (arith, lt-div-mul-add {a = need + (b - 1)} {b = b} hb, ap (λ (t : ℕ). t * b) e))
round_up need b (suc (suc k)) e hb h =
    let above = lt-div-mul-add {a = need + (b - 1)} {b = b} hb in
    let below = div-mul-le_self (need + (b - 1)) b in
    let product = ap (λ (t : ℕ). t * b) e in
    let less : (suc (suc k) - 1) * b ≡ suc k * b = ap (λ (t : ℕ). t * b) (omega arith) in
    (omega arith, omega (arith, above, product), omega (arith, below, product, less))

-- `want` where the sum fits a `size_t` and the quotient a C int.
wanted_lem :
    (need b : ℕ)
    → need + b < 2 ^ 64
    → (need + (b - 1)) / b < 2 ^ 31
    → 2 ≤ (need + (b - 1)) / b
    → wanted need b ≡ (need + (b - 1)) / b
unfolding wanted
wanted_lem need b room few several =
    let e : (need + (b - 1)) % 2 ^ 64 ≡ need + (b - 1) = omega arith in rw e (ground arith)

-- The shard count that `cuvs_auto_shard_count` chooses is right for a corpus, a budget above 0 (with
-- 0, for unlimited, it answers 1) and at least one GPU, as long as the bytes fit a `size_t` and the quotient a C int: it answers 1 exactly if the
-- corpus fits one budget; otherwise it answers the fewest shards whose budgets add up to the need,
-- if that many GPUs, that limit and two vectors for each shard allow it, and 0 if no count that is
-- allowed has budgets that add up.
pub auto_shard_count_answers :
    (n_vecs dim budget n_gpus : ℕ) (max_shards : ℤ)
    → 0 < n_vecs
    → 0 < dim
    → 0 < budget
    → 0 < n_gpus
    → n_vecs * row_bytes dim + budget < 2 ^ 64
    → (n_vecs * row_bytes dim + (budget - 1)) / budget < 2 ^ 31
    → let r = auto_shard_count (pos n_vecs) (pos dim) budget (pos n_gpus) max_shards in
      FitsOne (n_vecs * row_bytes dim) budget r
      ⊎ (Splits (n_vecs * row_bytes dim) budget n_vecs n_gpus (magnitude max_shards) r
          ⊎ TooBig (n_vecs * row_bytes dim) budget n_vecs n_gpus (magnitude max_shards) r)
unfolding auto_shard_count split_count needed_bytes
auto_shard_count_answers n_vecs dim budget n_gpus max_shards hn hd hb hg room few =
    let need = n_vecs * row_bytes dim in
    let limit = magnitude max_shards in
    let cap = shard_cap n_vecs n_gpus limit in
    let want = (need + (budget - 1)) / budget in
    let whole : need % 2 ^ 64 ≡ need = omega arith in
    elim (dec_lt budget need) [
      | no fits ↦ inl (record { one = rw whole (ground arith); fits = omega arith })
      | yes too_big ↦
          let (several, adds_up, fewest) = round_up need budget want refl hb too_big in
          let w = wanted_lem need budget room few several in
          elim (dec_lt cap want) [
            | no enough ↦
                let r : auto_shard_count (pos n_vecs) (pos dim) budget (pos n_gpus) max_shards
                    ≡ want =
                  rw (whole, w) (ground arith) in
                inr (
                  inl (record {
                    several = omega (arith, r, several);
                    too_big = too_big;
                    allowed = cap-Allowed n_vecs n_gpus limit _ (omega (arith, r));
                    fits = rw r adds_up;
                    fewest = rw r fewest;
                  }))
            | yes short ↦ inr (
                inr (record {
                  none_left = rw (whole, w) (ground arith);
                  too_big = too_big;
                  never = λ c one_up a.
                      let below : c + 1 ≤ want =
                        omega (arith, Allowed-cap n_vecs n_gpus limit c a) in
                      let times : c * budget ≤ (want - 1) * budget =
                        mul-le-mul_right budget (omega (arith, below)) in
                      omega (arith, times, fewest);
                }))
          ]
    ]
