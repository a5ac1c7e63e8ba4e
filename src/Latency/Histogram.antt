-- ===== src/Latency/Histogram.antt =====
-- The histogram as counts of the latencies that went into it.
use pg_cuvs.Base.{
  ℕ, zero, suc, ◌+◌, ◌-◌, ◌%◌, ◌^◌, ◌≤◌, ◌<◌, ◌≡◌, refl, ap, ◌∙◌, sym, List, [], ◌∷◌, Bool, true,
  arith, ltb, if◌then◌else◌, length, take, get_or, set, replicate, take_of_le, length-set,
}
use pg_cuvs.Latency.{bucket_index, record_latency, histogram}
use pg_cuvs.Latency.Buckets.{bucket_index_bound}

abbrev pub sum : List ℕ → ℕ
sum [] = 0
sum (x ∷ xs) = x + sum xs

-- How many elements pass a test.
pub count_if : (ℕ → Bool) → List ℕ → ℕ
count_if p [] = 0
count_if p (x ∷ xs) = (if p x then 1 else 0) + count_if p xs

abbrev pub All : (ℕ → Type 0) → List ℕ → Type 0
All P [] = Unit {0}
All P (x ∷ xs) = P x × All P xs

pub count_if_mono :
    (p q : ℕ → Bool) (P : ℕ → Type 0) (xs : List ℕ)
    → ((x : ℕ) → P x → p x ≡ true → q x ≡ true)
    → All P xs
    → count_if p xs ≤ count_if q xs
unfolding count_if
count_if_mono p q P [] h all = omega arith
count_if_mono p q P (x ∷ xs) h all = ground (arith, h x all.0, count_if_mono p q P xs h all.1)

pub length-histogram : (ls : List ℕ) → length (histogram ls) ≡ 32
unfolding histogram record_latency
length-histogram [] = refl
length-histogram (us ∷ ls) = length-set (histogram ls) (bucket_index us) _ ∙ length-histogram ls

-- One more in bucket `b` is one more in every prefix that goes beyond it.
sum-take-set :
    (xs : List ℕ) (b i : ℕ)
    → b < length xs
    → sum (take i (set xs b (get_or xs b 0 + 1))) ≡ sum (take i xs) + (if ltb b i then 1 else 0)
sum-take-set [] b i h = absurd (omega arith)
sum-take-set (x ∷ xs) b zero h = ground arith
sum-take-set (x ∷ xs) zero (suc i) h = ground arith
sum-take-set (x ∷ xs) (suc b) (suc i) h = ground (arith, sum-take-set xs b i)

get_or-le-sum : (xs : List ℕ) (b : ℕ) → get_or xs b 0 ≤ sum (take (suc b) xs)
get_or-le-sum [] b = omega arith
get_or-le-sum (x ∷ xs) zero = omega arith
get_or-le-sum (x ∷ xs) (suc b) = omega (arith, get_or-le-sum xs b)

count_if-le : (p : ℕ → Bool) (xs : List ℕ) → count_if p xs ≤ length xs
unfolding count_if
count_if-le p [] = omega arith
count_if-le p (x ∷ xs) = ground (arith, count_if-le p xs)

-- The latencies in the buckets below `i`.
abbrev pub below_bucket : ℕ → ℕ → Bool
below_bucket i us = ltb (bucket_index us) i

sum-take-zeros : (i n : ℕ) → sum (take i (replicate n 0)) ≡ 0
sum-take-zeros zero n = refl
sum-take-zeros (suc i) zero = refl
sum-take-zeros (suc i) (suc n) = omega (arith, sum-take-zeros i n)

pub sum-histogram :
    (i : ℕ) (ls : List ℕ)
    → length ls < 2 ^ 32
    → sum (take i (histogram ls)) ≡ count_if (below_bucket i) ls
unfolding histogram record_latency count_if
sum-histogram i [] h = sum-take-zeros i 32
sum-histogram i (us ∷ ls) h =
    let b = bucket_index us in
    let v = get_or (histogram ls) b 0 in
    let few : v < 2 ^ 32 - 1 = omega (
      arith,
      get_or-le-sum (histogram ls) b,
      sum-histogram (suc b) ls (omega arith),
      count_if-le (below_bucket (suc b)) ls,
    ) in
    let e : (v + 1) % 2 ^ 32 ≡ v + 1 = omega arith in
    rw e (
      omega (
        arith,
        sum-take-set (histogram ls) b i (omega (arith, length-histogram ls, bucket_index_bound us)),
        sum-histogram i ls (omega arith),
      ))

count_if_all : (ls : List ℕ) → count_if (below_bucket 32) ls ≡ length ls
unfolding count_if
count_if_all [] = refl
count_if_all (us ∷ ls) = ground (arith, bucket_index_bound us, count_if_all ls)

pub sum_all : (ls : List ℕ) → length ls < 2 ^ 32 → sum (histogram ls) ≡ length ls
sum_all ls h =
    ap sum (sym (take_of_le 32 (histogram ls) (omega (arith, length-histogram ls))))
    ∙ sum-histogram 32 ls h
    ∙ count_if_all ls
