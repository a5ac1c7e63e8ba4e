-- ===== src/Cache/Ensure.antt =====
-- `ensure_vram`: its loops come to an end, and what it reports is so.
use pg_cuvs.Base.{
  ◌⊎◌, ℕ, zero, suc, ◌+◌, ◌≤◌, ◌≡◌, refl, Bool, true, false, ◌&&◌, ltb, ◌==◌, arith, sym, subst,
  Bool-cases, inl, inr, length, get_or,
}
use pg_cuvs.Cache.{Entry, Cache, evict_lru, evict_while, over_budget, indexes_vram}
use pg_cuvs.Cache.Evict.{pinned}
use pg_cuvs.Cache.Freed.{Exhausted, Freed}

-- A loop that has come to its end: its test fails, no index is left, or the last eviction freed
-- nothing.
pub data Ended (saves : Entry → Bool) (dev : ℕ) (short : Cache → Bool) : Cache → Type 0 where
  enough : {c : Cache} → short c ≡ false → Ended saves dev short c
  no_index : {c : Cache} → length c.indexes ≡ 0 → Ended saves dev short c
  stuck :
      (c : Cache) → (evict_lru saves dev c).0 ≡ 0 → Ended saves dev short (evict_lru saves dev c).1

module _ (saves : Entry → Bool) (dev : ℕ) (short : Cache → Bool) where
  -- The three ways through a round.
  round_stop :
      (fuel : ℕ) (c : Cache)
      → (ltb 0 (length c.indexes) && short c) ≡ false
      → evict_while saves dev short fuel c ≡ c
  unfolding evict_while
  round_stop zero c stop = refl
  round_stop (suc fuel) c stop = rw stop refl

  round_stuck :
      (fuel : ℕ) (c : Cache)
      → (ltb 0 (length c.indexes) && short c) ≡ true
      → (evict_lru saves dev c).0 ≡ 0
      → evict_while saves dev short (suc fuel) c ≡ (evict_lru saves dev c).1
  unfolding evict_while
  round_stuck fuel c go freed = rw (go, freed) refl

  round_next :
      (fuel : ℕ) (c : Cache)
      → (ltb 0 (length c.indexes) && short c) ≡ true
      → ((evict_lru saves dev c).0 == 0) ≡ false
      → evict_while saves dev short (suc fuel) c
        ≡ evict_while saves dev short fuel (evict_lru saves dev c).1
  unfolding evict_while
  round_next fuel c go freed = rw (go, freed) refl

  -- What every eviction keeps, the loop keeps.
  pub evict_while-keeps :
      (P : Cache → Type 0)
      → ((c : Cache) → P c → P (evict_lru saves dev c).1)
      → (fuel : ℕ) (c : Cache) → P c
      → P (evict_while saves dev short fuel c)
  unfolding evict_while
  evict_while-keeps P keeps zero c p = p
  evict_while-keeps P keeps (suc fuel) c p =
      elim (Bool-cases (ltb 0 (length c.indexes) && short c)) [
        | inr stop ↦ subst P (sym (round_stop (suc fuel) c stop)) p
        | inl go ↦ elim (Bool-cases ((evict_lru saves dev c).0 == 0)) [
          | inl freed ↦ subst P (sym (round_stuck fuel c go (ground arith))) (keeps c p)
          | inr freed ↦
              subst P (sym (round_next fuel c go freed))
                (evict_while-keeps P keeps fuel (evict_lru saves dev c).1 (keeps c p))
        ]
      ]

-- The bytes that a device holds, as a plain sum.
abbrev pub used : Cache → ℕ → ℕ
used c dev = indexes_vram dev c.indexes + get_or c.pending_build dev 0

-- What eviction on a device leaves alone.
pub record Kept (dev : ℕ) (before after : Cache) : Type 0 where
  pub pins : pinned after.indexes ≡ pinned before.indexes
  pub less : indexes_vram dev after.indexes ≤ indexes_vram dev before.indexes
  pub pending : after.pending_build ≡ before.pending_build

module _ (saves : Entry → Bool) (free_vram : Cache → ℕ → ℕ) (budget needed dev : ℕ) where
  abbrev budget_loop : Cache → Cache
  budget_loop c = evict_while saves dev (over_budget needed dev budget) (length c.indexes) c

  -- What the answer of `ensure_vram` means for the registry behind it.
  pub record HasRoom (after : Cache) : Type 0 where
    pub in_budget : (budget ≡ 0) ⊎ (used after dev + needed ≤ budget)
    pub in_free : needed ≤ free_vram after dev

  abbrev pub Answer : Cache → Bool × Cache → Type 0
  Answer before (true, after) = HasRoom after × Kept dev before after
  Answer before (false, after) =
      ((Ended saves dev (over_budget needed dev budget) after
          × (over_budget needed dev budget after ≡ true))
        ⊎ Exhausted saves free_vram needed dev after)
      × Kept dev before after
