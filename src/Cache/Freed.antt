-- ===== src/Cache/Freed.antt =====
-- The loop of `ensure_vram` for free bytes: how it ends, and what it keeps.
use pg_cuvs.Base.{
  dec_lt, ◌⊎◌, ℕ, zero, suc, ◌≤◌, ◌<◌, ◌≡◌, refl, Bool, true, false, ◌&&◌, ltb, ◌==◌, arith,
  Bool-cases, inl, inr, length,
}
use pg_cuvs.Cache.{Entry, Cache, evict_lru, free_while}
use pg_cuvs.Cache.Evict.{evict_lru-length}

-- A second loop that has come to its end with too few bytes: none of the indexes is left, or the
-- last eviction freed nothing, and before it there were too few.
pub data Exhausted (saves : Entry → Bool) (free_vram : Cache → ℕ → ℕ) (needed dev : ℕ)
    : Cache → Type 0 where
  none_to_evict :
      {c : Cache}
      → length c.indexes ≡ 0
      → free_vram c dev < needed
      → Exhausted saves free_vram needed dev c
  freed_nothing :
      (c : Cache)
      → (evict_lru saves dev c).0 ≡ 0
      → free_vram c dev < needed
      → Exhausted saves free_vram needed dev (evict_lru saves dev c).1

module _ (saves : Entry → Bool) (free_vram : Cache → ℕ → ℕ) (needed dev : ℕ) where
  pub free_while-keeps :
      (P : Cache → Type 0)
      → ((c : Cache) → P c → P (evict_lru saves dev c).1)
      → (fuel free : ℕ) (c : Cache) → P c
      → P (free_while saves free_vram needed dev fuel free c).1
  unfolding free_while
  free_while-keeps P keeps zero free c p = p
  free_while-keeps P keeps (suc fuel) free c p =
      let next = (evict_lru saves dev c).1 in
      elim (Bool-cases (ltb 0 (length c.indexes) && ltb free needed)) [
        | inr stop ↦ rw stop p
        | inl go ↦ elim (Bool-cases ((evict_lru saves dev c).0 == 0)) [
          | inl freed ↦ simp (go, freed) (keeps c p)
          | inr freed ↦
              simp (go, freed) (free_while-keeps P keeps fuel (free_vram next dev) next (keeps c p))
        ]
      ]

  -- What the loop has in its variable at the end, and why it ended.
  abbrev pub Freed : ℕ × Cache → Type 0
  Freed (free, c) =
      ((needed ≤ free) × (free ≡ free_vram c dev))
      ⊎ ((free < needed) × Exhausted saves free_vram needed dev c)

  pub free_while-Freed :
      (fuel : ℕ) (c : Cache)
      → length c.indexes ≤ fuel
      → Freed (free_while saves free_vram needed dev fuel (free_vram c dev) c)
  unfolding free_while
  free_while-Freed zero c enough_fuel = elim (dec_lt (free_vram c dev) needed) [
    | no enough_free ↦ inl (omega arith, refl)
    | yes short ↦ inr (short, none_to_evict (omega arith) short)
  ]
  free_while-Freed (suc fuel) c enough_fuel =
      let next = (evict_lru saves dev c).1 in
      elim (dec_lt (free_vram c dev) needed) [
        | no enough_free ↦
            let stop : (ltb 0 (length c.indexes) && ltb (free_vram c dev) needed) ≡ false =
              ground arith in
            simp stop (inl (omega arith, refl))
        | yes short ↦ elim (dec_lt 0 (length c.indexes)) [
          | no empty ↦
              let stop : (ltb 0 (length c.indexes) && ltb (free_vram c dev) needed) ≡ false =
                ground arith in
              simp stop (inr (short, none_to_evict (omega arith) short))
          | yes some_left ↦
              let go : (ltb 0 (length c.indexes) && ltb (free_vram c dev) needed) ≡ true =
                ground (arith, some_left, short) in
              elim (Bool-cases ((evict_lru saves dev c).0 == 0)) [
                | inl freed ↦
                    simp (go, freed) (inr (short, freed_nothing c (ground (arith, freed)) short))
                | inr freed ↦
                    simp (go, freed)
                      (free_while-Freed fuel next
                        (omega (arith, evict_lru-length saves dev c (ground (arith, freed)))))
              ]
        ]
      ]
