-- ===== src/Cache/Pick.antt =====
-- The choice of a device for a new index: `n_usable_gpus`, `usable_gpu` and `pick_gpu_for_index` of
-- src/pg_cuvs_server.c.
pub mod Picked
use pg_cuvs.Base.{
  ℕ, zero, suc, ◌+◌, ◌-◌, ◌%◌, ◌^◌, List, Bool, true, ◌&&◌, Option, none, some, ltb, if◌then◌else◌,
  length, get_or,
}
use pg_cuvs.Cache.{Cache, total_vram_used}

-- `g_allowed_gpus` up to `g_n_allowed_gpus`, `g_n_gpus` and `g_max_vram_per_gpu`.
pub record Gpus : Type 0 where
  pub allowed : List ℕ
  pub n_gpus : ℕ
  pub max_vram : List ℕ

unfoldable pub n_usable_gpus : Gpus → ℕ
n_usable_gpus g = if ltb 0 (length g.allowed) then length g.allowed else g.n_gpus

unfoldable pub usable_gpu : Gpus → ℕ → ℕ
usable_gpu g i = if ltb 0 (length g.allowed) then get_or g.allowed i 0 else i

abbrev pub budget : Gpus → ℕ → ℕ
budget g dev = get_or g.max_vram dev 0

-- `continue`
unfoldable pub is_too_small : Gpus → ℕ → ℕ → Bool
is_too_small g needed dev = ltb 0 (budget g dev) && ltb (budget g dev) needed

-- `headroom`, a `size_t`; `free_vram` is `gpu_free_vram_bytes`.
unfoldable pub headroom : Gpus → Cache → (ℕ → ℕ) → ℕ → ℕ
headroom g c free_vram dev =
    if ltb 0 (budget g dev)
    then (budget g dev + 2 ^ 64 - total_vram_used c dev) % 2 ^ 64
    else free_vram dev

-- `best < 0 || headroom > best_headroom`; `none` is -1.
unfoldable pub beats : ℕ → Option (ℕ × ℕ) → Bool
beats left none = true
beats left (some (best, best_headroom)) = ltb best_headroom left

module _ (g : Gpus) (c : Cache) (free_vram : ℕ → ℕ) (needed : ℕ) where
  -- A round of the loop, on a device.
  unfoldable pub pick_next : ℕ → Option (ℕ × ℕ) → Option (ℕ × ℕ)
  pick_next dev best =
      let left = headroom g c free_vram dev in
      if is_too_small g needed dev then best else if beats left best then some (dev, left) else best

  -- The loop, from `i` on.
  unfoldable pub pick_loop : ℕ → ℕ → Option (ℕ × ℕ) → Option (ℕ × ℕ)
  pick_loop i zero best = best
  pick_loop i (suc n) best = pick_loop (i + 1) n (pick_next (usable_gpu g i) best)

  -- `pick_gpu_for_index`, with the headroom of the device.
  unfoldable pub pick_gpu_for_index : Option (ℕ × ℕ)
  pick_gpu_for_index = pick_loop 0 (n_usable_gpus g) none
