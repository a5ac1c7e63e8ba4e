-- ===== src/Cache/Pick/Picked.antt =====
-- `pick_gpu_for_index` finds the first of the devices with the most headroom.
use pg_cuvs.Base.{
  ℕ, zero, suc, ◌+◌, ◌-◌, ◌%◌, ◌^◌, ◌≤◌, ◌<◌, ◌≡◌, refl, ap, sym, subst, ◌⊎◌, inl, inr, true, false,
  Option, none, some, ltb, if◌then◌else◌, arith, Bool-cases, dec_lt, ltb→lt,
}
use pg_cuvs.Cache.{Cache, total_vram_used}
use pg_cuvs.Cache.Pick.{
  Gpus, n_usable_gpus, usable_gpu, budget, is_too_small, headroom, beats, pick_next, pick_loop,
  pick_gpu_for_index,
}

-- Whether a device has no budget or one that holds the index.
abbrev pub Admits : Gpus → ℕ → ℕ → Type 0
Admits g needed dev = (budget g dev ≡ 0) ⊎ (needed ≤ budget g dev)

-- The bytes that a device has left.
unfoldable pub room : Gpus → Cache → (ℕ → ℕ) → ℕ → ℕ
room g c free_vram dev =
    if ltb 0 (budget g dev) then budget g dev - total_vram_used c dev else free_vram dev

-- The pick among the first `n` places: none of their devices admits the index; or the device stands
-- at one of them, admits it, and no device that admits it has more room, nor as much and stands
-- before it.
abbrev pub Picked : Gpus → Cache → (ℕ → ℕ) → ℕ → ℕ → Option (ℕ × ℕ) → Type 0
Picked g c free_vram needed n none = (i : ℕ) → i < n → ¬ Admits g needed (usable_gpu g i)
Picked g c free_vram needed n (some (dev, left)) =
    (i : ℕ) × (i < n)
    × (usable_gpu g i ≡ dev)
    × (left ≡ room g c free_vram dev)
    × Admits g needed dev
    × ((j : ℕ)
        → j < n
        → Admits g needed (usable_gpu g j)
        → (room g c free_vram (usable_gpu g j) ≤ left)
          × (j < i → room g c free_vram (usable_gpu g j) < left))

headroom-room :
    (g : Gpus) (c : Cache) (free_vram : ℕ → ℕ) (dev : ℕ)
    → (budget g dev ≡ 0) ⊎ (total_vram_used c dev ≤ budget g dev)
    → budget g dev < 2 ^ 64
    → headroom g c free_vram dev ≡ room g c free_vram dev
unfolding headroom room
headroom-room g c free_vram dev (inl none_set) fits = ground (arith, none_set)
headroom-room g c free_vram dev (inr holds) fits =
    let b = budget g dev in
    let u = total_vram_used c dev in
    let whole : (b + 2 ^ 64 - u) % 2 ^ 64 ≡ b - u = omega (arith, holds, fits) in
    ap (λ (k : ℕ). if ltb 0 b then k else free_vram dev) whole

small-Admits :
    (g : Gpus) (needed dev : ℕ) → is_too_small g needed dev ≡ true → ¬ Admits g needed dev
unfolding is_too_small
small-Admits g needed dev small (inl none_set) = ground (arith, small, none_set)
small-Admits g needed dev small (inr holds) = ground (arith, small, holds)

big-Admits : (g : Gpus) (needed dev : ℕ) → is_too_small g needed dev ≡ false → Admits g needed dev
unfolding is_too_small
big-Admits g needed dev big = elim (Bool-cases (ltb 0 (budget g dev))) [
  | inl is_set ↦ inr (ground (arith, big, is_set))
  | inr none_set ↦ inl (ground (arith, none_set))
]

earlier_or_last : (j n : ℕ) → j < suc n → (j < n) ⊎ (j ≡ n)
earlier_or_last j n lt = elim (dec_lt j n) [
  | yes earlier ↦ inl earlier
  | no later ↦ inr (omega arith)
]

module _ (g : Gpus) (c : Cache) (free_vram : ℕ → ℕ) (needed : ℕ) where
  abbrev room_at : ℕ → ℕ
  room_at j = room g c free_vram (usable_gpu g j)

  -- The next device takes the lead, does not, or is too small.
  takes_lead :
      (n : ℕ)
      → Admits g needed (usable_gpu g n)
      → ((j : ℕ) → j < n → Admits g needed (usable_gpu g j) → room_at j < room_at n)
      → Picked g c free_vram needed (suc n) (some (usable_gpu g n, room_at n))
  takes_lead n admits less = (
    n,
    omega arith,
    refl,
    refl,
    admits,
    λ j lt adm. elim (earlier_or_last j n lt) [
      | inl earlier ↦ (omega (arith, less j earlier adm), λ before. less j earlier adm)
      | inr last ↦ (
        subst (λ (k : ℕ). room_at k ≤ room_at n) (sym last) (omega arith),
        λ before. absurd (omega (arith, last, before)),
      )
    ],
  )

  keeps_lead :
      (n dev left : ℕ)
      → Picked g c free_vram needed n (some (dev, left))
      → (Admits g needed (usable_gpu g n) → room_at n ≤ left)
      → Picked g c free_vram needed (suc n) (some (dev, left))
  keeps_lead n dev left (i, lt, at, size, admits, best) no_more = (
    i,
    omega arith,
    at,
    size,
    admits,
    λ j lt' adm. elim (earlier_or_last j n lt') [
      | inl earlier ↦ best j earlier adm
      | inr last ↦ (
        subst (λ (k : ℕ). room_at k ≤ left) (sym last)
            (no_more (subst (λ (k : ℕ). Admits g needed (usable_gpu g k)) last adm)),
        λ before. absurd (omega (arith, last, before, lt)),
      )
    ],
  )

  none_yet :
      (n : ℕ)
      → Picked g c free_vram needed n none
      → ¬ Admits g needed (usable_gpu g n)
      → Picked g c free_vram needed (suc n) none
  none_yet n before small i lt adm = elim (earlier_or_last i n lt) [
    | inl earlier ↦ before i earlier adm
    | inr last ↦ small (subst (λ (k : ℕ). Admits g needed (usable_gpu g k)) last adm)
  ]

  pick_next-Picked :
      (n : ℕ) (best : Option (ℕ × ℕ))
      → headroom g c free_vram (usable_gpu g n) ≡ room_at n
      → Picked g c free_vram needed n best
      → Picked g c free_vram needed (suc n) (pick_next g c free_vram needed (usable_gpu g n) best)
  unfolding pick_next beats
  pick_next-Picked n none size before = elim (Bool-cases (is_too_small g needed (usable_gpu g n))) [
    | inl small ↦ rw small (none_yet n before (small-Admits g needed (usable_gpu g n) small))
    | inr big ↦
        rw (big, size)
          (takes_lead n (big-Admits g needed (usable_gpu g n) big)
            (λ j lt adm. absurd (before j lt adm)))
  ]
  pick_next-Picked n (some (dev, left)) size before =
      elim (Bool-cases (is_too_small g needed (usable_gpu g n))) [
        | inl small ↦ rw small (
            keeps_lead n dev left before
              (λ adm. absurd (small-Admits g needed (usable_gpu g n) small adm)))
        | inr big ↦ elim (Bool-cases (ltb left (room_at n))) [
          | inr behind ↦
              rw (big, size, behind) (keeps_lead n dev left before (λ adm. ground (arith, behind)))
          | inl ahead ↦
              let (i, lt, at, same, admits, best) = before in
              let more : left < room_at n = ltb→lt left (room_at n) ahead in
              rw (big, size, ahead)
                (takes_lead n (big-Admits g needed (usable_gpu g n) big)
                  (λ j lt' adm. omega (arith, (best j lt' adm).0, more)))
        ]
      ]

  pick_loop-Picked :
      (i n : ℕ) (best : Option (ℕ × ℕ))
      → ((j : ℕ) → j < i + n → headroom g c free_vram (usable_gpu g j) ≡ room_at j)
      → Picked g c free_vram needed i best
      → Picked g c free_vram needed (i + n) (pick_loop g c free_vram needed i n best)
  unfolding pick_loop
  pick_loop-Picked i zero best size p =
      subst (λ (k : ℕ). Picked g c free_vram needed k best) (omega arith) p
  pick_loop-Picked i (suc n) best size p =
      let next = pick_next g c free_vram needed (usable_gpu g i) best in
      let first : Picked g c free_vram needed (i + 1) next =
        subst (λ (k : ℕ). Picked g c free_vram needed k next) (omega arith)
          (pick_next-Picked i best (size i (omega arith)) p) in
      subst
        (λ (k : ℕ). Picked g c free_vram needed k (pick_loop g c free_vram needed (i + 1) n next))
        (omega arith) (pick_loop-Picked (i + 1) n next (λ j lt. size j (omega arith)) first)

-- While no usable device with a budget holds more than that: `pick_gpu_for_index` picks the first of
-- the usable devices with the most bytes left, within the budget or free where there is none, among
-- those whose budget, if they have one, holds the index; it answers -1 only if there is none of them.
pub pick_gpu_for_index-Picked :
    (g : Gpus) (c : Cache) (free_vram : ℕ → ℕ) (needed : ℕ)
    → ((i : ℕ)
        → i < n_usable_gpus g
        → (budget g (usable_gpu g i) < 2 ^ 64)
          × ((budget g (usable_gpu g i) ≡ 0)
              ⊎ (total_vram_used c (usable_gpu g i) ≤ budget g (usable_gpu g i))))
    → Picked g c free_vram needed (n_usable_gpus g) (pick_gpu_for_index g c free_vram needed)
unfolding pick_gpu_for_index
pick_gpu_for_index-Picked g c free_vram needed within =
    let n = n_usable_gpus g in
    subst (λ (k : ℕ). Picked g c free_vram needed k (pick_loop g c free_vram needed 0 n none))
      (omega arith)
      (pick_loop-Picked g c free_vram needed 0 n none
        (λ j lt.
          let (fits, holds) = within j (omega (arith, lt)) in
          headroom-room g c free_vram (usable_gpu g j) holds fits)
        (λ i lt. absurd (omega arith)))
