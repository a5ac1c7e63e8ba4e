-- ===== src/Cache/Evict.antt =====
-- What leaves the registry in `evict_lru`.
use pg_cuvs.Base.{
  ℕ, zero, suc, ◌≤◌, ◌≡◌, ◌≢◌, ◌⊎◌, refl, List, [], ◌∷◌, ◌++◌, Bool, true, false, not, ◌&&◌, Option,
  none, some, if◌then◌else◌, get_elem?, arith, ap, sym, ◌∙◌, Bool-cases, inl, inr, length,
  length-append,
}
use pg_cuvs.Cache.{
  Entry, Cache, evictable, is_pinned, find_lru_index, remove_at, needs_save, evict_entry, evict_lru,
  indexes_vram,
}
use pg_cuvs.Cache.Lru.{Least, Picks, find_lru_index-Picks}

-- A list with one entry taken out.
pub record Without (before after : List Entry) (e : Entry) : Type 0 where
  pub front : List Entry
  pub back : List Entry
  pub was : before ≡ front ++ (e ∷ back)
  pub is : after ≡ front ++ back

remove_at-Without :
    (i : ℕ) (es : List Entry) (e : Entry) → get_elem? es i ≡ some e → Without es (remove_at i es) e
unfolding remove_at
remove_at-Without i [] e at = absurd (ground arith)
remove_at-Without zero (f ∷ es) e at = record {
  front = [];
  back = es;
  was = ap (λ (x : Entry). x ∷ es) (ground arith);
  is = refl;
}
remove_at-Without (suc i) (f ∷ es) e at =
    let w = remove_at-Without i es e at in
    record {
      front = f ∷ w.front;
      back = w.back;
      was = ap (λ (l : List Entry). f ∷ l) w.was;
      is = ap (λ (l : List Entry). f ∷ l) w.is;
    }

-- The entry that has left.
pub record Left (saves : Entry → Bool) (dev : ℕ) (before after : List Entry) : Type 0 where
  pub entry : Entry
  pub place : ℕ
  pub lru : Least dev before place entry
  pub saved : (needs_save entry ≡ false) ⊎ (saves entry ≡ true)
  pub without : Without before after entry

-- What an eviction may have done to the registry.
abbrev pub Evicts : (Entry → Bool) → ℕ → Cache → ℕ × Cache → Type 0
Evicts saves dev c (freed, after) =
    ((after.indexes ≡ c.indexes) × (freed ≡ 0)) ⊎ Left saves dev c.indexes after.indexes

evict_entry-Evicts :
    (saves : Entry → Bool) (dev : ℕ) (c : Cache) (lru : Option (ℕ × Entry))
    → Picks dev c.indexes lru
    → Evicts saves dev c (evict_entry saves dev c lru)
unfolding evict_entry
evict_entry-Evicts saves dev c none p = inl (refl, refl)
evict_entry-Evicts saves dev c (some (i, e)) p = elim (Bool-cases (needs_save e && not (saves e))) [
  | inl fails ↦ rw fails (inl (refl, refl))
  | inr goes ↦ rw goes (
      inr (record {
        entry = e;
        place = i;
        lru = p;
        saved = elim (Bool-cases (needs_save e)) [
          | inl needs ↦ inr (ground (arith, goes, needs))
          | inr needs ↦ inl needs
        ];
        without = remove_at-Without i c.indexes e p.at_place;
      }))
]

-- `evict_lru` takes nothing but the least recently used entry of the device out of the registry, and
-- that only once it is on disk: either the registry is as before and no bytes are freed, or one
-- entry is gone, the others stand in the same order, and a plain CAGRA index was saved first.
pub evict_lru-Evicts :
    (saves : Entry → Bool) (dev : ℕ) (c : Cache) → Evicts saves dev c (evict_lru saves dev c)
unfolding evict_lru
evict_lru-Evicts saves dev c =
    evict_entry-Evicts saves dev c (find_lru_index c dev) (find_lru_index-Picks c dev)

pub evict_lru-pending_build :
    (saves : Entry → Bool) (dev : ℕ) (c : Cache)
    → (evict_lru saves dev c).1.pending_build ≡ c.pending_build
unfolding evict_lru evict_entry
evict_lru-pending_build saves dev c = ground arith

-- The entries that a search is running on.
pub pinned : List Entry → List Entry
pinned [] = []
pinned (e ∷ es) = if is_pinned e then e ∷ pinned es else pinned es

pinned-Without :
    (before after : List Entry) (e : Entry)
    → Without before after e
    → is_pinned e ≡ false
    → pinned after ≡ pinned before
unfolding pinned
pinned-Without before after e w free =
    ap pinned w.is ∙ middle w.front w.back ∙ ap pinned (sym w.was)
  where
    middle : (xs ys : List Entry) → pinned (xs ++ ys) ≡ pinned (xs ++ (e ∷ ys))
    middle [] ys = rw free refl
    middle (x ∷ xs) ys = rw (middle xs ys) refl

pub vram-Without :
    (dev : ℕ) (before after : List Entry) (e : Entry)
    → Without before after e
    → indexes_vram dev after ≤ indexes_vram dev before
unfolding indexes_vram
vram-Without dev before after e w =
    omega (arith, ap (indexes_vram dev) w.is, ap (indexes_vram dev) w.was, middle w.front w.back)
  where
    middle : (xs ys : List Entry) → indexes_vram dev (xs ++ ys) ≤ indexes_vram dev (xs ++ (e ∷ ys))
    middle [] ys = omega arith
    middle (x ∷ xs) ys = omega (arith, middle xs ys)

pub evict_lru-pinned :
    (saves : Entry → Bool) (dev : ℕ) (c : Cache)
    → pinned (evict_lru saves dev c).1.indexes ≡ pinned c.indexes
unfolding evictable
evict_lru-pinned saves dev c = elim (evict_lru-Evicts saves dev c) [
  | inl (same, none_freed) ↦ ap pinned same
  | inr l ↦ pinned-Without _ _ l.entry l.without (free l.entry l.lru.can_go)
]
  where
    free : (e : Entry) → evictable dev e ≡ true → is_pinned e ≡ false
    free e goes = ground arith

pub evict_lru-vram :
    (saves : Entry → Bool) (dev : ℕ) (c : Cache)
    → indexes_vram dev (evict_lru saves dev c).1.indexes ≤ indexes_vram dev c.indexes
evict_lru-vram saves dev c = elim (evict_lru-Evicts saves dev c) [
  | inl (same, none_freed) ↦ omega (arith, ap (indexes_vram dev) same)
  | inr l ↦ vram-Without dev _ _ l.entry l.without
]

-- An eviction that frees bytes takes one entry out.
pub evict_lru-length :
    (saves : Entry → Bool) (dev : ℕ) (c : Cache)
    → (evict_lru saves dev c).0 ≢ 0
    → suc (length (evict_lru saves dev c).1.indexes) ≡ length c.indexes
evict_lru-length saves dev c some_freed = elim (evict_lru-Evicts saves dev c) [
  | inl (same, none_freed) ↦ absurd (some_freed none_freed)
  | inr l ↦
      let w = l.without in
      omega (
        arith,
        ap length w.is,
        ap length w.was,
        length-append w.front w.back,
        length-append w.front (l.entry ∷ w.back),
      )
]
