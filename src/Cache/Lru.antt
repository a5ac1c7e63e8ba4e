-- ===== src/Cache/Lru.antt =====
-- `find_lru_index` finds the first of the entries searched longest ago.
use pg_cuvs.Base.{
  ℕ, ◌+◌, ◌≤◌, ◌<◌, ◌≡◌, List, [], ◌∷◌, true, false, ◌&&◌, Option, none, some, ltb, if◌then◌else◌,
  get_elem?, arith, ap, sym, ◌∙◌, Bool-cases, inl, inr, false≢true, append-nil, append_assoc,
  length-append, subst, ◌++◌, length, get_elem?-append_cases, get_elem?-append_left,
  get_elem?-append_end, get_elem?-lt,
}
use pg_cuvs.Cache.{Entry, Cache, evictable, older, lru_loop, find_lru_index}

-- Entry `e` at place `i` is the one to evict among `es`.
pub record Least (dev : ℕ) (es : List Entry) (i : ℕ) (e : Entry) : Type 0 where
  pub at_place : get_elem? es i ≡ some e
  pub can_go : evictable dev e ≡ true
  pub oldest :
      (j : ℕ) (f : Entry)
      → get_elem? es j ≡ some f
      → evictable dev f ≡ true
      → e.last_search ≤ f.last_search
  pub first :
      (j : ℕ) (f : Entry)
      → get_elem? es j ≡ some f
      → evictable dev f ≡ true
      → j < i
      → e.last_search < f.last_search

-- What the search gives.
abbrev pub Picks : ℕ → List Entry → Option (ℕ × Entry) → Type 0
Picks dev es none = (j : ℕ) (f : Entry) → get_elem? es j ≡ some f → evictable dev f ≡ false
Picks dev es (some (i, e)) = Least dev es i e

-- The next entry takes the lead, or does not.
takes_lead :
    (dev : ℕ) (pre : List Entry) (e : Entry)
    → evictable dev e ≡ true
    → ((j : ℕ) (f : Entry)
        → get_elem? pre j ≡ some f
        → evictable dev f ≡ true
        → e.last_search < f.last_search)
    → Least dev (pre ++ (e ∷ [])) (length pre) e
takes_lead dev pre e goes newer = record {
  at_place = get_elem?-append_end pre e;
  can_go = goes;
  oldest = λ j f at ev. elim (get_elem?-append_cases pre e j at) [
    | inl old ↦ omega (arith, newer j f old ev)
    | inr (last, same) ↦ omega (arith, ap (λ (x : Entry). x.last_search) same)
  ];
  first = λ j f at ev before. elim (get_elem?-append_cases pre e j at) [
    | inl old ↦ newer j f old ev
    | inr (last, same) ↦ absurd (omega arith)
  ];
}

keeps_lead :
    (dev : ℕ) (pre : List Entry) (e : Entry) (i : ℕ) (b : Entry)
    → Least dev pre i b
    → (evictable dev e ≡ true → b.last_search ≤ e.last_search)
    → Least dev (pre ++ (e ∷ [])) i b
keeps_lead dev pre e i b p newer = record {
  at_place = get_elem?-append_left pre (e ∷ []) i p.at_place;
  can_go = p.can_go;
  oldest = λ j f at ev. elim (get_elem?-append_cases pre e j at) [
    | inl old ↦ p.oldest j f old ev
    | inr (last, same) ↦
        omega (arith, newer (ap (evictable dev) same ∙ ev), ap (λ (x : Entry). x.last_search) same)
  ];
  first = λ j f at ev before. elim (get_elem?-append_cases pre e j at) [
    | inl old ↦ p.first j f old ev before
    | inr (last, same) ↦ absurd (omega (arith, get_elem?-lt pre i p.at_place))
  ];
}

step :
    (dev : ℕ) (pre : List Entry) (e : Entry) (lru : Option (ℕ × Entry))
    → Picks dev pre lru
    → Picks dev
        (pre ++ (e ∷ []))
        (if evictable dev e && older e lru then some (length pre, e) else lru)
unfolding older
step dev pre e none p = elim (Bool-cases (evictable dev e)) [
  | inl goes ↦
      rw goes (takes_lead dev pre e goes (λ j f at ev. absurd (false≢true (sym (p j f at) ∙ ev))))
  | inr stays ↦ rw stays (λ j f at. elim (get_elem?-append_cases pre e j at) [
    | inl old ↦ p j f old
    | inr (last, same) ↦ ap (evictable dev) (sym same) ∙ stays
  ])
]
step dev pre e (some (i, b)) p = elim (Bool-cases (evictable dev e)) [
  | inr stays ↦
      rw stays (keeps_lead dev pre e i b p (λ goes. absurd (false≢true (sym stays ∙ goes))))
  | inl goes ↦ elim (Bool-cases (ltb e.last_search b.last_search)) [
    | inl lead ↦
        rw (goes, lead)
          (takes_lead dev pre e goes (λ j f at ev. ground (arith, p.oldest j f at ev, lead)))
    | inr behind ↦ rw (goes, behind) (keeps_lead dev pre e i b p (λ goes. ground (arith, behind)))
  ]
]

lru_loop-Picks :
    (dev : ℕ) (pre es : List Entry) (lru : Option (ℕ × Entry))
    → Picks dev pre lru
    → Picks dev (pre ++ es) (lru_loop dev (length pre) es lru)
unfolding lru_loop
lru_loop-Picks dev pre [] lru p = rw append-nil p
lru_loop-Picks dev pre (e ∷ es) lru p =
    let next = if evictable dev e && older e lru then some (length pre, e) else lru in
    let later = lru_loop-Picks dev (pre ++ (e ∷ [])) es next (step dev pre e lru p) in
    let place : length (pre ++ (e ∷ [])) ≡ length pre + 1 =
      omega (arith, length-append pre (e ∷ [])) in
    subst (λ (l : List Entry). Picks dev l (lru_loop dev (length pre + 1) es next))
      (append_assoc pre (e ∷ []) es)
      (subst (λ (n : ℕ). Picks dev ((pre ++ (e ∷ [])) ++ es) (lru_loop dev n es next)) place later)

-- `find_lru_index` picks the index that may leave a device and whose last search is longest ago: an
-- entry of the registry that is valid, has data on the device and, if it is sharded, has no search
-- running; no such entry was searched earlier, nor as early and stands before it. It picks none only
-- if no entry may leave the device.
pub find_lru_index-Picks : (c : Cache) (dev : ℕ) → Picks dev c.indexes (find_lru_index c dev)
unfolding find_lru_index
find_lru_index-Picks c dev = lru_loop-Picks dev [] c.indexes none (λ j f at. absurd (ground arith))
