-- ===== src/Batch/Groups.antt =====
-- The groups are the classes of requests with the same key, numbered densely as they are first met.
use mathlib.Core.Option
use pg_cuvs.Base.{
  ℕ, suc, ◌+◌, ◌<◌, ◌≡◌, refl, sym, ap, ◌∙◌, inl, inr, ◌↔◌, List, [], ◌∷◌, ◌++◌, true, Option, none,
  some, map, arith, length, get_elem?, get_elem?-map, subst, append-nil, append_assoc, map-append,
  length-map,
}
use pg_cuvs.Batch.{Key, same_key, find_group, assign, batch_group}
use pg_cuvs.Batch.Scan.{Request, Scanned, find_group-Scanned}
use pg_cuvs.Batch.Extend.{IsGrouped, empty-IsGrouped}
use pg_cuvs.Batch.Add.{join-IsGrouped, open-IsGrouped}

abbrev EndsGrouped : List Key → List Request → ℕ → Type 0
EndsGrouped keys done ng =
    IsGrouped done ng → IsGrouped (assign done ng keys).0 (assign done ng keys).1

assign-IsGrouped :
    (keys : List Key) (done : List Request) (ng : ℕ)
    → IsGrouped done ng
    → IsGrouped (assign done ng keys).0 (assign done ng keys).1
unfolding assign
assign-IsGrouped [] done ng v = v
assign-IsGrouped (key ∷ keys) done ng v =
    go (find_group done key) refl (find_group-Scanned done key)
      (λ g. assign-IsGrouped keys (done ++ ((key, g) ∷ [])) ng)
      (assign-IsGrouped keys (done ++ ((key, ng) ∷ [])) (ng + 1))
  where
    go :
        (o : Option ℕ)
        → find_group done key ≡ o
        → Scanned done key (find_group done key)
        → ((g : ℕ) → EndsGrouped keys (done ++ ((key, g) ∷ [])) ng)
        → EndsGrouped keys (done ++ ((key, ng) ∷ [])) (ng + 1)
        → IsGrouped (assign done ng (key ∷ keys)).0 (assign done ng (key ∷ keys)).1
    go (some g) e s joined opened =
        rw (e, assign) (joined g (join-IsGrouped done ng v key g (subst (Scanned done key) e s)))
    go none e s joined opened =
        rw (e, assign) (opened (open-IsGrouped done ng v key (subst (Scanned done key) e s)))

abbrev keys_of : List Request → List Key
keys_of = map (λ r. r.0)

assign-keys :
    (keys : List Key) (done : List Request) (ng : ℕ)
    → keys_of (assign done ng keys).0 ≡ keys_of done ++ keys
unfolding assign
assign-keys [] done ng = sym (append-nil _)
assign-keys (key ∷ keys) done ng =
    go (find_group done key) refl (λ g. assign-keys keys (done ++ ((key, g) ∷ [])) ng)
      (assign-keys keys (done ++ ((key, ng) ∷ [])) (ng + 1))
  where
    shift : (g : ℕ) → keys_of (done ++ ((key, g) ∷ [])) ++ keys ≡ keys_of done ++ (key ∷ keys)
    shift g = simp (map-append, append_assoc)

    go :
        (o : Option ℕ)
        → find_group done key ≡ o
        → ((g : ℕ)
            → keys_of (assign (done ++ ((key, g) ∷ [])) ng keys).0
              ≡ keys_of (done ++ ((key, g) ∷ [])) ++ keys)
        → keys_of (assign (done ++ ((key, ng) ∷ [])) (ng + 1) keys).0
          ≡ keys_of (done ++ ((key, ng) ∷ [])) ++ keys
        → keys_of (assign done ng (key ∷ keys)).0 ≡ keys_of done ++ (key ∷ keys)
    go (some g) e joined opened = rw (e, assign) (joined g ∙ shift g)
    go none e joined opened = rw (e, assign) (opened ∙ shift ng)

-- The requests that are done are those that were given, each with its group.
module _ (keys : List Key) where
  abbrev done : List Request
  done = (assign [] 0 keys).0

  done-IsGrouped : IsGrouped done (assign [] 0 keys).1
  done-IsGrouped = assign-IsGrouped keys [] 0 empty-IsGrouped

  -- The request behind a key and a group at one place.
  done_at :
      (i : ℕ) (k : Key) (g : ℕ)
      → get_elem? keys i ≡ some k
      → get_elem? (batch_group keys).0 i ≡ some g
      → get_elem? done i ≡ some (k, g)
  unfolding batch_group
  done_at i k g hk hg =
      pair_up (get_elem? done i)
        (sym (get_elem?-map (λ (r : Request). r.0) done i)
          ∙ ap (λ (t : List Key). get_elem? t i) (assign-keys keys [] 0)
          ∙ hk)
        (sym (get_elem?-map (λ (r : Request). r.1) done i) ∙ hg)
    where
      pair_up :
          (o : Option Request)
          → Option.map (λ (r : Request). r.0) o ≡ some k
          → Option.map (λ (r : Request). r.1) o ≡ some g
          → o ≡ some (k, g)
      pair_up none e e' = cc
      pair_up (some (k', g')) e e' = cc

  key_at :
      (i : ℕ) (r : Request)
      → get_elem? done i ≡ some r
      → get_elem? (batch_group keys).0 i ≡ some r.1
  unfolding batch_group
  key_at i r h =
      get_elem?-map (λ (r : Request). r.1) done i ∙ ap (Option.map (λ (r : Request). r.1)) h

  request_at :
      (i g : ℕ)
      → get_elem? (batch_group keys).0 i ≡ some g
      → (r : Request) × (get_elem? done i ≡ some r) × (r.1 ≡ g)
  unfolding batch_group
  request_at i g h =
      from (get_elem? done i) refl (sym (get_elem?-map (λ (r : Request). r.1) done i) ∙ h)
    where
      from :
          (o : Option Request)
          → get_elem? done i ≡ o
          → Option.map (λ (r : Request). r.1) o ≡ some g
          → (r : Request) × (get_elem? done i ≡ some r) × (r.1 ≡ g)
      from none e e' = cc
      from (some r) e e' = (r, e, cc)

-- Two requests are put in one group exactly when they have the same key.
pub batch_group_classes :
    (keys : List Key) (i j : ℕ) (k k' : Key) (g g' : ℕ)
    → get_elem? keys i ≡ some k
    → get_elem? keys j ≡ some k'
    → get_elem? (batch_group keys).0 i ≡ some g
    → get_elem? (batch_group keys).0 j ≡ some g'
    → (g ≡ g') ↔ (same_key k k' ≡ true)
batch_group_classes keys i j k k' g g' hi hj gi gj =
    (done-IsGrouped keys).together i j (k, g) (k', g') (done_at keys i k g hi gi)
      (done_at keys j k' g' hj gj)

-- The group numbers in use are exactly those below the number of groups.
pub batch_group_dense :
    (keys : List Key) (g : ℕ)
    → (g < (batch_group keys).1) ↔ ((i : ℕ) × (get_elem? (batch_group keys).0 i ≡ some g))
unfolding batch_group
batch_group_dense keys g = (
  λ lt.
      let (i, r, h, e) = (done-IsGrouped keys).used g lt in
      (i, key_at keys i r h ∙ ap (λ (t : ℕ). some t) e),
  λ (i, h).
      let (r, h', e) = request_at keys i g h in
      subst (λ (t : ℕ). t < (assign [] 0 keys).1) e ((done-IsGrouped keys).bounded i r h'),
)

-- Groups are numbered as they are first met: before the first request of group `g + 1` comes one
-- of group `g`.
batch_group_in_order :
    (keys : List Key) (i g : ℕ)
    → get_elem? (batch_group keys).0 i ≡ some (suc g)
    → (j : ℕ) × (j < i) × (get_elem? (batch_group keys).0 j ≡ some g)
batch_group_in_order keys i g h =
    let (r, h', e) = request_at keys i (suc g) h in
    elim ((done-IsGrouped keys).in_order i r h') [
      | inl zero_group ↦ absurd (omega arith)
      | inr (j, q, lt, hq, e') ↦ (j, lt, key_at keys j q hq ∙ ap (λ (t : ℕ). some t) (omega arith))
    ]

-- Every request gets a group.
pub length-batch_group : (keys : List Key) → length (batch_group keys).0 ≡ length keys
unfolding batch_group
length-batch_group keys = omega (
  arith,
  length-map (done keys) (λ (r : Request). r.1),
  length-map (done keys) (λ (r : Request). r.0),
  ap length (assign-keys keys [] 0),
)
