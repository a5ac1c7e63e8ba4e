-- ===== src/Batch/Scan.antt =====
-- What the scan of the earlier requests finds.

use pg_cuvs.Base.{
  ℕ, zero, suc, ◌≡◌, refl, inl, inr, List, [], ◌∷◌, true, false, Option, none, some, get_elem?,
  Bool-cases, subst,
}
use pg_cuvs.Batch.{Key, same_key, find_group}

abbrev pub Request : Type 0
Request = Key × ℕ

-- A found group is that of a request with the key; where none is found no request has it.
abbrev pub Scanned : List Request → Key → Option ℕ → Type 0
Scanned earlier key (some g) =
    (i : ℕ) × (r : Request) × (get_elem? earlier i ≡ some r) × (same_key r.0 key ≡ true) × (r.1 ≡ g)
Scanned earlier key none =
    (i : ℕ) (r : Request) → get_elem? earlier i ≡ some r → same_key r.0 key ≡ false

Scanned-later :
    (k : Key) (g : ℕ) (earlier : List Request) (key : Key) (o : Option ℕ)
    → same_key k key ≡ false
    → Scanned earlier key o
    → Scanned ((k, g) ∷ earlier) key o
Scanned-later k g earlier key (some n) miss (i, r, h, e, e') = (suc i, r, h, e, e')
Scanned-later k g earlier key none miss h = none_here
  where
    none_here :
        (i : ℕ) (r : Request) → get_elem? ((k, g) ∷ earlier) i ≡ some r → same_key r.0 key ≡ false
    none_here zero r e =
        let e' : (k, g) ≡ r = cc in subst (λ (t : Request). same_key t.0 key ≡ false) e' miss
    none_here (suc i) r e = h i r e

pub find_group-Scanned :
    (earlier : List Request) (key : Key) → Scanned earlier key (find_group earlier key)
unfolding find_group
find_group-Scanned [] key = λ i r h. cc
find_group-Scanned ((k, g) ∷ earlier) key = elim (Bool-cases (same_key k key)) [
  | inl hit ↦ rw hit (0, (k, g), refl, hit, refl)
  | inr miss ↦
      rw miss (
        Scanned-later k g earlier key (find_group earlier key) miss
          (find_group-Scanned earlier key))
]
