-- ===== src/TopK/Insert.antt =====
-- Inserting into a sorted list, the reference for the running top-k.
use pg_cuvs.Base.{
  ℕ, zero, suc, ◌≤◌, ◌<◌, ◌≡◌, refl, ap, List, [], ◌∷◌, ◌++◌, ltb, if◌then◌else◌, take, length,
  arith, Bool-cases, inl, inr,
}
use pg_cuvs.TopK.{Floats, Result}

-- A list with its last item apart.
pub record Last {ℓ} {A : Type ℓ} (xs : List A) : Type ℓ where
  pub front : List A
  pub last : A
  pub parts : xs ≡ front ++ (last ∷ [])

pub Last-of {ℓ} : {A : Type ℓ} (x : A) (xs : List A) → Last (x ∷ xs)
Last-of x [] = record { front = []; last = x; parts = refl }
Last-of x (y ∷ ys) =
    let l = Last-of y ys in
    record { front = x ∷ l.front; last = l.last; parts = ap (λ zs. x ∷ zs) l.parts }

module _ (fl : Floats) where
  abbrev pub rank : Result fl → ℕ
  rank r = fl.rank r.distance

  -- A result goes behind all that are not farther.
  unfoldable pub insert : Result fl → List (Result fl) → List (Result fl)
  insert r [] = r ∷ []
  insert r (x ∷ xs) = if ltb (rank r) (rank x) then r ∷ x ∷ xs else x ∷ insert r xs

  -- All results, sorted by their distance, those that came first before their equals.
  unfoldable pub insert_all : List (Result fl) → List (Result fl) → List (Result fl)
  insert_all xs [] = xs
  insert_all xs (r ∷ rs) = insert_all (insert r xs) rs

  -- All are at most, or at least, so far.
  pub Within : ℕ → List (Result fl) → Type 0
  Within b [] = Unit {0}
  Within b (x ∷ xs) = (rank x ≤ b) × Within b xs

  pub Beyond : ℕ → List (Result fl) → Type 0
  Beyond b [] = Unit {0}
  Beyond b (x ∷ xs) = (b ≤ rank x) × Beyond b xs

  unfoldable pub IsSorted : List (Result fl) → Type 0
  IsSorted [] = Unit {0}
  IsSorted (x ∷ xs) = Beyond (rank x) xs × IsSorted xs

  pub insert-last_far :
      (r y : Result fl) (xs : List (Result fl))
      → rank r < rank y
      → insert r (xs ++ (y ∷ [])) ≡ insert r xs ++ (y ∷ [])
  unfolding insert
  insert-last_far r y [] far = ground (arith, far)
  insert-last_far r y (x ∷ xs) far = ground (arith, insert-last_far r y xs far)

  pub insert-Within :
      (r : Result fl) (xs : List (Result fl)) → Within (rank r) xs → insert r xs ≡ xs ++ (r ∷ [])
  unfolding insert Within
  insert-Within r [] w = refl
  insert-Within r (x ∷ xs) w = ground (arith, w.0, insert-Within r xs w.1)

  pub Within-append :
      (b : ℕ) (xs : List (Result fl)) (y : Result fl)
      → Within b xs
      → rank y ≤ b
      → Within b (xs ++ (y ∷ []))
  unfolding Within
  Within-append b [] y w h = (h, tt)
  Within-append b (x ∷ xs) y w h = (w.0, Within-append b xs y w.1 h)

  pub Within-mono : (b c : ℕ) (xs : List (Result fl)) → b ≤ c → Within b xs → Within c xs
  unfolding Within
  Within-mono b c [] h w = tt
  Within-mono b c (x ∷ xs) h w = (omega (arith, w.0), Within-mono b c xs h w.1)

  Beyond-last :
      (b : ℕ) (xs : List (Result fl)) (y : Result fl)
      → Beyond b (xs ++ (y ∷ []))
      → (b ≤ rank y) × Beyond b xs
  unfolding Beyond
  Beyond-last b [] y h = (h.0, tt)
  Beyond-last b (x ∷ xs) y h = let l = Beyond-last b xs y h.1 in (l.0, (h.0, l.1))

  pub IsSorted-last :
      (xs : List (Result fl)) (y : Result fl)
      → IsSorted (xs ++ (y ∷ []))
      → Within (rank y) xs × IsSorted xs
  unfolding IsSorted Within
  IsSorted-last [] y s = (tt, tt)
  IsSorted-last (x ∷ xs) y s =
      let l = IsSorted-last xs y s.1 in
      let b = Beyond-last (rank x) xs y s.0 in ((b.0, l.0), (b.1, l.1))

  Beyond-mono : (b c : ℕ) (xs : List (Result fl)) → b ≤ c → Beyond c xs → Beyond b xs
  unfolding Beyond
  Beyond-mono b c [] h w = tt
  Beyond-mono b c (x ∷ xs) h w = (omega (arith, w.0), Beyond-mono b c xs h w.1)

  Beyond-insert :
      (b : ℕ) (r : Result fl) (xs : List (Result fl))
      → b ≤ rank r
      → Beyond b xs
      → Beyond b (insert r xs)
  unfolding Beyond insert
  Beyond-insert b r [] h w = (h, tt)
  Beyond-insert b r (x ∷ xs) h w = elim (Bool-cases (ltb (rank r) (rank x))) [
    | inl near ↦ rw near (h, w)
    | inr far ↦ rw far (w.0, Beyond-insert b r xs h w.1)
  ]

  pub insert-IsSorted :
      (r : Result fl) (xs : List (Result fl)) → IsSorted xs → IsSorted (insert r xs)
  unfolding IsSorted insert Beyond
  insert-IsSorted r [] s = (tt, tt)
  insert-IsSorted r (x ∷ xs) s = elim (Bool-cases (ltb (rank r) (rank x))) [
    | inl near ↦
        rw near
          ((ground (arith, near), Beyond-mono (rank r) (rank x) xs (ground (arith, near)) s.0), s)
    | inr far ↦
        rw far (Beyond-insert (rank x) r xs (ground (arith, far)) s.0, insert-IsSorted r xs s.1)
  ]

  Beyond-take : (b k : ℕ) (xs : List (Result fl)) → Beyond b xs → Beyond b (take k xs)
  unfolding Beyond
  Beyond-take b zero xs h = tt
  Beyond-take b (suc k) [] h = tt
  Beyond-take b (suc k) (x ∷ xs) h = (h.0, Beyond-take b k xs h.1)

  pub take-IsSorted : (k : ℕ) (xs : List (Result fl)) → IsSorted xs → IsSorted (take k xs)
  unfolding IsSorted
  take-IsSorted zero xs s = tt
  take-IsSorted (suc k) [] s = tt
  take-IsSorted (suc k) (x ∷ xs) s = (Beyond-take (rank x) k xs s.0, take-IsSorted k xs s.1)

  pub length-insert :
      (r : Result fl) (xs : List (Result fl)) → length (insert r xs) ≡ suc (length xs)
  unfolding insert
  length-insert r [] = refl
  length-insert r (x ∷ xs) = ground (arith, length-insert r xs)

  -- What lies behind the first `k` does not count for the first `k` afterwards.
  pub take-insert :
      (k : ℕ) (r : Result fl) (xs : List (Result fl))
      → take k (insert r (take k xs)) ≡ take k (insert r xs)
  unfolding insert
  take-insert zero r xs = refl
  take-insert (suc k) r [] = refl
  take-insert (suc k) r (x ∷ xs) = elim (Bool-cases (ltb (rank r) (rank x))) [
    | inl near ↦ rw near (ap (λ ys. r ∷ ys) (again k))
    | inr far ↦ rw far (ap (λ ys. x ∷ ys) (take-insert k r xs))
  ]
    where
      shorter : (j k : ℕ) (ys : List (Result fl)) → j ≤ k → take j (take k ys) ≡ take j ys
      shorter zero k ys h = refl
      shorter (suc j) zero ys h = absurd (omega arith)
      shorter (suc j) (suc k) [] h = refl
      shorter (suc j) (suc k) (y ∷ ys) h = ap (λ zs. y ∷ zs) (shorter j k ys (omega arith))

      again : (k : ℕ) → take k (x ∷ take k xs) ≡ take k (x ∷ xs)
      again zero = refl
      again (suc k) = ap (λ ys. x ∷ ys) (shorter k (suc k) xs (omega arith))
