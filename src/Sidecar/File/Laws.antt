-- ===== src/Sidecar/File/Laws.antt =====
-- Reading back what was written, and writing in parts.
use pg_cuvs.Base.{
  ℕ, zero, suc, ◌-◌, ◌≤◌, ◌≡◌, refl, ap, ◌∙◌, List, [], ◌∷◌, ◌++◌, Bool, true, false, Option, none,
  some, length, take, arith, append_assoc, length-append, take-append, drop-append, take_of_le,
  dec_lt,
}
use pg_cuvs.Sidecar.File.{OutFile, fwrite, ◌then_write◌, fread, guard, ◌>>◌}

pub guard-false {ℓ} :
    {B : Type ℓ} (m : Bool) (rest : Option B) → (guard m >> (guard false >> rest)) ≡ none
guard-false true rest = refl
guard-false false rest = refl

pub fread-append : (n : ℕ) (xs ys : List ℕ) → length xs ≡ n → fread n (xs ++ ys) ≡ some (xs, ys)
unfolding fread
fread-append n xs ys h =
    rw (← h) (ground (arith, length-append xs ys, take-append xs ys, drop-append xs ys))

-- A write that fits appends all its bytes.
pub fwrite_fits :
    (bytes : List ℕ) (f : OutFile)
    → length bytes ≤ f.room
    → fwrite bytes f ≡ (true, record { bytes = f.bytes ++ bytes; room = f.room - length bytes })
unfolding fwrite
fwrite_fits bytes f h = ground (arith, take_of_le f.room bytes h)

take-append_far :
    (n : ℕ) (xs ys : List ℕ) → length xs ≤ n → take n (xs ++ ys) ≡ xs ++ take (n - length xs) ys
take-append_far n [] ys h = ap (λ (k : ℕ). take k ys) (omega arith)
take-append_far zero (x ∷ xs) ys h = absurd (omega arith)
take-append_far (suc n) (x ∷ xs) ys h =
    ap (◌∷◌ x)
      (take-append_far n xs ys (omega arith) ∙ ap (λ (k : ℕ). xs ++ take k ys) (omega arith))

take-append_near : (n : ℕ) (xs ys : List ℕ) → n ≤ length xs → take n (xs ++ ys) ≡ take n xs
take-append_near zero xs ys h = refl
take-append_near (suc n) [] ys h = absurd (omega arith)
take-append_near (suc n) (x ∷ xs) ys h = ap (◌∷◌ x) (take-append_near n xs ys (omega arith))

-- Two writes do what one write of all the bytes does, also where the file fills up in one of them.
pub fwrite-append :
    (xs ys : List ℕ) (f : OutFile) → (fwrite xs f then_write ys) ≡ fwrite (xs ++ ys) f
unfolding fwrite ◌then_write◌
fwrite-append xs ys f = elim (dec_lt f.room (length xs)) [
  | yes short ↦ ground (arith, length-append xs ys, take-append_near f.room xs ys (omega arith))
  | no fits ↦ ground (
    arith,
    length-append xs ys,
    take_of_le f.room xs (omega arith),
    take-append_far f.room xs ys (omega arith),
    append_assoc f.bytes xs (take (f.room - length xs) ys),
  )
]
