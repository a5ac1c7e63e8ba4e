-- ===== src/Append/Writes.antt =====
-- A write in pieces is one write, and a write behind a prefix keeps the prefix.
use pg_cuvs.Base.{
  ℕ, zero, suc, ◌+◌, ◌-◌, ◌≤◌, ◌≡◌, refl, ap, sym, ◌∙◌, ◌⊎◌, inl, inr, List, [], ◌∷◌, ◌++◌, Bool,
  true, false, false≢true, length, take, drop, arith, append-nil, append_assoc, length-append,
  take-append, drop-append,
}
use pg_cuvs.Append.{write_at, Attempt, interrupted, failed, wrote, pwrite_all, ftruncate}

suc_sum : (m n : ℕ) → suc m + n ≡ suc (m + n)
suc_sum m n = omega arith

-- A write that starts in the middle of one that started at 0.
pub write_at-middle :
    (xs ys f : List ℕ) → write_at (length xs) ys (xs ++ f) ≡ xs ++ (ys ++ drop (length ys) f)
unfolding write_at
write_at-middle [] ys f = refl
write_at-middle (x ∷ xs) ys f = ap (◌∷◌ x) (write_at-middle xs ys f)

drop-drop : (m n : ℕ) (xs : List ℕ) → drop n (drop m xs) ≡ drop (m + n) xs
drop-drop zero n xs = ap (λ (k : ℕ). drop k xs) (omega arith)
drop-drop (suc m) zero [] = ap (λ (k : ℕ). drop k []) (sym (suc_sum m 0))
drop-drop (suc m) (suc n) [] = ap (λ (k : ℕ). drop k []) (sym (suc_sum m (suc n)))
drop-drop (suc m) n (x ∷ xs) =
    drop-drop m n xs ∙ ap (λ (k : ℕ). drop k (x ∷ xs)) (sym (suc_sum m n))

-- The second write goes on where the first one stopped.
write_at-append :
    (off : ℕ) (xs ys f : List ℕ)
    → write_at (off + length xs) ys (write_at off xs f) ≡ write_at off (xs ++ ys) f
unfolding write_at
write_at-append zero xs ys f =
    ap (λ (k : ℕ). write_at k ys (xs ++ drop (length xs) f)) (omega arith)
    ∙ write_at-middle xs ys (drop (length xs) f)
    ∙ ap (λ l. xs ++ (ys ++ l))
        (drop-drop (length xs) (length ys) f ∙ ap (λ (k : ℕ). drop k f) (sym (length-append xs ys)))
    ∙ sym (append_assoc xs ys (drop (length (xs ++ ys)) f))
write_at-append (suc off) xs ys [] =
    ap (λ (k : ℕ). write_at k ys (0 ∷ write_at off xs [])) (suc_sum off (length xs))
    ∙ ap (◌∷◌ 0) (write_at-append off xs ys [])
write_at-append (suc off) xs ys (b ∷ f) =
    ap (λ (k : ℕ). write_at k ys (b ∷ write_at off xs f)) (suc_sum off (length xs))
    ∙ ap (◌∷◌ b) (write_at-append off xs ys f)

write_at-nil : (off : ℕ) (f : List ℕ) → off ≤ length f → write_at off [] f ≡ f
unfolding write_at
write_at-nil zero f h = refl
write_at-nil (suc off) [] h = absurd (omega arith)
write_at-nil (suc off) (b ∷ f) h = ap (◌∷◌ b) (write_at-nil off f (omega arith))

length-write_at : (off : ℕ) (bytes f : List ℕ) → off + length bytes ≤ length (write_at off bytes f)
unfolding write_at
length-write_at zero bytes f = omega (arith, length-append bytes (drop (length bytes) f))
length-write_at (suc off) bytes [] = omega (arith, length-write_at off bytes [])
length-write_at (suc off) bytes (b ∷ f) = omega (arith, length-write_at off bytes f)

take-then-drop : (n : ℕ) (xs : List ℕ) → take n xs ++ drop n xs ≡ xs
take-then-drop zero xs = refl
take-then-drop (suc n) [] = refl
take-then-drop (suc n) (x ∷ xs) = ap (◌∷◌ x) (take-then-drop n xs)

-- The answer and the file after `cuvs_pwrite_all`: all the bytes are in it, or a first part of them.
abbrev pub Wrote : Bool × List ℕ → ℕ → List ℕ → List ℕ → Type 0
Wrote r off bytes f =
    ((r.0 ≡ true) × (r.1 ≡ write_at off bytes f))
    ⊎ ((r.0 ≡ false)
        × (done : List ℕ) × (left : List ℕ) × (done ++ left ≡ bytes)
        × (r.1 ≡ write_at off done f))

-- However often a write is interrupted or cut short: `cuvs_pwrite_all` from an offset inside the
-- file answers 0 exactly if it has put all bytes there, and otherwise has put a first part of them.
pub pwrite_all-Wrote :
    (calls : List Attempt) (off : ℕ) (bytes f : List ℕ)
    → off ≤ length f
    → Wrote (pwrite_all calls off bytes f) off bytes f
unfolding pwrite_all
pwrite_all-Wrote calls off [] f h = inl (refl, sym (write_at-nil off f h))
pwrite_all-Wrote [] off (b ∷ bytes) f h =
    inr (refl, [], b ∷ bytes, refl, sym (write_at-nil off f h))
pwrite_all-Wrote (interrupted ∷ calls) off (b ∷ bytes) f h =
    pwrite_all-Wrote calls off (b ∷ bytes) f h
pwrite_all-Wrote (failed ∷ calls) off (b ∷ bytes) f h =
    inr (refl, [], b ∷ bytes, refl, sym (write_at-nil off f h))
pwrite_all-Wrote (wrote zero ∷ calls) off (b ∷ bytes) f h =
    inr (refl, [], b ∷ bytes, refl, sym (write_at-nil off f h))
pwrite_all-Wrote (wrote (suc w) ∷ calls) off (b ∷ bytes) f h =
    let part = b ∷ take w bytes in
    let f' = write_at off part f in
    let whole : part ++ drop w bytes ≡ b ∷ bytes = ap (◌∷◌ b) (take-then-drop w bytes) in
    elim (pwrite_all-Wrote calls (off + length part) (drop w bytes) f'
      (length-write_at off part f)) [
        | inl (ok, e) ↦
            inl
              (ok, e ∙ write_at-append off part (drop w bytes) f ∙ ap (λ l. write_at off l f) whole)
        | inr (bad, done, left, cut, e) ↦ inr (
          bad,
          part ++ done,
          left,
          append_assoc part done left ∙ ap (λ l. part ++ l) cut ∙ whole,
          e ∙ write_at-append off part done f,
        )
      ]

-- Also behind the end of the file, where the gap reads as zeros.
pub pwrite_all-true :
    (calls : List Attempt) (off b : ℕ) (bytes f : List ℕ)
    → (pwrite_all calls off (b ∷ bytes) f).0 ≡ true
    → (pwrite_all calls off (b ∷ bytes) f).1 ≡ write_at off (b ∷ bytes) f
unfolding pwrite_all
pwrite_all-true [] off b bytes f h = absurd (false≢true h)
pwrite_all-true (interrupted ∷ calls) off b bytes f h = pwrite_all-true calls off b bytes f h
pwrite_all-true (failed ∷ calls) off b bytes f h = absurd (false≢true h)
pwrite_all-true (wrote zero ∷ calls) off b bytes f h = absurd (false≢true h)
pwrite_all-true (wrote (suc w) ∷ calls) off b bytes f h =
    let part = b ∷ take w bytes in
    let f' = write_at off part f in
    let whole : part ++ drop w bytes ≡ b ∷ bytes = ap (◌∷◌ b) (take-then-drop w bytes) in
    elim (pwrite_all-Wrote calls (off + length part) (drop w bytes) f'
      (length-write_at off part f)) [
        | inl (ok, e) ↦
            e ∙ write_at-append off part (drop w bytes) f ∙ ap (λ l. write_at off l f) whole
        | inr bad ↦ absurd (false≢true (sym bad.0 ∙ h))
      ]

-- A write of as many bytes as the first part has.
pub write_at-front : (xs ys f : List ℕ) → length ys ≡ length xs → write_at 0 ys (xs ++ f) ≡ ys ++ f
unfolding write_at
write_at-front xs ys f h = ap (λ l. ys ++ l) (ap (λ (k : ℕ). drop k (xs ++ f)) h ∙ drop-append xs f)

pub ftruncate-append : (n : ℕ) (xs ys : List ℕ) → length xs ≡ n → ftruncate n (xs ++ ys) ≡ xs
unfolding ftruncate
ftruncate-append n xs ys h =
    let all_there : n - length (xs ++ ys) ≡ 0 = omega (arith, length-append xs ys) in
    rw all_there (
      append-nil (take n (xs ++ ys))
      ∙ ap (λ (k : ℕ). take k (xs ++ ys)) (sym h)
      ∙ take-append xs ys)
