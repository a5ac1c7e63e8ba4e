-- ===== src/Append/Rows.antt =====
-- A sidecar as a header, its records and what stands behind them, under the writes of an append.
use pg_cuvs.Base.{
  ℕ, ◌≤◌, ◌^◌, ◌&&◌, ltb, ◌≡◌, refl, ap, sym, ◌∙◌, ◌⊎◌, inl, inr, List, [], ◌∷◌, ◌++◌, Bool, true,
  false, length, drop, replicate, arith, append-nil, append_assoc, length-append, Bool-cases,
}
use pg_cuvs.Append.{write_at, Attempt, pwrite_all, ftruncate, ◌and_then◌, Io, finish}
use pg_cuvs.Append.Writes.{
  pwrite_all-Wrote, pwrite_all-true, write_at-middle, write_at-front, ftruncate-append,
}

-- The file after an append that puts `new` behind the records `body` and then writes the header:
-- it succeeded; or the old header and the old records are still there; or both the old records and
-- the new one stand behind a header of which a first part is the new one.
abbrev pub Appended : Bool × List ℕ → List ℕ → List ℕ → List ℕ → List ℕ → Type 0
Appended r hdr hdr' body new =
    ((r.0 ≡ true) × (r.1 ≡ hdr' ++ (body ++ new)))
    ⊎ ((r.0 ≡ false)
        × (((tail : List ℕ) × (r.1 ≡ hdr ++ (body ++ tail)))
            ⊎ ((done : List ℕ) × (left : List ℕ) × (tail : List ℕ) × (done ++ left ≡ hdr')
                × (r.1 ≡ write_at 0 done (hdr ++ (body ++ (new ++ tail)))))))

-- What the record's writes leave of a file with this header and these records.
abbrev pub Behind : Bool × List ℕ → List ℕ → List ℕ → List ℕ → Type 0
Behind r hdr body new =
    ((r.0 ≡ true) × (tail : List ℕ) × (r.1 ≡ hdr ++ (body ++ (new ++ tail))))
    ⊎ ((r.0 ≡ false) × (tail : List ℕ) × (r.1 ≡ hdr ++ (body ++ tail)))

write_at_behind :
    (hdr body new tail : List ℕ)
    → write_at (length (hdr ++ body)) new (hdr ++ (body ++ tail))
      ≡ hdr ++ (body ++ (new ++ drop (length new) tail))
write_at_behind hdr body new tail =
    ap (write_at (length (hdr ++ body)) new) (sym (append_assoc hdr body tail))
    ∙ write_at-middle (hdr ++ body) new tail
    ∙ append_assoc hdr body (new ++ drop (length new) tail)

pub pwrite_all-Behind :
    (calls : List Attempt) (off : ℕ) (hdr body new tail : List ℕ)
    → length (hdr ++ body) ≡ off
    → Behind (pwrite_all calls off new (hdr ++ (body ++ tail))) hdr body new
pwrite_all-Behind calls off hdr body new tail h =
    let f = hdr ++ (body ++ tail) in
    let inside : off ≤ length f = omega (
      arith,
      h,
      length-append hdr body,
      length-append hdr (body ++ tail),
      length-append body tail,
    ) in
    let at : (l : List ℕ) → write_at off l f ≡ hdr ++ (body ++ (l ++ drop (length l) tail)) =
      λ l. ap (λ (k : ℕ). write_at k l f) (sym h) ∙ write_at_behind hdr body l tail in
    elim (pwrite_all-Wrote calls off new f inside) [
      | inl (ok, e) ↦ inl (ok, drop (length new) tail, e ∙ at new)
      | inr (bad, done, left, cut, e) ↦ inr (bad, done ++ drop (length done) tail, e ∙ at done)
    ]

-- A second write of the record goes on behind the first.
pub pwrite_all-Behind_next :
    (calls : List Attempt) (off : ℕ) (hdr body xs ys : List ℕ) (r : Bool × List ℕ)
    → length (hdr ++ (body ++ xs)) ≡ off
    → Behind r hdr body xs
    → Behind (r and_then pwrite_all calls off ys) hdr body (xs ++ ys)
unfolding ◌and_then◌
pwrite_all-Behind_next calls off hdr body xs ys (ok, f) h (inr (bad, tail, e)) =
    rw bad (inr (refl, tail, e))
pwrite_all-Behind_next calls off hdr body xs ys (ok, f) h (inl (good, tail, e)) =
    let split : (l : List ℕ) → (body ++ xs) ++ l ≡ body ++ (xs ++ l) =
      λ l. append_assoc body xs l in
    rw (good, e, ← split tail)
      (elim (pwrite_all-Behind calls off hdr (body ++ xs) ys tail h) [
        | inl (ok', t, e') ↦ inl (
          ok',
          t,
          e'
              ∙ ap (λ l. hdr ++ l)
                  (split (ys ++ t) ∙ ap (λ l. body ++ l) (sym (append_assoc xs ys t))),
        )
        | inr (bad, t, e') ↦ inr (bad, xs ++ t, e' ∙ ap (λ l. hdr ++ l) (split t))
      ])

finish-Appended :
    (io : Io) (size : ℕ) (hdr hdr' body new tail : List ℕ)
    → length hdr' ≡ length hdr
    → length (hdr' ++ (body ++ new)) ≡ size
    → Appended (finish io size (hdr' ++ (body ++ (new ++ tail)))) hdr hdr' body new
unfolding finish
finish-Appended io size hdr hdr' body new tail same sized =
    let regroup : hdr' ++ (body ++ (new ++ tail)) ≡ (hdr' ++ (body ++ new)) ++ tail =
      sym
        (append_assoc hdr' (body ++ new) tail ∙ ap (λ l. hdr' ++ l) (append_assoc body new tail)) in
    let cut : ftruncate size (hdr' ++ (body ++ (new ++ tail))) ≡ hdr' ++ (body ++ new) =
      ap (ftruncate size) regroup ∙ ftruncate-append size (hdr' ++ (body ++ new)) tail sized in
    let whole : hdr' ++ (body ++ new) ≡ write_at 0 hdr' (hdr ++ (body ++ (new ++ []))) = sym (
      write_at-front hdr hdr' (body ++ (new ++ [])) same
      ∙ ap (λ l. hdr' ++ (body ++ l)) (append-nil new)) in
    elim (Bool-cases (io.truncates && ltb size (2 ^ 63))) [
      | inl cuts ↦ elim (Bool-cases io.syncs) [
        | inl syncs ↦ rw (cuts, syncs) (inl (refl, cut))
        | inr fails ↦
            rw (cuts, fails) (inr (refl, inr (hdr', [], [], append-nil hdr', cut ∙ whole)))
      ]
      | inr fails ↦ rw fails (
          inr (
            refl,
            inr (
              hdr',
              [],
              tail,
              append-nil hdr',
              sym (write_at-front hdr hdr' (body ++ (new ++ tail)) same),
            ),
          ))
    ]

-- The writes of the header, the truncation and the flush, behind the writes of the record.
pub header_write-Appended :
    (io : Io) (calls : List Attempt) (size : ℕ) (hdr hdr' body new : List ℕ) (r : Bool × List ℕ)
    → length hdr' ≡ length hdr
    → length (hdr' ++ (body ++ new)) ≡ size
    → Behind r hdr body new
    → Appended (r and_then pwrite_all calls 0 hdr' and_then finish io size) hdr hdr' body new
unfolding ◌and_then◌ finish
header_write-Appended io calls size hdr hdr' body new (ok, f) same sized (inr (bad, tail, e)) =
    rw bad (inr (refl, inl (tail, e)))
header_write-Appended io calls size hdr hdr' body new (ok, f) same sized (inl (good, tail, e)) =
    let g = hdr ++ (body ++ (new ++ tail)) in
    rw (good, e)
      (elim (pwrite_all-Wrote calls 0 hdr' g (omega arith)) [
        | inr (bad, done, left, cut, e') ↦ rw bad (inr (refl, inr (done, left, tail, cut, e')))
        | inl (ok', e') ↦
            rw (ok', e', write_at-front hdr hdr' (body ++ (new ++ tail)) same)
              (finish-Appended io size hdr hdr' body new tail same sized)
      ])

-- A record behind the room for a header, in a file that was empty.
pub pwrite_all-Behind_first :
    (calls : List Attempt) (b : ℕ) (bytes : List ℕ)
    → (pwrite_all calls 32 (b ∷ bytes) []).0 ≡ true
    → Behind (pwrite_all calls 32 (b ∷ bytes) []) (replicate 32 0) [] (b ∷ bytes)
unfolding write_at
pwrite_all-Behind_first calls b bytes ok = inl (ok, [], pwrite_all-true calls 32 b bytes [] ok)
