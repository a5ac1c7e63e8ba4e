-- ===== src/Sidecar/Tombstones/Filter.antt =====
-- The loop that drops results in place is a filter.
use pg_cuvs.Base.{
  ℕ, zero, suc, ◌+◌, ◌≡◌, refl, ap, sym, subst, ◌∙◌, List, [], ◌∷◌, ◌++◌, Bool, if◌then◌else◌,
  length, set, get_or, arith, Bool-cases, inl, inr, append-nil, append_assoc, length-append,
}
use pg_cuvs.Sidecar.Tombstones.{Hit, compact}

-- The results that are not dead, in order.
unfoldable pub live : (ℕ → Bool) → List Hit → List Hit
live dead [] = []
live dead (h ∷ hs) = if dead h.tid then live dead hs else h ∷ live dead hs

read_at :
    (xs : List Hit) (h d : Hit) (ys : List Hit) (i : ℕ)
    → i ≡ length xs
    → get_or (xs ++ (h ∷ ys)) i d ≡ h
read_at [] h d ys i e = ap (λ (j : ℕ). get_or (h ∷ ys) j d) e
read_at (x ∷ xs) h d ys zero e = absurd (omega arith)
read_at (x ∷ xs) h d ys (suc i) e = read_at xs h d ys i (omega arith)

write_at :
    (xs : List Hit) (y h : Hit) (ys : List Hit) (i : ℕ)
    → i ≡ length xs
    → set (xs ++ (y ∷ ys)) i h ≡ xs ++ (h ∷ ys)
write_at [] y h ys i e = ap (λ (j : ℕ). set (y ∷ ys) j h) e
write_at (x ∷ xs) y h ys zero e = absurd (omega arith)
write_at (x ∷ xs) y h ys (suc i) e = ap (λ l. x ∷ l) (write_at xs y h ys i (omega arith))

-- The results passed over, after one more is kept.
slide : List Hit → Hit → List Hit
slide [] h = []
slide (g ∷ gap) h = gap ++ (h ∷ [])

length-slide : (gap : List Hit) (h : Hit) → length (slide gap h) ≡ length gap
unfolding slide
length-slide [] h = refl
length-slide (g ∷ gap) h = omega (arith, length-append gap (h ∷ []))

keep :
    (done gap : List Hit) (h : Hit) (more : List Hit) (out : ℕ)
    → out ≡ length done
    → set (done ++ (gap ++ (h ∷ more))) out h ≡ (done ++ (h ∷ [])) ++ (slide gap h ++ more)
unfolding slide
keep done [] h more out e = write_at done h h more out e ∙ sym (append_assoc done (h ∷ []) more)
keep done (g ∷ gap) h more out e =
    write_at done g h (gap ++ (h ∷ more)) out e
    ∙ ap (λ l. done ++ (h ∷ l)) (sym (append_assoc gap (h ∷ []) more))
    ∙ sym (append_assoc done (h ∷ []) ((gap ++ (h ∷ [])) ++ more))

-- What the loop leaves: the kept results at the front, and as many as it says.
pub record Kept (r : List Hit × ℕ) (kept : List Hit) : Type 0 where
  pub rest : List Hit
  pub parts : r.0 ≡ kept ++ rest
  pub counted : r.1 ≡ length kept

compact-Kept :
    (dead : ℕ → Bool) (done gap todo rest : List Hit) (i out : ℕ) (d : Hit)
    → out ≡ length done
    → i ≡ length done + length gap
    → Kept
        (compact dead i out (length todo) (done ++ (gap ++ (todo ++ rest))) d)
        (done ++ live dead todo)
unfolding compact live
compact-Kept dead done gap [] rest i out d e e' = record {
  rest = gap ++ rest;
  parts = ap (λ l. l ++ (gap ++ rest)) (sym (append-nil done));
  counted = e ∙ ap length (sym (append-nil done));
}
compact-Kept dead done gap (h ∷ todo) rest i out d e e' =
    let at_i : get_or (done ++ (gap ++ (h ∷ (todo ++ rest)))) i d ≡ h =
      ap (λ l. get_or l i d) (sym (append_assoc done gap (h ∷ (todo ++ rest))))
      ∙ read_at (done ++ gap) h d (todo ++ rest) i (omega (arith, e', length-append done gap)) in
    elim (Bool-cases (dead h.tid)) [
      | inl drop_it ↦
          let later =
            compact-Kept dead done (gap ++ (h ∷ [])) todo rest (i + 1) out d e
              (omega (arith, e', length-append gap (h ∷ []))) in
          rw (at_i, drop_it)
            (subst
              (λ l.
                Kept (compact dead (i + 1) out (length todo) (done ++ l) d)
                  (done ++ live dead todo))
              (append_assoc gap (h ∷ []) (todo ++ rest)) later)
      | inr keep_it ↦
          let later =
            compact-Kept dead (done ++ (h ∷ [])) (slide gap h) todo rest (i + 1) (out + 1) d
              (omega (arith, e, length-append done (h ∷ [])))
              (omega (arith, e', length-append done (h ∷ []), length-slide gap h)) in
          rw (at_i, keep_it)
            (subst
              (λ l.
                Kept (compact dead (i + 1) (out + 1) (length todo) l d)
                  (done ++ (h ∷ live dead todo)))
              (sym (keep done gap h (todo ++ rest) out e))
              (subst
                (λ l.
                  Kept
                    (compact dead (i + 1) (out + 1) (length todo)
                      ((done ++ (h ∷ [])) ++ (slide gap h ++ (todo ++ rest))) d)
                    l)
                (append_assoc done (h ∷ []) (live dead todo)) later))
    ]

-- The loop over the first results of an array.
pub compact-live :
    (dead : ℕ → Bool) (todo rest : List Hit) (d : Hit)
    → Kept (compact dead 0 0 (length todo) (todo ++ rest) d) (live dead todo)
compact-live dead todo rest d = compact-Kept dead [] [] todo rest 0 0 d refl refl
