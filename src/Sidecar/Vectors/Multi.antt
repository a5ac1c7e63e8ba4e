-- ===== src/Sidecar/Vectors/Multi.antt =====
-- Writing partition by partition gives the bytes of one write of the whole corpus.
use pg_cuvs.Base.{
  ℕ, ◌+◌, ◌%◌, ◌^◌, ◌<◌, ◌≡◌, refl, ap, sym, ◌∙◌, List, [], ◌∷◌, ◌++◌, Bool, true, arith,
  append-nil, append_assoc, Bool-cases, inl, inr, if◌then◌else◌, magnitude, at_most_zero, ℤ, pos,
  negsuc,
}
use pg_cuvs.Base.Bytes.{words, words-append}
use pg_cuvs.Crc.{crc32, stream_begin, stream_update, stream_end}
use pg_cuvs.Crc.Stream.{stream_update-append}
use pg_cuvs.Sidecar.File.{OutFile, fwrite}
use pg_cuvs.Sidecar.File.Laws.{fwrite-append}
use pg_cuvs.Sidecar.Vectors.{
  Part, header_bytes, vectors_header, vectors_write, vectors_write_multi, multi_crc, multi_total,
  multi_body,
}

-- The corpus that the partitions make up, and its count.
pub whole : List Part → List ℕ
whole [] = []
whole (p ∷ ps) = if at_most_zero p.n_each then whole ps else p.vecs ++ whole ps

unfoldable pub count : List Part → ℕ
count [] = 0
count (p ∷ ps) = magnitude p.n_each + count ps

magnitude-zero : (z : ℤ) → at_most_zero z ≡ true → magnitude z ≡ 0
magnitude-zero (pos n) e = ground (arith, e)
magnitude-zero (negsuc n) e = refl

multi_crc-whole :
    (crc : ℕ) (ps : List Part) → multi_crc crc ps ≡ stream_update crc (words 4 (whole ps))
unfolding multi_crc whole stream_update words
multi_crc-whole crc [] = refl
multi_crc-whole crc (p ∷ ps) = elim (Bool-cases (at_most_zero p.n_each)) [
  | inl skipped ↦ rw skipped (multi_crc-whole crc ps)
  | inr taken ↦ rw taken (
      multi_crc-whole (stream_update crc (words 4 p.vecs)) ps
      ∙ sym (stream_update-append crc (words 4 p.vecs) (words 4 (whole ps)))
      ∙ sym (ap (stream_update crc) (words-append 4 p.vecs (whole ps))))
]

multi_total-count :
    (total : ℕ) (ps : List Part)
    → total + count ps < 2 ^ 64
    → multi_total total ps ≡ total + count ps
unfolding multi_total count
multi_total-count total [] room = omega arith
multi_total-count total (p ∷ ps) room = elim (Bool-cases (at_most_zero p.n_each)) [
  | inl skipped ↦
      rw skipped
        (omega (arith, multi_total-count total ps (omega arith), magnitude-zero p.n_each skipped))
  | inr taken ↦
      let e : (total + magnitude p.n_each) % 2 ^ 64 ≡ total + magnitude p.n_each = omega arith in
      rw (taken, e) (omega (arith, multi_total-count (total + magnitude p.n_each) ps (omega arith)))
]

multi_body-whole :
    (xs : List ℕ) (f : OutFile) (ps : List Part)
    → multi_body (fwrite xs f) ps ≡ fwrite (xs ++ words 4 (whole ps)) f
unfolding multi_body whole words
multi_body-whole xs f [] = ap (λ (l : List ℕ). fwrite l f) (sym (append-nil xs))
multi_body-whole xs f (p ∷ ps) = elim (Bool-cases (at_most_zero p.n_each)) [
  | inl skipped ↦ rw skipped (multi_body-whole xs f ps)
  | inr taken ↦ rw taken (
      ap (λ (o : Bool × OutFile). multi_body o ps) (fwrite-append xs (words 4 p.vecs) f)
      ∙ multi_body-whole (xs ++ words 4 p.vecs) f ps
      ∙ ap (λ (l : List ℕ). fwrite l f)
          (append_assoc xs (words 4 p.vecs) (words 4 (whole ps))
            ∙ sym (ap (◌++◌ xs) (words-append 4 p.vecs (whole ps)))))
]

-- `cuvs_vectors_write_multi` has the same outcome as `cuvs_vectors_write` of the whole corpus, the
-- same bytes in the file and the same answer, also where the file fills up on the way: partitions
-- with no positive count are left out, and the CRC taken along the way is that of the whole body.
-- The counts fit an int64_t together.
pub vectors_write_multi-whole :
    (f : OutFile) (parts : List Part) (dim metric base_tids_crc32 : ℕ)
    → count parts < 2 ^ 63
    → vectors_write_multi f parts dim metric base_tids_crc32
      ≡ vectors_write f (count parts) dim metric base_tids_crc32 (whole parts)
unfolding vectors_write_multi vectors_write crc32
vectors_write_multi-whole f parts dim metric base_tids_crc32 room =
    let hdr : ℕ → ℕ → List ℕ =
      λ n crc. header_bytes (vectors_header n dim metric base_tids_crc32 crc) in
    let total : multi_total 0 parts ≡ count parts =
      omega (arith, multi_total-count 0 parts (omega arith)) in
    let crc : stream_end (multi_crc stream_begin parts) ≡ crc32 (words 4 (whole parts)) =
      ap stream_end (multi_crc-whole stream_begin parts) in
    multi_body-whole _ f parts
    ∙ ap
        (λ (n : ℕ).
          fwrite (hdr n (stream_end (multi_crc stream_begin parts)) ++ words 4 (whole parts)) f)
        total
    ∙ ap (λ (c : ℕ). fwrite (hdr (count parts) c ++ words 4 (whole parts)) f) crc
    ∙ sym (
        fwrite-append (hdr (count parts) (crc32 (words 4 (whole parts)))) (words 4 (whole parts)) f)
