-- ===== src/Crc/Detect.antt =====
-- The checksum notices every change of one byte.
use Prim.Native.Nat.{bit_and, bit_xor}
use pg_cuvs.Base.{
  ◌≢◌, ℕ, zero, suc, ◌/◌, ◌%◌, ◌^◌, ◌<◌, ◌≡◌, refl, ap, sym, ◌∙◌, List, [], ◌∷◌, ◌++◌, Bool, true,
  false, ◌&&◌, not, get_or, ◌==◌, if◌then◌else◌, arith, length,
}
use pg_cuvs.Base.Bits.{
  bit_and-mask, bit_xor-shift, bit_xor-mod, bit_xor-zero, bit_xor-cancel_left, bit_xor-cancel_right,
}
use pg_cuvs.Crc.{crc32_table, byte_step, stream_begin, stream_update, stream_end, crc32}
use pg_cuvs.Crc.Bounds.{length-crc32_table, byte_step-lt, stream_update-lt}
use pg_cuvs.Crc.Stream.{stream_update-append}

-- No two of the values have the same top byte.
occurs : ℕ → List ℕ → Bool
occurs t [] = false
occurs t (x ∷ xs) = if x / 2 ^ 24 == t then true else occurs t xs

distinct : List ℕ → Bool
distinct [] = true
distinct (x ∷ xs) = not (occurs (x / 2 ^ 24) xs) && distinct xs

table_distinct : distinct crc32_table ≡ true
unfolding distinct occurs crc32_table
table_distinct = refl

occurs_at :
    (xs : List ℕ) (j : ℕ) (t : ℕ) → j < length xs → get_or xs j 0 / 2 ^ 24 ≡ t → occurs t xs ≡ true
unfolding occurs
occurs_at [] j t h e = absurd (omega arith)
occurs_at (x ∷ xs) zero t h e = ground arith
occurs_at (x ∷ xs) (suc j) t h e = ground (arith, occurs_at xs j t)

distinct_at :
    (xs : List ℕ) (i j : ℕ)
    → distinct xs ≡ true
    → i < length xs
    → j < length xs
    → get_or xs i 0 / 2 ^ 24 ≡ get_or xs j 0 / 2 ^ 24
    → i ≡ j
unfolding distinct
distinct_at [] i j d h h' e = absurd (omega arith)
distinct_at (x ∷ xs) zero zero d h h' e = refl
distinct_at (x ∷ xs) zero (suc j) d h h' e = ground (arith, occurs_at xs j (x / 2 ^ 24))
distinct_at (x ∷ xs) (suc i) zero d h h' e = ground (arith, occurs_at xs i (x / 2 ^ 24))
distinct_at (x ∷ xs) (suc i) (suc j) d h h' e =
    ap suc (distinct_at xs i j (ground arith) (omega arith) (omega arith) e)

-- The table index of a byte step, and its two parts.
abbrev index : ℕ → ℕ → ℕ
index crc b = bit_and (bit_xor crc b) 0xFF

index_lem : (crc b : ℕ) → index crc b ≡ bit_xor (crc % 2 ^ 8) (b % 2 ^ 8)
index_lem crc b = bit_and-mask 8 (bit_xor crc b) ∙ bit_xor-mod 8 crc b

index-lt : (crc b : ℕ) → index crc b < 256
index-lt crc b = omega (arith, bit_and-mask 8 (bit_xor crc b))

table_injective :
    (i j : ℕ)
    → i < 256
    → j < 256
    → get_or crc32_table i 0 / 2 ^ 24 ≡ get_or crc32_table j 0 / 2 ^ 24
    → i ≡ j
table_injective i j h h' e =
    distinct_at crc32_table i j table_distinct (omega (arith, length-crc32_table))
      (omega (arith, length-crc32_table)) e

-- From one state two bytes lead to two states.
byte_step-injective_byte :
    (crc b b' : ℕ) → b < 256 → b' < 256 → byte_step crc b ≡ byte_step crc b' → b ≡ b'
unfolding byte_step
byte_step-injective_byte crc b b' h h' e =
    let entries : get_or crc32_table (index crc b) 0 ≡ get_or crc32_table (index crc b') 0 =
      bit_xor-cancel_right _ _ (crc / 2 ^ 8) e in
    let indices =
      table_injective (index crc b) (index crc b') (index-lt crc b) (index-lt crc b')
        (ap (λ (t : ℕ). t / 2 ^ 24) entries) in
    omega (
      arith,
      bit_xor-cancel_left (b % 2 ^ 8) (b' % 2 ^ 8) (crc % 2 ^ 8)
          (sym (index_lem crc b) ∙ indices ∙ index_lem crc b'),
    )

-- The top byte of the next state is that of the table entry.
top_byte :
    (crc b : ℕ)
    → crc < 2 ^ 32
    → byte_step crc b / 2 ^ 24 ≡ get_or crc32_table (index crc b) 0 / 2 ^ 24
unfolding byte_step
top_byte crc b h =
    let t = get_or crc32_table (index crc b) 0 in
    let gone : crc / 2 ^ 8 / 2 ^ 24 ≡ 0 = omega arith in
    bit_xor-shift 24 t (crc / 2 ^ 8)
    ∙ ap (bit_xor (t / 2 ^ 24)) gone
    ∙ bit_xor-zero (t / 2 ^ 24) (t / 2 ^ 24) (omega arith)

-- With the same table entry the other three bytes of the states are the same.
high_bits :
    (crc crc' b : ℕ)
    → byte_step crc b ≡ byte_step crc' b
    → index crc b ≡ index crc' b
    → crc / 2 ^ 8 ≡ crc' / 2 ^ 8
unfolding byte_step
high_bits crc crc' b e i =
    bit_xor-cancel_left (crc / 2 ^ 8) (crc' / 2 ^ 8) (get_or crc32_table (index crc b) 0)
      (e ∙ ap (λ (t : ℕ). bit_xor (get_or crc32_table t 0) (crc' / 2 ^ 8)) (sym i))

-- Under one byte two states lead to two states.
byte_step-injective_state :
    (crc crc' b : ℕ)
    → crc < 2 ^ 32
    → crc' < 2 ^ 32
    → byte_step crc b ≡ byte_step crc' b
    → crc ≡ crc'
byte_step-injective_state crc crc' b h h' e =
    let tops = sym (top_byte crc b h) ∙ ap (λ (t : ℕ). t / 2 ^ 24) e ∙ top_byte crc' b h' in
    let indices =
      table_injective (index crc b) (index crc' b) (index-lt crc b) (index-lt crc' b) tops in
    omega (
      arith,
      bit_xor-cancel_right (crc % 2 ^ 8) (crc' % 2 ^ 8) (b % 2 ^ 8)
          (sym (index_lem crc b) ∙ indices ∙ index_lem crc' b),
      high_bits crc crc' b e indices,
    )

stream_update-injective :
    (bs : List ℕ) (crc crc' : ℕ)
    → crc < 2 ^ 32
    → crc' < 2 ^ 32
    → stream_update crc bs ≡ stream_update crc' bs
    → crc ≡ crc'
unfolding stream_update
stream_update-injective [] crc crc' h h' e = e
stream_update-injective (b ∷ bs) crc crc' h h' e = byte_step-injective_state crc crc' b h h' (
    stream_update-injective bs (byte_step crc b) (byte_step crc' b) (byte_step-lt crc b h)
      (byte_step-lt crc' b h') e)

crc32-byte_injective :
    (xs ys : List ℕ) (b b' : ℕ)
    → b < 256
    → b' < 256
    → crc32 (xs ++ (b ∷ ys)) ≡ crc32 (xs ++ (b' ∷ ys))
    → b ≡ b'
unfolding crc32 stream_end stream_begin stream_update
crc32-byte_injective xs ys b b' h h' e =
    let s = stream_update 0xFFFFFFFF xs in
    let small : s < 2 ^ 32 = stream_update-lt 0xFFFFFFFF xs (omega arith) in
    byte_step-injective_byte s b b' h h' (
      stream_update-injective ys (byte_step s b) (byte_step s b') (byte_step-lt s b small)
        (byte_step-lt s b' small)
        (sym (stream_update-append 0xFFFFFFFF xs (b ∷ ys))
          ∙ bit_xor-cancel_right _ _ 0xFFFFFFFF e
          ∙ stream_update-append 0xFFFFFFFF xs (b' ∷ ys)))

-- Two files that differ in one byte only have different checksums.
pub crc32_detects_byte :
    (xs ys : List ℕ) (b b' : ℕ)
    → b < 256
    → b' < 256
    → b ≢ b'
    → crc32 (xs ++ (b ∷ ys)) ≢ crc32 (xs ++ (b' ∷ ys))
crc32_detects_byte xs ys b b' h h' ne e = ne (crc32-byte_injective xs ys b b' h h' e)
