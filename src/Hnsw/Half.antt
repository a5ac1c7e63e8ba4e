-- ===== src/Hnsw/Half.antt =====
-- `float_to_half` of src/hnsw_export.c. A float32 and a half are their bits; `>>` is a division, `&`
-- with low bits is a remainder, and `|` of bits that do not overlap is a sum.
pub mod Rounding
pub mod Nearest
use pg_cuvs.Base.{
  ℕ, ◌+◌, ◌-◌, ◌*◌, ◌/◌, ◌%◌, ◌^◌, Bool, not, ◌&&◌, ◌||◌, ltb, leb, ◌==◌, if◌then◌else◌,
}

-- A significand without its last `s` bits, rounded up if the first of these is set, and either
-- another one or the last bit that is kept is.
unfoldable pub round_bits : ℕ → ℕ → ℕ
round_bits mant s =
    let half_mant = mant / 2 ^ s in
    if (mant / 2 ^ (s - 1) % 2 == 1) && (not (mant % 2 ^ (s - 1) == 0) || (half_mant % 2 == 1))
    then half_mant + 1
    else half_mant

-- The sign bit, the biased exponent and the significand's 23 bits.
unfoldable pub sign_of : ℕ → ℕ
sign_of x = x / 2 ^ 31 % 2 * 2 ^ 15

unfoldable pub exponent_of : ℕ → ℕ
exponent_of x = x / 2 ^ 23 % 256

unfoldable pub mantissa_of : ℕ → ℕ
mantissa_of x = x % 2 ^ 23

-- The half without its sign, of an exponent and a significand. The `exp` of the code is `e - 112`,
-- which is signed there, and tests of it are tests of `e` here.
unfoldable pub half_bits : ℕ → ℕ → ℕ
half_bits e mant =
    let half_mant = round_bits mant 13 in
    if e == 255
    then 0x7C00 + (if mant == 0 then 0 else 0x200)
    else if leb (112 + 0x1F) e
    then 0x7C00
    else if leb e 112
    then (if ltb e 102 then 0 else round_bits (mant + 2 ^ 23) (14 + 112 - e))
    else if half_mant == 0x400
    then (if leb (112 + 0x1F) (e + 1) then 0x7C00 else (e + 1 - 112) * 2 ^ 10)
    else (e - 112) * 2 ^ 10 + half_mant

-- `float_to_half`
unfoldable pub float_to_half : ℕ → ℕ
float_to_half x = sign_of x + half_bits (exponent_of x) (mantissa_of x)
