-- ===== src/Crc/Bounds.antt =====
-- A checksum has 32 bits.
use Prim.Native.Nat.{bit_and, bit_xor}
use pg_cuvs.Base.{
  ℕ, zero, suc, ◌+◌, ◌/◌, ◌^◌, ◌≤◌, ◌<◌, ◌≡◌, refl, List, [], ◌∷◌, get_or, arith, length,
}
use pg_cuvs.Base.Bits.{bit_xor-lt}
use pg_cuvs.Crc.{
  table_rounds, table_from, crc32_table, byte_step, stream_begin, stream_update, stream_end, crc32,
}

table_rounds-lt : (k c : ℕ) → c < 2 ^ 32 → table_rounds k c < 2 ^ 32
unfolding table_rounds
table_rounds-lt zero c h = h
table_rounds-lt (suc k) c h =
    table_rounds-lt k _
      (ground (arith, bit_xor-lt 32 0xEDB88320 (c / 2) (omega arith) (omega arith)))

table_from-lt : (n i j : ℕ) → i + n ≤ 2 ^ 32 → get_or (table_from n i) j 0 < 2 ^ 32
unfolding table_from
table_from-lt zero i j h = omega arith
table_from-lt (suc n) i zero h = table_rounds-lt 8 i (omega arith)
table_from-lt (suc n) i (suc j) h = table_from-lt n (i + 1) j (omega arith)

length-table_from : (n i : ℕ) → length (table_from n i) ≡ n
unfolding table_from
length-table_from zero i = refl
length-table_from (suc n) i = omega (arith, length-table_from n (i + 1))

pub crc32_table-lt : (j : ℕ) → get_or crc32_table j 0 < 2 ^ 32
unfolding crc32_table
crc32_table-lt j = table_from-lt 256 0 j (omega arith)

pub length-crc32_table : length crc32_table ≡ 256
unfolding crc32_table
length-crc32_table = length-table_from 256 0

pub byte_step-lt : (crc b : ℕ) → crc < 2 ^ 32 → byte_step crc b < 2 ^ 32
unfolding byte_step
byte_step-lt crc b h =
    bit_xor-lt 32 (get_or crc32_table (bit_and (bit_xor crc b) 0xFF) 0) (crc / 2 ^ 8)
      (crc32_table-lt _) (omega arith)

pub stream_update-lt : (crc : ℕ) (bs : List ℕ) → crc < 2 ^ 32 → stream_update crc bs < 2 ^ 32
unfolding stream_update
stream_update-lt crc [] h = h
stream_update-lt crc (b ∷ bs) h = stream_update-lt (byte_step crc b) bs (byte_step-lt crc b h)

pub crc32-lt : (bs : List ℕ) → crc32 bs < 2 ^ 32
unfolding crc32 stream_end stream_begin
crc32-lt bs =
    bit_xor-lt 32 (stream_update 0xFFFFFFFF bs) 0xFFFFFFFF
      (stream_update-lt 0xFFFFFFFF bs (omega arith)) (omega arith)
