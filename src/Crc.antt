-- ===== src/Crc.antt =====
-- The CRC-32 of src/cuvs_util.c: the table, and the streaming interface over lists of bytes. The
-- table is filled on first use in C; here it is the list that `crc32_ensure_table` fills in.
pub mod Stream
pub mod Bounds
pub mod Detect
use Prim.Native.Nat.{bit_and, bit_xor}
use pg_cuvs.Base.{ℕ, zero, suc, ◌+◌, ◌/◌, ◌^◌, List, [], ◌∷◌, get_or, ◌==◌, if◌then◌else◌}

-- `for (k = 0; k < 8; k++) c = (c & 1) ? (0xEDB88320u ^ (c >> 1)) : (c >> 1)`
pub table_rounds : ℕ → ℕ → ℕ
table_rounds zero c = c
table_rounds (suc k) c =
    table_rounds k (if bit_and c 1 == 1 then bit_xor 0xEDB88320 (c / 2) else c / 2)

-- The entries from `i` on.
pub table_from : ℕ → ℕ → List ℕ
table_from zero i = []
table_from (suc n) i = table_rounds 8 i ∷ table_from n (i + 1)

-- `crc32_ensure_table`
unfoldable pub crc32_table : List ℕ
unfolding table_rounds table_from
crc32_table = table_from 256 0

-- `cuvs_crc32_stream_begin`
unfoldable pub stream_begin : ℕ
stream_begin = 0xFFFFFFFF

-- One byte of the loop below: `crc32_table[(crc ^ p[i]) & 0xFFu] ^ (crc >> 8)`.
unfoldable pub byte_step : ℕ → ℕ → ℕ
byte_step crc b = bit_xor (get_or crc32_table (bit_and (bit_xor crc b) 0xFF) 0) (crc / 2 ^ 8)

-- `cuvs_crc32_stream_update`
unfoldable pub stream_update : ℕ → List ℕ → ℕ
stream_update crc [] = crc
stream_update crc (b ∷ bs) = stream_update (byte_step crc b) bs

-- `cuvs_crc32_stream_end`
unfoldable pub stream_end : ℕ → ℕ
stream_end crc = bit_xor crc 0xFFFFFFFF

-- `cuvs_crc32`
unfoldable pub crc32 : List ℕ → ℕ
crc32 bytes = stream_end (stream_update stream_begin bytes)
