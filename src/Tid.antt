-- ===== src/Tid.antt =====
-- src/cuvs_util.h: a heap TID packed into a `uint64_t` as `block << 16 | offset`.
pub mod RoundTrip
use Prim.Native.Nat.{bit_and, bit_or}
use pg_cuvs.Base.{ℕ, ◌*◌, ◌/◌, ◌%◌, ◌^◌}

-- `cuvs_tid_encode(uint32_t block, uint16_t offset)`
pub encode : ℕ → ℕ → ℕ
encode block offset = bit_or (block * 2 ^ 16 % 2 ^ 64) offset

-- `cuvs_tid_decode`, which writes `*block` and `*offset`
pub decode : ℕ → ℕ × ℕ
decode tid = (tid / 2 ^ 16 % 2 ^ 32, bit_and tid 0xffff % 2 ^ 16)
