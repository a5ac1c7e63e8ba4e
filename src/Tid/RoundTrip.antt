-- ===== src/Tid/RoundTrip.antt =====
-- What packing a heap TID keeps: its two fields, and the order of the heap.
use Prim.Native.Nat.{bit_or}
use pg_cuvs.Base.{ℕ, ◌+◌, ◌*◌, ◌/◌, ◌%◌, ◌^◌, ◌<◌, ◌≡◌, ap, ◌∙◌, ◌↔◌, ◌⊎◌, arith}
use pg_cuvs.Base.Bits.{bit_or-add, bit_and-mask}
use pg_cuvs.Tid.{encode, decode}

pub encode_lem :
    (block offset : ℕ)
    → block < 2 ^ 32
    → offset < 2 ^ 16
    → encode block offset ≡ block * 2 ^ 16 + offset
unfolding encode
encode_lem block offset hb ho =
    ap (λ (t : ℕ). bit_or t offset) (omega arith) ∙ bit_or-add 16 block offset ho

pub decode_lem : (tid : ℕ) → tid < 2 ^ 48 → decode tid ≡ (tid / 2 ^ 16, tid % 2 ^ 16)
unfolding decode
decode_lem tid h = ground (arith, bit_and-mask 16 tid)

-- A block number and an offset come back from the packed TID, which has no more than 48 bits.
decode-encode :
    (block offset : ℕ)
    → block < 2 ^ 32
    → offset < 2 ^ 16
    → (decode (encode block offset) ≡ (block, offset)) × (encode block offset < 2 ^ 48)
decode-encode block offset hb ho =
    let e = encode_lem block offset hb ho in
    (ground (arith, e, decode_lem (encode block offset)), omega (arith, e))

-- A packed TID of at most 48 bits is the packing of its two fields.
pub encode-decode : (tid : ℕ) → tid < 2 ^ 48 → encode (decode tid).0 (decode tid).1 ≡ tid
encode-decode tid h = ground (arith, decode_lem tid h, encode_lem (tid / 2 ^ 16) (tid % 2 ^ 16))

-- Packed TIDs are ordered as the heap is: by block, and by offset within a block.
encode_order :
    (b o b' o' : ℕ)
    → b < 2 ^ 32
    → o < 2 ^ 16
    → b' < 2 ^ 32
    → o' < 2 ^ 16
    → (encode b o < encode b' o') ↔ ((b < b') ⊎ ((b ≡ b') × (o < o')))
encode_order b o b' o' hb ho hb' ho' =
    let e = encode_lem b o hb ho in
    let e' = encode_lem b' o' hb' ho' in
    (λ lt. ground (arith, e, e'), λ either. ground (arith, e, e'))
