-- ===== src/Batch/Keys.antt =====
-- Having the same key is an equivalence of requests.
use pg_cuvs.Base.{◌≡◌, true, arith}
use pg_cuvs.Batch.{Key, same_key}

pub same_key_refl : (k : Key) → same_key k k ≡ true
unfolding same_key
same_key_refl k = ground arith

pub same_key_symm : (j k : Key) → same_key j k ≡ true → same_key k j ≡ true
unfolding same_key
same_key_symm j k h = ground arith

pub same_key_trans : (i j k : Key) → same_key i j ≡ true → same_key j k ≡ true → same_key i k ≡ true
unfolding same_key
same_key_trans i j k h h' = ground arith
