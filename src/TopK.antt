-- ===== src/TopK.antt =====
-- The running top-k of a search that reads its corpus in pieces: `topk_insert` of
-- src/pg_cuvs_server.c. C floats are a parameter, with the two comparisons that the code makes.
pub mod Insert
pub mod Shift
pub mod Nearest
use pg_cuvs.Base.{
  ℕ, zero, suc, ◌+◌, ◌-◌, ◌≡◌, List, [], ◌∷◌, Bool, ◌&&◌, ltb, leb, if◌then◌else◌, set, get_or,
}

-- `float` values that are not NaN: `gt a b` and `ge a b` are `a > b` and `a >= b`, and `rank` puts
-- the values in the order of IEEE 754.
pub record Floats : Type 1 where
  pub F : Type 0
  pub gt : F → F → Bool
  pub ge : F → F → Bool
  pub rank : F → ℕ
  pub gt_rank : (a b : F) → gt a b ≡ ltb (rank b) (rank a)
  pub ge_rank : (a b : F) → ge a b ≡ leb (rank b) (rank a)

module _ (fl : Floats) where
  -- `CuvsResult`
  pub record Result : Type 0 where
    pub tid : ℕ
    pub distance : fl.F

  -- The loop that moves worse results up, from place `pos` on.
  pub shift_in : List Result → ℕ → Result → List Result
  shift_in top zero r = set top 0 r
  shift_in top (suc pos) r =
      let below = get_or top pos r in
      let rest = shift_in (set top (suc pos) below) pos r in
      if fl.gt below.distance r.distance then rest else set top (suc pos) r

  -- `topk_insert`: the array of `k` results and its fill, after it.
  pub topk_insert : List Result → ℕ → ℕ → Result → List Result × ℕ
  topk_insert top n k r =
      if leb k n && fl.ge r.distance (get_or top (k - 1) r).distance
      then (top, n)
      else if ltb n k
      then (shift_in top n r, n + 1)
      else (shift_in top (k - 1) r, n)

  -- The calls for the results of a scan, one after the other.
  pub topk_all : List Result × ℕ → ℕ → List Result → List Result × ℕ
  topk_all (top, n) k [] = (top, n)
  topk_all (top, n) k (r ∷ rs) = topk_all (topk_insert top n k r) k rs
