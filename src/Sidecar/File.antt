-- ===== src/Sidecar/File.antt =====
-- A `FILE *` as the bytes behind it, and what `fwrite`, `fread` and `malloc` do there.
pub mod Laws
use pg_cuvs.Base.{
  ℕ, ◌-◌, List, [], ◌++◌, Bool, true, false, ◌||◌, Option, none, some, length, take, drop, leb,
  if◌then◌else◌,
}

-- A file open for writing: its bytes, and how many more it takes before a write is cut short.
pub record OutFile : Type 0 where
  pub bytes : List ℕ
  pub room : ℕ

-- `fwrite` of some bytes: whether all went out (the item count that it returns says no more to its
-- callers), and the file with those that did.
pub fwrite : List ℕ → OutFile → Bool × OutFile
fwrite bytes f = (
  leb (length bytes) f.room,
  record { bytes = f.bytes ++ take f.room bytes; room = f.room - length bytes },
)

-- Two writes, the second only if the first succeeds; each failure returns -1 (`false`).
infixr 5 ◌then_write◌
pub ◌then_write◌ : Bool × OutFile → List ℕ → Bool × OutFile
(ok, f) then_write bytes = if ok then fwrite bytes f else (false, f)

-- `fread` of `n` bytes; `none` is a short count, on which every caller returns.
unfoldable pub fread : ℕ → List ℕ → Option (List ℕ × List ℕ)
fread n f = if leb n (length f) then some (take n f, drop n f) else none

infixl 5 ◌>>=◌ ◌>>◌
abbrev pub ◌>>=◌ {ℓ κ} : {A : Type ℓ} {B : Type κ} → Option A → (A → Option B) → Option B
none >>= f = none
some a >>= f = f a

abbrev pub ◌>>◌ {ℓ} : {B : Type ℓ} → Option (Unit {0}) → Option B → Option B
m >> k = m >>= λ _. k

-- Go on if the test holds; `none` is `return -1`.
abbrev pub guard : Bool → Option (Unit {0})
guard true = some tt
guard false = none
