-- ===== src/Base/Bytes.antt =====
-- Little-endian words in a list of bytes, as a C struct or array is laid out on x86-64.
use Prim.Native.Nat.{ℕ, zero, suc, ◌+◌, ◌*◌, ◌/◌, ◌%◌, ◌^◌, ◌<◌}
use mathlib.Core.Path.{◌≡◌, refl, ap, ap₂, ◌∙◌, sym}
use mathlib.Core.List.{List, [], ◌∷◌, ◌++◌, append_assoc}
use native.Mathlib.Omega.{arith}
use native.Mathlib.Nat.{pow-suc}
use pg_cuvs.Base.Lists.{length, take, drop, length-append, take-append, drop-append}

-- The `n` bytes of a word.
unfoldable pub le : ℕ → ℕ → List ℕ
le zero x = []
le (suc n) x = x % 256 ∷ le n (x / 256)

-- The word that bytes make up.
unfoldable pub of_le : List ℕ → ℕ
of_le [] = 0
of_le (b ∷ bs) = b + 256 * of_le bs

pub length-le : (n x : ℕ) → length (le n x) ≡ n
unfolding le
length-le zero x = refl
length-le (suc n) x = ap suc (length-le n (x / 256))

pub of_le-le : (n x : ℕ) → x < 256 ^ n → of_le (le n x) ≡ x
unfolding le of_le
of_le-le zero x h = omega arith
of_le-le (suc n) x h =
    let p : 256 ^ suc n ≡ 256 ^ n * 256 = pow-suc 256 n in
    omega (arith, of_le-le n (x / 256) (omega arith))

-- An array of words, `w` bytes each.
unfoldable pub words : ℕ → List ℕ → List ℕ
words w [] = []
words w (x ∷ xs) = le w x ++ words w xs

-- The first `n` words of `w` bytes.
unfoldable pub of_words : ℕ → ℕ → List ℕ → List ℕ
of_words w zero bs = []
of_words w (suc n) bs = of_le (take w bs) ∷ of_words w n (drop w bs)

pub length-words : (w : ℕ) (xs : List ℕ) → length (words w xs) ≡ length xs * w
unfolding words
length-words w [] = omega arith
length-words w (x ∷ xs) =
    omega (arith, length-append (le w x) (words w xs), length-le w x, length-words w xs)

-- The words of an array that fit in `w` bytes.
abbrev pub Fit : ℕ → List ℕ → Type 0
Fit w [] = Unit {0}
Fit w (x ∷ xs) = (x < 256 ^ w) × Fit w xs

take-le : (w x : ℕ) (bs : List ℕ) → take w (le w x ++ bs) ≡ le w x
take-le w x bs =
    ap (λ (n : ℕ). take n (le w x ++ bs)) (sym (length-le w x)) ∙ take-append (le w x) bs

drop-le : (w x : ℕ) (bs : List ℕ) → drop w (le w x ++ bs) ≡ bs
drop-le w x bs =
    ap (λ (n : ℕ). drop n (le w x ++ bs)) (sym (length-le w x)) ∙ drop-append (le w x) bs

pub of_words-words : (w : ℕ) (xs : List ℕ) → Fit w xs → of_words w (length xs) (words w xs) ≡ xs
unfolding of_words words
of_words-words w [] h = refl
of_words-words w (x ∷ xs) h =
    ap₂ ◌∷◌ (ap of_le (take-le w x (words w xs)) ∙ of_le-le w x h.0)
      (ap (of_words w (length xs)) (drop-le w x (words w xs)) ∙ of_words-words w xs h.1)

pub words-append : (w : ℕ) (xs ys : List ℕ) → words w (xs ++ ys) ≡ words w xs ++ words w ys
unfolding words
words-append w [] ys = refl
words-append w (x ∷ xs) ys =
    ap (◌++◌ (le w x)) (words-append w xs ys)
    ∙ sym (append_assoc (le w x) (words w xs) (words w ys))

-- Also with more bytes behind them.
pub of_words-words_behind :
    (w : ℕ) (xs rest : List ℕ) → Fit w xs → of_words w (length xs) (words w xs ++ rest) ≡ xs
unfolding of_words words
of_words-words_behind w [] rest h = refl
of_words-words_behind w (x ∷ xs) rest h =
    let l = words w xs ++ rest in
    rw append_assoc (
      ap₂ ◌∷◌ (ap of_le (take-le w x l) ∙ of_le-le w x h.0)
        (ap (of_words w (length xs)) (drop-le w x l) ∙ of_words-words_behind w xs rest h.1))
