-- ===== src/Ipc/Frames.antt =====
-- Frames arrive whole.
use pg_cuvs.Base.{
  ℕ, zero, suc, ◌+◌, ◌-◌, ◌≤◌, ◌<◌, ◌≡◌, ◌≢◌, refl, ap, sym, ◌∙◌, ◌⊎◌, inl, inr, List, [], ◌∷◌,
  ◌++◌, Bool, true, false, length, take, drop, min, leb, ◌==◌, arith, Bool-cases, append-nil,
  append_assoc, length-append,
}
use pg_cuvs.Ipc.{
  Call, interrupted, failed, moves, send_all, complete, broken, aborted, Received, end, part,
  recv_all, Round, poll_interrupted, poll_failed, slice_passed, ready, recv_all_interruptible,
}

take-drop : (k : ℕ) (xs : List ℕ) → take k xs ++ drop k xs ≡ xs
take-drop zero xs = refl
take-drop (suc k) [] = refl
take-drop (suc k) (x ∷ xs) = ap (λ l. x ∷ l) (take-drop k xs)

-- All bytes were put behind those on their way, or a first part of them that is not all.
abbrev pub Sent : Bool × List ℕ → List ℕ → List ℕ → Type 0
Sent (true, s') buf s = s' ≡ s ++ buf
Sent (false, s') buf s =
    (sent rest : List ℕ) × (s' ≡ s ++ sent) × (sent ++ rest ≡ buf) × (1 ≤ length rest)

Sent-next :
    (r : Bool × List ℕ) (b : ℕ) (n : ℕ) (buf s : List ℕ)
    → Sent r (drop n buf) (s ++ (b ∷ take n buf))
    → Sent r (b ∷ buf) s
Sent-next (true, s') b n buf s e =
    e ∙ append_assoc s (b ∷ take n buf) (drop n buf) ∙ ap (λ l. s ++ (b ∷ l)) (take-drop n buf)
Sent-next (false, s') b n buf s (sent, rest, e, whole, left) = (
  b ∷ (take n buf ++ sent),
  rest,
  e ∙ append_assoc s (b ∷ take n buf) sent,
  ap (λ l. b ∷ l)
      (append_assoc (take n buf) sent rest ∙ ap (λ l. take n buf ++ l) whole ∙ take-drop n buf),
  left,
)

pub send_all-Sent : (calls : List Call) (buf s : List ℕ) → Sent (send_all calls buf s) buf s
unfolding send_all
send_all-Sent calls [] s = sym (append-nil s)
send_all-Sent [] (b ∷ buf) s = ([], b ∷ buf, sym (append-nil s), refl, omega arith)
send_all-Sent (interrupted ∷ calls) (b ∷ buf) s = send_all-Sent calls (b ∷ buf) s
send_all-Sent (failed ∷ calls) (b ∷ buf) s = ([], b ∷ buf, sym (append-nil s), refl, omega arith)
send_all-Sent (moves zero ∷ calls) (b ∷ buf) s =
    ([], b ∷ buf, sym (append-nil s), refl, omega arith)
send_all-Sent (moves (suc n) ∷ calls) (b ∷ buf) s =
    Sent-next (send_all calls (drop n buf) (s ++ (b ∷ take n buf))) b n buf s
      (send_all-Sent calls (drop n buf) (s ++ (b ∷ take n buf)))

take-drop-length : (m : ℕ) (s : List ℕ) → take m s ++ drop (length (take m s)) s ≡ s
take-drop-length zero s = refl
take-drop-length (suc m) [] = refl
take-drop-length (suc m) (x ∷ s) = ap (λ l. x ∷ l) (take-drop-length m s)

pub length-take_le : (m : ℕ) (s : List ℕ) → length (take m s) ≤ m
length-take_le zero s = omega arith
length-take_le (suc m) [] = omega arith
length-take_le (suc m) (x ∷ s) = omega (arith, length-take_le m s)

-- A receiver that was asked for `left` more bytes has lost none and mixed up none; it has all that it
-- was asked for exactly if it says so.
abbrev pub Gets : Received → ℕ → List ℕ → List ℕ → Type 0
Gets r left got s =
    (r.got ++ r.stream ≡ got ++ s)
    × (((r.answer ≡ complete) × (length r.got ≡ length got + left))
        ⊎ ((r.answer ≢ complete) × (length r.got < length got + left)))

Gets-complete : (got s : List ℕ) → Gets (end complete got s) 0 got s
Gets-complete got s = (refl, inl (refl, omega arith))

Gets-broken : (left : ℕ) (got s : List ℕ) → Gets (end broken got s) (suc left) got s
Gets-broken left got s = (refl, inr (λ e. cc, omega arith))

Gets-aborted : (left : ℕ) (got s : List ℕ) → Gets (end aborted got s) (suc left) got s
Gets-aborted left got s = (refl, inr (λ e. cc, omega arith))

-- One `read` more.
Gets-next :
    (r : Received) (n left : ℕ) (got s : List ℕ)
    → let p = part n (suc left) s in
      Gets r (suc left - length p) (got ++ p) (drop (length p) s) → Gets r (suc left) got s
unfolding part
Gets-next r n left got s = λ (whole, size).
    let p = take (min n (suc left)) s in
    let few : length p ≤ suc left = omega (arith, length-take_le (min n (suc left)) s) in
    let all : length (got ++ p) + (suc left - length p) ≡ length got + suc left =
      omega (arith, length-append got p, few) in
    (
      whole
          ∙ append_assoc got p (drop (length p) s)
          ∙ ap (λ l. got ++ l) (take-drop-length (min n (suc left)) s),
      elim size [
        | inl (done, e) ↦ inl (done, e ∙ all)
        | inr (short, lt) ↦ inr (short, omega (arith, lt, all))
      ],
    )

pub recv_all-Gets :
    (calls : List Call) (left : ℕ) (got s : List ℕ) → Gets (recv_all calls left got s) left got s
unfolding recv_all
recv_all-Gets calls zero got s = Gets-complete got s
recv_all-Gets [] (suc left) got s = Gets-broken left got s
recv_all-Gets (interrupted ∷ calls) (suc left) got s = recv_all-Gets calls (suc left) got s
recv_all-Gets (failed ∷ calls) (suc left) got s = Gets-broken left got s
recv_all-Gets (moves n ∷ calls) (suc left) got s =
    let p = part n (suc left) s in
    let later = recv_all-Gets calls (suc left - length p) (got ++ p) (drop (length p) s) in
    elim (Bool-cases (length p == 0)) [
      | inl closed ↦ rw closed (Gets-broken left got s)
      | inr moved ↦ simp moved (
          Gets-next (recv_all calls (suc left - length p) (got ++ p) (drop (length p) s)) n left got
            s later)
    ]

pub recv_all_interruptible-Gets :
    (t : ℕ) (rounds : List Round) (left : ℕ) (got s : List ℕ)
    → Gets (recv_all_interruptible t rounds left got s) left got s
unfolding recv_all_interruptible
recv_all_interruptible-Gets t rounds zero got s = Gets-complete got s
recv_all_interruptible-Gets t [] (suc left) got s = Gets-broken left got s
recv_all_interruptible-Gets t (poll_interrupted true ∷ rounds) (suc left) got s =
    Gets-aborted left got s
recv_all_interruptible-Gets t (poll_interrupted false ∷ rounds) (suc left) got s =
    recv_all_interruptible-Gets t rounds (suc left) got s
recv_all_interruptible-Gets t (poll_failed ∷ rounds) (suc left) got s = Gets-broken left got s
recv_all_interruptible-Gets t (slice_passed true elapsed ∷ rounds) (suc left) got s =
    Gets-aborted left got s
recv_all_interruptible-Gets t (slice_passed false elapsed ∷ rounds) (suc left) got s =
    elim (Bool-cases (leb t elapsed)) [
      | inl late ↦ rw late (Gets-broken left got s)
      | inr early ↦ simp early (recv_all_interruptible-Gets t rounds (suc left) got s)
    ]
recv_all_interruptible-Gets t (ready interrupted ∷ rounds) (suc left) got s =
    recv_all_interruptible-Gets t rounds (suc left) got s
recv_all_interruptible-Gets t (ready failed ∷ rounds) (suc left) got s = Gets-broken left got s
recv_all_interruptible-Gets t (ready (moves n) ∷ rounds) (suc left) got s =
    let p = part n (suc left) s in
    let later =
      recv_all_interruptible-Gets t rounds (suc left - length p) (got ++ p) (drop (length p) s) in
    elim (Bool-cases (length p == 0)) [
      | inl closed ↦ rw closed (Gets-broken left got s)
      | inr moved ↦ simp moved (
          Gets-next
            (recv_all_interruptible t rounds (suc left - length p) (got ++ p) (drop (length p) s)) n
            left got s later)
    ]
