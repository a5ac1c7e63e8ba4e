-- ===== src/Ipc/Whole.antt =====
-- What a sender and a receiver at the two ends of a socket agree on.
use pg_cuvs.Base.{
  ℕ, zero, suc, ◌-◌, ◌≤◌, ◌≡◌, ◌≢◌, refl, ap, sym, ◌∙◌, ◌⊎◌, inl, inr, List, [], ◌∷◌, ◌++◌, Bool,
  true, false, false≢true, length, take, drop, min, leb, ◌==◌, ◌||◌, if◌then◌else◌, arith,
  Bool-cases, append-nil, append_assoc, length-append,
}
use pg_cuvs.Ipc.{
  Call, interrupted, failed, moves, send_all, complete, Received, broken, end, part, recv_all,
  Round, poll_interrupted, poll_failed, slice_passed, ready, recv_all_interruptible,
}
use pg_cuvs.Ipc.Frames.{
  Sent, send_all-Sent, Gets, recv_all-Gets, recv_all_interruptible-Gets, length-take_le,
}

-- The receiver has the whole frame and says so, the sender has sent it all and nothing is left on
-- the way; or the receiver does not say so, and has a first part of the frame that is not all.
abbrev pub Delivered : Bool → Received → List ℕ → Type 0
Delivered sent r buf =
    ((sent ≡ true) × (r.answer ≡ complete) × (r.got ≡ buf) × (r.stream ≡ []))
    ⊎ ((r.answer ≢ complete) × (rest : List ℕ) × (r.got ++ rest ≡ buf) × (1 ≤ length rest))

no_rest : (xs : List ℕ) → length xs ≡ 0 → xs ≡ []
no_rest [] e = refl
no_rest (x ∷ xs) e = absurd (omega (arith, e))

whole_part : (xs ys buf : List ℕ) → xs ++ ys ≡ buf → length xs ≡ length buf → (xs ≡ buf) × (ys ≡ [])
whole_part xs ys buf e size =
    let none_left = no_rest ys (omega (arith, length-append xs ys, ap length e, size)) in
    (sym (append-nil xs) ∙ ap (λ l. xs ++ l) (sym none_left) ∙ e, none_left)

Gets-Delivered :
    (sent : Bool × List ℕ) (r : Received) (buf : List ℕ)
    → Sent sent buf []
    → Gets r (length buf) [] sent.1
    → Delivered sent.0 r buf
Gets-Delivered (true, s) r buf e (whole, inl (done, size)) =
    let (same, none_left) = whole_part r.got r.stream buf (whole ∙ e) (omega (arith, size)) in
    inl (refl, done, same, none_left)
Gets-Delivered (true, s) r buf e (whole, inr (short, lt)) = inr (
  short,
  r.stream,
  whole ∙ e,
  omega (arith, lt, length-append r.got r.stream, ap length (whole ∙ e)),
)
Gets-Delivered (false, s) r buf (sent, rest, e, all, left) (whole, inl (done, size)) = absurd (
    omega (
      arith,
      size,
      left,
      length-append r.got r.stream,
      ap length (whole ∙ e),
      length-append sent rest,
      ap length all,
    ))
Gets-Delivered (false, s) r buf (sent, rest, e, all, left) (whole, inr (short, lt)) = inr (
  short,
  r.stream ++ rest,
  sym (append_assoc r.got r.stream rest) ∙ ap (λ l. l ++ rest) (whole ∙ e) ∙ all,
  omega (arith, left, length-append r.stream rest),
)

-- No call fails or finds the stream ended.
unfoldable pub Steady : List Call → Type 0
Steady [] = Unit {0}
Steady (interrupted ∷ calls) = Steady calls
Steady (failed ∷ calls) = ⊥
Steady (moves zero ∷ calls) = ⊥
Steady (moves (suc n) ∷ calls) = Steady calls

-- How many calls move bytes.
unfoldable pub moving : List Call → ℕ
moving [] = 0
moving (interrupted ∷ calls) = moving calls
moving (failed ∷ calls) = moving calls
moving (moves n ∷ calls) = suc (moving calls)

length-drop-take :
    (m : ℕ) (s : List ℕ) → length (drop (length (take m s)) s) ≡ length s - length (take m s)
length-drop-take zero s = omega arith
length-drop-take (suc m) [] = omega arith
length-drop-take (suc m) (x ∷ s) = omega (arith, length-drop-take m s)

some_taken : (m : ℕ) (s : List ℕ) → 1 ≤ m → 1 ≤ length s → 1 ≤ length (take m s)
some_taken zero s h h' = absurd (omega arith)
some_taken (suc m) [] h h' = absurd (omega arith)
some_taken (suc m) (x ∷ s) h h' = omega arith

recv_all-complete :
    (calls : List Call) (left : ℕ) (got s : List ℕ)
    → Steady calls
    → left ≤ moving calls
    → left ≤ length s
    → (recv_all calls left got s).answer ≡ complete
unfolding recv_all Steady moving part
recv_all-complete calls zero got s steady enough there = refl
recv_all-complete [] (suc left) got s steady enough there = absurd (omega arith)
recv_all-complete (interrupted ∷ calls) (suc left) got s steady enough there =
    recv_all-complete calls (suc left) got s steady enough there
recv_all-complete (failed ∷ calls) (suc left) got s steady enough there = absurd steady
recv_all-complete (moves zero ∷ calls) (suc left) got s steady enough there = absurd steady
recv_all-complete (moves (suc n) ∷ calls) (suc left) got s steady enough there =
    let m = min (suc n) (suc left) in
    let p = take m s in
    let some_bytes : 1 ≤ length p = some_taken m s (omega arith) (omega arith) in
    let few = length-take_le m s in
    let moved : (length p == 0) ≡ false = ground (arith, some_bytes) in
    simp moved (
      recv_all-complete calls (suc left - length p) (got ++ p) (drop (length p) s) steady
        (omega (arith, enough, some_bytes)) (omega (arith, there, length-drop-take m s)))

length-Sent :
    (sent : Bool × List ℕ) (buf : List ℕ)
    → Sent sent buf []
    → sent.0 ≡ true
    → length buf ≤ length sent.1
length-Sent (true, s) buf e ok = omega (arith, ap length e)
length-Sent (false, s) buf e ok = absurd (false≢true ok)

-- Whatever the calls of `send_all` and `recv_all` do, in whatever pieces the bytes go: the receiver
-- returns 0 exactly with the frame that was sent, sent whole, and nothing behind it; otherwise it
-- has a first part of it that is not all. It does return 0 if the frame was sent whole, no `read`
-- fails, and there are as many that move bytes as the frame has.
pub recv_all-send_all :
    (writes reads : List Call) (buf : List ℕ)
    → let sent = send_all writes buf [] in
      let r = recv_all reads (length buf) [] sent.1 in
      Delivered sent.0 r buf
      × (sent.0 ≡ true → Steady reads → length buf ≤ moving reads → r.answer ≡ complete)
recv_all-send_all writes reads buf =
    let sent = send_all writes buf [] in
    let sends = send_all-Sent writes buf [] in
    (
      Gets-Delivered sent (recv_all reads (length buf) [] sent.1) buf sends
          (recv_all-Gets reads (length buf) [] sent.1),
      λ ok steady enough.
          recv_all-complete reads (length buf) [] sent.1 steady enough
            (length-Sent sent buf sends ok),
    )

-- Whether the wait callback asks to abort in one of the rounds.
unfoldable pub asked : List Round → Bool
asked [] = false
asked (poll_interrupted cancel ∷ rounds) = cancel || asked rounds
asked (poll_failed ∷ rounds) = asked rounds
asked (slice_passed cancel elapsed ∷ rounds) = cancel || asked rounds
asked (ready call ∷ rounds) = asked rounds

-- What the rounds are to a receiver that does not poll: a failure of `poll` or a passed deadline is
-- a failure, and any other wait an interruption.
unfoldable pub calls_of : ℕ → List Round → List Call
calls_of timeout_sec [] = []
calls_of timeout_sec (poll_interrupted cancel ∷ rounds) = interrupted ∷ calls_of timeout_sec rounds
calls_of timeout_sec (poll_failed ∷ rounds) = failed ∷ calls_of timeout_sec rounds
calls_of timeout_sec (slice_passed cancel elapsed ∷ rounds) =
    (if leb timeout_sec elapsed then failed else interrupted) ∷ calls_of timeout_sec rounds
calls_of timeout_sec (ready call ∷ rounds) = call ∷ calls_of timeout_sec rounds

recv_all_interruptible-recv_all :
    (t : ℕ) (rounds : List Round) (left : ℕ) (got s : List ℕ)
    → asked rounds ≡ false
    → recv_all_interruptible t rounds left got s ≡ recv_all (calls_of t rounds) left got s
unfolding recv_all_interruptible recv_all asked calls_of
recv_all_interruptible-recv_all t rounds zero got s calm = refl
recv_all_interruptible-recv_all t [] (suc left) got s calm = refl
recv_all_interruptible-recv_all t (poll_interrupted true ∷ rounds) (suc left) got s calm =
    absurd (false≢true (sym calm))
recv_all_interruptible-recv_all t (poll_interrupted false ∷ rounds) (suc left) got s calm =
    recv_all_interruptible-recv_all t rounds (suc left) got s calm
recv_all_interruptible-recv_all t (poll_failed ∷ rounds) (suc left) got s calm = refl
recv_all_interruptible-recv_all t (slice_passed true elapsed ∷ rounds) (suc left) got s calm =
    absurd (false≢true (sym calm))
recv_all_interruptible-recv_all t (slice_passed false elapsed ∷ rounds) (suc left) got s calm =
    elim (Bool-cases (leb t elapsed)) [
      | inl late ↦ rw late refl
      | inr early ↦ simp early (recv_all_interruptible-recv_all t rounds (suc left) got s calm)
    ]
recv_all_interruptible-recv_all t (ready interrupted ∷ rounds) (suc left) got s calm =
    recv_all_interruptible-recv_all t rounds (suc left) got s calm
recv_all_interruptible-recv_all t (ready failed ∷ rounds) (suc left) got s calm = refl
recv_all_interruptible-recv_all t (ready (moves n) ∷ rounds) (suc left) got s calm =
    let p = part n (suc left) s in
    ap (λ later. if length p == 0 then end broken got s else later)
      (recv_all_interruptible-recv_all t rounds (suc left - length p) (got ++ p) (drop (length p) s)
        calm)

-- `recv_all_interruptible` too returns 0 exactly with the whole frame that was sent, and otherwise
-- has a first part of it that is not all: neither a cancel nor the deadline makes it take a part for
-- the whole. While the wait callback does not ask to abort, it does what `recv_all` would, with a
-- failed `poll` and a passed deadline as failures.
pub recv_all_interruptible-send_all :
    (writes : List Call) (timeout_sec : ℕ) (rounds : List Round) (buf : List ℕ)
    → let sent = send_all writes buf [] in
      let r = recv_all_interruptible timeout_sec rounds (length buf) [] sent.1 in
      Delivered sent.0 r buf
      × (asked rounds ≡ false → r ≡ recv_all (calls_of timeout_sec rounds) (length buf) [] sent.1)
recv_all_interruptible-send_all writes timeout_sec rounds buf =
    let sent = send_all writes buf [] in
    (
      Gets-Delivered sent (recv_all_interruptible timeout_sec rounds (length buf) [] sent.1) buf
          (send_all-Sent writes buf [])
          (recv_all_interruptible-Gets timeout_sec rounds (length buf) [] sent.1),
      recv_all_interruptible-recv_all timeout_sec rounds (length buf) [] sent.1,
    )
