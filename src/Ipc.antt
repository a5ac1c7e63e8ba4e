-- ===== src/Ipc.antt =====
-- The frames between a backend and the daemon: `send_all`, `recv_all` and `recv_all_interruptible`
-- of src/cuvs_ipc.c. One direction of a socket is the list of bytes that are on their way; what the
-- system calls do in turn is an argument.
pub mod Frames
pub mod Whole
use pg_cuvs.Base.{
  ℕ, zero, suc, ◌-◌, List, [], ◌∷◌, ◌++◌, Bool, true, false, length, take, drop, min, leb, ◌==◌,
  if◌then◌else◌,
}

-- What one call of `read` or `write` does: it is interrupted (`EINTR`), fails, or moves at most so
-- many bytes; none is the end of the stream.
pub data Call : Type 0 where
  interrupted : Call
  failed : Call
  moves : ℕ → Call

-- `send_all`, whose calls do what the list says in turn, and fail behind its end: `true` is
-- `return 0`, with the bytes on their way.
unfoldable pub send_all : List Call → List ℕ → List ℕ → Bool × List ℕ
send_all calls [] s = (true, s)
send_all [] (b ∷ buf) s = (false, s)
send_all (interrupted ∷ calls) (b ∷ buf) s = send_all calls (b ∷ buf) s
send_all (failed ∷ calls) (b ∷ buf) s = (false, s)
send_all (moves zero ∷ calls) (b ∷ buf) s = (false, s)
send_all (moves (suc n) ∷ calls) (b ∷ buf) s = send_all calls (drop n buf) (s ++ (b ∷ take n buf))

-- The answers of the two receivers: 0, -1 or 1.
pub data Answer : Type 0 where
  complete : Answer
  broken : Answer
  aborted : Answer

-- What a receiver leaves: its answer, the bytes in its buffer and those still on their way.
pub record Received : Type 0 where
  pub answer : Answer
  pub got : List ℕ
  pub stream : List ℕ

abbrev pub end : Answer → List ℕ → List ℕ → Received
end answer got s = record { answer = answer; got = got; stream = s }

-- The bytes that a `read` of `n` moves.
unfoldable pub part : ℕ → ℕ → List ℕ → List ℕ
part n left s = take (min n left) s

-- `recv_all` of `left` more bytes, behind those that it has got.
unfoldable pub recv_all : List Call → ℕ → List ℕ → List ℕ → Received
recv_all calls zero got s = end complete got s
recv_all [] (suc left) got s = end broken got s
recv_all (interrupted ∷ calls) (suc left) got s = recv_all calls (suc left) got s
recv_all (failed ∷ calls) (suc left) got s = end broken got s
recv_all (moves n ∷ calls) (suc left) got s =
    let p = part n (suc left) s in
    let later = recv_all calls (suc left - length p) (got ++ p) (drop (length p) s) in
    if length p == 0 then end broken got s else later

-- A round of the loop of `recv_all_interruptible`: `poll` is interrupted or fails, or its slice
-- passes, with the answer of the wait callback, if it is set and asked, and the seconds since the
-- start; or the socket is ready for a `read`.
pub data Round : Type 0 where
  poll_interrupted : Bool → Round
  poll_failed : Round
  slice_passed : Bool → ℕ → Round
  ready : Call → Round

-- `recv_all_interruptible`
unfoldable pub recv_all_interruptible : ℕ → List Round → ℕ → List ℕ → List ℕ → Received
recv_all_interruptible timeout_sec rounds zero got s = end complete got s
recv_all_interruptible timeout_sec [] (suc left) got s = end broken got s
recv_all_interruptible timeout_sec (poll_interrupted cancel ∷ rounds) (suc left) got s =
    let later = recv_all_interruptible timeout_sec rounds (suc left) got s in
    if cancel then end aborted got s else later
recv_all_interruptible timeout_sec (poll_failed ∷ rounds) (suc left) got s = end broken got s
recv_all_interruptible timeout_sec (slice_passed cancel elapsed ∷ rounds) (suc left) got s =
    let later = recv_all_interruptible timeout_sec rounds (suc left) got s in
    if cancel
    then end aborted got s
    else if leb timeout_sec elapsed
    then end broken got s
    else later
recv_all_interruptible timeout_sec (ready interrupted ∷ rounds) (suc left) got s =
    recv_all_interruptible timeout_sec rounds (suc left) got s
recv_all_interruptible timeout_sec (ready failed ∷ rounds) (suc left) got s = end broken got s
recv_all_interruptible timeout_sec (ready (moves n) ∷ rounds) (suc left) got s =
    let p = part n (suc left) s in
    let later =
      recv_all_interruptible timeout_sec rounds (suc left - length p) (got ++ p)
        (drop (length p) s) in
    if length p == 0 then end broken got s else later
