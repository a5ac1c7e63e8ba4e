-- ===== src/Examples/Frames.antt =====
-- Frames at concrete system calls.
use pg_cuvs.Base.{ℕ, ◌≤◌, ◌≡◌, refl, List, [], ◌∷◌, true, false, length}
use pg_cuvs.Ipc.{
  Call, interrupted, moves, send_all, complete, Round, poll_interrupted, slice_passed, ready,
  recv_all, recv_all_interruptible, part,
}
use pg_cuvs.Ipc.Whole.{
  Delivered, Steady, moving, asked, calls_of, recv_all-send_all, recv_all_interruptible-send_all,
}

abbrev frame : List ℕ
frame = 7 ∷ 8 ∷ 9 ∷ []

-- A write is interrupted, and the frame goes in two pieces.
abbrev writes : List Call
writes = moves 2 ∷ interrupted ∷ moves 5 ∷ []

abbrev reads : List Call
reads = moves 1 ∷ moves 1 ∷ interrupted ∷ moves 4 ∷ []

sent_whole : send_all writes frame [] ≡ (true, frame)
unfolding send_all
sent_whole = refl

received_whole : (recv_all reads 3 [] frame).answer ≡ complete
unfolding recv_all part
received_whole = refl

recv_all-send_all_example :
    let sent = send_all writes frame [] in
    let r = recv_all reads (length frame) [] sent.1 in
    Delivered sent.0 r frame
    × (sent.0 ≡ true → Steady reads → length frame ≤ moving reads → r.answer ≡ complete)
recv_all-send_all_example = recv_all-send_all writes reads frame

-- The receiver waits for a slice, gets a part and is told to abort.
abbrev rounds : List Round
rounds = slice_passed false 0 ∷ ready (moves 2) ∷ poll_interrupted true ∷ ready (moves 4) ∷ []

recv_all_interruptible-send_all_example :
    let sent = send_all writes frame [] in
    let r = recv_all_interruptible 30 rounds (length frame) [] sent.1 in
    Delivered sent.0 r frame
    × (asked rounds ≡ false → r ≡ recv_all (calls_of 30 rounds) (length frame) [] sent.1)
recv_all_interruptible-send_all_example = recv_all_interruptible-send_all writes 30 rounds frame
