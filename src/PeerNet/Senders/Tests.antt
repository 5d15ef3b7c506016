-- ===== src/PeerNet/Senders/Tests.antt =====
-- Two callers of `send_data_to_peer` of src/peer_net.c at a time, and the theorems at such a run.
use vpnd.Base.{ok, ℕ, zero, suc, ◌≤◌, ◌≡◌, refl, none, some, List, [], ◌∷◌, ◌++◌, length, arith}
use vpnd.Protocol.{write_uint32, encode_frame_header}
use vpnd.Socket.{net_send}
use vpnd.PeerNet.Sample.{machine, slow_kernel-Accepts, wire}
use vpnd.PeerNet.Senders.{Message, Senders, Turn, caller, elsewhere, turn_at, turn, run, at_rest}
use vpnd.PeerNet.Senders.Whole.{Whole, finished}
use vpnd.PeerNet.Senders.Whole.Frames.{count, frames, run-Whole, run-frames}
use vpnd.PeerNet.Senders.Alone.{run_alone}
use vpnd.PeerNet.Wire.{send_frame}
use vpnd.PeerNet.Senders.Finishing.{Gone, finishing, turns, callers_finish}

-- Caller 0 sends four bytes in a frame of type 5, every other caller an empty frame of type 2.
abbrev messages : ℕ → Message
messages zero = record { frame_hdr_type = 5; bytes = 104 ∷ 101 ∷ 108 ∷ 108 ∷ []; data_len = 4 }
messages (suc i) = record { frame_hdr_type = 2; bytes = []; data_len = 0 }

messages_room : (i : ℕ) → (messages i).data_len ≤ length (messages i).bytes
messages_room zero = omega arith
messages_room (suc i) = omega arith

-- The callers take turns; caller 1 waits until caller 0 has unlocked.
abbrev alternate : ℕ → List Turn
alternate zero = []
alternate (suc n) = caller 0 ∷ caller 1 ∷ elsewhere (wire (1 ∷ [])) ∷ alternate n

abbrev after : ℕ → Senders
after n = run machine 3 messages (alternate n) (at_rest (wire []))

after_three : (after 3).holder ≡ some 0
unfolding run turn turn_at net_send encode_frame_header write_uint32
after_three = refl

after_twenty : (after 20).holder ≡ none
unfolding run turn turn_at net_send encode_frame_header write_uint32
after_twenty = refl

stream_after_twenty :
    (after 20).net.outgoing 3 ≡ 5 ∷ 4 ∷ 0 ∷ 0 ∷ 0 ∷ 104 ∷ 101 ∷ 108 ∷ 108 ∷ 2 ∷ 0 ∷ 0 ∷ 0 ∷ 0 ∷ []
unfolding run turn turn_at net_send encode_frame_header write_uint32
stream_after_twenty = refl

run-Whole_example : Whole machine 3 messages [] (after 3)
run-Whole_example = run-Whole machine 3 messages messages_room (alternate 3) (wire [])

run-frames_example :
    (order : List ℕ) × ((after 20).net.outgoing 3 ≡ [] ++ frames machine messages order)
    × ((i : ℕ) → count i order ≡ finished ((after 20).stage i))
run-frames_example =
    run-frames machine 3 messages messages_room (alternate 20) (wire []) slow_kernel-Accepts
      after_twenty

callers_finish_example : Gone 1 (run machine 3 messages (finishing messages 1 (some 0)) (after 3))
unfolding run turn turn_at net_send encode_frame_header write_uint32
callers_finish_example = callers_finish machine 3 messages messages_room (alternate 3) (wire []) 1

run_alone_example :
    send_frame machine 5 (104 ∷ 101 ∷ 108 ∷ 108 ∷ []) 4 (some 3) (wire [])
    ≡ ok (run machine 3 messages (turns 0 13) (at_rest (wire []))).net
run_alone_example = run_alone machine 3 messages 0 (wire [])
