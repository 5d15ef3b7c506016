-- ===== src/PeerNet/Senders/Whole/Frames.antt =====
-- Any schedule of the callers of `send_data_to_peer` of src/peer_net.c.
use vpnd.Base.{
  ℕ, ◌+◌, ◌≤◌, ◌≡◌, refl, sym, ap, ◌∙◌, subst, Option, none, List, [], ◌∷◌, ◌++◌, if◌then◌else◌,
  ◌==◌, length, take, All, arith, ==-refl, take-all,
}
use mathlib.Core.List.{append-nil}
use vpnd.Protocol.RoundTrip.{length_bytes, encode_frame_header-bytes}
use vpnd.Socket.{Net}
use vpnd.Socket.Sending.{Accepts}
use vpnd.Daemon.{Env}
use vpnd.PeerNet.Wire.{blank_header}
use vpnd.PeerNet.Wire.Delivery.{frame_bytes}
use vpnd.PeerNet.Senders.{
  Message, Stage, waiting, in_header, in_payload, unlocking, returned, Senders, frame_hdr, Turn,
  caller, elsewhere, turn_at, turn, run, at_rest,
}
use vpnd.PeerNet.Senders.Whole.{
  Piece, times, finished, piece_bytes, pieces_bytes, Fits, Stream, Whole,
}
use vpnd.PeerNet.Senders.Whole.Turns.{
  length-frame_hdr, header-Whole, payload-Whole, unlocking-Whole, waiting-Whole,
}

-- How often `i` is in the list.
abbrev pub count : ℕ → List ℕ → ℕ
count i [] = 0
count i (j ∷ js) = (if j == i then 1 else 0) + count i js

-- The frames of the callers, the first in the list last on the stream.
abbrev pub frames : Env → (ℕ → Message) → List ℕ → List ℕ
frames e message [] = []
frames e message (j ∷ js) =
    let m = message j in
    frames e message js
    ++ frame_bytes e.little m.frame_hdr_type m.data_len (take m.data_len m.bytes)

module _ (e : Env) (s : ℕ) (message : ℕ → Message)
    (room : (i : ℕ) → (message i).data_len ≤ length (message i).bytes) where
  turn_at-Whole :
      (start : List ℕ) (st : Senders) (i : ℕ) (y : Stage)
      → st.stage i ≡ y
      → Whole e s message start st
      → Whole e s message start (turn_at e s message i y st)
  turn_at-Whole start st i waiting at_y h = waiting-Whole e s message room start st i h at_y
  turn_at-Whole start st i (in_header n) at_y h = header-Whole e s message room start st i h n at_y
  turn_at-Whole start st i (in_payload n) at_y h =
      payload-Whole e s message room start st i h n at_y
  turn_at-Whole start st i unlocking at_y h = unlocking-Whole e s message room start st i h at_y
  turn_at-Whole start st i returned at_y h = unfold turn_at in h

  turn-Whole :
      (start : List ℕ) (st : Senders) (t : Turn)
      → Whole e s message start st
      → Whole e s message start (turn e s message t st)
  unfolding turn
  turn-Whole start st (caller i) h = turn_at-Whole start st i (st.stage i) refl h
  turn-Whole start st (elsewhere w) h = record {
    pieces = h.pieces;
    fits = h.fits;
    once = h.once;
    stream = rw (==-refl s) h.stream;
  }

  run_from-Whole :
      (start : List ℕ) (ts : List Turn) (st : Senders)
      → Whole e s message start st
      → Whole e s message start (run e s message ts st)
  unfolding run
  run_from-Whole start [] st h = h
  run_from-Whole start (t ∷ ts) st h =
      run_from-Whole start ts (turn e s message t st) (turn-Whole start st t h)

  -- Whatever the schedule of the callers of `send_data_to_peer` for one peer, whatever the other threads
  -- do to the rest of the network in between, and whatever the kernel takes in a call or refuses: the
  -- stream holds, behind what stood on it, one piece of each caller that has returned and none of any
  -- other, and then at most a part of one frame, that of the holder of the mutex. A piece is a front of
  -- the caller's header and then a front of its payload, and both are whole if the kernel refuses
  -- nothing. Nobody is between lock and unlock without the mutex.
  pub run-Whole :
      (ts : List Turn) (w : Net) → Whole e s message (w.outgoing s) (run e s message ts (at_rest w))
  run-Whole ts w = run_from-Whole (w.outgoing s) ts (at_rest w) (record {
    pieces = [];
    fits = tt;
    once = λ i. refl;
    stream = (sym (append-nil (w.outgoing s)), λ i. tt);
  })

  callers : List Piece → List ℕ
  callers [] = []
  callers (p ∷ ps) = p.by ∷ callers ps

  count-callers : (i : ℕ) (ps : List Piece) → count i (callers ps) ≡ times i ps
  unfolding callers
  count-callers i [] = refl
  count-callers i (p ∷ ps) = ap (λ (n : ℕ). (if p.by == i then 1 else 0) + n) (count-callers i ps)

  piece-frame :
      (p : Piece)
      → Accepts e.kernel
      → Fits e s message p
      → let m = message p.by in
        piece_bytes e s message p
        ≡ frame_bytes e.little m.frame_hdr_type m.data_len (take m.data_len m.bytes)
  piece-frame p accepts f =
      let m : Message = message p.by in
      let hdr : List ℕ = frame_hdr e s message p.by in
      let whole : take p.of_header hdr ≡ m.frame_hdr_type ∷ length_bytes e.little m.data_len =
        take-all p.of_header hdr
          (omega (arith, length-frame_hdr e s message room p.by, f.header_whole accepts))
        ∙ encode_frame_header-bytes e.little blank_header m.frame_hdr_type m.data_len (omega arith)
        ∙ append-nil (m.frame_hdr_type ∷ length_bytes e.little m.data_len) in
      rw (whole, f.payload_whole accepts) refl

  pieces-frames :
      (ps : List Piece)
      → Accepts e.kernel
      → All (Fits e s message) ps
      → pieces_bytes e s message ps ≡ frames e message (callers ps)
  unfolding callers
  pieces-frames [] accepts fits = refl
  pieces-frames (p ∷ ps) accepts fits =
      rw (pieces-frames ps accepts fits.1, piece-frame p accepts fits.0) refl

  -- On a socket that refuses nothing, whatever the schedule and whatever the other threads do to the
  -- rest of the network: whenever the mutex is free, the stream holds behind what stood on it whole
  -- frames and nothing else, one of each caller that has returned and none of any other.
  pub run-frames :
      (ts : List Turn) (w : Net)
      → Accepts e.kernel
      → (run e s message ts (at_rest w)).holder ≡ none
      → let st = run e s message ts (at_rest w) in
        (order : List ℕ) × (st.net.outgoing s ≡ w.outgoing s ++ frames e message order)
        × ((i : ℕ) → count i order ≡ finished (st.stage i))
  run-frames ts w accepts free =
      let st : Senders = run e s message ts (at_rest w) in
      let h : Whole e s message (w.outgoing s) st = run-Whole ts w in
      let stream =
        subst
          (λ (o : Option ℕ).
            Stream e s message (w.outgoing s) h.pieces o (st.net.outgoing s) st.stage)
          free h.stream in
      (
        callers h.pieces,
        stream.0 ∙ ap (◌++◌ (w.outgoing s)) (pieces-frames h.pieces accepts h.fits),
        λ i. count-callers i h.pieces ∙ h.once i,
      )
