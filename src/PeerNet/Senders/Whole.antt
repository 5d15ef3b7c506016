-- ===== src/PeerNet/Senders/Whole.antt =====
-- What the callers of `send_data_to_peer` of src/peer_net.c leave on one peer's stream.
pub mod Turns
pub mod Frames
use vpnd.Base.{
  ℕ, zero, ◌+◌, ◌-◌, ◌≤◌, ◌≡◌, ◌≢◌, refl, sym, ap, ◌∙◌, subst, inl, inr, Bool, true, false, Option,
  none, some, List, [], ◌∷◌, ◌++◌, if◌then◌else◌, ltb, ◌==◌, length, take, drop, All, arith,
  Bool-cases, ltb→lt, ltb_false→le, ==→eq, ==-refl, take-add,
}
use mathlib.Core.List.{append_assoc, append-nil}
use vpnd.Protocol.{frame_header_size}
use vpnd.Protocol.RoundTrip.{length_bytes, length-length_bytes, encode_frame_header-bytes}
use vpnd.Socket.{Net, update, net_send}
use vpnd.Socket.Sending.{Accepts, Passed, net_send-Passed}
use vpnd.Daemon.{Env}
use vpnd.PeerNet.Wire.{blank_header}
use vpnd.PeerNet.Senders.{
  Message, Stage, waiting, in_header, in_payload, unlocking, returned, Senders, at, frame_hdr,
  sends, Turn, caller, elsewhere, turn_at, turn, run, at_rest,
}

-- What one caller put on the stream: how much of its header, and of its payload.
pub record Piece : Type 0 where
  pub by : ℕ
  pub of_header : ℕ
  pub of_payload : ℕ

-- How often caller `i` is among the pieces.
abbrev pub times : ℕ → List Piece → ℕ
times i [] = 0
times i (p ∷ ps) = (if p.by == i then 1 else 0) + times i ps

abbrev pub finished : Stage → ℕ
finished returned = 1
finished _ = 0

-- The caller is outside of the lock.
abbrev pub IsOutside : Stage → Type 0
IsOutside waiting = Unit {0}
IsOutside returned = Unit {0}
IsOutside _ = ⊥

pub at_self : (stage : ℕ → Stage) (i : ℕ) (x : Stage) → at stage i x i ≡ x
at_self stage i x = rw (==-refl i)

pub at_once :
    (ps : List Piece) (stage : ℕ → Stage) (i : ℕ) (x : Stage)
    → finished x ≡ finished (stage i)
    → ((k : ℕ) → times k ps ≡ finished (stage k))
    → (k : ℕ) → times k ps ≡ finished (at stage i x k)
at_once ps stage i x same once k = elim (Bool-cases (k == i)) [
  | inl h ↦ rw h (once k ∙ ap (λ (m : ℕ). finished (stage m)) (==→eq k i h) ∙ sym same)
  | inr h ↦ rw h (once k)
]

pub at_others :
    (stage : ℕ → Stage) (i : ℕ) (x : Stage)
    → ((k : ℕ) → (k == i) ≡ false → IsOutside (stage k))
    → (k : ℕ) → (k == i) ≡ false
    → IsOutside (at stage i x k)
at_others stage i x others k h = rw h (others k h)

module _ (e : Env) (s : ℕ) (message : ℕ → Message) where
  abbrev pub piece_bytes : Piece → List ℕ
  piece_bytes p =
      take p.of_header (frame_hdr e s message p.by) ++ take p.of_payload (message p.by).bytes

  -- The latest piece stands first in the list, and last on the stream.
  abbrev pub pieces_bytes : List Piece → List ℕ
  pieces_bytes [] = []
  pieces_bytes (p ∷ ps) = pieces_bytes ps ++ piece_bytes p

  -- A front of the header, then a front of the payload; both are whole if no `send` is refused.
  pub record Fits (p : Piece) : Type 0 where
    pub header_le : p.of_header ≤ frame_header_size
    pub payload_le : p.of_payload ≤ (message p.by).data_len
    pub header_whole : Accepts e.kernel → p.of_header ≡ frame_header_size
    pub payload_whole : Accepts e.kernel → p.of_payload ≡ (message p.by).data_len

  -- What the holder of the lock has sent so far.
  abbrev pub SoFar : ℕ → Stage → List ℕ → Type 0
  SoFar i (in_header sent) part =
      (sent ≤ frame_header_size) × (part ≡ take sent (frame_hdr e s message i))
  SoFar i (in_payload sent) part =
      (a : ℕ) × (a ≤ frame_header_size)
      × (Accepts e.kernel → a ≡ frame_header_size)
      × (sent ≤ (message i).data_len)
      × (part ≡ take a (frame_hdr e s message i) ++ take sent (message i).bytes)
  SoFar i unlocking part = (p : Piece) × (p.by ≡ i) × Fits p × (part ≡ piece_bytes p)
  SoFar i waiting part = ⊥
  SoFar i returned part = ⊥

  -- The stream behind what stood on it at first, by who holds the lock.
  abbrev pub Stream : List ℕ → List Piece → Option ℕ → List ℕ → (ℕ → Stage) → Type 0
  Stream start ps none out stage =
      (out ≡ start ++ pieces_bytes ps) × ((i : ℕ) → IsOutside (stage i))
  Stream start ps (some j) out stage =
      (part : List ℕ) × (out ≡ start ++ (pieces_bytes ps ++ part))
      × SoFar j (stage j) part
      × ((i : ℕ) → (i == j) ≡ false → IsOutside (stage i))

  pub record Whole (start : List ℕ) (st : Senders) : Type 0 where
    pub pieces : List Piece
    pub fits : All Fits pieces
    -- every caller that has returned sent one piece, the others none
    pub once : (i : ℕ) → times i pieces ≡ finished (st.stage i)
    pub stream : Stream start pieces st.holder (st.net.outgoing s) st.stage

  -- The caller that is inside has the lock, and nobody else is inside.
  pub record Inside (start : List ℕ) (ps : List Piece) (i : ℕ) (o : Option ℕ) (out : List ℕ)
      (stage : ℕ → Stage) : Type 0 where
    pub has_lock : o ≡ some i
    pub part : List ℕ
    pub so_far : SoFar i (stage i) part
    pub stands : out ≡ start ++ (pieces_bytes ps ++ part)
    pub others : (k : ℕ) → (k == i) ≡ false → IsOutside (stage k)

  pub inside :
      (start : List ℕ) (ps : List Piece) (i : ℕ) (o : Option ℕ) (out : List ℕ) (stage : ℕ → Stage)
      → ¬ IsOutside (stage i)
      → Stream start ps o out stage
      → Inside start ps i o out stage
  inside start ps i none out stage active h = absurd (active (h.1 i))
  inside start ps i (some j) out stage active (part, stands, so_far, others) =
      elim (Bool-cases (i == j)) [
        | inr other ↦ absurd (active (others i other))
        | inl same ↦
            let e : j ≡ i = sym (==→eq i j same) in
            record {
              has_lock = ap some e;
              part = part;
              so_far = subst (λ (k : ℕ). SoFar k (stage k) part) e so_far;
              stands = stands;
              others = λ k h. others k (subst (λ (m : ℕ). (k == m) ≡ false) (sym e) h);
            }
      ]

  -- The caller with the lock goes on to stage `x`, with `part'` on the stream.
  pub Whole-moved :
      (start : List ℕ) (st : Senders) (i : ℕ) (x : Stage) (w : Net) (part' : List ℕ)
      → (h : Whole start st) → Inside start h.pieces i st.holder (st.net.outgoing s) st.stage
      → finished x ≡ finished (st.stage i)
      → SoFar i x part'
      → w.outgoing s ≡ start ++ (pieces_bytes h.pieces ++ part')
      → Whole start (record { net = w; holder = st.holder; stage = at st.stage i x })
  Whole-moved start st i x w part' h k same so_far stands = record {
    pieces = h.pieces;
    fits = h.fits;
    once = at_once h.pieces st.stage i x same h.once;
    stream =
        subst (λ (o : Option ℕ). Stream start h.pieces o (w.outgoing s) (at st.stage i x))
          (sym k.has_lock)
          (
            part',
            stands,
            subst (λ (y : Stage). SoFar i y part') (sym (at_self st.stage i x)) so_far,
            at_others st.stage i x k.others,
          );
  }
