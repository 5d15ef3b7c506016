-- ===== src/PeerNet/Wire/Delivery.antt =====
-- Frames from one daemon to another: `send_data_to_peer` and `receive_frame` of src/peer_net.c over
-- kernels that cut the stream into pieces.
use vpnd.Base.{
  ℕ, ◌+◌, ◌≤◌, ◌≡◌, refl, sym, ap, ◌∙◌, subst, Bool, false, not, Option, some, List, [], ◌∷◌, ◌++◌,
  ltb, ◌==◌, length, take, drop, Outcome, ok, arith, length-take, length-drop, ok-injective,
  take-append-drop, take-all, ltb-true, ltb-false, Bool-cases, inl, inr, ltb_false→le,
  nil_of_length, take-drop-middle,
}
use mathlib.Core.List.{append_assoc, append-nil}
use vpnd.Protocol.{frame_payload_maxsize, frame_maxsize, encode_frame_header}
use vpnd.Protocol.RoundTrip.{
  length_bytes, length-length_bytes, encode_frame_header-bytes, decode_bytes,
}
use vpnd.Socket.{Net, recv_loop, send_loop}
use vpnd.Socket.Receiving.{Delivers, Filled, recv_loop-Filled}
use vpnd.Socket.Sending.{Accepts, AllSent, send_loop-AllSent}
use vpnd.Daemon.{Env}
use vpnd.PeerNet.Wire.{Frame, frame, blank_header, send_frame, receive_payload, receive_on}

-- A frame as it stands on the wire.
abbrev pub frame_bytes : Bool → ℕ → ℕ → List ℕ → List ℕ
frame_bytes little type len payload = (type ∷ length_bytes little len) ++ payload

header_AllSent :
    (e : Env) (type len s : ℕ) (w : Net)
    → Accepts e.kernel
    → AllSent s
        (type ∷ length_bytes e.little len)
        5
        w
        (send_loop e.kernel 6 (some s) (encode_frame_header e.little blank_header type len) 5 0 w)
header_AllSent e type len s w accepts =
    let eq : encode_frame_header e.little blank_header type len ≡ type ∷ length_bytes e.little len =
      encode_frame_header-bytes e.little blank_header type len (omega arith)
      ∙ append-nil (type ∷ length_bytes e.little len) in
    let size : length (type ∷ length_bytes e.little len) ≡ 5 =
      omega (arith, length-length_bytes e.little len) in
    rw eq (
      subst
        (λ (out : List ℕ).
          AllSent s out 5 w
            (send_loop e.kernel 6 (some s) (type ∷ length_bytes e.little len) 5 0 w))
        (take-all 5 (type ∷ length_bytes e.little len) (omega arith))
        (send_loop-AllSent e.kernel s (type ∷ length_bytes e.little len) 5 w accepts (omega arith)))

-- The frame loops of `send_data_to_peer`, on a socket that never refuses everything, end and append
-- to the stream exactly the type, the four length bytes and the first `len` bytes of the data,
-- however the kernel cuts them; no other stream changes, and nothing is received.
pub send_frame-wire :
    (e : Env) (type : ℕ) (bytes : List ℕ) (len s : ℕ) (w : Net)
    → Accepts e.kernel
    → len ≤ length bytes
    → (w' : Net) × (send_frame e type bytes len (some s) w ≡ ok w')
      × (w'.outgoing s ≡ w.outgoing s ++ frame_bytes e.little type len (take len bytes))
      × ((t : ℕ) → (t == s) ≡ false → w'.outgoing t ≡ w.outgoing t)
      × (w'.incoming ≡ w.incoming)
unfolding send_frame
send_frame-wire e type bytes len s w accepts room =
    let (w₁, sent₁, wire₁, others₁, in₁) = header_AllSent e type len s w accepts in
    let (w₂, sent₂, wire₂, others₂, in₂) = send_loop-AllSent e.kernel s bytes len w₁ accepts room in
    (
      w₂,
      rw (sent₁, sent₂),
      wire₂
          ∙ ap (λ (b : List ℕ). b ++ take len bytes) wire₁
          ∙ append_assoc (w.outgoing s) (type ∷ length_bytes e.little len) (take len bytes),
      λ t h. others₂ t h ∙ others₁ t h,
      in₂ ∙ in₁,
    )

-- The buffer after a frame: header and payload in front, the rest as it was.
abbrev filled : List ℕ → List ℕ → List ℕ → List ℕ
filled hdr payload post = hdr ++ (payload ++ post)

-- What the receiver ends with.
abbrev pub Delivered :
    (s type len : ℕ) (payload rest : List ℕ) (w : Net) → Outcome (Option Frame × Net) → Type 0
Delivered s type len payload rest w r =
    (buf : List ℕ) × (w' : Net) × (r ≡ ok (some (frame (len + 5) (type, len) buf), w'))
    × (take len (drop 5 buf) ≡ payload)
    × (w'.incoming s ≡ rest)
    × (w'.outgoing ≡ w.outgoing)

module _ (e : Env) (live : Delivers e.kernel) (s type len : ℕ) (payload rest hdr : List ℕ)
    (small : len ≤ frame_payload_maxsize) (size : length payload ≡ len)
    (hdr_size : length hdr ≡ 5) where
  payload-Filled :
      (hole post : List ℕ) (w : Net)
      → length hole ≡ len
      → w.incoming s ≡ payload ++ rest
      → Filled len s
          (hdr ++ (payload ++ post))
          rest
          w
          (recv_loop e.kernel (λ t. ltb t len) 5 len (len + 1) (some s) 0 (hdr ++ (hole ++ post)) w)
  payload-Filled hole post w hs hi =
      recv_loop-Filled e.kernel live (λ t. ltb t len) 5 len s (λ t h. ltb-true t len h)
        (ltb-false len len (omega arith)) (len + 1) 0 hdr hole post payload rest w (omega arith)
        (omega arith) (omega arith) (omega arith) hi

  receive_payload-Delivered :
      (hole post : List ℕ) (w : Net)
      → length hole ≡ len
      → w.incoming s ≡ payload ++ rest
      → Delivered s type len payload rest w
          (receive_payload e (some s) (type, len) (hdr ++ (hole ++ post)) w)
  unfolding receive_payload
  receive_payload-Delivered hole post w hs hi = elim (Bool-cases (ltb 0 len)) [
    | inl some_bytes ↦
        let (w', r, left, out) = payload-Filled hole post w hs hi in
        (
          hdr ++ (payload ++ post),
          w',
          rw (ltb-false 2048 len small, some_bytes, r),
          take-drop-middle 5 len hdr payload post hdr_size size,
          left,
          out,
        )
    | inr no_bytes ↦
        let none : len ≡ 0 = omega (arith, ltb_false→le 0 len no_bytes) in
        let nothing : payload ≡ [] = nil_of_length payload (omega arith) in
        (
          hdr ++ (hole ++ post),
          w,
          rw (ltb-false 2048 len small, no_bytes)
              (ap (λ (n : ℕ). ok (some (frame n (type, len) (hdr ++ (hole ++ post))), w))
                (omega arith)),
          rw (none, nothing),
          hi ∙ ap (λ (b : List ℕ). b ++ rest) nothing,
          refl,
        )
  ]

pub header-Filled :
    (e : Env) (live : Delivers e.kernel) (s : ℕ) (hdr rest buf : List ℕ) (w : Net)
    → length hdr ≡ 5
    → 5 ≤ length buf
    → w.incoming s ≡ hdr ++ rest
    → Filled 5 s
        (hdr ++ drop 5 buf)
        rest
        w
        (recv_loop e.kernel (λ t. not (t == 5)) 0 5 6 (some s) 0 buf w)
header-Filled e live s hdr rest buf w size room hi =
    subst
      (λ (b : List ℕ).
        Filled 5 s (hdr ++ drop 5 buf) rest w
          (recv_loop e.kernel (λ t. not (t == 5)) 0 5 6 (some s) 0 b w))
      (take-append-drop 5 buf)
      (recv_loop-Filled e.kernel live (λ t. not (t == 5)) 0 5 s (λ t h. ground arith) refl 6 0 []
        (take 5 buf) (drop 5 buf) hdr rest w (omega arith) (omega (arith, length-take 5 buf))
        (omega arith) (omega arith) hi)

-- A daemon whose stream begins with a frame of at most 2048 bytes receives that frame, into a
-- buffer of any content, and leaves the bytes behind it in the stream; however the kernel cuts the
-- stream, as long as it delivers what has come in.
pub receive_on-Delivered :
    (e : Env) (s type len : ℕ) (payload rest buf : List ℕ) (w : Net)
    → Delivers e.kernel
    → len ≤ frame_payload_maxsize
    → length payload ≡ len
    → length buf ≡ frame_maxsize
    → w.incoming s ≡ frame_bytes e.little type len payload ++ rest
    → Delivered s type len payload rest w (receive_on e (some s) buf w)
unfolding receive_on
receive_on-Delivered e s type len payload rest buf w live small size room hi =
    let hdr : List ℕ = type ∷ length_bytes e.little len in
    let hdr_size : length hdr ≡ 5 = omega (arith, length-length_bytes e.little len) in
    let (w₁, r₁, in₁, out₁) =
      header-Filled e live s hdr (payload ++ rest) buf w hdr_size (omega arith)
        (hi ∙ append_assoc hdr payload rest) in
    let post : List ℕ = drop 5 buf in
    let (buf₂, w₂, r₂, got, in₂, out₂) =
      receive_payload-Delivered e live s type len payload rest hdr small size hdr_size
        (take len post) (drop len post) w₁ (omega (arith, length-take len post, length-drop 5 buf))
        in₁ in
    (
      buf₂,
      w₂,
      rw (r₁, decode_bytes e.little type len post (omega arith))
          (rw (take-append-drop len post) at r₂),
      got,
      in₂,
      out₂ ∙ out₁,
    )

-- End to end: when one daemon has sent a frame of at most 2048 bytes on a fresh descriptor `s`, and
-- the stream of descriptor `t` of a daemon of the same byte order carries what was sent, then that
-- daemon receives the same type, length and bytes, and takes nothing more from the stream. The
-- kernels may cut the frame into pieces anywhere, and refuse nothing.
pub receive-send :
    (e f : Env) (type len s t : ℕ) (bytes rest buf : List ℕ) (w w' v : Net)
    → Accepts e.kernel
    → Delivers f.kernel
    → e.little ≡ f.little
    → len ≤ length bytes
    → len ≤ frame_payload_maxsize
    → length buf ≡ frame_maxsize
    → w.outgoing s ≡ []
    → send_frame e type bytes len (some s) w ≡ ok w'
    → v.incoming t ≡ w'.outgoing s ++ rest
    → Delivered t type len (take len bytes) rest v (receive_on f (some t) buf v)
receive-send e f type len s t bytes rest buf w w' v accepts live order room small size fresh sent
      carried =
    let (w₁, sent₁, wire, others, kept) = send_frame-wire e type bytes len s w accepts room in
    let same : w'.outgoing s ≡ w₁.outgoing s =
      ap (λ n. n.outgoing s) (ok-injective (sym sent ∙ sent₁)) in
    let out : w'.outgoing s ≡ frame_bytes f.little type len (take len bytes) =
      same ∙ wire ∙ rw (fresh, order) in
    receive_on-Delivered f t type len (take len bytes) rest buf v live small
      (omega (arith, length-take len bytes)) size (carried ∙ ap (λ (b : List ℕ). b ++ rest) out)
