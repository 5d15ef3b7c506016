-- ===== src/PeerNet/Handshake/Agreement.antt =====
-- The secrets of a handshake on their way from the server to the client: `authenticate_peer` of
-- src/peer_net.c.
use vpnd.Base.{
  ℕ, ◌+◌, ◌≤◌, ◌≡◌, refl, sym, ap, ◌∙◌, Bool, true, false, not, Option, none, some, List, ◌++◌, ltb,
  leb, ◌==◌, length, take, drop, get_elem?, Outcome, ok, fault, stuck, arith, if◌then◌else◌, subst,
  length-append, take-length-append,
}
use vpnd.Protocol.{hdr_auth, frame_header_size, frame_maxsize, frame_payload_maxsize}
use vpnd.Socket.{Net, put_at}
use vpnd.Socket.Sending.{Accepts}
use vpnd.Socket.Receiving.{Delivers}
use vpnd.Rsa.{rsa_encrypt, rsa_decrypt}
use vpnd.Peer.{Peer}
use vpnd.Daemon.{Env, Daemon, Code, pure, and_then, on_option, peer_at, ◌>>=◌}
use vpnd.PeerNet.Wire.{
  Frame, frame, framed, with_net, send_frame, emit, send_to, send_data_to_peer, receive_on,
  receive_frame,
}
use vpnd.PeerNet.Wire.Delivery.{frame_bytes, send_frame-wire, receive_on-Delivered}
use vpnd.PeerNet.Wire.Bounds.{Answered, IsFrame, receive_on-Answered}
use vpnd.PeerNet.Process.{readable}
use vpnd.PeerNet.Handshake.{
  guard, on_outcome, key_object, receive_auth, receive_secret, send_secret,
}

length-front : (xs ys : List ℕ) → length xs ≤ length (xs ++ ys)
length-front xs ys = omega (arith, length-append xs ys)

-- The server's side.
module _ (e : Env) (i s : ℕ) (d : Daemon) (p : Peer) (accepts : Accepts e.kernel)
    (found : get_elem? d.peers i ≡ some p) (alive : p.alive ≡ true) (socket : p.s ≡ some s) where
  send_data_to_peer-wire :
      (type len : ℕ) (bytes : List ℕ)
      → len ≤ length bytes
      → (w : Net) × (send_data_to_peer e type bytes len false i d
          ≡ ok (some tt, record d { net = w }))
        × (w.outgoing s ≡ d.net.outgoing s ++ frame_bytes e.little type len (take len bytes))
  unfolding send_data_to_peer send_to emit peer_at
  send_data_to_peer-wire type len bytes room =
      let (w, sent, wire, others, incoming) =
        send_frame-wire e type bytes len s d.net accepts room in
      (
        w,
        rw found (
            ap (λ (b : Bool). (if b then emit e type bytes len p.s else pure tt) d) alive
            ∙ (ap (λ (o : Option ℕ). with_net d (send_frame e type bytes len o d.net)) socket
                ∙ ap (with_net d) sent)),
        wire,
      )

  pub send_secret-wire :
      (k : ℕ) (secret buf enc : List ℕ)
      → p.pubkey ≡ some k
      → rsa_encrypt e.rsa d.net.calls secret (some k) ≡ some enc
      → (length enc == 0) ≡ false
      → length enc ≤ length buf
      → (buf' : List ℕ) × (w : Net) × (send_secret e i secret buf d
          ≡ ok (some buf', record d { net = w }))
        × (length enc ≤ length buf')
        × (w.outgoing s ≡ d.net.outgoing s ++ frame_bytes e.little hdr_auth (length enc) enc)
  unfolding send_secret peer_at put_at
  send_secret-wire k secret buf enc key encrypted some_bytes room =
      let front : List ℕ = enc ++ drop (0 + length enc) buf in
      let (w, sent, wire) =
        send_data_to_peer-wire hdr_auth (length enc) front
          (length-front enc (drop (0 + length enc) buf)) in
      let rest : List ℕ → Code (List ℕ) = λ x. guard (not (length x == 0)) >>= λ _.
      on_outcome (put_at buf 0 x) >>= λ buf'.
      send_data_to_peer e hdr_auth buf' (length x) false i >>= λ _. pure buf' in
      let fits : leb (0 + length enc) (length buf) ≡ true = ground (arith, room) in
      let put_and_send : rest enc d ≡ ok (some front, record d { net = w }) =
        rw (some_bytes, fits, sent) refl in
      (
        front,
        w,
        rw found (
            ap
              (λ (o : Option ℕ).
                and_then (on_option (rsa_encrypt e.rsa d.net.calls secret o) d) rest)
              key
            ∙ (ap (λ (o : Option (List ℕ)). and_then (on_option o d) rest) encrypted
                ∙ put_and_send)),
        length-front enc (drop (0 + length enc) buf),
        wire
            ∙ ap (λ (x : List ℕ). d.net.outgoing s ++ frame_bytes e.little hdr_auth (length enc) x)
                (take-length-append enc (drop (0 + length enc) buf)),
      )

-- The buffer of a received frame keeps its size.
abbrev Sized : Outcome (Option Frame × Net) → Type 0
Sized (ok (some f, w)) = length f.buf ≡ frame_maxsize
Sized (ok (none, w)) = Unit {0}
Sized fault = Unit {0}
Sized stuck = Unit {0}

Sized-of_Answered : (w : Net) (r : Outcome (Option Frame × Net)) → Answered w r → Sized r
Sized-of_Answered w r (got, w', e, is_frame, quiet) = subst Sized (sym e) (cases got is_frame)
  where
    cases : (o : Option Frame) → IsFrame o → Sized (ok (o, w'))
    cases none h = tt
    cases (some f) h = h.0

-- The client's side.
module _ (f : Env) (j t : ℕ) (c : Daemon) (q : Peer) (live : Delivers f.kernel)
    (found : get_elem? c.peers j ≡ some q) (socket : q.s ≡ some t) where
  pub receive_frame-reads :
      (type : ℕ) (payload rest buf : List ℕ)
      → length payload ≤ frame_payload_maxsize
      → length buf ≡ frame_maxsize
      → c.net.incoming t ≡ frame_bytes f.little type (length payload) payload ++ rest
      → (buf' : List ℕ) × (w : Net) × (receive_frame f j buf c
          ≡ ok
              (some (frame (length payload + 5) (type, length payload) buf'), record c { net = w }))
        × (take (length payload) (drop 5 buf') ≡ payload)
        × (length buf' ≡ frame_maxsize)
        × (w.incoming t ≡ rest)
  unfolding receive_frame peer_at
  receive_frame-reads type payload rest buf small size stream =
      let (buf', w, got, bytes, left, out) =
        receive_on-Delivered f t type (length payload) payload rest buf c.net live small refl size
          stream in
      (
        buf',
        w,
        rw found
            (ap (λ (o : Option ℕ). framed c (receive_on f o buf c.net)) socket ∙ ap (framed c) got),
        bytes,
        subst Sized got (Sized-of_Answered c.net _ (receive_on-Answered f (some t) buf c.net size)),
        left,
      )

  receive_auth-reads :
      (payload rest buf : List ℕ)
      → length payload ≤ frame_payload_maxsize
      → (length payload == 0) ≡ false
      → length buf ≡ frame_maxsize
      → c.net.incoming t ≡ frame_bytes f.little hdr_auth (length payload) payload ++ rest
      → (buf' : List ℕ) × (w : Net) × (receive_auth f j buf c
          ≡ ok (
            some (frame (length payload + 5) (hdr_auth, length payload) buf'),
            record c { net = w },
          ))
        × (take (length payload) (drop 5 buf') ≡ payload)
        × (length buf' ≡ frame_maxsize)
        × (w.incoming t ≡ rest)
  unfolding receive_auth
  receive_auth-reads payload rest buf small some_bytes size stream =
      let (buf', w, got, bytes, size', left) =
        receive_frame-reads hdr_auth payload rest buf small size stream in
      (buf', w, rw (got, some_bytes) refl, bytes, size', left)

  pub receive_secret-reads :
      (sk n : ℕ) (enc secret rest buf : List ℕ)
      → c.daemon_privkey ≡ some sk
      → length enc ≤ frame_payload_maxsize
      → (length enc == 0) ≡ false
      → ltb (f.rsa.size sk) (length enc) ≡ false
      → f.rsa.private_decrypt sk enc ≡ some secret
      → (length secret == n) ≡ true
      → length buf ≡ frame_maxsize
      → c.net.incoming t ≡ frame_bytes f.little hdr_auth (length enc) enc ++ rest
      → (buf' : List ℕ) × (w : Net) × (receive_secret f j n buf c
          ≡ ok (some (secret, buf'), record c { net = w }))
        × (length buf' ≡ frame_maxsize)
        × (w.incoming t ≡ rest)
  unfolding receive_secret readable rsa_decrypt
  receive_secret-reads sk n enc secret rest buf key small some_bytes fits opens sized size stream =
      let (buf', w, got, bytes, size', left) =
        receive_auth-reads enc rest buf small some_bytes size stream in
      let inside : leb (5 + length enc) (length buf') ≡ true = ground (arith, size', small) in
      (
        buf',
        w,
        ap
              (λ (o : Option ℕ). and_then (key_object o c) (λ privkey.
                receive_auth f j buf >>= λ fr.
                guard (not (ltb (f.rsa.size privkey) fr.data_len)) >>= λ _.
                readable fr.buf frame_header_size fr.data_len >>= λ bs.
                on_option (rsa_decrypt f.rsa bs (some privkey)) >>= λ x.
                guard (length x == n) >>= λ _. pure (x, fr.buf)))
              key
            ∙ rw (got, fits, inside, bytes, fits, opens, sized) refl,
        size',
        left,
      )
