-- ===== src/PeerNet/Tunnel/Opening.antt =====
-- From the stream to the plaintext: `receive_frame`, `process_frame` and `process_netpacket` of
-- src/peer_net.c up to the decryption.
use vpnd.Base.{
  ℕ, ◌+◌, ◌≤◌, ◌<◌, ◌≡◌, refl, ap, ◌∙◌, false, true, Option, some, List, [], ◌++◌, length, take,
  drop, get_elem?, ok, arith, ◌==◌, length-take, length-drop, leb-true,
}
use mathlib.Core.List.{append-nil}
use vpnd.Protocol.{hdr_netpacket, frame_header_size, frame_payload_maxsize, frame_maxsize}
use vpnd.Netroute.{Netroute}
use vpnd.PacketHeader.{parse_packet_addr}
use vpnd.Socket.{Net}
use vpnd.Socket.Receiving.{Delivers}
use vpnd.Encryption.{CtxStore, aes_decrypt}
use vpnd.Peer.{Peer}
use vpnd.Daemon.{Env, Daemon, no_result, found_peer, peer_at}
use vpnd.PeerNet.Wire.{decrypt_into, receive_frame}
use vpnd.PeerNet.Wire.Delivery.{receive_on-Delivered}
use vpnd.PeerNet.Process.{readable, route_packet, process_netpacket, netpacket_case, process_frame}
use vpnd.PeerNet.System.{one_frame}
use vpnd.PeerNet.Tunnel.{Ready}
use vpnd.PeerNet.Tunnel.Entering.{sealed}

-- The packet buffer with the plaintext in front.
abbrev pub in_front : Env → List ℕ → List ℕ
in_front f plain = plain ++ drop (length plain) f.stack_packet

-- Where the packet is addressed to.
abbrev pub addressed : Env → List ℕ → Daemon → Netroute
addressed f plain d = parse_packet_addr d.if_tap f.little (in_front f plain) f.stack_route false

module _ (f : Env) (i : ℕ) (q : Peer) (plain cipher : List ℕ) (ctxs : CtxStore) where
  peer_at-found : (d : Daemon) → get_elem? d.peers i ≡ some q → peer_at i d ≡ ok (some q, d)
  unfolding peer_at
  peer_at-found d found = ap (λ (o : Option Peer). found_peer o d) found

  process_netpacket-opens :
      (d : Daemon) (buf : List ℕ)
      → get_elem? d.peers i ≡ some q
      → frame_header_size + length cipher ≤ length buf
      → take (length cipher) (drop frame_header_size buf) ≡ cipher
      → aes_decrypt f.evp d.ctxs q.dec_ctx cipher 2064 ≡ ok (some plain, ctxs)
      → process_netpacket f i buf (length cipher) d
        ≡ route_packet f i (in_front f plain) (length plain) (record d { ctxs = ctxs })
  unfolding process_netpacket readable decrypt_into
  process_netpacket-opens d buf found room read decrypts =
      rw
        (
          leb-true (frame_header_size + length cipher) (length buf) room,
          read,
          peer_at-found d found,
          decrypts,
        )
        refl

  process_frame-opens :
      (d : Daemon) (buf : List ℕ)
      → get_elem? d.peers i ≡ some q
      → q.authenticated ≡ true
      → 0 < length cipher
      → frame_header_size + length cipher ≤ length buf
      → take (length cipher) (drop frame_header_size buf) ≡ cipher
      → aes_decrypt f.evp d.ctxs q.dec_ctx cipher 2064 ≡ ok (some plain, ctxs)
      → process_frame f i buf hdr_netpacket (length cipher) d
        ≡ no_result (route_packet f i (in_front f plain) (length plain) (record d { ctxs = ctxs }))
  unfolding process_frame netpacket_case
  process_frame-opens d buf found trusted some_bytes room read decrypts =
      let filled : (length cipher == 0) ≡ false = ground (arith, some_bytes) in
      rw (peer_at-found d found, trusted, filled)
        (ap no_result (process_netpacket-opens d buf found room read decrypts))

  -- One turn of the loop takes the frame from the stream, and routes what is in it.
  pub one_frame-opens :
      (d : Daemon) (t : ℕ) (buf : List ℕ)
      → Delivers f.kernel
      → get_elem? d.peers i ≡ some q
      → Ready q t
      → length buf ≡ frame_maxsize
      → 0 < length cipher
      → length cipher ≤ frame_payload_maxsize
      → d.net.incoming t ≡ sealed f cipher
      → aes_decrypt f.evp d.ctxs q.dec_ctx cipher 2064 ≡ ok (some plain, ctxs)
      → (w : Net) × (one_frame f i buf d
          ≡ no_result (
              route_packet f i
                (in_front f plain)
                (length plain)
                (record d { net = w; ctxs = ctxs })))
        × (w.outgoing ≡ d.net.outgoing)
  unfolding receive_frame
  one_frame-opens d t buf live found ready size some_bytes small carried decrypts =
      let (buf₁, w, got, read, left, out) =
        receive_on-Delivered f t hdr_netpacket (length cipher) cipher [] buf d.net live small refl
          size (carried ∙ rw (append-nil (sealed f cipher)) refl) in
      let room : 5 + length cipher ≤ length buf₁ =
        omega
          (arith, ap length read, length-take (length cipher) (drop 5 buf₁), length-drop 5 buf₁) in
      (
        w,
        rw (peer_at-found d found, ready.socket, got)
            (process_frame-opens (record d { net = w }) buf₁ found ready.authenticated some_bytes
              room read decrypts),
        out,
      )
