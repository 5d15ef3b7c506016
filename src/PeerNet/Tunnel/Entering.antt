-- ===== src/PeerNet/Tunnel/Entering.antt =====
-- The side of the sender: `local_packet` of PeerNet/Device.
use vpnd.Base.{
  ◌∷◌, [], ℕ, ◌≡◌, refl, ap, ◌∙◌, inl, inr, Bool, true, false, not, Option, none, some, List, ◌++◌,
  length, take, ok, get_elem?, arith, Bool-cases, take-all, if◌then◌else◌,
}
use vpnd.Protocol.{hdr_netpacket, frame_payload_maxsize}
use vpnd.Netroute.{Netroute, add_netroute}
use vpnd.PacketHeader.{parse_packet_addr}
use vpnd.Socket.Sending.{Accepts}
use vpnd.Encryption.{CtxStore, aes_encrypt}
use vpnd.Peer.{Peer, is_local_route, get_peer_route, get_peer_route_from}
use vpnd.Peer.Routing.{serves}
use vpnd.Daemon.{Env, Daemon, and_then, pure, found_peer, peer_at}
use vpnd.PeerNet.Wire.{
  with_net, encrypt_into, emit, send_to, send_data_to_peer, broadcast_from, broadcast_data_to_peers,
}
use vpnd.PeerNet.Wire.Delivery.{frame_bytes, send_frame-wire}
use vpnd.PeerNet.Device.{learn_local, send_toward, local_packet}
use vpnd.PeerNet.Tunnel.{Puts, Ready}

-- Where a packet from the device goes.
abbrev pub destination_of : Env → List ℕ → Netroute → Daemon → Netroute
destination_of e buf route d =
    parse_packet_addr d.if_tap e.little buf (parse_packet_addr d.if_tap e.little buf route true)
      false

-- A frame with the ciphertext, as it stands on the wire.
abbrev pub sealed : Env → List ℕ → List ℕ
sealed e cipher = frame_bytes e.little hdr_netpacket (length cipher) cipher

module _ (e : Env) (s : ℕ) (cipher : List ℕ) (accepts : Accepts e.kernel) where
  emit-Puts :
      (d : Daemon)
      → Puts tt s (sealed e cipher) d (emit e hdr_netpacket cipher (length cipher) (some s) d)
  unfolding emit
  emit-Puts d =
      let (w, ran, wire, _, _) =
        send_frame-wire e hdr_netpacket cipher (length cipher) s d.net accepts (omega arith) in
      (
        record d { net = w },
        ap (with_net d) ran,
        wire
            ∙ ap
                (λ (b : List ℕ).
                  d.net.outgoing s ++ frame_bytes e.little hdr_netpacket (length cipher) b)
                (take-all (length cipher) cipher (omega arith)),
      )

module _ (e : Env) (p : Peer) (s n : ℕ) (buf cipher : List ℕ) (ctxs : CtxStore)
    (accepts : Accepts e.kernel) where
  pub send_to-Puts :
      (d : Daemon)
      → Ready p s
      → aes_encrypt e.evp d.ctxs p.enc_ctx (take n buf) frame_payload_maxsize
        ≡ ok (some cipher, ctxs)
      → Puts tt s (sealed e cipher) d (send_to e hdr_netpacket buf n true p d)
  unfolding send_to encrypt_into
  send_to-Puts d ready encrypts =
      let (d', ran, wire) = emit-Puts e s cipher accepts (record d { ctxs = ctxs }) in
      (d', rw (ready.alive, ready.authenticated, encrypts, ready.socket, ran) refl, wire)

  -- Whether the destination is known or not, the packet goes to the one peer.
  to_known :
      (d : Daemon)
      → d.peers ≡ p ∷ []
      → send_data_to_peer e hdr_netpacket buf n true 0 d ≡ send_to e hdr_netpacket buf n true p d
  unfolding send_data_to_peer peer_at
  to_known d one =
      ap
        (λ (ps : List Peer).
          and_then (found_peer (get_elem? ps 0) d) (send_to e hdr_netpacket buf n true))
        one

  to_all :
      (d : Daemon)
      → d.peers ≡ p ∷ []
      → Ready p s
      → broadcast_data_to_peers e hdr_netpacket buf n true none d
        ≡ and_then (send_to e hdr_netpacket buf n true p d) (λ _. pure tt)
  unfolding broadcast_data_to_peers broadcast_from
  to_all d one ready =
      ap (λ (ps : List Peer). broadcast_from e hdr_netpacket buf n true none 0 ps d) one
      ∙ ap
          (λ (b : Bool).
            and_then ((if b then send_to e hdr_netpacket buf n true p else pure tt) d)
              (λ _. pure tt))
          ready.alive

  get_peer_route-one :
      (d : Daemon) (destination : Netroute)
      → d.peers ≡ p ∷ []
      → get_peer_route destination d.peers ≡ (if serves destination p then some 0 else none)
  unfolding get_peer_route get_peer_route_from
  get_peer_route-one d destination one = ap (get_peer_route destination) one

  send_toward-Puts :
      (d : Daemon) (destination : Netroute)
      → d.peers ≡ p ∷ []
      → Ready p s
      → aes_encrypt e.evp d.ctxs p.enc_ctx (take n buf) frame_payload_maxsize
        ≡ ok (some cipher, ctxs)
      → Puts tt s (sealed e cipher) d (send_toward e buf n (get_peer_route destination d.peers) d)
  unfolding send_toward
  send_toward-Puts d destination one ready encrypts =
      let (d', ran, wire) = send_to-Puts d ready encrypts in
      elim (Bool-cases (serves destination p)) [
        | inl known ↦
            let route : get_peer_route destination d.peers ≡ some 0 =
              get_peer_route-one d destination one
              ∙ ap (λ (b : Bool). if b then some 0 else none) known in
            (d', ap (λ (o : Option ℕ). send_toward e buf n o d) route ∙ to_known d one ∙ ran, wire)
        | inr unknown ↦
            let route : get_peer_route destination d.peers ≡ none =
              get_peer_route-one d destination one
              ∙ ap (λ (b : Bool). if b then some 0 else none) unknown in
            (
              d',
              ap (λ (o : Option ℕ). send_toward e buf n o d) route
                  ∙ to_all d one ready
                  ∙ ap (λ r. and_then {A = Unit {0}} r (λ _. pure tt)) ran,
              wire,
            )
      ]

  -- The daemon behind the learning of the source.
  abbrev learnt : Netroute → Daemon → Daemon
  learnt source d = record d {
    local_routes =
        if not (is_local_route source d.local_routes)
        then add_netroute (e.memory d.net.calls) source d.local_routes
        else d.local_routes;
  }

  learn_local-learnt :
      (source : Netroute) (d : Daemon) → learn_local e source d ≡ ok (some tt, learnt source d)
  unfolding learn_local
  learn_local-learnt source d = elim (Bool-cases (is_local_route source d.local_routes)) [
    | inl known ↦ rw known refl
    | inr unknown ↦ rw unknown refl
  ]

  -- A packet of the device leaves for the peer as one frame with the ciphertext.
  pub local_packet-Puts :
      (d : Daemon) (route : Netroute)
      → d.peers ≡ p ∷ []
      → Ready p s
      → aes_encrypt e.evp d.ctxs p.enc_ctx (take n buf) frame_payload_maxsize
        ≡ ok (some cipher, ctxs)
      → Puts (destination_of e buf route d) s (sealed e cipher) d (local_packet e buf n route d)
  unfolding local_packet
  local_packet-Puts d route one ready encrypts =
      let source = parse_packet_addr d.if_tap e.little buf route true in
      let d₁ : Daemon = learnt source d in
      let (d', ran, wire) = send_toward-Puts d₁ (destination_of e buf route d) one ready encrypts in
      (d', rw (learn_local-learnt source d) (rw ran refl), wire)
