-- ===== src/PeerNet/Tunnel/Leaving.antt =====
-- A packet that goes to the device: `process_netpacket` of src/peer_net.c behind the decryption.
use vpnd.Base.{
  ℕ, ◌≤◌, ◌≡◌, ◌⊎◌, ap, ◌∙◌, inl, inr, true, Option, none, some, List, [], ◌∷◌, ◌++◌, length, drop,
  get_elem?, set, ok, arith, Bool-cases, length-append, take-length-append, Option-cases,
}
use vpnd.Protocol.{hdr_netpacket}
use vpnd.Netroute.{Netroute, add_netroute}
use vpnd.PacketHeader.{parse_packet_addr}
use vpnd.Socket.{Net}
use vpnd.Socket.Sending.{Accepts, send_loop-AllSent}
use vpnd.Peer.{Peer, is_local_route, get_peer_route}
use vpnd.Daemon.{Env, Daemon, peer_at, set_peer}
use vpnd.PeerNet.Wire.{after_write, write_fd, tuntap_write, broadcast_from, broadcast_data_to_peers}
use vpnd.PeerNet.Process.{learn_route, deliver_packet, forward_packet, route_packet}
use vpnd.PeerNet.Tunnel.{Puts}
use vpnd.PeerNet.Tunnel.Opening.{in_front, addressed}

-- The packet is for an address of this host, or for one that no peer has.
abbrev pub ForDevice : Env → List ℕ → Daemon → Type 0
ForDevice f plain d =
    (is_local_route (addressed f plain d) d.local_routes ≡ true)
    ⊎ (get_peer_route (addressed f plain d) d.peers ≡ none)

module _ (f : Env) (q : Peer) (fd : ℕ) (plain : List ℕ) (accepts : Accepts f.kernel) where
  abbrev packet : List ℕ
  packet = in_front f plain

  -- The plaintext is written to the device, and nothing else changes.
  tuntap_write-wire :
      (d : Daemon)
      → d.if_fd ≡ some fd
      → (w : Net) × (tuntap_write f packet (length plain) d ≡ ok (some tt, record d { net = w }))
        × (w.outgoing fd ≡ d.net.outgoing fd ++ plain)
  unfolding tuntap_write
  tuntap_write-wire d device =
      let room : length plain ≤ length packet =
        omega (arith, length-append plain (drop (length plain) f.stack_packet)) in
      let (w, ran, wire, _, _) =
        send_loop-AllSent f.kernel fd packet (length plain) d.net accepts room in
      (
        w,
        ap (λ (o : Option ℕ). write_fd f packet (length plain) o d) device ∙ ap (after_write d) ran,
        wire
            ∙ ap (λ (b : List ℕ). d.net.outgoing fd ++ b)
                (take-length-append plain (drop (length plain) f.stack_packet)),
      )

  tuntap_write-Puts :
      (d : Daemon) → d.if_fd ≡ some fd → Puts tt fd plain d (tuntap_write f packet (length plain) d)
  tuntap_write-Puts d device =
      let (w, ran, wire) = tuntap_write-wire d device in (record d { net = w }, ran, wire)

  -- The source is learnt, or not, and the plaintext is written.
  deliver_packet-Puts :
      (d : Daemon) (source : Netroute)
      → d.peers ≡ q ∷ []
      → d.if_fd ≡ some fd
      → Puts tt fd plain d (deliver_packet f 0 packet (length plain) source d)
  unfolding deliver_packet learn_route peer_at set_peer
  deliver_packet-Puts d source one device = elim (Option-cases (get_peer_route source d.peers)) [
    | inr (k, known) ↦ let (d', ran, wire) = tuntap_write-Puts d device in (d', rw known ran, wire)
    | inl unknown ↦
        let learnt = record q { routes = add_netroute (f.memory d.net.calls) source q.routes } in
        let d₁ : Daemon = record d { peers = set d.peers 0 learnt } in
        let found : get_elem? d.peers 0 ≡ some q = ap (λ (ps : List Peer). get_elem? ps 0) one in
        let (d', ran, wire) = tuntap_write-Puts d₁ device in (d', rw unknown (rw found ran), wire)
  ]

  -- The sender is the only peer, so the flooding of the packet reaches nobody else.
  forward_packet-Puts :
      (d : Daemon)
      → d.peers ≡ q ∷ []
      → d.if_fd ≡ some fd
      → Puts tt fd plain d (forward_packet f 0 packet (length plain) none d)
  unfolding forward_packet broadcast_data_to_peers broadcast_from
  forward_packet-Puts d one device =
      let (w, ran, wire) = tuntap_write-wire d device in
      let d₁ : Daemon = record d { net = w } in
      let rest =
        ap
          (λ (ps : List Peer).
            broadcast_from f hdr_netpacket packet (length plain) true (some 0) 0 ps d₁)
          one in
      (d₁, rw ran rest, wire)

  pub route_packet-Puts :
      (d : Daemon)
      → d.peers ≡ q ∷ []
      → d.if_fd ≡ some fd
      → ForDevice f plain d
      → Puts tt fd plain d (route_packet f 0 packet (length plain) d)
  unfolding route_packet
  route_packet-Puts d one device here =
      let source = parse_packet_addr d.if_tap f.little packet (addressed f plain d) true in
      let (d₁, ran₁, wire₁) = deliver_packet-Puts d source one device in
      let (d₂, ran₂, wire₂) = forward_packet-Puts d one device in
      elim (Bool-cases (is_local_route (addressed f plain d) d.local_routes)) [
        | inl home ↦ (d₁, rw home ran₁, wire₁)
        | inr away ↦ elim here [
          | inl home ↦ absurd cc
          | inr unknown ↦ (d₂, rw away (rw unknown ran₂), wire₂)
        ]
      ]
