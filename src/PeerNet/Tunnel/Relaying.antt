-- ===== src/PeerNet/Tunnel/Relaying.antt =====
-- A packet that a daemon between two others passes on: `process_netpacket` of src/peer_net.c with a
-- destination that another peer has.
use vpnd.Base.{
  ℕ, ◌+◌, ◌≤◌, ◌≡◌, ◌≢◌, ap, ◌∙◌, false, some, List, [], ◌∷◌, length, take, drop, get_elem?, set,
  ok, take-length-append, get_elem?-set_other,
}
use vpnd.Protocol.{frame_payload_maxsize, frame_maxsize}
use vpnd.Netroute.{Netroute}
use vpnd.Socket.{Net}
use vpnd.Socket.Receiving.{Delivers}
use vpnd.Socket.Sending.{Accepts}
use vpnd.Encryption.{CtxStore, aes_encrypt}
use vpnd.Peer.{Peer, is_local_route, get_peer_route}
use vpnd.Daemon.{Env, Daemon, no_result, peer_at}
use vpnd.PeerNet.Wire.{send_data_to_peer}
use vpnd.PeerNet.Process.{forward_packet, route_packet}
use vpnd.PeerNet.Device.{local_packet}
use vpnd.PeerNet.System.{one_frame}
use vpnd.PeerNet.Tunnel.{Puts, Ready, Link}
use vpnd.PeerNet.Tunnel.Entering.{sealed, destination_of, send_to-Puts, local_packet-Puts}
use vpnd.PeerNet.Tunnel.Opening.{in_front, addressed}
use vpnd.PeerNet.Tunnel.Leaving.{ForDevice}
use vpnd.PeerNet.Tunnel.Links.{incoming, cipher, seals, received, take-fits}
use vpnd.PeerNet.Tunnel.Carrying.{delivered}

-- The packet is for no address of this host, and peer `j` is the first that has its destination.
pub record ForPeer (f : Env) (text : List ℕ) (d : Daemon) (j : ℕ) : Type 0 where
  pub away : is_local_route (addressed f text d) d.local_routes ≡ false
  pub known : get_peer_route (addressed f text d) d.peers ≡ some j

-- The packet goes to the peer that has the destination, under the context of that peer.
route_packet-relays :
    (f : Env) (d : Daemon) (i j u : ℕ) (r : Peer) (text bytes : List ℕ) (ctxs : CtxStore)
    → Accepts f.kernel
    → get_elem? d.peers j ≡ some r
    → Ready r u
    → ForPeer f text d j
    → aes_encrypt f.evp d.ctxs r.enc_ctx text frame_payload_maxsize ≡ ok (some bytes, ctxs)
    → Puts tt u (sealed f bytes) d (route_packet f i (in_front f text) (length text) d)
unfolding route_packet forward_packet send_data_to_peer peer_at
route_packet-relays f d i j u r text bytes ctxs accepts found ready for_peer encrypts =
    let whole : take (length text) (in_front f text) ≡ text =
      take-length-append text (drop (length text) f.stack_packet) in
    let (d', ran, wire) =
      send_to-Puts f r u (length text) (in_front f text) bytes ctxs accepts d ready (
        ap (λ (b : List ℕ). aes_encrypt f.evp d.ctxs r.enc_ctx b frame_payload_maxsize) whole
        ∙ encrypts) in
    (d', rw (for_peer.away, for_peer.known, found) ran, wire)

-- The second connection is as before, once a frame of the first has been received.
still :
    (f g : Env) (mid far : Daemon) (r v : Peer) (u x opening state : ℕ) (text : List ℕ) (w : Net)
    (link : Link f g mid far r v u x text)
    → opening ≢ link.sealing
    → w.outgoing ≡ mid.net.outgoing
    → Link f g (record mid { net = w; ctxs = set mid.ctxs opening (some state) }) far r v u x text
still f g mid far r v u x opening state text w link apart out = record {
  sealing = link.sealing;
  sealing_state = link.sealing_state;
  opening = link.opening;
  opening_state = link.opening_state;
  order = link.order;
  near_ready = link.near_ready;
  far_ready = link.far_ready;
  sealing_ctx = link.sealing_ctx;
  sealing_live =
      get_elem?-set_other mid.ctxs opening link.sealing (some state) apart ∙ link.sealing_live;
  opening_ctx = link.opening_ctx;
  opening_live = link.opening_live;
  agree = link.agree;
  fresh = ap (λ (o : ℕ → List ℕ). o u) out ∙ link.fresh;
}

-- A packet of at most 2032 bytes that is read from the device of one daemon goes through a second one,
-- which has its destination among the routes of another peer, and is written, byte for byte, to the
-- device of the third: `local_packet` at the first, one turn of the loop of `peer_receive` at the
-- second and one at the third all return. The second daemon opens and seals with different contexts;
-- the first and the third have no other peer; the two connections are as Link says, and the third
-- daemon has the destination itself or knows no peer for it.
pub local_packet-relayed :
    (e f g : Env) (near mid far : Daemon) (p q r v : Peer) (s t u x fd n i j : ℕ)
    (buf room : List ℕ) (route : Netroute)
    → Accepts e.kernel
    → Accepts f.kernel
    → Accepts g.kernel
    → Delivers f.kernel
    → Delivers g.kernel
    → near.peers ≡ p ∷ []
    → get_elem? mid.peers i ≡ some q
    → get_elem? mid.peers j ≡ some r
    → far.peers ≡ v ∷ []
    → (first : Link e f near mid p q s t (take n buf))
    → (second : Link f g mid far r v u x (take n buf)) → first.opening ≢ second.sealing
    → n + 16 ≤ frame_payload_maxsize
    → length room ≡ frame_maxsize
    → ForPeer f (take n buf) mid j
    → far.if_fd ≡ some fd
    → ForDevice g (take n buf) far
    → (sent relayed : Daemon) × (local_packet e buf n route near
        ≡ ok (some (destination_of e buf route near), sent))
      × (one_frame f i room (incoming t (sent.net.outgoing s) mid) ≡ ok (some tt, relayed))
      × Puts tt fd (take n buf) far (one_frame g 0 room (incoming x (relayed.net.outgoing u) far))
local_packet-relayed e f g near mid far p q r v s t u x fd n i j buf room route accepts accepts'
      accepts'' live live' one found found' one' first second apart small size for_peer device
      home =
    let text : List ℕ = take n buf in
    let fits : length text + 16 ≤ frame_payload_maxsize = take-fits n buf small in
    let (ctxs, encrypts) = seals e f near mid p q s t text first fits in
    let (sent, ran, wire) =
      local_packet-Puts e p s n buf (cipher e f near mid p q s t text first fits) ctxs accepts near
        route one first.near_ready encrypts in
    let (w, state, opened, out) =
      received e f near mid p q s t text first fits i room (sent.net.outgoing s) live found size
        wire in
    let mid₁ : Daemon = record mid { net = w; ctxs = set mid.ctxs first.opening (some state) } in
    let link : Link f g mid₁ far r v u x text =
      still f g mid far r v u x first.opening state text w second apart out in
    let (ctxs', encrypts') = seals f g mid₁ far r v u x text link fits in
    let (relayed, passed, wire') =
      route_packet-relays f mid₁ i j u r text (cipher f g mid₁ far r v u x text link fits) ctxs'
        accepts' found' second.near_ready (record { away = for_peer.away; known = for_peer.known })
        encrypts' in
    (
      sent,
      relayed,
      ran,
      opened ∙ ap no_result passed,
      delivered f g mid₁ far r v u x text link fits fd room (relayed.net.outgoing u) accepts'' live'
          one' size device home wire',
    )
