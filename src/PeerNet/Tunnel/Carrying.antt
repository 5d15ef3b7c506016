-- ===== src/PeerNet/Tunnel/Carrying.antt =====
-- From the device of one daemon to the device of another: `local_packet` of PeerNet/Device, a
-- connection that carries the stream, and one turn of the loop of `peer_receive` of
-- src/peer_net.c.
use vpnd.Base.{
  ℕ, ◌+◌, ◌≤◌, ◌≡◌, ap, ◌∙◌, some, List, [], ◌∷◌, ◌++◌, length, take, get_elem?, set, ok,
}
use vpnd.Protocol.{frame_payload_maxsize, frame_maxsize}
use vpnd.Netroute.{Netroute}
use vpnd.Socket.Receiving.{Delivers}
use vpnd.Socket.Sending.{Accepts}
use vpnd.Peer.{Peer}
use vpnd.Daemon.{Env, Daemon, no_result}
use vpnd.PeerNet.Device.{local_packet}
use vpnd.PeerNet.System.{one_frame}
use vpnd.PeerNet.Tunnel.{Puts, Link}
use vpnd.PeerNet.Tunnel.Entering.{sealed, destination_of, local_packet-Puts}
use vpnd.PeerNet.Tunnel.Leaving.{ForDevice, route_packet-Puts}
use vpnd.PeerNet.Tunnel.Links.{incoming, cipher, seals, received, take-fits}

module _ (e f : Env) (near far : Daemon) (p q : Peer) (s t : ℕ) (text : List ℕ)
    (link : Link e f near far p q s t text) (fits : length text + 16 ≤ frame_payload_maxsize) where
  -- What the near end has put on the connection is written to the device of the far end.
  pub delivered :
      (fd : ℕ) (room bytes : List ℕ)
      → Accepts f.kernel
      → Delivers f.kernel
      → far.peers ≡ q ∷ []
      → length room ≡ frame_maxsize
      → far.if_fd ≡ some fd
      → ForDevice f text far
      → bytes ≡ near.net.outgoing s ++ sealed e (cipher e f near far p q s t text link fits)
      → Puts tt fd text far (one_frame f 0 room (incoming t bytes far))
  delivered fd room bytes accepts live one size device home put =
      let found : get_elem? far.peers 0 ≡ some q = ap (λ (ps : List Peer). get_elem? ps 0) one in
      let (w, state, ran, out) =
        received e f near far p q s t text link fits 0 room bytes live found size put in
      let d : Daemon = record far { net = w; ctxs = set far.ctxs link.opening (some state) } in
      let (d', routed, wire) = route_packet-Puts f q fd text accepts d one device home in
      (d', ran ∙ ap no_result routed, wire ∙ ap (λ (o : ℕ → List ℕ). o fd ++ text) out)

-- A packet of at most 2032 bytes that is read from the device of one daemon is written, byte for byte,
-- to the device of the daemon at the other end of a connection: `local_packet` returns, and
-- one turn of the loop of `peer_receive` over the stream that it has put on its socket returns and has
-- written the packet, however the kernels cut the stream. Either daemon has the other for its only
-- peer, which is authenticated and alive; the contexts of the two ends agree on the packet; the byte
-- order is the same; nothing was sent before; and the receiver has the destination itself or knows no
-- peer for it.
pub local_packet-one_frame :
    (e f : Env) (near far : Daemon) (p q : Peer) (s t fd n : ℕ) (buf room : List ℕ)
    (route : Netroute)
    → Accepts e.kernel
    → Accepts f.kernel
    → Delivers f.kernel
    → near.peers ≡ p ∷ []
    → far.peers ≡ q ∷ []
    → Link e f near far p q s t (take n buf)
    → n + 16 ≤ frame_payload_maxsize
    → length room ≡ frame_maxsize
    → far.if_fd ≡ some fd
    → ForDevice f (take n buf) far
    → (sent : Daemon) × (local_packet e buf n route near
        ≡ ok (some (destination_of e buf route near), sent))
      × Puts tt fd (take n buf) far (one_frame f 0 room (incoming t (sent.net.outgoing s) far))
local_packet-one_frame e f near far p q s t fd n buf room route accepts accepts' live one one' link
      small size device home =
    let text : List ℕ = take n buf in
    let fits : length text + 16 ≤ frame_payload_maxsize = take-fits n buf small in
    let (ctxs, encrypts) = seals e f near far p q s t text link fits in
    let (sent, ran, wire) =
      local_packet-Puts e p s n buf (cipher e f near far p q s t text link fits) ctxs accepts near
        route one link.near_ready encrypts in
    (
      sent,
      ran,
      delivered e f near far p q s t text link fits fd room (sent.net.outgoing s) accepts' live one'
          size device home wire,
    )
