-- ===== src/PeerNet/Device.antt =====
-- Packets from the TUN/TAP device: `_broadcast_tuntap_device` of src/peer.c and `tuntap_read` of
-- src/interface.c. The variable `route` lives through all turns of the loop, so it is passed from one
-- to the next.
pub mod Local
pub mod Stale
use vpnd.Base.{
  ℕ, zero, suc, Bool, true, false, not, Option, none, some, List, [], ◌++◌, ◌∷◌, if◌then◌else◌,
  ◌==◌, length, drop, Outcome, ok, fault, stuck,
}
use vpnd.Protocol.{frame_payload_maxsize, hdr_netpacket}
use vpnd.Netroute.{Netroute, add_netroute}
use vpnd.PacketHeader.{parse_packet_addr}
use vpnd.Socket.{Net, net_recv}
use vpnd.Peer.{is_local_route, get_peer_route}
use vpnd.Daemon.{Env, Daemon, Code, pure, ◌>>=◌, ◌>>◌, daemon, store}
use vpnd.PeerNet.Wire.{send_data_to_peer, broadcast_data_to_peers}

-- `read`, unless there is no device.
abbrev pub read_fd : Env → ℕ → Option ℕ → Code (List ℕ)
read_fd e nbytes none d = ok (some [], d)
read_fd e nbytes (some fd) d =
    let r = net_recv e.kernel (some fd) nbytes d.net in ok (some r.0, record d { net = r.1 })

-- The bytes that `read` gives; none for a result that is not positive.
unfoldable pub tuntap_read : Env → ℕ → Code (List ℕ)
tuntap_read e nbytes d = read_fd e nbytes d.if_fd d

-- The source of a local packet is a local route from then on.
unfoldable pub learn_local : Env → Netroute → Code (Unit {0})
learn_local e route d =
    if not (is_local_route route d.local_routes)
    then ok (
      some tt,
      record d { local_routes = add_netroute (e.memory d.net.calls) route d.local_routes },
    )
    else ok (some tt, d)

unfoldable pub send_toward : Env → List ℕ → ℕ → Option ℕ → Code (Unit {0})
send_toward e buf n (some target) = send_data_to_peer e hdr_netpacket buf n true target
send_toward e buf n none = broadcast_data_to_peers e hdr_netpacket buf n true none

-- One turn of the loop: the route that it leaves for the next.
unfoldable pub local_packet : Env → List ℕ → ℕ → Netroute → Code Netroute
local_packet e buf n route = do
  d ← daemon
  let source = parse_packet_addr d.if_tap e.little buf route true
  learn_local e source
  let destination = parse_packet_addr d.if_tap e.little buf source false
  send_toward e buf n (get_peer_route destination d.peers)
  pure destination

-- The loop: it ends with the device, or with the fuel.
unfoldable pub broadcast_tuntap_device : Env → ℕ → List ℕ → Netroute → Code (Unit {0})
broadcast_tuntap_device e zero buf route = λ d. stuck
broadcast_tuntap_device e (suc fuel) buf route = tuntap_read e frame_payload_maxsize >>= λ bytes.
    (if length bytes == 0
      then pure tt
      else (local_packet e (bytes ++ drop (length bytes) buf) (length bytes) route >>= λ next.
          broadcast_tuntap_device e fuel (bytes ++ drop (length bytes) buf) next))
