-- ===== src/PeerNet/Process.antt =====
-- What is done with a received frame: `process_netpacket` and `process_frame` of src/peer_net.c.
pub mod Dispatch
pub mod Reading
pub mod Through
pub mod Learning
pub mod Owners
mod Tests
use vpnd.Base.{
  ℕ, ◌+◌, Bool, true, false, not, Option, none, some, List, ◌++◌, if◌then◌else◌, leb, ◌==◌, length,
  take, drop,
}
use vpnd.Protocol.{
  frame_payload_maxsize, frame_header_size, hdr_auth, hdr_close, hdr_reserved, hdr_netpacket,
}
use vpnd.Netroute.{Netroute, add_netroute}
use vpnd.PacketHeader.{parse_packet_addr}
use vpnd.Peer.{Peer, is_local_route, get_peer_route}
use vpnd.Daemon.{
  Env, Daemon, Code, pure, give_up, crash, attempt, ◌>>=◌, ◌>>◌, daemon, peer_at, set_peer,
}
use vpnd.PeerNet.Wire.{send_data_to_peer, broadcast_data_to_peers, tuntap_write, decrypt_into}

abbrev pub aes_block_size : ℕ
aes_block_size = 16

-- The `n` bytes at `buf + i` that a call reads: a fault past the end of the buffer.
unfoldable pub readable : List ℕ → ℕ → ℕ → Code (List ℕ)
readable buf i n = if leb (i + n) (length buf) then pure (take n (drop i buf)) else crash

-- `add_netroute(&route, &peer->routes)`
unfoldable pub learn_route : Env → ℕ → Netroute → Code (Unit {0})
learn_route e i route = do
  peer ← peer_at i
  d ← daemon
  set_peer i (record peer { routes = add_netroute (e.memory d.net.calls) route peer.routes })

-- The packet is for this host: its source is learnt unless some peer has it, and it goes to the
-- device.
unfoldable pub deliver_packet : Env → ℕ → List ℕ → ℕ → Netroute → Code (Unit {0})
deliver_packet e i packet len route = do
  d ← daemon
  (elim (get_peer_route route d.peers) [ none ↦ learn_route e i route | some known ↦ pure tt ])
  tuntap_write e packet len

-- The packet is for no local address: to the peer that has the address, or to all others.
unfoldable pub forward_packet : Env → ℕ → List ℕ → ℕ → Option ℕ → Code (Unit {0})
forward_packet e i packet len (some target) =
    send_data_to_peer e hdr_netpacket packet len true target
forward_packet e i packet len none = do
  tuntap_write e packet len
  broadcast_data_to_peers e hdr_netpacket packet len true (some i)

-- The part of `process_netpacket` behind the decryption.
unfoldable pub route_packet : Env → ℕ → List ℕ → ℕ → Code (Unit {0})
route_packet e i packet len d =
    let route = parse_packet_addr d.if_tap e.little packet e.stack_route false in
    (if is_local_route route d.local_routes
        then deliver_packet e i packet len (parse_packet_addr d.if_tap e.little packet route true)
        else forward_packet e i packet len (get_peer_route route d.peers))
      d

-- `data` is `buf + FRAME_HEADER_SIZE`; the plaintext goes over the front of `packet_data`.
unfoldable pub process_netpacket : Env → ℕ → List ℕ → ℕ → Code (Unit {0})
process_netpacket e i buf data_len = do
  bytes ← readable buf frame_header_size data_len
  peer ← peer_at i
  plain ← decrypt_into e (frame_payload_maxsize + aes_block_size) peer.dec_ctx bytes
  route_packet e i (plain ++ drop (length plain) e.stack_packet) (length plain)

-- `case FRAME_HDR_NETPACKET`; what `process_netpacket` returns early is not seen here.
unfoldable pub netpacket_case : Env → ℕ → List ℕ → ℕ → Peer → Code (Unit {0})
netpacket_case e i buf data_len peer =
    if not peer.authenticated
    then pure tt
    else if data_len == 0
    then pure tt
    else attempt (process_netpacket e i buf data_len)

-- `give_up` is the return of -1.
unfoldable pub process_frame : Env → ℕ → List ℕ → ℕ → ℕ → Code (Unit {0})
unfolding netpacket_case
process_frame e i buf header_type data_len =
    if header_type == hdr_auth
    then pure tt
    else if header_type == hdr_close
    then give_up
    else if header_type == hdr_reserved
    then pure tt
    else if header_type == hdr_netpacket
    then (peer_at i >>= netpacket_case e i buf data_len)
    else pure tt
