-- ===== src/PeerNet/Process/Through.antt =====
-- From what holds of `deliver_packet`, the one step of `process_frame` that changes a peer, to what
-- holds of `process_frame`.
use vpnd.Base.{ℕ, true, false, not, Option, none, some, List, ◌++◌, ◌==◌, length, drop}
use vpnd.Protocol.{frame_header_size, hdr_auth, hdr_close, hdr_reserved, hdr_netpacket}
use vpnd.Netroute.{Netroute}
use vpnd.PacketHeader.{parse_packet_addr}
use vpnd.Peer.{Peer, is_local_route, get_peer_route}
use vpnd.Daemon.{Env, Daemon, Code, pure, ◌>>=◌}
use vpnd.Daemon.Stays.{
  Kept, Runs, by, Runs-bind, Runs-weaken, Keeps, Keeps-if, Keeps-attempt, Keeps-pure, Keeps-give_up,
  Keeps-peer_at,
}
use vpnd.PeerNet.Wire.Keeps.{
  send_data_to_peer-Keeps, broadcast-Keeps, decrypt_into-Keeps, tuntap_write-Keeps,
}
use vpnd.PeerNet.Process.{
  learn_route, deliver_packet, forward_packet, route_packet, process_netpacket, netpacket_case,
  process_frame,
}
use vpnd.PeerNet.Handshake.Keeps.{daemon-Keeps}
use vpnd.PeerNet.Process.Reading.{readable-Keeps}

-- From `learn_route` to `deliver_packet`.
module _ (e : Env) {R : Daemon → Daemon → Type 0} (trans : (a b c : Daemon) → R a b → R b c → R a c)
    (of_Kept : (a b : Daemon) → Kept a b → R a b)
    (learns : (i : ℕ) (route : Netroute) → Runs R (learn_route e i route)) where
  learning :
      (i : ℕ) (route : Netroute) (o : Option ℕ)
      → Runs R (elim o [ none ↦ learn_route e i route | some known ↦ pure tt ])
  learning i route none = learns i route
  learning i route (some known) = Runs-weaken of_Kept (Keeps-pure tt)

  pub deliver_packet-Runs :
      (i : ℕ) (packet : List ℕ) (len : ℕ) (route : Netroute)
      → Runs R (deliver_packet e i packet len route)
  unfolding deliver_packet
  deliver_packet-Runs i packet len route = Runs-bind trans (Runs-weaken of_Kept daemon-Keeps) λ d.
      Runs-bind trans (learning i route (get_peer_route route d.peers))
        λ _. Runs-weaken of_Kept (tuntap_write-Keeps e packet len)

-- From `deliver_packet` to `process_frame`, for the frames of peer `i`.
module _ (e : Env) (i : ℕ) {R : Daemon → Daemon → Type 0}
    (trans : (a b c : Daemon) → R a b → R b c → R a c) (of_Kept : (a b : Daemon) → Kept a b → R a b)
    (delivers : (packet : List ℕ) (len : ℕ) (route : Netroute)
      → Runs R (deliver_packet e i packet len route)) where
  kept : {A : Type 0} {m : Code A} → Keeps m → Runs R m
  kept h = Runs-weaken of_Kept h

  bind :
      {A B : Type 0} {m : Code A} {f : A → Code B}
      → Runs R m
      → ((a : A) → Runs R (f a))
      → Runs R (m >>= f)
  bind h k = Runs-bind trans h k

  forward_packet-Runs :
      (packet : List ℕ) (len : ℕ) (target : Option ℕ)
      → Runs R (forward_packet e i packet len target)
  unfolding forward_packet
  forward_packet-Runs packet len (some target) =
      kept (send_data_to_peer-Keeps e hdr_netpacket packet len true target)
  forward_packet-Runs packet len none =
      bind (kept (tuntap_write-Keeps e packet len))
        λ _. kept (broadcast-Keeps e hdr_netpacket packet len true (some i))

  route_packet-Runs : (packet : List ℕ) (len : ℕ) → Runs R (route_packet e i packet len)
  unfolding route_packet
  route_packet-Runs packet len = by λ d.
      let route = parse_packet_addr d.if_tap e.little packet e.stack_route false in
      (Keeps-if (is_local_route route d.local_routes)
          (delivers packet len (parse_packet_addr d.if_tap e.little packet route true))
          (forward_packet-Runs packet len (get_peer_route route d.peers))).keeps
        d

  process_netpacket-Runs : (buf : List ℕ) (len : ℕ) → Runs R (process_netpacket e i buf len)
  unfolding process_netpacket
  process_netpacket-Runs buf len = bind (kept (readable-Keeps buf frame_header_size len)) λ bytes.
      bind (kept (Keeps-peer_at i)) λ peer.
        bind (kept (decrypt_into-Keeps e 2064 peer.dec_ctx bytes))
          λ plain. route_packet-Runs (plain ++ drop (length plain) e.stack_packet) (length plain)

  netpacket_case-Runs : (buf : List ℕ) (len : ℕ) (p : Peer) → Runs R (netpacket_case e i buf len p)
  unfolding netpacket_case
  netpacket_case-Runs buf len p =
      Keeps-if (not p.authenticated) (kept (Keeps-pure tt)) (
        Keeps-if (len == 0) (kept (Keeps-pure tt)) (Keeps-attempt (process_netpacket-Runs buf len)))

  pub process_frame-Runs : (buf : List ℕ) (type len : ℕ) → Runs R (process_frame e i buf type len)
  unfolding process_frame
  process_frame-Runs buf type len = Keeps-if (type == hdr_auth) (kept (Keeps-pure tt)) (
      Keeps-if (type == hdr_close) (kept Keeps-give_up) (
        Keeps-if (type == hdr_reserved) (kept (Keeps-pure tt)) (
          Keeps-if (type == hdr_netpacket)
            (bind (kept (Keeps-peer_at i)) (netpacket_case-Runs buf len)) (kept (Keeps-pure tt)))))
