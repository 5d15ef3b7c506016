-- ===== src/PeerNet/Tunnel/Tests.antt =====
-- An IPv4 packet from the device of one daemon to the device of another, on the machine of
-- PeerNet/Sample.
use vpnd.Base.{
  get_elem?, ℕ, ◌≡◌, true, some, List, [], ◌∷◌, ◌++◌, refl, arith, inl, ok, take, false,
}
use vpnd.Netroute.{Netroute, netroute_in_array}
use vpnd.PacketHeader.{parse_packet_addr}
use vpnd.Encryption.Agreement.{Agree}
use vpnd.Peer.{Peer, is_local_route, get_peer_route, get_peer_route_from}
use vpnd.Daemon.{Daemon}
use vpnd.PeerNet.Sample.{
  repeat, machine, member, no_route, daemon_with, slow_kernel-Accepts, slow_kernel-Delivers,
}
use vpnd.PeerNet.Device.{local_packet}
use vpnd.PeerNet.System.{one_frame}
use vpnd.PeerNet.Tunnel.{Puts, Ready, Link}
use vpnd.PeerNet.Tunnel.Entering.{destination_of}
use vpnd.PeerNet.Tunnel.Leaving.{ForDevice}
use vpnd.PeerNet.Tunnel.Links.{incoming}
use vpnd.PeerNet.Tunnel.Relaying.{ForPeer, local_packet-relayed}
use vpnd.PeerNet.Tunnel.Carrying.{local_packet-one_frame}

-- From 10.0.0.8 to 10.0.0.9: 40 bytes with the header of the device, in a buffer of 48.
abbrev datagram : List ℕ
datagram = (0 ∷ 0 ∷ 8 ∷ 0 ∷ 69 ∷ repeat 11 0) ++ (10 ∷ 0 ∷ 0 ∷ 8 ∷ 10 ∷ 0 ∷ 0 ∷ 9 ∷ repeat 24 5)

abbrev own_address : Netroute
own_address = record { mac = false; ip4 = true; addr = 9 ∷ 0 ∷ 0 ∷ 10 ∷ repeat 12 0 }

abbrev near : Daemon
near = daemon_with member []

abbrev far : Daemon
far = record (daemon_with member []) { local_routes = own_address ∷ [] }

-- A daemon between the two, with the far one for its second peer.
abbrev onward : Peer
onward = record member { s = some 5; enc_ctx = some 2; dec_ctx = some 3; routes = own_address ∷ [] }

abbrev middle : Daemon
middle = record (daemon_with member []) {
  peers = member ∷ onward ∷ [];
  ctxs = some 0 ∷ some 0 ∷ some 0 ∷ some 0 ∷ [];
}

member-Ready : Ready member 3
member-Ready = record { alive = refl; authenticated = refl; socket = refl }

onward-Ready : Ready onward 5
onward-Ready = record { alive = refl; authenticated = refl; socket = refl }

-- The contexts of the machine change nothing.
plain-Agree : Agree machine.evp machine.evp 0 0 (take 40 datagram)
plain-Agree = record {
  blocks = take 40 datagram;
  padding = [];
  front = take 40 datagram;
  back = [];
  restarts = refl;
  updates = refl;
  ends = refl;
  other_restarts = refl;
  other_updates = refl;
  other_ends = refl;
  whole = refl;
  size = omega arith;
  filled = omega arith;
}

abbrev linked :
    (d d' : Daemon) (p q : Peer) (s t a b : ℕ)
    → Ready p s
    → Ready q t
    → p.enc_ctx ≡ some a
    → get_elem? d.ctxs a ≡ some (some 0)
    → q.dec_ctx ≡ some b
    → get_elem? d'.ctxs b ≡ some (some 0)
    → d.net.outgoing s ≡ []
    → Link machine machine d d' p q s t (take 40 datagram)
linked d d' p q s t a b ready ready' enc enc_live dec dec_live fresh = record {
  sealing = a;
  sealing_state = 0;
  opening = b;
  opening_state = 0;
  order = refl;
  near_ready = ready;
  far_ready = ready';
  sealing_ctx = enc;
  sealing_live = enc_live;
  opening_ctx = dec;
  opening_live = dec_live;
  agree = plain-Agree;
  fresh = fresh;
}

far-ForDevice : ForDevice machine (take 40 datagram) far
unfolding is_local_route netroute_in_array vpnd.Netroute.compare_netroutes
    vpnd.Netroute.compare_limit vpnd.Netroute.memcmp_same parse_packet_addr
    vpnd.PacketHeader.parse_ip_packet vpnd.PacketHeader.ether_type
far-ForDevice = inl refl

middle-ForPeer : ForPeer machine (take 40 datagram) middle 1
unfolding is_local_route netroute_in_array vpnd.Netroute.compare_netroutes
    vpnd.Netroute.compare_limit vpnd.Netroute.memcmp_same parse_packet_addr
    vpnd.PacketHeader.parse_ip_packet vpnd.PacketHeader.ether_type get_peer_route
    get_peer_route_from
middle-ForPeer = record { away = refl; known = refl }

local_packet-one_frame_example :
    (sent : Daemon) × (local_packet machine datagram 40 no_route near
      ≡ ok (some (destination_of machine datagram no_route near), sent))
    × Puts tt 4
        (take 40 datagram)
        far
        (one_frame machine 0 (repeat 2053 1) (incoming 3 (sent.net.outgoing 3) far))
local_packet-one_frame_example =
    local_packet-one_frame machine machine near far member member 3 3 4 40 datagram (repeat 2053 1)
      no_route slow_kernel-Accepts slow_kernel-Accepts slow_kernel-Delivers refl refl
      (linked near far member member 3 3 0 1 member-Ready member-Ready refl refl refl refl refl)
      (omega arith) refl refl far-ForDevice

local_packet-relayed_example :
    (sent relayed : Daemon) × (local_packet machine datagram 40 no_route near
      ≡ ok (some (destination_of machine datagram no_route near), sent))
    × (one_frame machine 0 (repeat 2053 1) (incoming 3 (sent.net.outgoing 3) middle)
        ≡ ok (some tt, relayed))
    × Puts tt 4
        (take 40 datagram)
        far
        (one_frame machine 0 (repeat 2053 1) (incoming 3 (relayed.net.outgoing 5) far))
local_packet-relayed_example =
    local_packet-relayed machine machine machine near middle far member member onward member 3 3 5 3
      4 40 0 1 datagram (repeat 2053 1) no_route slow_kernel-Accepts slow_kernel-Accepts
      slow_kernel-Accepts slow_kernel-Delivers slow_kernel-Delivers refl refl refl refl
      (linked near middle member member 3 3 0 1 member-Ready member-Ready refl refl refl refl refl)
      (linked middle far onward member 5 3 2 1 onward-Ready member-Ready refl refl refl refl refl)
      (λ h. omega (arith, h)) (omega arith) refl middle-ForPeer refl far-ForDevice
