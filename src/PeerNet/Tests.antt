-- ===== src/PeerNet/Tests.antt =====
-- Runs of the code of src/peer_net.c, and the theorems about it at concrete inputs.
use vpnd.Base.{
  ℕ, get_elem?, Option, Outcome, Bool, true, false, zero, suc, ◌≢◌, arith, ◌≡◌, refl, none, some,
  List, [], ◌∷◌, ◌++◌, ◌==◌, ok, fault, stuck, take, if◌then◌else◌,
}
use vpnd.Peer.{Peer}
use vpnd.PeerNet.Wire.{broadcast_data_to_peers}
use vpnd.PeerNet.Wire.Flooding.{Apart, broadcast_data_to_peers-excludes}
use vpnd.Daemon.{Daemon}
use vpnd.Protocol.{hdr_close, hdr_netpacket, encode_frame_header, write_uint32}
use vpnd.Socket.{Net, net_send, send_loop}
use vpnd.Daemon.Stays.{Post, Holds}
use vpnd.PeerNet.Sample.{
  repeat, machine, slow_kernel-Accepts, slow_kernel-Delivers, wire, guest, member, no_route,
  daemon_with,
}
use vpnd.PeerNet.Wire.{send_frame, receive_on}
use vpnd.PeerNet.Wire.Delivery.{Delivered, receive-send}
use vpnd.PeerNet.Wire.Bounds.{Answered, receive_on-Answered}
use vpnd.PeerNet.Process.{process_frame}
use vpnd.PeerNet.Process.Dispatch.{process_frame_unauthenticated}
use vpnd.Peer.Routing.{Exclusive}
use vpnd.PacketHeader.{ether_type}
use vpnd.Peer.{is_local_route}
use vpnd.PeerNet.Device.{local_packet}
use vpnd.PeerNet.Device.Stale.{local_packet_not_ip}
use vpnd.PeerNet.Handshake.Finishes.{peer_receive-Ended}
use vpnd.PeerNet.Handshake.{authenticate_peer, receive_pubkey, peer_receive}
use vpnd.PeerNet.Handshake.Trusted.{Authentic, Unproven, authenticate_peer-Authentic}

abbrev hello : List ℕ
hello = 104 ∷ 101 ∷ 108 ∷ 108 ∷ 111 ∷ []

-- A frame of type 5 with the first four bytes, as it stands on the wire.
abbrev hello_frame : List ℕ
hello_frame = 5 ∷ 4 ∷ 0 ∷ 0 ∷ 0 ∷ 104 ∷ 101 ∷ 108 ∷ 108 ∷ []

abbrev blank_buf : List ℕ
blank_buf = repeat 2053 0

abbrev net_of : Outcome Net → Net
net_of (ok w) = w
net_of fault = wire []
net_of stuck = wire []

abbrev after_send : Net
after_send = net_of (send_frame machine 5 hello 4 (some 3) (wire []))

after_send_ok : send_frame machine 5 hello 4 (some 3) (wire []) ≡ ok after_send
unfolding send_frame send_loop net_send encode_frame_header write_uint32
after_send_ok = refl

-- The stream that the other daemon has on descriptor 3.
abbrev carried : Net
carried = record (wire []) { incoming = λ s. after_send.outgoing 3 ++ (1 ∷ []) }

receive-send_example :
    Delivered 3 5 4 (take 4 hello) (1 ∷ []) carried (receive_on machine (some 3) blank_buf carried)
receive-send_example =
    receive-send machine machine 5 4 3 3 hello (1 ∷ []) blank_buf (wire []) after_send carried
      slow_kernel-Accepts slow_kernel-Delivers refl (omega arith) (omega arith) refl refl
      after_send_ok refl

receive_on-Answered_example :
    Answered (wire hello_frame) (receive_on machine (some 3) blank_buf (wire hello_frame))
receive_on-Answered_example = receive_on-Answered machine (some 3) blank_buf (wire hello_frame) refl

process_frame_unauthenticated_example :
    process_frame machine 0 blank_buf 3 100 (daemon_with guest [])
    ≡ ok ((if 3 == hdr_close then none else some tt), daemon_with guest [])
process_frame_unauthenticated_example =
    process_frame_unauthenticated machine 0 blank_buf 3 100 (daemon_with guest []) guest refl refl

authenticate_peer-Authentic_example :
    Post
      (λ a. Authentic machine 0 (7 ∷ []))
      (Unproven 0 (7 ∷ []))
      (authenticate_peer machine 0 blank_buf (daemon_with guest (1 ∷ 1 ∷ 0 ∷ 0 ∷ 0 ∷ 7 ∷ [])))
authenticate_peer-Authentic_example =
    authenticate_peer-Authentic machine 0 blank_buf (daemon_with guest (1 ∷ 1 ∷ 0 ∷ 0 ∷ 0 ∷ 7 ∷ []))
      (guest, record { found = refl; keys = refl }, refl)

peer_receive-Ended_example :
    peer_receive machine 0 10 blank_buf (daemon_with guest (1 ∷ 1 ∷ 0 ∷ [])) ≢ stuck
peer_receive-Ended_example =
    peer_receive-Ended machine 0 10 blank_buf (daemon_with guest (1 ∷ 1 ∷ 0 ∷ [])) (omega arith)

-- One peer only, so its routes are its own.
one_peer-Exclusive : Exclusive (member ∷ [])
one_peer-Exclusive r zero zero p q hp hq sp sq = refl
one_peer-Exclusive r zero (suc j) p q hp hq sp sq = cc
one_peer-Exclusive r (suc i) j p q hp hq sp sq = cc

-- An AUTH header with the length 4096.
abbrev oversized : List ℕ
oversized = 1 ∷ 0 ∷ 16 ∷ 0 ∷ 0 ∷ []

-- A packet of type 0 and the route ::.
local_packet_not_ip_example :
    Post
      (λ next d'. (next ≡ no_route) × (is_local_route no_route d'.local_routes ≡ true))
      (λ d'. is_local_route no_route d'.local_routes ≡ true)
      (local_packet machine blank_buf 60 no_route (daemon_with member []))
unfolding ether_type
local_packet_not_ip_example =
    local_packet_not_ip machine blank_buf 60 no_route (daemon_with member []) refl refl refl refl

abbrev succeeds : Outcome (Option (Unit {0}) × Daemon) → Bool
succeeds (ok (some done, d)) = true
succeeds (ok (none, d)) = false
succeeds fault = false
succeeds stuck = false

-- A handshake with a trusted key runs to its end.
handshake_succeeds :
    succeeds
      (authenticate_peer machine 0 blank_buf (daemon_with guest (1 ∷ 1 ∷ 0 ∷ 0 ∷ 0 ∷ 7 ∷ [])))
    ≡ true
unfolding authenticate_peer vpnd.PeerNet.Handshake.send_pubkey vpnd.PeerNet.Wire.send_data_to_peer
    vpnd.Daemon.peer_at vpnd.PeerNet.Wire.send_to vpnd.PeerNet.Wire.emit send_frame send_loop
    net_send encode_frame_header receive_pubkey vpnd.PeerNet.Handshake.receive_auth
    vpnd.PeerNet.Wire.receive_frame receive_on vpnd.Socket.recv_loop vpnd.Socket.net_recv
    vpnd.Socket.put_at vpnd.PeerNet.Wire.receive_payload vpnd.Daemon.set_peer
    vpnd.Encryption.aes_init_ctx vpnd.PeerNet.Handshake.send_secret
    vpnd.PeerNet.Handshake.send_secrets vpnd.PeerNet.Handshake.start_ciphers
    vpnd.PeerNet.Process.readable vpnd.Protocol.decode_frame_header vpnd.Protocol.read_uint32
    write_uint32 vpnd.Rsa.is_trusted_key vpnd.Rsa.keys_match vpnd.Rsa.load_rsa_key_from_string
    vpnd.Rsa.rsa_encrypt vpnd.Rsa.strncmp_same
handshake_succeeds = refl

-- The only peer is the one that is left out.
only_guest :
    (k : ℕ) (p : Peer) → get_elem? (daemon_with member []).peers k ≡ some p → k ≢ 0 → Apart 3 p.s
only_guest zero p h far = absurd (far refl)
only_guest (suc k) p h far = cc

broadcast_data_to_peers-excludes_example :
    Holds
      (λ d'. d'.net.outgoing 3 ≡ [])
      (broadcast_data_to_peers machine hdr_netpacket hello 5 true (some 0) (daemon_with member []))
broadcast_data_to_peers-excludes_example =
    broadcast_data_to_peers-excludes machine 3 hdr_netpacket hello 5 true 0 (daemon_with member [])
      only_guest
