-- ===== src/PeerNet/System/Tests.antt =====
-- A connection from its accept to its end, and the theorems on it at concrete inputs.
use vpnd.Base.{
  take, drop, arith, ℕ, ◌≡◌, refl, true, false, Option, some, List, [], ◌∷◌, Outcome, ok, fault,
  stuck, get_elem?,
}
use vpnd.Peer.{Peer, Connection, set_peer_info}
use vpnd.Daemon.{Daemon}
use vpnd.PeerNet.Sample.{repeat, machine, guest, daemon_with}
use vpnd.PeerNet.Handshake.{authenticate_peer}
use vpnd.PeerNet.Connection.{peer_connection, connection_thread, close_socket, thread_end, run_all}
use vpnd.PeerNet.Connection.Takeover.{close_socket-takeover}
use vpnd.Daemon.Descriptors.{is_open}
use vpnd.PeerNet.System.{
  Phase, idle, shaking, streaming, System, at, accepts, authenticates, Reach, done, then_step,
}
use vpnd.PeerNet.System.Safety.{Safe}
use vpnd.PeerNet.System.Invariant.{Reach-Safe}
use vpnd.PeerNet.System.Threads.{connection_thread-Reach}

abbrev blank_buf : List ℕ
blank_buf = repeat 2053 0

-- The frame of a handshake with the key 7.
abbrev key_frame : List ℕ
key_frame = 1 ∷ 1 ∷ 0 ∷ 0 ∷ 0 ∷ 7 ∷ []

abbrev visitor : Connection
visitor = record { address = []; port = 1; s = some 3; is_client = false }

abbrev empty_daemon : Daemon
empty_daemon = record (daemon_with guest key_frame) { peers = [] }

abbrev at_start : System
at_start = record { daemon = empty_daemon; phase = λ i. idle; closers = [] }

abbrev daemon_of : {A : Type 0} → Outcome (Option A × Daemon) → Daemon
daemon_of (ok (o, d)) = d
daemon_of fault = empty_daemon
daemon_of stuck = empty_daemon

abbrev accepted : Daemon
accepted = daemon_of (peer_connection true true visitor empty_daemon)

accepted_ok : peer_connection true true visitor empty_daemon ≡ ok (some 0, accepted)
unfolding peer_connection vpnd.Peer.add_peer vpnd.Peer.add_peer_from vpnd.Peer.create_peer
    vpnd.Peer.set_peer_info vpnd.Peer.initialize_peer vpnd.Peer.free_if
accepted_ok = refl

abbrev proven : Daemon
proven = daemon_of (authenticate_peer machine 0 blank_buf accepted)

proven_ok : authenticate_peer machine 0 blank_buf accepted ≡ ok (some tt, proven)
unfolding peer_connection vpnd.Peer.add_peer vpnd.Peer.add_peer_from vpnd.Peer.create_peer
    vpnd.Peer.set_peer_info vpnd.Peer.initialize_peer vpnd.Peer.free_if authenticate_peer
    vpnd.PeerNet.Handshake.send_pubkey vpnd.PeerNet.Wire.send_data_to_peer vpnd.Daemon.peer_at
    vpnd.PeerNet.Wire.send_to vpnd.PeerNet.Wire.emit vpnd.PeerNet.Wire.send_frame
    vpnd.Socket.send_loop vpnd.Socket.net_send vpnd.Protocol.encode_frame_header
    vpnd.PeerNet.Handshake.receive_pubkey vpnd.PeerNet.Handshake.receive_auth
    vpnd.PeerNet.Wire.receive_frame vpnd.PeerNet.Wire.receive_on vpnd.Socket.recv_loop
    vpnd.Socket.net_recv vpnd.Socket.put_at vpnd.PeerNet.Wire.receive_payload vpnd.Daemon.set_peer
    vpnd.Encryption.aes_init_ctx vpnd.PeerNet.Handshake.send_secret
    vpnd.PeerNet.Handshake.send_secrets vpnd.PeerNet.Handshake.start_ciphers
    vpnd.PeerNet.Process.readable vpnd.Protocol.decode_frame_header vpnd.Protocol.read_uint32
    vpnd.Protocol.write_uint32 vpnd.Rsa.is_trusted_key vpnd.Rsa.keys_match
    vpnd.Rsa.load_rsa_key_from_string vpnd.Rsa.rsa_encrypt vpnd.Rsa.strncmp_same
proven_ok = refl

Reach-Safe_example : Safe machine proven (at (at (λ i. idle) 0 shaking) 0 streaming)
Reach-Safe_example =
    Reach-Safe machine at_start
      (record { daemon = proven; phase = at (at (λ i. idle) 0 shaking) 0 streaming; closers = [] })
      (refl, refl, λ i. refl)
      (then_step (then_step done (accepts true true visitor 0 accepted accepted_ok))
        (authenticates 0 blank_buf proven refl proven_ok))

abbrev shaking_system : System
shaking_system = record {
  daemon = daemon_with guest [];
  phase = at (λ i. idle) 0 shaking;
  closers = [];
}

abbrev gone : Daemon
gone = daemon_of (connection_thread machine 0 4 blank_buf (daemon_with guest []))

gone_ok : connection_thread machine 0 4 blank_buf (daemon_with guest []) ≡ ok (some tt, gone)
unfolding connection_thread vpnd.PeerNet.Handshake.peer_receive vpnd.PeerNet.Connection.mark_dead
    close_socket authenticate_peer vpnd.PeerNet.Handshake.send_pubkey
    vpnd.PeerNet.Wire.send_data_to_peer vpnd.Daemon.peer_at vpnd.PeerNet.Wire.send_to
    vpnd.PeerNet.Wire.emit vpnd.PeerNet.Wire.send_frame vpnd.Socket.send_loop vpnd.Socket.net_send
    vpnd.Protocol.encode_frame_header vpnd.PeerNet.Handshake.receive_pubkey
    vpnd.PeerNet.Handshake.receive_auth vpnd.PeerNet.Wire.receive_frame vpnd.PeerNet.Wire.receive_on
    vpnd.Socket.recv_loop vpnd.Socket.net_recv vpnd.Daemon.set_peer vpnd.Protocol.write_uint32
gone_ok = refl

connection_thread-Reach_example :
    (phase : ℕ → Phase) × Reach machine shaking_system
      (record { daemon = gone; phase = phase; closers = [] })
    × (phase 0 ≡ idle)
connection_thread-Reach_example =
    connection_thread-Reach machine shaking_system 0 4 blank_buf gone refl gone_ok

-- The guest of slot 0 leaves while a newcomer arrives on descriptor 5.
abbrev newcomer : Connection
newcomer = record { address = []; port = 1; s = some 5; is_client = false }

abbrev welcomed : Peer
welcomed = record guest { s = some 5; address = some [] }

abbrev busy : Daemon
busy = record (daemon_with guest []) { fds = 3 ∷ 4 ∷ 5 ∷ [] }

welcomed_ok :
    set_peer_info true (record guest { alive = false }) newcomer busy.ctxs
    ≡ ok (welcomed, busy.ctxs)
unfolding set_peer_info vpnd.Peer.free_if
welcomed_ok = refl

close_socket-takeover_example :
    (d₁ d₂ d₃ : Daemon) × (run_all (take 1 (thread_end 0)) busy ≡ ok (some tt, d₁))
    × (peer_connection true true newcomer d₁ ≡ ok (some 0, d₂))
    × (run_all (drop 1 (thread_end 0)) d₂ ≡ ok (some tt, d₃))
    × (get_elem? d₃.peers 0 ≡ some welcomed)
    × (welcomed.alive ≡ true)
    × (welcomed.s ≡ some 5)
    × (is_open 5 d₃.fds ≡ false)
    × (is_open 3 d₃.fds ≡ true)
close_socket-takeover_example =
    close_socket-takeover true true newcomer 0 3 5 guest welcomed busy.ctxs busy refl refl refl refl
      refl (λ k x below at. absurd (omega (arith, below))) welcomed_ok
