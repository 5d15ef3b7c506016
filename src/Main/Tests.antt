-- ===== src/Main/Tests.antt =====
-- Runs of src/vpnd.c and src/signals.c on a sample machine.
use vpnd.Base.{
  zero, suc, Option, get_elem?, ◌++◌, ℕ, ◌≡◌, ◌≢◌, refl, true, false, none, some, List, [], ◌∷◌,
  ◌&&◌, ◌==◌, if◌then◌else◌, length, Outcome, ok, fault, stuck, ◌>>=◌,
}
use vpnd.Base.Text.{codes, same_text}
use vpnd.Config.{Args, pos, negsuc}
use vpnd.Daemon.{Code, Daemon}
use vpnd.PeerNet.Sample.{
  slow_kernel-Accepts, slow_kernel-Delivers, repeat, machine, daemon_with, member, guest,
}
use vpnd.KeyRing.{Files, KeyRing, load_daemon_privkey, load_daemon_pubkey}
use vpnd.Interface.Sample.{sample_driver}
use vpnd.Tcp.Sample.{os_accepting, remote4}
use vpnd.Main.{
  execute_script, Machine, Program, interrupt_program_handler, close_vpnd, run_vpnd, exit_process,
}
use vpnd.Peer.{Peer}
use vpnd.PeerNet.Wire.Flooding.{Apart}
use vpnd.PeerNet.Handshake.{receive_frames}
use vpnd.Main.Farewell.{interrupt_program_handler-ends_peer}
use vpnd.Main.Startup.{run_vpnd-double_free}

abbrev blank_buf : List ℕ
blank_buf = repeat 2053 0

-- Only "e/key.priv" is there.
abbrev private_only : Files
private_only = record {
  contents = λ path. if length path == 10 then some (5 ∷ []) else none;
  entries = λ path. none;
}

abbrev sample_machine : Machine
sample_machine = record {
  env = machine;
  os = os_accepting remote4;
  driver = sample_driver;
  files = private_only;
  memory = λ n. true;
  system = λ path devname.
      if same_text path (codes "e/dev-up") && same_text devname (codes "tun0")
      then pos 3
      else negsuc 0;
}

abbrev empty_ring : KeyRing
empty_ring = record {
  objects = [];
  daemon_privkey = none;
  daemon_pubkey = none;
  trusted_keys = [];
  allocs = 0;
}

abbrev started : Program
started = record {
  daemon = record (daemon_with member []) { peers = [] };
  ring = empty_ring;
  config_dir = some (101 ∷ []);
  config_freed = false;
  already_closing = false;
}

abbrev sample_args : Args
sample_args = record {
  detach = false;
  tap_mode = false;
  server = true;
  dev = [];
  address = none;
  port = 9678;
  no_ipv4 = false;
  no_ipv6 = false;
}

-- The private key is the first object.
abbrev with_private : KeyRing
with_private = record empty_ring { objects = some 5 ∷ []; daemon_privkey = some 0; allocs = 1 }

private_ok :
    load_daemon_privkey machine.rsa private_only (λ n. true) (101 ∷ []) empty_ring
    ≡ ok (some 0, with_private)
unfolding load_daemon_privkey vpnd.KeyRing.replace_privkey vpnd.KeyRing.rsa_free vpnd.KeyRing.place
    vpnd.KeyRing.load_rsa_key vpnd.Config.join_paths
private_ok = refl

public_ok :
    load_daemon_pubkey machine.rsa private_only (λ n. true) (101 ∷ []) with_private
    ≡ ok (none, record with_private { allocs = 2 })
unfolding load_daemon_pubkey vpnd.KeyRing.replace_pubkey vpnd.KeyRing.rsa_free vpnd.KeyRing.place
    vpnd.KeyRing.load_rsa_key vpnd.Config.join_paths
public_ok = refl

run_vpnd-double_free_example :
    (run_vpnd sample_machine sample_args 3 blank_buf started >>= exit_process) ≡ fault
run_vpnd-double_free_example =
    run_vpnd-double_free sample_machine sample_args 3 blank_buf (101 ∷ []) started 0 with_private
      (record with_private { allocs = 2 }) refl refl refl private_ok public_ok

abbrev program_of : Outcome Program → Program
program_of (ok p) = p
program_of fault = started
program_of stuck = started

-- With one connected peer.
abbrev busy : Program
busy = record started { daemon = daemon_with guest [] }

abbrev closed : Program
closed = program_of (close_vpnd busy)

closed_ok : close_vpnd busy ≡ ok closed
unfolding close_vpnd vpnd.Main.closed_sockets vpnd.Interface.tuntap_close vpnd.Peer.destroy_peers
    vpnd.Peer.destroy_peer vpnd.Peer.free_if vpnd.KeyRing.free_daemon_keys
    vpnd.KeyRing.clear_trusted_keys vpnd.KeyRing.free_all vpnd.KeyRing.rsa_free
    vpnd.Main.free_config_dir
closed_ok = refl

abbrev serving : Daemon
serving = record (daemon_with guest []) { tcp4_socket = some 5 }

abbrev pure_rest : Code (Unit {0})
pure_rest d = ok (some tt, d)

abbrev daemon_of : Outcome (Option (Unit {0}) × Daemon) → Daemon
daemon_of (ok (o, d)) = d
daemon_of fault = serving
daemon_of stuck = serving

abbrev interrupted : Daemon
interrupted = daemon_of (interrupt_program_handler machine serving)

interrupted_ok : interrupt_program_handler machine serving ≡ ok (some tt, interrupted)
unfolding interrupt_program_handler vpnd.Tcp.tcp_server_close vpnd.Interface.tuntap_close
    vpnd.PeerNet.Wire.broadcast_data_to_peers vpnd.PeerNet.Wire.broadcast_from
    vpnd.PeerNet.Wire.send_to vpnd.PeerNet.Wire.emit vpnd.PeerNet.Wire.send_frame
    vpnd.Socket.send_loop vpnd.Socket.net_send vpnd.Protocol.encode_frame_header
    vpnd.Protocol.write_uint32
interrupted_ok = refl

-- The daemon at the other end.
abbrev partner : Daemon
partner = daemon_with member (interrupted.net.outgoing 3 ++ (9 ∷ []))

only_one : (k : ℕ) (x : Peer) → get_elem? serving.peers k ≡ some x → k ≢ 0 → Apart 3 x.s
only_one zero x h far = absurd (far refl)
only_one (suc k) x h far = cc

interrupt_program_handler-ends_peer_example :
    (c' : Daemon) × (receive_frames machine 0 5 blank_buf partner ≡ ok (some tt, c'))
    × (c'.net.incoming 3 ≡ 9 ∷ [])
interrupt_program_handler-ends_peer_example =
    interrupt_program_handler-ends_peer machine machine 0 3 0 3 4 guest member
      (interrupted.net.outgoing 3) (9 ∷ []) blank_buf serving interrupted partner
      slow_kernel-Accepts slow_kernel-Delivers refl refl refl refl only_one interrupted_ok refl refl
      refl refl refl

-- The script of the directory runs with the name of the device.
script_runs :
    execute_script sample_machine (codes "e") (codes "dev-up") (codes "tun0") empty_ring
    ≡ ok (pos 3, record empty_ring { allocs = 1 })
unfolding execute_script vpnd.Config.join_paths same_text
script_runs = refl
