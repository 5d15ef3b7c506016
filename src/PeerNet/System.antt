-- ===== src/PeerNet/System.antt =====
-- The daemon as its threads run it: the thread that accepts or makes connections (`peer_connection` of
-- src/peer.c), one thread for every connection (`_peer_connection` of src/peer.c with `peer_receive` of
-- src/peer_net.c), the thread of the device (`_broadcast_tuntap_device` of src/peer.c), and the
-- interrupt of src/signals.c.
-- A step is one accepted connection, one handshake, one received frame, one packet of the device, the
-- whole interrupt, one call on the way of a frame, of a packet or of the interrupt, or one statement of
-- a thread's end. The steps of different threads come in any order. No lock is held on the way of a
-- frame, so the calls of two threads may alternate there, each with what an earlier look at the peers
-- has led to.
pub mod Slotwise
pub mod Safety
pub mod Steps
pub mod Interrupts
pub mod Calls
pub mod Invariant
pub mod Threads
mod Tests
use vpnd.Base.{
  [], true, ℕ, ◌≡◌, Bool, false, Option, none, some, List, ◌∷◌, ◌++◌, if◌then◌else◌, ◌==◌, ok,
}
use vpnd.Netroute.{Netroute}
use vpnd.Peer.{Connection}
use vpnd.Daemon.{Env, Daemon, Code, ◌>>=◌, attempt}
use vpnd.Protocol.{hdr_close, hdr_netpacket}
use vpnd.PeerNet.Wire.{
  receive_frame, decrypt_into, tuntap_write, send_data_to_peer, broadcast_data_to_peers,
}
use vpnd.PeerNet.Process.{learn_route, process_frame}
use vpnd.PeerNet.Handshake.{authenticate_peer}
use vpnd.PeerNet.Device.{learn_local, send_toward, local_packet}
use vpnd.Interface.{tuntap_close}
use vpnd.Tcp.{tcp_server_close}
use vpnd.Main.{interrupt_program_handler}
use vpnd.PeerNet.Connection.{peer_connection, mark_dead, close_socket}

-- Where the thread of a slot stands: no thread, before the handshake, in the loop over the frames, or
-- behind it.
pub data Phase : Type 0 where
  idle : Phase
  shaking : Phase
  streaming : Phase
  leaving : Phase

pub record System : Type 0 where
  pub daemon : Daemon
  pub phase : ℕ → Phase
  -- the slots whose last thread has set `alive` to false and has yet to close the descriptor
  pub closers : List ℕ

abbrev pub at : (ℕ → Phase) → ℕ → Phase → ℕ → Phase
at phase i x j = if j == i then x else phase j

-- One turn of the loop of `peer_receive`.
abbrev pub one_frame : Env → ℕ → List ℕ → Code (Unit {0})
one_frame e i buf = receive_frame e i buf >>= λ f. process_frame e i f.buf f.header_type f.data_len

-- The calls on the way of a frame, with any arguments: what a thread passes to one may have come from
-- a state of the daemon that is gone.
pub data FrameCall : Type 0 where
  receives : (buf : List ℕ) → FrameCall
  decrypts : (room : ℕ) (ctx : Option ℕ) (bytes : List ℕ) → FrameCall
  learns : (route : Netroute) → FrameCall
  writes : (packet : List ℕ) (len : ℕ) → FrameCall
  sends : (packet : List ℕ) (len target : ℕ) → FrameCall
  floods : (packet : List ℕ) (len : ℕ) → FrameCall

-- The call as the thread of slot `i` makes it.
unfoldable pub call : Env → ℕ → FrameCall → Code (Unit {0})
call e i (receives buf) = attempt (receive_frame e i buf)
call e i (decrypts room ctx bytes) = attempt (decrypt_into e room ctx bytes)
call e i (learns route) = learn_route e i route
call e i (writes packet len) = tuntap_write e packet len
call e i (sends packet len target) = send_data_to_peer e hdr_netpacket packet len true target
call e i (floods packet len) = broadcast_data_to_peers e hdr_netpacket packet len true (some i)

-- The calls on the way of a packet of the device, and of the interrupt.
pub data DaemonCall : Type 0 where
  learns_local : (route : Netroute) → DaemonCall
  sends_toward : (buf : List ℕ) (n : ℕ) (target : Option ℕ) → DaemonCall
  closes_servers : DaemonCall
  says_close : DaemonCall
  closes_device : DaemonCall

unfoldable pub perform : Env → DaemonCall → Code (Unit {0})
perform e (learns_local route) d = learn_local e route d
perform e (sends_toward buf n target) d = send_toward e buf n target d
perform e closes_servers d = ok (some tt, tcp_server_close d)
perform e says_close d = attempt (broadcast_data_to_peers e hdr_close [] 0 false none) d
perform e closes_device d = ok (some tt, tuntap_close d)

-- The buffer of a thread may hold anything when a step begins.
pub data Step (e : Env) : System → System → Type 0 where
  accepts :
      {s : System} (malloc strdup : Bool) (c : Connection) (i : ℕ) (d : Daemon)
      → peer_connection malloc strdup c s.daemon ≡ ok (some i, d)
      → Step e s (record { daemon = d; phase = at s.phase i shaking; closers = s.closers })
  refuses :
      {s : System} (malloc strdup : Bool) (c : Connection) (d : Daemon)
      → peer_connection malloc strdup c s.daemon ≡ ok (none, d)
      → Step e s (record { daemon = d; phase = s.phase; closers = s.closers })
  has_no_buffer :
      {s : System} (i : ℕ)
      → s.phase i ≡ shaking
      → e.memory s.daemon.net.calls ≡ false
      → Step e s (record { daemon = s.daemon; phase = at s.phase i leaving; closers = s.closers })
  authenticates :
      {s : System} (i : ℕ) (buf : List ℕ) (d : Daemon)
      → s.phase i ≡ shaking
      → authenticate_peer e i buf s.daemon ≡ ok (some tt, d)
      → Step e s (record { daemon = d; phase = at s.phase i streaming; closers = s.closers })
  is_rejected :
      {s : System} (i : ℕ) (buf : List ℕ) (d : Daemon)
      → s.phase i ≡ shaking
      → authenticate_peer e i buf s.daemon ≡ ok (none, d)
      → Step e s (record { daemon = d; phase = at s.phase i leaving; closers = s.closers })
  takes_frame :
      {s : System} (i : ℕ) (buf : List ℕ) (d : Daemon)
      → s.phase i ≡ streaming
      → one_frame e i buf s.daemon ≡ ok (some tt, d)
      → Step e s (record { daemon = d; phase = s.phase; closers = s.closers })
  takes_last_frame :
      {s : System} (i : ℕ) (buf : List ℕ) (d : Daemon)
      → s.phase i ≡ streaming
      → one_frame e i buf s.daemon ≡ ok (none, d)
      → Step e s (record { daemon = d; phase = at s.phase i leaving; closers = s.closers })
  is_on_the_way :
      {s : System} (i : ℕ) (c : FrameCall) (o : Option (Unit {0})) (d : Daemon)
      → s.phase i ≡ streaming
      → call e i c s.daemon ≡ ok (o, d)
      → Step e s (record { daemon = d; phase = s.phase; closers = s.closers })
  leaves :
      {s : System} (i : ℕ) (d : Daemon)
      → s.phase i ≡ leaving
      → mark_dead i s.daemon ≡ ok (some tt, d)
      → Step e s (record { daemon = d; phase = at s.phase i idle; closers = i ∷ s.closers })
  closes :
      {s : System} (i : ℕ) (before after : List ℕ) (d : Daemon)
      → s.closers ≡ before ++ (i ∷ after)
      → close_socket i s.daemon ≡ ok (some tt, d)
      → Step e s (record { daemon = d; phase = s.phase; closers = before ++ after })
  interrupts :
      {s : System} (d : Daemon)
      → interrupt_program_handler e s.daemon ≡ ok (some tt, d)
      → Step e s (record { daemon = d; phase = s.phase; closers = s.closers })
  takes_packet :
      {s : System} (buf : List ℕ) (n : ℕ) (route : Netroute) (o : Option Netroute) (d : Daemon)
      → local_packet e buf n route s.daemon ≡ ok (o, d)
      → Step e s (record { daemon = d; phase = s.phase; closers = s.closers })
  makes_call :
      {s : System} (c : DaemonCall) (o : Option (Unit {0})) (d : Daemon)
      → perform e c s.daemon ≡ ok (o, d)
      → Step e s (record { daemon = d; phase = s.phase; closers = s.closers })

-- Any number of steps.
pub data Reach (e : Env) : System → System → Type 0 where
  done : {s : System} → Reach e s s
  then_step : {a b c : System} → Reach e a b → Step e b c → Reach e a c
