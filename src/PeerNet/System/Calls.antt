-- ===== src/PeerNet/System/Calls.antt =====
-- The single calls of `_broadcast_tuntap_device` of src/peer.c and of the interrupt of src/signals.c as
-- steps of the daemon.
use vpnd.Base.{ℕ, ◌≡◌, refl, subst, false, Option, none, [], ok}
use vpnd.Protocol.{hdr_close}
use vpnd.Daemon.{Env, Daemon, Code}
use vpnd.Daemon.Stays.{Holds, Runs, Runs-of_return, Keeps-attempt}
use vpnd.PeerNet.Wire.Keeps.{broadcast-Keeps}
use vpnd.PeerNet.Device.Local.{Tidy, tidy, learn_local-Tidy, send_toward-Keeps}
use vpnd.Tcp.{tcp_server_close}
use vpnd.PeerNet.System.{
  Phase, DaemonCall, learns_local, sends_toward, closes_servers, says_close, closes_device, perform,
}
use vpnd.PeerNet.System.Safety.{Safe, Safe-same}
use vpnd.PeerNet.System.Interrupts.{SamePeers, tuntap_close-SamePeers, SamePeers-Safe}

Tidy-Safe :
    (e : Env) (m : Code (Unit {0})) (o : Option (Unit {0})) (d d' : Daemon) (phase : ℕ → Phase)
    → Runs Tidy m
    → m d ≡ ok (o, d')
    → Safe e d phase
    → Safe e d' phase
Tidy-Safe e m o d d' phase runs h s =
    let t = Runs-of_return m o d d' runs h in
    Safe-same e d d' phase t.peers t.trusted_keys (t.distinct s.distinct) s

SamePeers-self : (d : Daemon) → SamePeers d d
SamePeers-self d = record { peers = refl; trusted_keys = refl; local_routes = refl }

closed-SamePeers : (d : Daemon) → SamePeers d (tcp_server_close d)
unfolding tcp_server_close
closed-SamePeers d = record { peers = refl; trusted_keys = refl; local_routes = refl }

pub perform-Safe :
    (e : Env) (c : DaemonCall) (o : Option (Unit {0})) (d d' : Daemon) (phase : ℕ → Phase)
    → perform e c d ≡ ok (o, d')
    → Safe e d phase
    → Safe e d' phase
unfolding perform
perform-Safe e (learns_local route) o d d' phase h =
    Tidy-Safe e (perform e (learns_local route)) o d d' phase (learn_local-Tidy e route) h
perform-Safe e (sends_toward buf n target) o d d' phase h =
    Tidy-Safe e (perform e (sends_toward buf n target)) o d d' phase
      (tidy (send_toward-Keeps e buf n target)) h
perform-Safe e closes_servers o d d' phase h =
    SamePeers-Safe e d d' phase (subst (Holds (SamePeers d)) h (closed-SamePeers d))
perform-Safe e says_close o d d' phase h =
    Tidy-Safe e (perform e says_close) o d d' phase
      (tidy (Keeps-attempt (broadcast-Keeps e hdr_close [] 0 false none))) h
perform-Safe e closes_device o d d' phase h =
    SamePeers-Safe e d d' phase
      (subst (Holds (SamePeers d)) h (tuntap_close-SamePeers d d (SamePeers-self d)))
