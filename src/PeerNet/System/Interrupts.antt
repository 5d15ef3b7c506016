-- ===== src/PeerNet/System/Interrupts.antt =====
-- The interrupt of src/signals.c as a step of the daemon.
use vpnd.Base.{
  ℕ, zero, suc, ◌≡◌, sym, subst, false, Option, none, some, [], Outcome, ok, fault, stuck,
}
use vpnd.Protocol.{hdr_close}
use vpnd.Netroute.Table.{Distinct}
use vpnd.Daemon.{Env, Daemon, and_then, no_result}
use vpnd.Daemon.Stays.{Holds, Kept}
use vpnd.PeerNet.Wire.{broadcast_data_to_peers}
use vpnd.PeerNet.Wire.Keeps.{broadcast-Keeps}
use vpnd.Interface.{close_device, tuntap_close}
use vpnd.Tcp.{tcp_server_close}
use vpnd.Main.{interrupt_program_handler}
use vpnd.PeerNet.System.{Phase}
use vpnd.PeerNet.System.Safety.{Safe, Safe-same}

-- What closing sockets and the device leaves.
pub record SamePeers (a b : Daemon) : Type 0 where
  pub peers : b.peers ≡ a.peers
  pub trusted_keys : b.trusted_keys ≡ a.trusted_keys
  pub local_routes : b.local_routes ≡ a.local_routes

pub tuntap_close-SamePeers : (a d : Daemon) → SamePeers a d → SamePeers a (tuntap_close d)
unfolding tuntap_close
tuntap_close-SamePeers a d s = choose d.if_fd
  where
    choose : (o : Option ℕ) → SamePeers a (close_device d o)
    choose none = s
    choose (some zero) = s
    choose (some (suc n)) = record {
      peers = s.peers;
      trusted_keys = s.trusted_keys;
      local_routes = s.local_routes;
    }

interrupt_program_handler-SamePeers :
    (e : Env) (d : Daemon) → Holds (SamePeers d) (interrupt_program_handler e d)
unfolding interrupt_program_handler tcp_server_close
interrupt_program_handler-SamePeers e d =
    cases (broadcast_data_to_peers e hdr_close [] 0 false none (tcp_server_close d))
      ((broadcast-Keeps e hdr_close [] 0 false none).keeps (tcp_server_close d))
  where
    cases :
        (r : Outcome (Option (Unit {0}) × Daemon))
        → Holds (Kept (tcp_server_close d)) r
        → Holds (SamePeers d) (and_then (no_result r) (λ _ d₁. ok (some tt, tuntap_close d₁)))
    cases (ok (o, d₁)) k =
        tuntap_close-SamePeers d d₁
          (record { peers = k.peers; trusted_keys = k.trusted_keys; local_routes = k.local_routes })
    cases fault k = tt
    cases stuck k = k

pub SamePeers-Safe :
    (e : Env) (d d' : Daemon) (phase : ℕ → Phase)
    → SamePeers d d'
    → Safe e d phase
    → Safe e d' phase
SamePeers-Safe e d d' phase same s =
    Safe-same e d d' phase same.peers same.trusted_keys
      (subst Distinct (sym same.local_routes) s.distinct) s

pub interrupt-Safe :
    (e : Env) (d d' : Daemon) (phase : ℕ → Phase)
    → interrupt_program_handler e d ≡ ok (some tt, d')
    → Safe e d phase
    → Safe e d' phase
interrupt-Safe e d d' phase run =
    SamePeers-Safe e d d' phase
      (subst (Holds (SamePeers d)) run (interrupt_program_handler-SamePeers e d))
