-- ===== src/PeerNet/Process/Tests.antt =====
-- A packet for this host, and the theorems of PeerNet/Process/Owners at it.
use vpnd.Base.{true, false, [], ◌∷◌}
use vpnd.Netroute.{Netroute}
use vpnd.Peer.{get_peer_route}
use vpnd.Protocol.{hdr_netpacket}
use vpnd.Daemon.Stays.{Holds}
use vpnd.PeerNet.Sample.{repeat, machine, member, daemon_with}
use vpnd.PeerNet.Process.{deliver_packet, process_frame}
use vpnd.PeerNet.Process.Owners.{Inserted, Grows, deliver_packet-Inserted, process_frame-Grows}

-- 10.0.0.9 as it stands in the memory of a little-endian machine.
abbrev far_host : Netroute
far_host = record { mac = false; ip4 = true; addr = 9 ∷ 0 ∷ 0 ∷ 10 ∷ repeat 12 0 }

deliver_packet-Inserted_example :
    Holds
      (Inserted machine 0 far_host (daemon_with member []))
      (deliver_packet machine 0 (repeat 48 7) 48 far_host (daemon_with member []))
deliver_packet-Inserted_example =
    deliver_packet-Inserted machine 0 (repeat 48 7) 48 far_host (daemon_with member [])

process_frame-Grows_example :
    Holds
      (λ d'.
        (r : Netroute)
        → Grows 0 (get_peer_route r (daemon_with member []).peers) (get_peer_route r d'.peers))
      (process_frame machine 0 (8 ∷ 60 ∷ repeat 2051 0) hdr_netpacket 60 (daemon_with member []))
process_frame-Grows_example =
    process_frame-Grows machine 0 (8 ∷ 60 ∷ repeat 2051 0) hdr_netpacket 60 (daemon_with member [])
