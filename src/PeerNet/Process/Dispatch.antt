-- ===== src/PeerNet/Process/Dispatch.antt =====
-- Which frames are acted upon: `process_frame` of src/peer_net.c.
use vpnd.Base.{ℕ, ◌≡◌, false, none, some, List, get_elem?, ok, arith, ◌==◌, if◌then◌else◌}
use vpnd.Protocol.{hdr_close}
use vpnd.Peer.{Peer}
use vpnd.Daemon.{Env, Daemon, peer_at}
use vpnd.PeerNet.Process.{process_frame}

-- Before a peer is authenticated no frame of it changes anything: nothing is sent, written or
-- learnt, whatever its type, length and bytes. Only a close ends the connection.
pub process_frame_unauthenticated :
    (e : Env) (i : ℕ) (buf : List ℕ) (header_type data_len : ℕ) (d : Daemon) (p : Peer)
    → get_elem? d.peers i ≡ some p
    → p.authenticated ≡ false
    → process_frame e i buf header_type data_len d
      ≡ ok ((if header_type == hdr_close then none else some tt), d)
unfolding process_frame peer_at
process_frame_unauthenticated e i buf header_type data_len d p found unknown = ground arith
