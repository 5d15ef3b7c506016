-- ===== src/PeerNet/Handshake/Oversized.antt =====
-- A frame of the handshake whose length is above FRAME_PAYLOAD_MAXSIZE.
use vpnd.Peer.{Peer}
use vpnd.Daemon.{Daemon}
