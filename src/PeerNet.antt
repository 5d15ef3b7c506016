-- ===== src/PeerNet.antt =====
-- src/peer_net.c: frames to and from the peers, what is done with them, and the handshake.
pub mod Wire
pub mod Process
pub mod Handshake
pub mod Endings
pub mod Device
pub mod Connection
pub mod System
pub mod Senders
pub mod Tunnel
pub mod Sample
mod Tests
