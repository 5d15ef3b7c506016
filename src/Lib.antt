-- ===== src/Lib.antt =====
-- VPNd: a VPN daemon over TCP. Each connection has a thread that authenticates the peer and then
-- receives frames from it; network packets go from a peer to the TUN/TAP device or to other peers.
-- This library models the parts that decide what is sent where, translated from the C sources:
--
--   Protocol       src/protocol.c, include/protocol.h: the frame header and its byte order
--   Netroute       src/netroute.c: routes (IPv4, IPv6 and MAC addresses) and lists of them; Heap has
--                  the same lists as nodes in memory
--   PacketHeader   src/packet_header.c: the addresses in a packet
--   Socket         the loops over `send`, `recv` and `write` in src/peer_net.c and src/interface.c
--   Encryption     src/encryption.c: AES contexts
--   Rsa            src/rsa.c: keys in memory and the list of trusted keys
--   KeyRing        src/rsa.c: the keys of the daemon in files, and what is freed
--   Peer           src/peer.c: the list of peers, its slots, the search for a route, and the dump
--   Daemon         the static variables of these files as one record, and the monad of the handlers
--   PeerNet        src/peer_net.c: Wire (frames), Process (what a frame does), Handshake
--                  (`authenticate_peer`, `peer_receive`); Device (`_broadcast_tuntap_device` of
--                  src/peer.c), Connection (`peer_connection`, `_peer_connection`), and System, where
--                  the threads take steps in any order; Senders has the threads that send to one peer,
--                  one call of `send` at a time, under the mutex of the peer; Tunnel
--                  follows a packet from the device of one daemon to the device of another,
--                  directly or through a third
--   Interface      src/interface.c: opening and closing the device
--   Tcp            src/tcp.c, src/tcp4.c, src/tcp6.c: listening, accepting, connecting
--   Main           src/vpnd.c, src/signals.c, src/scripts.c: start, signals and end
--   Logger         src/logger.c: levels, their names and the lines that are written
--   Config         src/args.c, src/config.c: options, arguments and paths
--
-- A function of the source has a definition of the same name. A pointer to a peer is its place in
-- the list, a descriptor or pointer that may be -1 or NULL is an option, a buffer is the list of its
-- bytes. `Outcome` says what a call comes to: `ok`, `fault` (a read or write outside its object, or
-- a NULL or freed pointer), or `stuck` (the model's fuel ran out). A handler is a function from the
-- daemon to an outcome with a value, or `none` for its return of an error, and the daemon after it.
-- How the parts meet: `receive_frame` fills the buffer that `authenticate_peer` and `process_frame`
-- read; `process_netpacket` decrypts with the peer's context, looks the destination up in the routes
-- of the device and of the peers, and calls `tuntap_write`, `send_data_to_peer` or
-- `broadcast_data_to_peers`. `tcp_server` and `tcp_client` hand a socket to `peer_connection`, whose
-- thread runs `peer_receive` and gives the slot back; `main` loads the keys, opens the device, runs one
-- of the two and closes all.
--
-- Parameters: the kernel (Socket.Kernel), the calls on sockets (Tcp.Os), the driver of the device
-- (Interface.Driver), the files (KeyRing.Files), OpenSSL (Encryption.Evp, Rsa.Rsa), memory, random bytes,
-- `getopt_long`, `atoi`, `signal`, `system` and `inet_ntop` are arguments of the definitions that use
-- them. What is assumed of the kernel stands in its record, or by name in a theorem: that a call passes no more
-- than it was offered, that `send` takes something (Accepts) and `recv` gives something (Delivers). Of
-- OpenSSL it is assumed that `Final_ex` pads to whole blocks (Padded), and that the contexts of the two
-- ends of a connection, made of one key and IV, give back what went in (Agree).
-- Fuel: a loop over a descriptor gets one unit more than the bytes it waits for, which is enough
-- since each turn passes at least one byte or ends the loop. `receive_frames` and
-- `broadcast_tuntap_device` have their fuel as an argument; one unit more than there are bytes in
-- the stream is enough, since each turn takes some of them.
--
-- The loop of `tcp_server` waits for the interrupt or for an error of `poll`, so its fuel is the number
-- of turns that are looked at.
--
-- Not modelled: the mutexes of the logger and of the device, and what threads do to each other within
-- a step of System (a step is a whole handshake, or one call on the way of a frame, of a packet of the
-- device or of the interrupt, or all of these; Senders goes below that for the frames to one peer), a thread that
-- stays in `read` when the device is closed, the fixed text of the help, and what a script
-- that is run does.
pub mod Base
pub mod Protocol
pub mod Netroute
pub mod PacketHeader
pub mod Socket
pub mod Encryption
pub mod Peer
pub mod Rsa
pub mod Daemon
pub mod PeerNet
pub mod Logger
pub mod Config
pub mod KeyRing
pub mod Interface
pub mod Tcp
pub mod Main
