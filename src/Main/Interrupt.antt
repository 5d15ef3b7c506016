-- ===== src/Main/Interrupt.antt =====
-- What the interrupt of src/signals.c stops: the loop of `tcp_server` (src/tcp.c) and the loop of
-- `_broadcast_tuntap_device` (src/peer.c).
use vpnd.Base.{◌≡◌, none}
use vpnd.Netroute.{Netroute}
use vpnd.Daemon.{Daemon}
use vpnd.Tcp.Listening.{NotServing}

-- Both loops have nothing left to wait for.
record Stopped (d : Daemon) : Type 0 where
  not_serving : NotServing d
  no_device : d.if_fd ≡ none
