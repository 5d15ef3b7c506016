-- ===== src/Tcp/Tests.antt =====
-- The sockets of src/tcp.c on a sample system.
use vpnd.Base.{none, []}
use vpnd.PeerNet.Sample.{daemon_with, member, machine}
use vpnd.Daemon.{Daemon}
use vpnd.Tcp.{tcp4_bind, tcp6_bind}
use vpnd.Tcp.Sample.{os_accepting, remote4}
use vpnd.Tcp.Listening.{Bound, tcp_bind-Bound}

abbrev sample_daemon : Daemon
sample_daemon = daemon_with member []

tcp_bind-Bound_example :
    Bound sample_daemon (tcp4_bind (os_accepting remote4) machine none 9678 10 sample_daemon)
    × Bound sample_daemon (tcp6_bind (os_accepting remote4) machine none 9678 10 sample_daemon)
tcp_bind-Bound_example = tcp_bind-Bound (os_accepting remote4) machine none 9678 10 sample_daemon
