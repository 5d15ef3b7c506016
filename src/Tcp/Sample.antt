-- ===== src/Tcp/Sample.antt =====
-- A system for src/tcp.c whose calls succeed, and whose `poll` fails.
use vpnd.Base.{ℕ, true, false, none, some, List, [], ◌∷◌}
use vpnd.PeerNet.Sample.{unused, unused-new, repeat}
use vpnd.Tcp.{Os}

-- Whoever connects does so over IPv4 from 10.0.0.1 and the port 258.
abbrev pub remote4 : List ℕ
remote4 = 2 ∷ 0 ∷ 1 ∷ 2 ∷ 10 ∷ 0 ∷ 0 ∷ 1 ∷ repeat 8 0

-- The first 16 bytes of an address over IPv6.
abbrev pub remote6 : List ℕ
remote6 = 10 ∷ 0 ∷ 1 ∷ 2 ∷ repeat 24 0

abbrev pub os_accepting : List ℕ → Os
os_accepting remote = record {
  strdup = λ n. true;
  inet_pton = λ ip6 text. none;
  inet_ntop = λ ip6 addr. addr;
  socket = λ n fds ip6. some (unused fds);
  socket_new = λ n fds ip6 fd h. unused-new fds fd h;
  bind = λ n s ip6 addr port. true;
  listen = λ n s backlog. true;
  connect = λ n s ip6 addr port. false;
  accept = λ n fds s. some (9, remote);
  poll = λ n fd4 fd6. none;
  getaddrinfo = λ n name. some (record { ip6 = false; addr = 127 ∷ 0 ∷ 0 ∷ 1 ∷ [] });
}
