-- ===== src/Tcp.antt =====
-- TCP: src/tcp.c, and the listening sockets of src/tcp4.c and src/tcp6.c.
-- The calls of the system are a parameter: they answer by the number of calls made before, and for a
-- new descriptor by the descriptors that are open. A descriptor is open while it is in `fds`. Reading
-- outside of a buffer is a fault.
pub mod Listening
pub mod Accepting
pub mod Sample
mod Tests
use vpnd.Base.{
  ℕ, zero, suc, ◌+◌, ◌*◌, ◌≡◌, Bool, true, false, ◌||◌, Option, none, some, List, [], ◌∷◌, ◌==◌,
  if◌then◌else◌, take, Outcome, ok, fault, stuck,
}
use Prim.Native.Nat.{◌/◌, ◌%◌}
use vpnd.Config.{default_port}
use vpnd.Peer.{Connection}
use vpnd.Daemon.{
  Env, Daemon, Code, pure, give_up, crash, attempt, ◌>>=◌, ◌>>◌, daemon, store, on_option,
}
use vpnd.PeerNet.Process.{readable}
use vpnd.PeerNet.Connection.{peer_connection, connection_thread}
use vpnd.Daemon.Descriptors.{is_open, close_fd, called, positive, opened, close}

-- What an address is made of, in a `struct addrinfo`.
pub record Endpoint : Type 0 where
  pub ip6 : Bool
  pub addr : List ℕ

pub record Os : Type 0 where
  pub strdup : ℕ → Bool
  pub inet_pton : Bool → List ℕ → Option (List ℕ)
  pub inet_ntop : Bool → List ℕ → List ℕ
  -- call number, open descriptors, whether it is for IPv6
  pub socket : ℕ → List ℕ → Bool → Option ℕ
  pub socket_new :
      (n : ℕ) (fds : List ℕ) (ip6 : Bool) (fd : ℕ)
      → socket n fds ip6 ≡ some fd
      → is_open fd fds ≡ false
  -- whether the call succeeds, by its number and its descriptor
  pub bind : ℕ → ℕ → Bool → List ℕ → ℕ → Bool
  pub listen : ℕ → ℕ → ℕ → Bool
  pub connect : ℕ → ℕ → Bool → List ℕ → ℕ → Bool
  -- the new descriptor, and the bytes of the remote's socket address
  pub accept : ℕ → List ℕ → ℕ → Option (ℕ × List ℕ)
  -- `none` for a negative result, else whether there is input on the one and the other
  pub poll : ℕ → Option ℕ → Option ℕ → Option (Bool × Bool)
  pub getaddrinfo : ℕ → List ℕ → Option Endpoint

-- The bytes of a port in the other order, on a machine that stores the low byte first.
unfoldable pub htons : Bool → ℕ → ℕ
htons little port = if little then (port % 256) * 256 + port / 256 % 256 else port

-- The socket `s` from `bind` on: the descriptor, or `none` for the return of -1.
unfoldable pub bind_socket : Os → Env → Bool → List ℕ → ℕ → ℕ → ℕ → Daemon → Option ℕ × Daemon
bind_socket os e ip6 addr port backlog s d =
    let d₁ = called d in
    if os.bind d.net.calls s ip6 addr (htons e.little port)
    then (if os.listen d₁.net.calls s backlog
        then (some s, called d₁)
        else (none, close s (called d₁)))
    else (none, close s d₁)

-- Both `setsockopt` calls of IPv6 and the one of IPv4 are made for whatever they answer.
unfoldable pub open_socket : Os → Env → Bool → List ℕ → ℕ → ℕ → Daemon → Option ℕ × Daemon
open_socket os e ip6 addr port backlog d = elim (os.socket d.net.calls d.fds ip6) [
  | none ↦ (none, called d)
  | some s ↦
      let d₁ = called (opened s d) in
      bind_socket os e ip6 addr port backlog s (if ip6 then called d₁ else d₁)
]

-- `INADDR_ANY` and `in6addr_any`
abbrev pub any_address : Bool → List ℕ
any_address false = 0 ∷ 0 ∷ 0 ∷ 0 ∷ []
any_address true = 0 ∷ 0 ∷ 0 ∷ 0 ∷ 0 ∷ 0 ∷ 0 ∷ 0 ∷ 0 ∷ 0 ∷ 0 ∷ 0 ∷ 0 ∷ 0 ∷ 0 ∷ 0 ∷ []

unfoldable pub bind_address : Os → Bool → Option (List ℕ) → Option (List ℕ)
bind_address os ip6 none = some (any_address ip6)
bind_address os ip6 (some text) = os.inet_pton ip6 text

unfoldable pub tcp4_bind : Os → Env → Option (List ℕ) → ℕ → ℕ → Daemon → Option ℕ × Daemon
tcp4_bind os e address port backlog d = elim (bind_address os false address) [
  | none ↦ (none, d)
  | some addr ↦ open_socket os e false addr port backlog d
]

unfoldable pub tcp6_bind : Os → Env → Option (List ℕ) → ℕ → ℕ → Daemon → Option ℕ × Daemon
tcp6_bind os e address port backlog d = elim (bind_address os true address) [
  | none ↦ (none, d)
  | some addr ↦ open_socket os e true addr port backlog d
]

abbrev pub sockaddr_size : ℕ
sockaddr_size = 16

abbrev pub af_inet6 : ℕ
af_inet6 = 10

abbrev uint16 : Bool → List ℕ → ℕ
uint16 little (a ∷ b ∷ rest) = if little then b * 256 + a else a * 256 + b
uint16 little (a ∷ []) = 0
uint16 little [] = 0

-- The part of `tcp_accept_connection` behind `accept`: `sin` is the `struct sockaddr` on the stack.
unfoldable pub greet : Os → Env → ℕ → List ℕ → Code (Unit {0})
greet os e peer sin = do
  family ← readable sin 0 2
  let ip6 = uint16 e.little family == af_inet6
  addr ← (if ip6 then readable sin 8 16 else readable sin 4 4)
  port ← readable sin 2 2
  d ← daemon
  attempt (
      peer_connection (e.memory d.net.calls) (os.strdup d.net.calls) (record {
        address = os.inet_ntop ip6 addr;
        port = uint16 e.little port;
        s = some peer;
        is_client = false;
      }))

-- `accept` fills at most the `sockaddr_size` bytes of `sin`; `give_up` is the return of -1.
unfoldable pub tcp_accept_connection : Os → Env → ℕ → Code (Unit {0})
tcp_accept_connection os e s d = elim (os.accept d.net.calls d.fds s) [
  | none ↦ give_up (called d)
  | some (peer, remote) ↦ greet os e peer (take sockaddr_size remote) (opened peer d)
]

-- `close` of a server socket: none is left for the descriptor, which stays if it is not positive.
abbrev close_server : Option ℕ → List ℕ → Option ℕ × List ℕ
close_server none fds = (none, fds)
close_server (some zero) fds = (some zero, fds)
close_server (some (suc n)) fds = (none, close_fd (some (suc n)) fds)

unfoldable pub tcp_server_close : Daemon → Daemon
tcp_server_close d =
    let c4 = close_server d.tcp4_socket d.fds in
    let c6 = close_server d.tcp6_socket c4.1 in
    record d { tcp4_socket = c4.0; tcp6_socket = c6.0; fds = c6.1 }

-- A connection on a socket that has input; what the call returns is not looked at.
unfoldable pub accept_if : Os → Env → Bool → Option ℕ → Code (Unit {0})
accept_if os e false s = pure tt
accept_if os e true none = λ d. ok (some tt, called d)
accept_if os e true (some s) = attempt (tcp_accept_connection os e s)

-- What `serve` does with the answer of `poll`; `rest` is the next turn of its loop.
abbrev pub after_poll :
    Os → Env → Option ℕ → Option ℕ → Code (Unit {0}) → Option (Bool × Bool) → Code (Unit {0})
after_poll os e fd4 fd6 rest none d = ok (none, tcp_server_close d)
after_poll os e fd4 fd6 rest (some (in4, in6)) d =
    (accept_if os e in4 fd4 >> (accept_if os e in6 fd6 >> rest)) d

-- The loop over `poll`, with the descriptors as they were before it: it ends when both sockets are
-- closed or `poll` fails, or with the fuel.
unfoldable pub serve : Os → Env → Option ℕ → Option ℕ → ℕ → Code (Unit {0})
serve os e fd4 fd6 zero d = stuck
serve os e fd4 fd6 (suc fuel) d =
    let rest = serve os e fd4 fd6 fuel in
    if positive d.tcp4_socket || positive d.tcp6_socket
    then after_poll os e fd4 fd6 rest (os.poll d.net.calls fd4 fd6) (called d)
    else ok (some tt, d)

unfoldable pub listen_if :
    (Daemon → Option ℕ × Daemon) → Bool → Option ℕ → Daemon → Option ℕ × Daemon
listen_if bind wanted old d = if wanted then bind d else (old, d)

unfoldable pub tcp_server : Os → Env → Bool → Bool → ℕ → ℕ → Code (Unit {0})
unfolding listen_if
tcp_server os e ip4 ip6 backlog fuel d =
    let l4 = listen_if (tcp4_bind os e none default_port backlog) ip4 d.tcp4_socket d in
    let d₁ = record l4.1 { tcp4_socket = l4.0 } in
    let l6 = listen_if (tcp6_bind os e none default_port backlog) ip6 d₁.tcp6_socket d₁ in
    let d₂ = record l6.1 { tcp6_socket = l6.0 } in serve os e d₂.tcp4_socket d₂.tcp6_socket fuel d₂

-- `peer_connection` with `block`: the caller waits for the thread.
unfoldable pub blocking_connection : Os → Env → Connection → ℕ → List ℕ → Code (Unit {0})
blocking_connection os e c fuel buf = do
  d ← daemon
  slot ← peer_connection (e.memory d.net.calls) (os.strdup d.net.calls) c
  connection_thread e slot fuel buf

-- `give_up` is the return of -1; `fuel` and `buf` are the connection's.
unfoldable pub tcp_client : Os → Env → List ℕ → ℕ → ℕ → List ℕ → Code (Unit {0})
tcp_client os e hostname port fuel buf d = elim (os.getaddrinfo d.net.calls hostname) [
  | none ↦ give_up (called d)
  | some ai ↦ elim (os.socket (d.net.calls + 1) d.fds ai.ip6) [
    | none ↦ give_up (called (called d))
    | some s ↦
        let d₁ = opened s (called d) in
        if os.connect d₁.net.calls s ai.ip6 ai.addr (htons e.little port)
        then attempt
            (blocking_connection os e
              (record {
                address = os.inet_ntop ai.ip6 ai.addr;
                port = port;
                s = some s;
                is_client = true;
              })
              fuel buf)
            (called d₁)
        else give_up (close s (called d₁))
  ]
]
