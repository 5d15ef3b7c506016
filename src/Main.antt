-- ===== src/Main.antt =====
-- The whole process: src/vpnd.c, `interrupt_program_handler` of src/signals.c, the rest of which is in
-- Signals, `execute_script` of src/scripts.c and `free_config_dir` of src/config.c. The thread of the
-- device runs beside `tcp_server` and `tcp_client` and has no part here; what `system` returns is a
-- parameter, and what `fork` does is outside of the process.
pub mod Interrupt
pub mod Farewell
pub mod Closing
pub mod Startup
pub mod Signals
mod Tests
use vpnd.Base.{
  ℕ, ◌+◌, Bool, true, false, not, Option, none, some, List, [], ◌∷◌, if◌then◌else◌, Outcome, ok,
  fault, stuck, ◌>>=◌, or_fault, is_some,
}
use vpnd.Protocol.{hdr_close}
use vpnd.Config.{Args, ℤ, negsuc, join_paths}
use vpnd.Peer.{Peer, destroy_peers}
use vpnd.Daemon.{Env, Daemon, Code, attempt, ◌>>◌}
use vpnd.Daemon.Descriptors.{close_fd}
use vpnd.PeerNet.Wire.{broadcast_data_to_peers}
use vpnd.KeyRing.{
  Files, KeyRing, load_daemon_privkey, load_daemon_pubkey, free_daemon_keys, clear_trusted_keys,
  load_trusted_keys, key_at,
}
use vpnd.Interface.{Driver, tuntap_close, tuntap_open}
use vpnd.Tcp.{Os, tcp_server_close, tcp_server, tcp_client}

-- A CLOSE frame without payload to every connected peer, between the two calls that close.
unfoldable pub interrupt_program_handler : Env → Code (Unit {0})
interrupt_program_handler e d =
    (attempt (broadcast_data_to_peers e hdr_close [] 0 false none) >> λ d₁.
    ok (some tt, tuntap_close d₁))
      (tcp_server_close d)

-- The machine with all its parts.
pub record Machine : Type 0 where
  pub env : Env
  pub os : Os
  pub driver : Driver
  pub files : Files
  -- whether the n-th allocation for a path or a list cell gives memory
  pub memory : ℕ → Bool
  -- what `system` returns for a path, by the value of INTERFACE in the environment
  pub system : List ℕ → List ℕ → ℤ

pub record Program : Type 0 where
  pub daemon : Daemon
  pub ring : KeyRing
  pub config_dir : Option (List ℕ)
  pub config_freed : Bool
  pub already_closing : Bool

-- The pointer stays as it is.
unfoldable pub free_config_dir : Program → Outcome Program
free_config_dir p =
    if is_some p.config_dir
    then (if p.config_freed then fault else ok (record p { config_freed = true }))
    else ok p

-- `close(peer->s)` of `destroy_peer`, for every connected peer.
unfoldable pub closed_sockets : List Peer → List ℕ → List ℕ
closed_sockets [] fds = fds
closed_sockets (peer ∷ next) fds =
    closed_sockets next (if peer.alive then close_fd peer.s fds else fds)

-- The first call closes all; `already_closing` stops every other.
unfoldable pub close_vpnd : Program → Outcome Program
close_vpnd p =
    if p.already_closing
    then ok p
    else (let d = tuntap_close p.daemon in
        destroy_peers d.peers d.ctxs >>= λ ctxs. free_daemon_keys p.ring >>= λ ring.
        clear_trusted_keys ring >>= λ ring'. free_config_dir (record p {
          daemon = record d {
            peers = [];
            local_routes = [];
            ctxs = ctxs;
            fds = closed_sockets d.peers d.fds;
          };
          ring = ring';
          already_closing = true;
        }))

abbrev with_ring : Program → KeyRing → Program
with_ring p ring = record p { ring = ring }

-- `!load_daemon_privkey() || !load_daemon_pubkey()`, with what is freed on a failure.
abbrev public_next : Machine → List ℕ → Option ℕ × KeyRing → Outcome (Option ℕ × KeyRing)
public_next m dir (none, r) = ok (none, r)
public_next m dir (some key, r) = load_daemon_pubkey m.env.rsa m.files m.memory dir r

abbrev keys_or_free : Option ℕ × KeyRing → Outcome (Bool × KeyRing)
keys_or_free (some key, r) = ok (true, r)
keys_or_free (none, r) = free_daemon_keys r >>= λ r'. ok (false, r')

unfoldable pub load_keys : Machine → List ℕ → KeyRing → Outcome (Bool × KeyRing)
load_keys m dir r = load_daemon_privkey m.env.rsa m.files m.memory dir r >>= λ private.
    public_next m dir private >>= keys_or_free

abbrev keys_of : List (Option ℕ) → List ℕ → List ℕ
keys_of objects [] = []
keys_of objects (p ∷ ps) = elim (key_at objects p) [
  | none ↦ keys_of objects ps
  | some key ↦ key ∷ keys_of objects ps
]

abbrev key_of : List (Option ℕ) → Option ℕ → Option ℕ
key_of objects none = none
key_of objects (some p) = key_at objects p

-- The daemon works with the keys that were loaded.
unfoldable pub with_keys : KeyRing → Daemon → Daemon
with_keys r d = record d {
  trusted_keys = keys_of r.objects r.trusted_keys;
  daemon_privkey = key_of r.objects r.daemon_privkey;
  daemon_pubkey = key_of r.objects r.daemon_pubkey;
}

-- "dev-up"
abbrev script_name : List ℕ
script_name = 100 ∷ 101 ∷ 118 ∷ 45 ∷ 117 ∷ 112 ∷ []

-- `setenv`, then `system`; -1 without memory for the path.
abbrev script_result : Machine → List ℕ → Option (List ℕ) → ℤ
script_result m devname none = negsuc 0
script_result m devname (some path) = m.system path devname

-- `devname` is `tuntap_devname()`. The path is freed again.
unfoldable pub execute_script : Machine → List ℕ → List ℕ → List ℕ → KeyRing → Outcome (ℤ × KeyRing)
execute_script m dir name devname r = join_paths (m.memory r.allocs) dir name >>= λ path.
    ok (script_result m devname path, record r { allocs = r.allocs + 1 })

-- `tcp_server` or `tcp_client`, whose result is not looked at; `getaddrinfo` refuses to look up NULL.
abbrev result_daemon : Outcome (Option (Unit {0}) × Daemon) → Outcome Daemon
result_daemon (ok (o, d)) = ok d
result_daemon fault = fault
result_daemon stuck = stuck

unfoldable pub communicate : Machine → Args → ℕ → List ℕ → Daemon → Outcome Daemon
communicate m args fuel buf d =
    if args.server
    then result_daemon (tcp_server m.os m.env (not args.no_ipv4) (not args.no_ipv6) 10 fuel d)
    else elim args.address [
      | none ↦ ok d
      | some address ↦ result_daemon (tcp_client m.os m.env address args.port fuel buf d)
    ]

-- What follows the opening of the device: false is `EXIT_FAILURE`.
unfoldable pub run_device :
    Machine
    → Args
    → ℕ
    → List ℕ
    → List ℕ
    → Program
    → Option (ℕ × List ℕ) × Daemon
    → Outcome (Bool × Program)
run_device m args fuel buf dir p (none, d) = ok (false, record p { daemon = d })
run_device m args fuel buf dir p (some (fd, dev), d) =
    execute_script m dir script_name d.devname p.ring >>= λ script.
    communicate m args fuel buf d >>= λ d'.
    close_vpnd (record p { daemon = d'; ring = script.1 }) >>= λ p'. ok (true, p')

unfoldable pub run_keys :
    Machine → Args → ℕ → List ℕ → List ℕ → Program → Bool × KeyRing → Outcome (Bool × Program)
run_keys m args fuel buf dir p (false, r) = ok (false, with_ring p r)
run_keys m args fuel buf dir p (true, r) =
    load_trusted_keys m.env.rsa m.files m.memory dir r >>= λ r'.
    let opened = tuntap_open m.driver args.dev args.tap_mode (with_keys r' p.daemon) in
    run_device m args fuel buf dir (with_ring p r') opened

unfoldable pub run_vpnd : Machine → Args → ℕ → List ℕ → Program → Outcome (Bool × Program)
run_vpnd m args fuel buf p =
    or_fault p.config_dir >>= λ dir. load_keys m dir p.ring >>= run_keys m args fuel buf dir p

-- `exit` with the handlers of `atexit`, the last one first. Where no device was opened, `tuntap_close`
-- was not registered, and has nothing to close.
unfoldable pub exit_process : Bool × Program → Outcome (Bool × Program)
exit_process (code, p) =
    close_vpnd (record p { daemon = tuntap_close p.daemon }) >>= λ p'. ok (code, p')

-- What `fork` returns.
pub data Fork : Type 0 where
  fork_fails : Fork
  is_parent : Fork
  is_child : Fork

-- `main` behind the parsing of the command line, up to the end of the process.
unfoldable pub main : Machine → Fork → Args → ℕ → List ℕ → Program → Outcome (Bool × Program)
main m fork args fuel buf p =
    let run = run_vpnd m args fuel buf p >>= exit_process in
    if args.detach
    then elim fork [ fork_fails ↦ ok (false, p) | is_parent ↦ ok (true, p) | is_child ↦ run ]
    else run
