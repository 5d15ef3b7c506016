-- ===== src/Daemon.antt =====
-- The state of the daemon that src/peer.c, src/peer_net.c, src/rsa.c and src/interface.c keep in
-- static variables, what it is given by the kernel and OpenSSL, and the code that runs on it.
-- Every handler of the model runs to its end before the next one starts.
pub mod Stays
pub mod Descriptors
use vpnd.Base.{
  ℕ, Bool, true, false, Option, none, some, List, set, get_elem?, Outcome, ok, fault, stuck,
}
use vpnd.Netroute.{Netroute}
use vpnd.Socket.{Kernel, Net}
use vpnd.Encryption.{Evp, CtxStore}
use vpnd.Rsa.{Rsa}
use vpnd.Peer.{Peer}

-- The machine and the libraries.
pub record Env : Type 0 where
  pub little : Bool
  pub kernel : Kernel
  pub evp : Evp
  pub rsa : Rsa
  -- whether an allocation gives memory, by the number of system calls made before it
  pub memory : ℕ → Bool
  -- `RAND_priv_bytes`, by the number of system calls made before it and the bytes wanted
  pub rand : ℕ → ℕ → Option (List ℕ)
  -- what the uninitialised locals of `process_netpacket` hold
  pub stack_packet : List ℕ
  pub stack_route : Netroute

pub record Daemon : Type 0 where
  pub net : Net
  pub peers : List Peer
  pub local_routes : List Netroute
  pub ctxs : CtxStore
  pub trusted_keys : List ℕ
  pub daemon_privkey : Option ℕ
  pub daemon_pubkey : Option ℕ
  pub if_fd : Option ℕ  -- -1 is `none`
  pub if_tap : Bool
  pub fds : List ℕ  -- the open descriptors
  pub tcp4_socket : Option ℕ
  pub tcp6_socket : Option ℕ
  pub devname : List ℕ

-- A piece of code on the daemon: its value, or `none` for an early return with an error.
abbrev pub Code : Type 0 → Type 0
Code A = Daemon → Outcome (Option A × Daemon)

abbrev pub pure : {A : Type 0} → A → Code A
pure a d = ok (some a, d)

abbrev pub give_up : {A : Type 0} → Code A
give_up d = ok (none, d)

abbrev pub crash : {A : Type 0} → Code A
crash d = fault

abbrev pub and_then :
    {A B : Type 0} → Outcome (Option A × Daemon) → (A → Code B) → Outcome (Option B × Daemon)
and_then (ok (some a, d)) f = f a d
and_then (ok (none, d)) f = ok (none, d)
and_then fault f = fault
and_then stuck f = stuck

infixl 5 ◌>>=◌ ◌>>◌
abbrev pub ◌>>=◌ : {A B : Type 0} → Code A → (A → Code B) → Code B
◌>>=◌ m f d = and_then (m d) f

abbrev pub ◌>>◌ : {B : Type 0} → Code (Unit {0}) → Code B → Code B
m >> k = m >>= λ _. k

abbrev pub daemon : Code Daemon
daemon d = ok (some d, d)

abbrev pub store : Daemon → Code (Unit {0})
store d' d = ok (some tt, d')

abbrev pub on_option : {A : Type 0} → Option A → Code A
on_option none d = ok (none, d)
on_option (some a) d = ok (some a, d)

-- `*peer`, for the pointer to slot `i`.
abbrev pub found_peer : Option Peer → Code Peer
found_peer none d = fault
found_peer (some p) d = ok (some p, d)

unfoldable pub peer_at : ℕ → Code Peer
peer_at i d = found_peer (get_elem? d.peers i) d

unfoldable pub set_peer : ℕ → Peer → Code (Unit {0})
set_peer i p d = ok (some tt, record d { peers = set d.peers i p })

-- A call whose early return the caller does not see.
abbrev pub no_result :
    {A : Type 0} → Outcome (Option A × Daemon) → Outcome (Option (Unit {0}) × Daemon)
no_result (ok (o, d)) = ok (some tt, d)
no_result fault = fault
no_result stuck = stuck

abbrev pub attempt : {A : Type 0} → Code A → Code (Unit {0})
attempt m d = no_result (m d)
