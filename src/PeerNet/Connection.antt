-- ===== src/PeerNet/Connection.antt =====
-- A connection from its first slot to its last: `peer_connection` and `_peer_connection` of src/peer.c.
-- The thread of a connection and the accepting thread share the list of peers without a lock, so the
-- steps of the thread's end stand apart.
pub mod Takeover
use vpnd.Base.{
  ℕ, Bool, false, Option, none, some, List, [], ◌∷◌, ◌==◌, if◌then◌else◌, Outcome, ok, fault, stuck,
}
use vpnd.Daemon.Descriptors.{close_fd}
use vpnd.Encryption.{CtxStore}
use vpnd.Peer.{Peer, Connection, add_peer}
use vpnd.Daemon.{Env, Daemon, Code, ◌>>=◌, ◌>>◌, pure, peer_at, set_peer}
use vpnd.PeerNet.Handshake.{peer_receive}

abbrev pub with_slots :
    Daemon → Outcome (Option ℕ × List Peer × CtxStore) → Outcome (Option ℕ × Daemon)
with_slots d (ok (slot, peers, ctxs)) = ok (slot, record d { peers = peers; ctxs = ctxs })
with_slots d fault = fault
with_slots d stuck = stuck

-- `peer_connection`: the slot that its thread gets, or `none` when there is no memory; the socket
-- stays open then. The flags say whether `malloc` and `strdup` give memory.
unfoldable pub peer_connection : Bool → Bool → Connection → Code ℕ
peer_connection malloc strdup c d = with_slots d (add_peer malloc strdup c d.peers d.ctxs)

-- `peer->alive = false`
unfoldable pub mark_dead : ℕ → Code (Unit {0})
mark_dead i = do peer ← peer_at i; set_peer i (record peer { alive = false })

-- `close(peer->s)`
unfoldable pub close_socket : ℕ → Code (Unit {0})
close_socket i = do peer ← peer_at i; λ d. ok (some tt, record d { fds = close_fd peer.s d.fds })

-- The statements with which the thread of a connection ends.
abbrev pub thread_end : ℕ → List (Code (Unit {0}))
thread_end i = mark_dead i ∷ close_socket i ∷ []

abbrev pub run_all : List (Code (Unit {0})) → Code (Unit {0})
run_all [] = pure tt
run_all (m ∷ []) = m
run_all (m ∷ n ∷ ms) = m >> run_all (n ∷ ms)

-- `_peer_connection`
unfoldable pub connection_thread : Env → ℕ → ℕ → List ℕ → Code (Unit {0})
connection_thread e i fuel buf = peer_receive e i fuel buf >> run_all (thread_end i)
