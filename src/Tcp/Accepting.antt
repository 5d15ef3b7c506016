-- ===== src/Tcp/Accepting.antt =====
-- An accepted connection: `tcp_accept_connection` of src/tcp.c.
use vpnd.Base.{
  ℕ, ◌+◌, ◌*◌, ◌≡◌, refl, ◌∙◌, inl, inr, ◌⊎◌, Bool, true, false, ◌||◌, Option, none, some, List,
  ◌∷◌, leb, length, take, drop, get_elem?, Outcome, ok, fault, stuck, Bool-cases, arith, is_some,
  length-take,
}
use vpnd.Encryption.{CtxStore}
use vpnd.Peer.{Peer, Connection, add_peer}
use vpnd.Peer.Slots.{AddedFrom, add_peer-Added}
use vpnd.Daemon.{Env, Daemon, no_result, attempt}
use vpnd.PeerNet.Process.{readable}
use vpnd.PeerNet.Connection.{peer_connection, with_slots}
use vpnd.Daemon.Descriptors.{is_open, opened}
use vpnd.Tcp.{Os, uint16, sockaddr_size, af_inet6, greet, tcp_accept_connection}

readable-outside :
    (buf : List ℕ) (i n : ℕ) (d : Daemon)
    → leb (i + n) (length buf) ≡ false
    → readable buf i n d ≡ fault
unfolding readable
readable-outside buf i n d h = rw h refl

readable-inside :
    (buf : List ℕ) (i n : ℕ) (d : Daemon)
    → leb (i + n) (length buf) ≡ true
    → readable buf i n d ≡ ok (some (take n (drop i buf)), d)
unfolding readable
readable-inside buf i n d h = rw h refl

-- Every connection that comes in over IPv6 makes `tcp_accept_connection` read outside of `sin`, which has
-- room for a `struct sockaddr` of 16 bytes: the address of a `struct sockaddr_in6` stands in the bytes
-- 8 to 23.
pub tcp_accept_connection_ip6 :
    (os : Os) (e : Env) (s peer : ℕ) (remote : List ℕ) (d : Daemon)
    → os.accept d.net.calls d.fds s ≡ some (peer, remote)
    → uint16 e.little (take 2 (take sockaddr_size remote)) ≡ af_inet6
    → tcp_accept_connection os e s d ≡ fault
unfolding tcp_accept_connection greet
tcp_accept_connection_ip6 os e s peer remote d accepted family =
    rw (tcp_accept_connection, accepted)
      (elim (Bool-cases (leb (0 + 2) (length sin))) [
        | inl two ↦
            rw
              (
                readable-inside sin 0 2 (opened peer d) two,
                family,
                readable-outside sin 8 16 (opened peer d) (ground (arith, length-take 16 remote)),
              )
              refl
        | inr less ↦ rw (readable-outside sin 0 2 (opened peer d) less) refl
      ])
  where
    sin : List ℕ
    sin = take sockaddr_size remote

-- What an accepted connection comes to: a peer in the list that has the descriptor, or no memory for it,
-- where the descriptor stays open without a peer.
abbrev pub Greeted : Daemon → ℕ → ℕ → Outcome (Option (Unit {0}) × Daemon) → Type 0
Greeted d fd port (ok (o, d')) =
    (is_open fd d'.fds ≡ true)
    × (((i : ℕ) × (q : Peer) × (get_elem? d'.peers i ≡ some q)
          × (q.s ≡ some fd)
          × (q.alive ≡ true)
          × (q.is_client ≡ false)
          × (q.port ≡ port))
        ⊎ (d'.peers ≡ d.peers))
Greeted d fd port fault =
    (k : ℕ) × (p : Peer) × (get_elem? d.peers k ≡ some p)
    × (p.alive ≡ false)
    × ((is_some p.enc_ctx || is_some p.dec_ctx) ≡ true)
Greeted d fd port stuck = ⊥

module _ (malloc strdup : Bool) (c : Connection) (fd : ℕ) (d : Daemon) (socket : c.s ≡ some fd)
    (client : c.is_client ≡ false) (opens : is_open fd d.fds ≡ true) where
  connection-Greeted : Greeted d fd c.port (attempt (peer_connection malloc strdup c) d)
  unfolding peer_connection
  connection-Greeted =
      cases (add_peer malloc strdup c d.peers d.ctxs)
        (add_peer-Added malloc strdup c d.peers d.ctxs)
    where
      cases :
          (r : Outcome (Option ℕ × List Peer × CtxStore))
          → AddedFrom malloc c 0 d.peers d.ctxs r
          → Greeted d fd c.port (no_result (with_slots d r))
      cases (ok (some i, ps, st)) (k, q, slot, found, fresh, dead, others) = (
        opens,
        inl (k, q, found, fresh.s ∙ socket, fresh.alive, fresh.is_client ∙ client, fresh.port),
      )
      cases (ok (none, ps, st)) (none_left, taken, peers, ctxs) = (opens, inr peers)
      cases fault h = h
      cases stuck h = h

-- Over IPv4 and on a machine that stores the low byte first: a connection from port `256 * high + low`
-- gets a peer with the port `256 * low + high`; if there is no memory for a peer, the descriptor stays
-- open and no peer has it. The call faults only on a slot that still has a cipher context.
pub tcp_accept_connection_ip4 :
    (os : Os) (e : Env) (s fd high low a b c f : ℕ) (rest : List ℕ) (d : Daemon)
    → e.little ≡ true
    → os.accept d.net.calls d.fds s ≡ some (fd, 2 ∷ 0 ∷ high ∷ low ∷ a ∷ b ∷ c ∷ f ∷ rest)
    → Greeted d fd (low * 256 + high) (tcp_accept_connection os e s d)
unfolding tcp_accept_connection greet
tcp_accept_connection_ip4 os e s fd high low a b c f rest d little accepted =
    let d₁ : Daemon = opened fd d in
    rw
      (
        tcp_accept_connection,
        accepted,
        readable-inside sin 0 2 d₁ (ground arith),
        little,
        readable-inside sin 4 4 d₁ (ground arith),
        readable-inside sin 2 2 d₁ (ground arith),
      )
      (connection-Greeted (e.memory d₁.net.calls) (os.strdup d₁.net.calls) _ fd d₁ refl refl
        (ground arith))
  where
    sin : List ℕ
    sin = 2 ∷ 0 ∷ high ∷ low ∷ a ∷ b ∷ c ∷ f ∷ take 8 rest
