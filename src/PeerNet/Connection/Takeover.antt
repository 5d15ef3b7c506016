-- ===== src/PeerNet/Connection/Takeover.antt =====
-- A new connection between the two last steps of an old one's thread: `_peer_connection` of src/peer.c
-- sets `alive` to false, which frees the slot for `add_peer`, before it closes the descriptor.
use vpnd.Base.{
  sym, ◌<◌, ◌==◌, false, set, take, drop, get_elem?-set_self, get_elem?-set_other, ℕ, ◌≡◌, refl,
  ◌∙◌, ap, Bool, true, false, Option, some, List, get_elem?, Outcome, ok, fault, stuck, subst,
  arith, ok-injective,
}
use vpnd.Daemon.Descriptors.{closed, is_open, is_open-closed, is_open-closed_other}
use vpnd.Encryption.{CtxStore}
use vpnd.Peer.{Peer, Connection, set_peer_info, add_peer}
use vpnd.Peer.FirstSlot.{add_peer_from-first}
use vpnd.Peer.Slots.{Fresh, AddedFrom, Cleared, add_peer-Added, set_peer_info-Cleared}
use vpnd.Daemon.{Daemon, peer_at, set_peer}
use vpnd.PeerNet.Connection.{
  with_slots, peer_connection, mark_dead, close_socket, thread_end, run_all,
}

-- What a slot of `peer_connection` stands for.
pub peer_connection-Added :
    (malloc strdup : Bool) (c : Connection) (o : Option ℕ) (d d' : Daemon)
    → peer_connection malloc strdup c d ≡ ok (o, d')
    → AddedFrom malloc c 0 d.peers d.ctxs (ok (o, d'.peers, d'.ctxs))
      × (d' ≡ record d { peers = d'.peers; ctxs = d'.ctxs })
unfolding peer_connection
peer_connection-Added malloc strdup c o d d' h =
    cases (add_peer malloc strdup c d.peers d.ctxs) (add_peer-Added malloc strdup c d.peers d.ctxs)
      h
  where
    cases :
        (r : Outcome (Option ℕ × List Peer × CtxStore))
        → AddedFrom malloc c 0 d.peers d.ctxs r
        → with_slots d r ≡ ok (o, d')
        → AddedFrom malloc c 0 d.peers d.ctxs (ok (o, d'.peers, d'.ctxs))
          × (d' ≡ record d { peers = d'.peers; ctxs = d'.ctxs })
    cases (ok (slot, ps, cs)) a e =
        let both : (slot, record d { peers = ps; ctxs = cs }) ≡ (o, d') = ok-injective e in
        (
          subst
              (λ (t : Option ℕ × Daemon).
                AddedFrom malloc c 0 d.peers d.ctxs (ok (t.0, t.1.peers, t.1.ctxs)))
              both a,
          subst (λ (t : Option ℕ × Daemon). t.1 ≡ record d { peers = t.1.peers; ctxs = t.1.ctxs })
              both refl,
        )
    cases fault a e = cc
    cases stuck a e = cc

-- A new connection between the two last statements of the thread of an old one, which stands in slot `i` on
-- descriptor `old`; the slots before it are in use, and the contexts of the old connection can be freed.
-- Behind the first statement `peer_connection` gives slot `i` to the new connection, on descriptor `fd`,
-- and behind the second one that descriptor is closed, while the peer in slot `i` is the new one, which
-- is `alive` and stands on `fd`; and the descriptor of the old connection is still open.
pub close_socket-takeover :
    (malloc strdup : Bool) (c : Connection) (i old fd : ℕ) (p q : Peer) (ctxs : CtxStore)
    (d : Daemon)
    → get_elem? d.peers i ≡ some p
    → p.s ≡ some old
    → c.s ≡ some fd
    → (fd == old) ≡ false
    → is_open old d.fds ≡ true
    → ((k : ℕ) (x : Peer) → k < i → get_elem? d.peers k ≡ some x → x.alive ≡ true)
    → set_peer_info strdup (record p { alive = false }) c d.ctxs ≡ ok (q, ctxs)
    → (d₁ d₂ d₃ : Daemon) × (run_all (take 1 (thread_end i)) d ≡ ok (some tt, d₁))
      × (peer_connection malloc strdup c d₁ ≡ ok (some i, d₂))
      × (run_all (drop 1 (thread_end i)) d₂ ≡ ok (some tt, d₃))
      × (get_elem? d₃.peers i ≡ some q)
      × (q.alive ≡ true)
      × (q.s ≡ some fd)
      × (is_open fd d₃.fds ≡ false)
      × (is_open old d₃.fds ≡ true)
unfolding mark_dead close_socket peer_connection add_peer peer_at set_peer
close_socket-takeover malloc strdup c i old fd p q ctxs d here on_old on_fd differ open_old up
      made =
    let gone : Peer = record p { alive = false } in
    let marked : List Peer = set d.peers i gone in
    let taken : List Peer = set marked i q in
    let dead : get_elem? marked i ≡ some gone = get_elem?-set_self d.peers i gone here in
    let found : get_elem? taken i ≡ some q = get_elem?-set_self marked i q dead in
    let fresh : Fresh c q =
      subst (Cleared c gone) made (set_peer_info-Cleared strdup c gone d.ctxs) in
    let mine : q.s ≡ some fd = fresh.s ∙ on_fd in
    let given =
      add_peer_from-first malloc strdup c 0 i marked d.ctxs gone (q, ctxs) dead refl
        (λ k x below at.
          up k x below
            (sym (get_elem?-set_other d.peers i k gone (λ e. omega (arith, e, below))) ∙ at))
        made in
    let d₂ : Daemon = record d { peers = taken; ctxs = ctxs } in
    (
      record d { peers = marked },
      d₂,
      record d₂ { fds = closed fd d.fds },
      rw here refl,
      rw given (ap (λ (k : ℕ). ok (some k, d₂)) (omega arith)),
      rw (found, mine) refl,
      found,
      fresh.alive,
      mine,
      is_open-closed fd d.fds,
      is_open-closed_other fd old d.fds differ ∙ open_old,
    )
