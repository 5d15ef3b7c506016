-- ===== src/PeerNet/System/Steps.antt =====
-- Every kind of step keeps what `Safe` says: the accepting thread, the handshakes, the frames, the end of
-- a connection and the packets of the device.
use vpnd.Base.{
  ℕ, ◌≡◌, ◌≢◌, refl, sym, ap, ◌∙◌, subst, inl, inr, Bool, true, false, Option, none, some,
  get_elem?, set, ◌==◌, Bool-cases, ==→eq, ==-false→neq, arith, Outcome, ok, fault, Option-cases,
  get_elem?-set_other,
}
use vpnd.Peer.{Peer, Connection}
use vpnd.Peer.Routing.{slot-set}
use vpnd.Daemon.{Env, Daemon, peer_at, set_peer}
use vpnd.PeerNet.Connection.{peer_connection, mark_dead, close_socket}
use vpnd.Daemon.Descriptors.{close_fd}
use vpnd.PeerNet.Connection.Takeover.{peer_connection-Added}
use vpnd.PeerNet.System.{Phase, idle, shaking, at}
use vpnd.PeerNet.System.Slotwise.{Slotwise, Shaken, SameMember}
use vpnd.PeerNet.System.Safety.{
  Member, SameIdentity, At, Safe, Safe-phase, Safe-daemon, Safe-same, Both-before, Both-after,
}

pub At-same : (d : Daemon) (i : ℕ) (p q : Peer) → At d i p → At d i q → p ≡ q
At-same d i p q h k = same (sym h ∙ k)
  where
    same : some p ≡ some q → p ≡ q
    same e = cc

refl-Identity : (p : Peer) → SameIdentity p p
refl-Identity p = record { authenticated = refl; pubkey = refl; enc_ctx = refl; dec_ctx = refl }

pub peer_connection-Safe :
    (e : Env) (malloc strdup : Bool) (c : Connection) (i : ℕ) (d d' : Daemon) (phase : ℕ → Phase)
    → peer_connection malloc strdup c d ≡ ok (some i, d')
    → Safe e d phase
    → Safe e d' (at phase i shaking)
peer_connection-Safe e malloc strdup c i d d' phase h s =
    let ((k, new, slot, found, fresh, dead, others), kept) =
      peer_connection-Added malloc strdup c (some i) d d' h in
    let i≡k : i ≡ k = omega (arith, slot) in
    let here : At d' i new = ap (get_elem? d'.peers) i≡k ∙ found in
    let fields : (d'.trusted_keys ≡ d.trusted_keys) × (d'.local_routes ≡ d.local_routes) =
      (ap (λ (t : Daemon). t.trusted_keys) kept, ap (λ (t : Daemon). t.local_routes) kept) in
    let others_i : (j : ℕ) → j ≢ i → get_elem? d'.peers j ≡ get_elem? d.peers j =
      λ j far. others j (λ t. far (t ∙ sym i≡k)) in
    Safe-phase e d' phase i shaking
      (λ p start at_i.
        ap (λ (t : Peer). t.authenticated) (At-same d' i p new at_i here) ∙ fresh.authenticated)
      (λ ready. (new, here, fresh.alive))
      (Safe-daemon e d d' phase
        (λ j q at_j proven. elim (Bool-cases (j == i)) [
          | inl same ↦
              let q_new : q ≡ new =
                At-same d' i q new (ap (get_elem? d'.peers) (sym (==→eq j i same)) ∙ at_j) here in
              let clash : true ≡ false =
                sym proven ∙ (ap (λ (t : Peer). t.authenticated) q_new ∙ fresh.authenticated) in
              cc
          | inr other ↦ inl (q, sym (others_i j (==-false→neq j i other)) ∙ at_j, refl-Identity q)
        ])
        fields.0 (rw fields.1 s.distinct)
        (λ j p busy at_j up. elim (Bool-cases (j == i)) [
          | inl same ↦
              let clash : true ≡ false =
                sym up ∙ dead p (ap (get_elem? d.peers) (sym (==→eq j i same ∙ i≡k)) ∙ at_j) in
              cc
          | inr other ↦ (p, others_i j (==-false→neq j i other) ∙ at_j, up)
        ])
        s)

pub refused-Safe :
    (e : Env) (malloc strdup : Bool) (c : Connection) (d d' : Daemon) (phase : ℕ → Phase)
    → peer_connection malloc strdup c d ≡ ok (none, d')
    → Safe e d phase
    → Safe e d' phase
refused-Safe e malloc strdup c d d' phase h s =
    let ((none_left, taken, peers, ctxs), kept) =
      peer_connection-Added malloc strdup c none d d' h in
    Safe-same e d d' phase peers (ap (λ (t : Daemon). t.trusted_keys) kept)
      (rw (ap (λ (t : Daemon). t.local_routes) kept) s.distinct) s

pub Shaken-Safe :
    (e : Env) (i : ℕ) (a b : Daemon) (phase : ℕ → Phase)
    → Slotwise (Shaken i) a b
    → phase i ≢ shaking
    → ((q : Peer) → At b i q → q.authenticated ≡ true → Member e b.trusted_keys q)
    → Safe e a phase
    → Safe e b phase
Shaken-Safe e i a b phase w ready member s =
    Safe-daemon e a b phase
      (λ j q found proven. elim (Bool-cases (j == i)) [
        | inl same ↦
            let j≡i : j ≡ i = ==→eq j i same in
            inr (
              λ h. ready (ap phase (sym j≡i) ∙ h),
              member q (ap (get_elem? b.peers) (sym j≡i) ∙ found) proven,
            )
        | inr other ↦
            let (p, old, r) =
              Both-before (Shaken i j) (get_elem? a.peers j) _ q (w.slots j) found in
            inl (
              p,
              old,
              subst (SameIdentity p) (sym (r.other (==-false→neq j i other))) (refl-Identity p),
            )
      ])
      w.trusted_keys (rw w.local_routes s.distinct)
      (λ j p busy found up.
        let (q, new, r) = Both-after (Shaken i j) _ (get_elem? b.peers j) p (w.slots j) found in
        (q, new, r.alive ∙ up))
      s

pub SameMember-Safe :
    (e : Env) (a b : Daemon) (phase : ℕ → Phase)
    → Slotwise SameMember a b
    → Safe e a phase
    → Safe e b phase
SameMember-Safe e a b phase w s =
    Safe-daemon e a b phase
      (λ j q found proven.
        let (p, old, r) = Both-before (SameMember j) (get_elem? a.peers j) _ q (w.slots j) found in
        inl (
          p,
          old,
          record {
            authenticated = r.authenticated;
            pubkey = r.pubkey;
            enc_ctx = r.enc_ctx;
            dec_ctx = r.dec_ctx;
          },
        ))
      w.trusted_keys (rw w.local_routes s.distinct)
      (λ j p busy found up.
        let (q, new, r) = Both-after (SameMember j) _ (get_elem? b.peers j) p (w.slots j) found in
        (q, new, r.alive ∙ up))
      s

abbrev After : Daemon → Outcome (Option (Unit {0}) × Daemon)
After d = ok (some tt, d)

returned : {a b : Daemon} → After a ≡ After b → a ≡ b
returned h = cc

pub mark_dead-Safe :
    (e : Env) (i : ℕ) (d d' : Daemon) (phase : ℕ → Phase)
    → mark_dead i d ≡ ok (some tt, d')
    → phase i ≡ idle
    → Safe e d phase
    → Safe e d' phase
unfolding mark_dead peer_at set_peer
mark_dead-Safe e i d d' phase h gone s = elim (Option-cases (get_elem? d.peers i)) [
  | inl missing ↦ absurd (no_ok (rw missing at h))
  | inr (p, found) ↦
      let v : Peer = record p { alive = false } in
      let same : record d { peers = set d.peers i v } ≡ d' = returned (rw found at h) in
      subst (λ (t : Daemon). Safe e t phase) same (marked p found)
]
  where
    no_ok : fault ≡ After d' → ⊥
    no_ok x = cc

    marked :
        (p : Peer)
        → At d i p
        → Safe e (record d { peers = set d.peers i (record p { alive = false }) }) phase
    marked p found =
        let v : Peer = record p { alive = false } in
        Safe-daemon e d (record d { peers = set d.peers i v }) phase
          (λ j q at_j proven. elim (slot-set d.peers i j p v q found at_j) [
            | inl (i≡j, v≡q) ↦ inl (
              p,
              ap (get_elem? d.peers) (sym i≡j) ∙ found,
              subst (SameIdentity p) v≡q
                  (record { authenticated = refl; pubkey = refl; enc_ctx = refl; dec_ctx = refl }),
            )
            | inr old ↦ inl (q, old, refl-Identity q)
          ])
          refl s.distinct
          (λ j q busy at_j up. elim (Bool-cases (i == j)) [
            | inl same ↦ absurd (busy (ap phase (sym (==→eq i j same)) ∙ gone))
            | inr other ↦ (q, get_elem?-set_other d.peers i j v (==-false→neq i j other) ∙ at_j, up)
          ])
          s

pub close_socket-Safe :
    (e : Env) (i : ℕ) (d d' : Daemon) (phase : ℕ → Phase)
    → close_socket i d ≡ ok (some tt, d')
    → Safe e d phase
    → Safe e d' phase
unfolding close_socket peer_at
close_socket-Safe e i d d' phase h s = elim (Option-cases (get_elem? d.peers i)) [
  | inl missing ↦ absurd (no_ok (rw missing at h))
  | inr (p, found) ↦
      let same : record d { fds = close_fd p.s d.fds } ≡ d' = returned (rw found at h) in
      subst (λ (t : Daemon). Safe e t phase) same
        (Safe-same e d (record d { fds = close_fd p.s d.fds }) phase refl refl s.distinct s)
]
  where
    no_ok : fault ≡ After d' → ⊥
    no_ok x = cc
