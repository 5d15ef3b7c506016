-- ===== src/PeerNet/System/Safety.antt =====
-- What every state of the daemon has in common, step by step, for the threads of src/peer.c and
-- src/peer_net.c.
use vpnd.Base.{
  ℕ, ◌≡◌, ◌≢◌, refl, sym, ap, ◌∙◌, subst, inl, inr, true, false, Option, none, some, List,
  get_elem?, ◌==◌, Bool-cases, ==→eq, ==-false→neq, is_some, ◌⊎◌,
}
use vpnd.Netroute.Table.{Distinct}
use vpnd.Peer.{Peer}
use vpnd.Daemon.{Env, Daemon}
use vpnd.PeerNet.Handshake.Trusted.{HasTrustedKey}
use vpnd.PeerNet.System.{Phase, idle, shaking, at}
use vpnd.PeerNet.System.Slotwise.{Both}

-- What an authenticated peer has.
pub record Member (e : Env) (trusted : List ℕ) (p : Peer) : Type 0 where
  pub key : HasTrustedKey e trusted p
  pub enc : is_some p.enc_ctx ≡ true
  pub dec : is_some p.dec_ctx ≡ true

pub record SameIdentity (p q : Peer) : Type 0 where
  pub authenticated : q.authenticated ≡ p.authenticated
  pub pubkey : q.pubkey ≡ p.pubkey
  pub enc_ctx : q.enc_ctx ≡ p.enc_ctx
  pub dec_ctx : q.dec_ctx ≡ p.dec_ctx

abbrev pub At : Daemon → ℕ → Peer → Type 0
At d i p = get_elem? d.peers i ≡ some p

pub record Safe (e : Env) (d : Daemon) (phase : ℕ → Phase) : Type 0 where
  -- who is authenticated has given a trusted key and has both contexts
  pub members : (i : ℕ) (p : Peer) → At d i p → p.authenticated ≡ true → Member e d.trusted_keys p
  pub distinct : Distinct d.local_routes
  -- who has yet to shake hands is not authenticated
  pub unproven : (i : ℕ) (p : Peer) → phase i ≡ shaking → At d i p → p.authenticated ≡ false
  -- a slot with a thread is in use
  pub running : (i : ℕ) → phase i ≢ idle → (p : Peer) × At d i p × (p.alive ≡ true)

at-cases :
    (phase : ℕ → Phase) (i j : ℕ) (x : Phase)
    → ((i ≡ j) × (at phase i x j ≡ x)) ⊎ ((i ≢ j) × (at phase i x j ≡ phase j))
at-cases phase i j x = elim (Bool-cases (j == i)) [
  | inl same ↦ inl (sym (==→eq j i same), rw same refl)
  | inr other ↦ inr (λ h. ==-false→neq j i other (sym h), rw other refl)
]

-- The phase of one slot changes.
pub Safe-phase :
    (e : Env) (d : Daemon) (phase : ℕ → Phase) (i : ℕ) (x : Phase)
    → ((p : Peer) → x ≡ shaking → At d i p → p.authenticated ≡ false)
    → (x ≢ idle → (p : Peer) × At d i p × (p.alive ≡ true))
    → Safe e d phase
    → Safe e d (at phase i x)
Safe-phase e d phase i x new used s = record {
  members = s.members;
  distinct = s.distinct;
  unproven = λ j p h found. elim (at-cases phase i j x) [
    | inl (same, now) ↦ new p (sym now ∙ h) (ap (get_elem? d.peers) same ∙ found)
    | inr (other, now) ↦ s.unproven j p (sym now ∙ h) found
  ];
  running = λ j h. elim (at-cases phase i j x) [
    | inl (same, now) ↦
        let (p, found, up) = used (λ t. h (now ∙ t)) in
        (p, ap (get_elem? d.peers) (sym same) ∙ found, up)
    | inr (other, now) ↦ s.running j (λ t. h (now ∙ t))
  ];
}

Member-same :
    (e : Env) (trusted : List ℕ) (p q : Peer)
    → SameIdentity p q
    → Member e trusted p
    → Member e trusted q
Member-same e trusted p q same m = record {
  key = record {
    key = m.key.key;
    given = same.pubkey ∙ m.key.given;
    is_trusted = m.key.is_trusted;
  };
  enc = ap is_some same.enc_ctx ∙ m.enc;
  dec = ap is_some same.dec_ctx ∙ m.dec;
}

-- The daemon changes: every authenticated peer was one before, or has just become one.
pub Safe-daemon :
    (e : Env) (a b : Daemon) (phase : ℕ → Phase)
    → ((j : ℕ) (q : Peer)
        → At b j q
        → q.authenticated ≡ true
        → ((p : Peer) × At a j p × SameIdentity p q)
          ⊎ ((phase j ≢ shaking) × Member e b.trusted_keys q))
    → b.trusted_keys ≡ a.trusted_keys
    → Distinct b.local_routes
    → ((j : ℕ) (p : Peer)
        → phase j ≢ idle
        → At a j p
        → p.alive ≡ true
        → (q : Peer) × At b j q × (q.alive ≡ true))
    → Safe e a phase
    → Safe e b phase
Safe-daemon e a b phase was keys distinct stays s = record {
  members = λ j q found proven. elim (was j q found proven) [
    | inl (p, old, same) ↦ Member-same e b.trusted_keys p q same (
        subst (λ (t : List ℕ). Member e t p) (sym keys)
          (s.members j p old (sym same.authenticated ∙ proven)))
    | inr (ready, m) ↦ m
  ];
  distinct = distinct;
  unproven = λ j q h found. elim (Bool-cases q.authenticated) [
    | inl proven ↦ elim (was j q found proven) [
      | inl (p, old, same) ↦ same.authenticated ∙ s.unproven j p h old
      | inr (ready, m) ↦ absurd (ready h)
    ]
    | inr not_yet ↦ not_yet
  ];
  running = λ j h. let (p, found, up) = s.running j h in stays j p h found up;
}

-- Nothing of the peers changes.
pub Safe-same :
    (e : Env) (a b : Daemon) (phase : ℕ → Phase)
    → b.peers ≡ a.peers
    → b.trusted_keys ≡ a.trusted_keys
    → Distinct b.local_routes
    → Safe e a phase
    → Safe e b phase
Safe-same e a b phase peers keys distinct s =
    Safe-daemon e a b phase
      (λ j q found proven. inl (
        q,
        ap (λ (ps : List Peer). get_elem? ps j) (sym peers) ∙ found,
        record { authenticated = refl; pubkey = refl; enc_ctx = refl; dec_ctx = refl },
      ))
      keys distinct
      (λ j p h found up. (p, ap (λ (ps : List Peer). get_elem? ps j) peers ∙ found, up)) s

-- The slot before a slot after, for slots related one by one.
pub Both-before :
    (R : Peer → Peer → Type 0) (x y : Option Peer) (q : Peer)
    → Both R x y
    → y ≡ some q
    → (p : Peer) × (x ≡ some p) × R p q
Both-before R none none q h e = cc
Both-before R none (some y) q h e = absurd h
Both-before R (some x) none q h e = absurd h
Both-before R (some x) (some y) q h e = (x, refl, subst (R x) (same e) h)
  where
    same : some y ≡ some q → y ≡ q
    same k = cc

pub Both-after :
    (R : Peer → Peer → Type 0) (x y : Option Peer) (p : Peer)
    → Both R x y
    → x ≡ some p
    → (q : Peer) × (y ≡ some q) × R p q
Both-after R none y p h e = cc
Both-after R (some x) none p h e = absurd h
Both-after R (some x) (some y) p h e = (y, refl, subst (λ (t : Peer). R t y) (same e) h)
  where
    same : some x ≡ some p → x ≡ p
    same k = cc
