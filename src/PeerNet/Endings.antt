-- ===== src/PeerNet/Endings.antt =====
-- The steps of src/peer_net.c that change peers: how they end, and what they take from the streams.
use vpnd.Base.{
  ℕ, zero, suc, ◌≤◌, ◌≡◌, refl, sym, ap, ◌∙◌, inl, inr, Option, none, some, List, [], ◌∷◌,
  get_elem?, set, arith, Option-cases,
}
use vpnd.Netroute.{Netroute}
use vpnd.Socket.{Net}
use vpnd.Socket.Endings.{left_on, Shrunk}
use vpnd.Peer.{Peer}
use vpnd.Daemon.{Env, Daemon, Code, peer_at, set_peer, ◌>>=◌}
use vpnd.Daemon.Stays.{Holds, Kept, Runs, by, Runs-bind, Runs-weaken, Keeps}
use vpnd.PeerNet.Process.{learn_route, process_frame}
use vpnd.PeerNet.Process.Through.{deliver_packet-Runs, process_frame-Runs}

-- How much the descriptor of a peer has yet to deliver.
abbrev pub peer_left : Option Peer → Net → ℕ
peer_left none w = 0
peer_left (some p) w = left_on p.s w

abbrev pub left : ℕ → Daemon → ℕ
left i d = peer_left (get_elem? d.peers i) d.net

-- No connection has more to deliver than before.
pub record Flows (a b : Daemon) : Type 0 where
  pub flows : (i : ℕ) → left i b ≤ left i a

pub Flows-trans : (a b c : Daemon) → Flows a b → Flows b c → Flows a c
Flows-trans a b c h k = record { flows = λ i. omega (arith, h.flows i, k.flows i) }

peer_left-Shrunk : (o : Option Peer) (w v : Net) → Shrunk w v → peer_left o v ≤ peer_left o w
peer_left-Shrunk none w v h = omega arith
peer_left-Shrunk (some p) w v h = on p.s
  where
    on : (s : Option ℕ) → left_on s v ≤ left_on s w
    on none = omega arith
    on (some s) = h s

pub Flows-of_Kept : (a b : Daemon) → Kept a b → Flows a b
Flows-of_Kept a b k = record {
  flows = λ i. omega (
    arith,
    ap (λ (ps : List Peer). peer_left (get_elem? ps i) b.net) k.peers,
    peer_left-Shrunk (get_elem? a.peers i) a.net b.net k.shrunk,
  );
}

pub flow : {A : Type 0} {m : Code A} → Keeps m → Runs Flows m
flow h = Runs-weaken Flows-of_Kept h

pub Flows-bind :
    {A B : Type 0} {m : Code A} {f : A → Code B}
    → Runs Flows m
    → ((a : A) → Runs Flows (f a))
    → Runs Flows (m >>= f)
Flows-bind h k = Runs-bind Flows-trans h k

-- A write to a slot that leaves its descriptor.
set-left :
    (ps : List Peer) (j i : ℕ) (p q : Peer) (w : Net)
    → get_elem? ps j ≡ some p
    → q.s ≡ p.s
    → peer_left (get_elem? (set ps j q) i) w ≡ peer_left (get_elem? ps i) w
set-left [] j i p q w h e = refl
set-left (x ∷ ps) zero zero p q w h e = ap (λ (s : Option ℕ). left_on s w) (e ∙ socket (sym h))
  where
    socket : some p ≡ some x → p.s ≡ x.s
    socket k = cc
set-left (x ∷ ps) zero (suc i) p q w h e = refl
set-left (x ∷ ps) (suc j) zero p q w h e = refl
set-left (x ∷ ps) (suc j) (suc i) p q w h e = set-left ps j i p q w h e

pub Flows-set :
    (d : Daemon) (i : ℕ) (p q : Peer)
    → get_elem? d.peers i ≡ some p
    → q.s ≡ p.s
    → Flows d (record d { peers = set d.peers i q })
Flows-set d i p q h e = record { flows = λ j. omega (arith, set-left d.peers i j p q d.net h e) }

learn_route-Flows : (e : Env) (i : ℕ) (route : Netroute) → Runs Flows (learn_route e i route)
unfolding learn_route peer_at set_peer
learn_route-Flows e i route = by λ d. elim (Option-cases (get_elem? d.peers i)) [
  | inl missing ↦ rw (missing, Holds) tt
  | inr (p, found) ↦ rw (found, Holds) (Flows-set d i p _ found refl)
]

pub process_frame-Flows :
    (e : Env) (i : ℕ) (buf : List ℕ) (type len : ℕ) → Runs Flows (process_frame e i buf type len)
process_frame-Flows e i =
    process_frame-Runs e i Flows-trans Flows-of_Kept
      (deliver_packet-Runs e Flows-trans Flows-of_Kept (learn_route-Flows e) i)
