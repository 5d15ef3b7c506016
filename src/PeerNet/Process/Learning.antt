-- ===== src/PeerNet/Process/Learning.antt =====
-- What routes the daemon learns: `deliver_packet` and `process_frame` (src/peer_net.c).
use vpnd.Base.{
  ℕ, ◌≡◌, sym, subst, inl, inr, false, Option, none, some, List, All, get_elem?, Option-cases,
}
use vpnd.Netroute.{Netroute}
use vpnd.Peer.{get_peer_route}
use vpnd.Peer.Routing.{serves, FirstFrom, get_peer_route-First, Exclusive, learn-Exclusive}
use vpnd.Daemon.{Env, Daemon, Code, pure, peer_at, set_peer}
use vpnd.Daemon.Stays.{Holds, Holds-map, Holds-bind, Holds-chain, Kept, Runs, by, Runs-weaken}
use vpnd.PeerNet.Wire.Keeps.{tuntap_write-Keeps}
use vpnd.PeerNet.Process.{learn_route, deliver_packet, process_frame}
use vpnd.PeerNet.Process.Through.{process_frame-Runs}

pub record Maintains (a b : Daemon) : Type 0 where
  pub maintains : Exclusive a.peers → Exclusive b.peers

pub Maintains-trans : (a b c : Daemon) → Maintains a b → Maintains b c → Maintains a c
Maintains-trans a b c h k = record { maintains = λ x. k.maintains (h.maintains x) }

pub Maintains-of_Kept : (a b : Daemon) → Kept a b → Maintains a b
Maintains-of_Kept a b k = record { maintains = λ x. subst Exclusive (sym k.peers) x }

-- A route that no connected peer has is learnt.
learn_route-Maintains :
    (e : Env) (i : ℕ) (route : Netroute) (d : Daemon)
    → All (λ q. serves route q ≡ false) d.peers
    → Holds (Maintains d) (learn_route e i route d)
unfolding learn_route peer_at set_peer
learn_route-Maintains e i route d unknown = elim (Option-cases (get_elem? d.peers i)) [
  | inl missing ↦ rw (missing, Holds) tt
  | inr (p, found) ↦
      rw (found, Holds)
        (record {
          maintains = λ x. learn-Exclusive (e.memory d.net.calls) route d.peers i p found unknown x;
        })
]

deliver_packet-Maintains :
    (e : Env) (i : ℕ) (packet : List ℕ) (len : ℕ) (route : Netroute)
    → Runs Maintains (deliver_packet e i packet len route)
unfolding deliver_packet
deliver_packet-Maintains e i packet len route = by λ d.
    Holds-bind (Maintains d) (Maintains d) _ _
      (learning d (get_peer_route route d.peers) (get_peer_route-First route d.peers))
      (λ a d₁ h.
        Holds-chain Maintains-trans d d₁ _ h
          ((Runs-weaken Maintains-of_Kept (tuntap_write-Keeps e packet len)).keeps d₁))
      (λ d₁ h. h)
  where
    learning :
        (d : Daemon) (o : Option ℕ)
        → FirstFrom route 0 d.peers o
        → Holds (Maintains d) (
            (elim o as (λ x. Code (Unit {0})) [
              | none ↦ learn_route e i route
              | some known ↦ pure tt
            ])
              d)
    learning d none unknown = learn_route-Maintains e i route d unknown
    learning d (some known) first = record { maintains = λ x. x }

pub process_frame-Maintains :
    (e : Env) (i : ℕ) (buf : List ℕ) (header_type data_len : ℕ)
    → Runs Maintains (process_frame e i buf header_type data_len)
process_frame-Maintains e i =
    process_frame-Runs e i Maintains-trans Maintains-of_Kept (deliver_packet-Maintains e i)

-- `process_frame`, when no other thread learns meanwhile, keeps every address a route of at most one
-- connected peer, for all frames and
-- whatever the kernel, the memory and OpenSSL answer; and it ends.
pub process_frame-Exclusive :
    (e : Env) (i : ℕ) (buf : List ℕ) (header_type data_len : ℕ) (d : Daemon)
    → Exclusive d.peers
    → Holds (λ d'. Exclusive d'.peers) (process_frame e i buf header_type data_len d)
process_frame-Exclusive e i buf header_type data_len d x =
    Holds-map (Maintains d) (λ d'. Exclusive d'.peers) _ (λ d' h. h.maintains x)
      ((process_frame-Maintains e i buf header_type data_len).keeps d)
