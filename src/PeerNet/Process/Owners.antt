-- ===== src/PeerNet/Process/Owners.antt =====
-- Which peer an address leads to before and after a frame: `deliver_packet` and `process_frame`
-- (src/peer_net.c) seen as operations on one map from addresses to peers.
use vpnd.Base.{
  ℕ, ◌≡◌, ◌⊎◌, refl, sym, ap, ◌∙◌, subst, inl, inr, Bool, false, ◌&&◌, Option, none, some, List,
  All, get_elem?, Option-cases, Bool-cases,
}
use vpnd.Netroute.{Netroute, compare_netroutes}
use vpnd.Peer.{Peer, get_peer_route}
use vpnd.Peer.Routing.{serves, FirstFrom, get_peer_route-First}
use vpnd.Peer.RouteMap.{insert_new, get_peer_route-taught, insert_new-known}
use vpnd.Daemon.{Env, Daemon, Code, pure, peer_at, set_peer}
use vpnd.Daemon.Stays.{Holds, Holds-map, Holds-bind, Kept, by}
use vpnd.PeerNet.Wire.Keeps.{tuntap_write-Keeps}
use vpnd.PeerNet.Process.{learn_route, deliver_packet, process_frame}
use vpnd.PeerNet.Process.Through.{process_frame-Runs}

-- The peer is connected.
abbrev pub is_alive : Option Peer → Bool
is_alive none = false
is_alive (some p) = p.alive

-- The map behind a packet from peer `i` whose source is `route`.
abbrev pub Inserted : Env → ℕ → Netroute → Daemon → Daemon → Type 0
Inserted e i route d d' =
    (r : Netroute)
    → get_peer_route r d'.peers
      ≡ insert_new (is_alive (get_elem? d.peers i) && e.memory d.net.calls) route i r
          (get_peer_route r d.peers)

learn_route-Inserted :
    (e : Env) (i : ℕ) (route : Netroute) (d : Daemon)
    → All (λ q. serves route q ≡ false) d.peers
    → Holds (Inserted e i route d) (learn_route e i route d)
unfolding learn_route peer_at set_peer
learn_route-Inserted e i route d unknown = elim (Option-cases (get_elem? d.peers i)) [
  | inl missing ↦ rw (missing, Holds) tt
  | inr (p, found) ↦
      rw (found, Holds)
        (λ r.
          get_peer_route-taught (e.memory d.net.calls) route r d.peers i p found unknown
          ∙ ap
              (λ (o : Option Peer).
                insert_new (is_alive o && e.memory d.net.calls) route i r
                  (get_peer_route r d.peers))
              (sym found))
]

-- A packet for this host inserts its source into the map from addresses to peers, if it is absent
-- there, the sender is connected and memory is given; in every other case, and for every other
-- address, the map stays as it is.
pub deliver_packet-Inserted :
    (e : Env) (i : ℕ) (packet : List ℕ) (len : ℕ) (route : Netroute) (d : Daemon)
    → Holds (Inserted e i route d) (deliver_packet e i packet len route d)
unfolding deliver_packet
deliver_packet-Inserted e i packet len route d =
    Holds-bind (Inserted e i route d) (Inserted e i route d) _ _
      (learning (get_peer_route route d.peers) (get_peer_route-First route d.peers) refl)
      (λ a d₁ h.
        Holds-map (Kept d₁) (Inserted e i route d) _ (λ d₂ k r. ap (get_peer_route r) k.peers ∙ h r)
          ((tuntap_write-Keeps e packet len).keeps d₁))
      (λ d₁ h. h)
  where
    learning :
        (o : Option ℕ)
        → FirstFrom route 0 d.peers o
        → get_peer_route route d.peers ≡ o
        → Holds (Inserted e i route d) (
            (elim o as (λ x. Code (Unit {0})) [
              | none ↦ learn_route e i route
              | some known ↦ pure tt
            ])
              d)
    learning none unknown at = learn_route-Inserted e i route d unknown
    learning (some j) first at = λ r. insert_new-known _ route r i j d.peers at

-- An address keeps its peer, and one that gets a peer gets peer `i`.
abbrev pub Grows : ℕ → Option ℕ → Option ℕ → Type 0
Grows i (some j) after = after ≡ some j
Grows i none after = (after ≡ none) ⊎ (after ≡ some i)

record Grown (i : ℕ) (a b : Daemon) : Type 0 where
  grown : (r : Netroute) → Grows i (get_peer_route r a.peers) (get_peer_route r b.peers)

Grows-trans : (i : ℕ) (x y z : Option ℕ) → Grows i x y → Grows i y z → Grows i x z
Grows-trans i (some j) y z h k = subst (λ (o : Option ℕ). Grows i o z) h k
Grows-trans i none y z (inl h) k = subst (λ (o : Option ℕ). Grows i o z) h k
Grows-trans i none y z (inr h) k = inr (subst (λ (o : Option ℕ). Grows i o z) h k)

Grows-refl : (i : ℕ) (x : Option ℕ) → Grows i x x
Grows-refl i none = inl refl
Grows-refl i (some j) = refl

Grows-insert_new :
    (given : Bool) (route r : Netroute) (i : ℕ) (o : Option ℕ)
    → Grows i o (insert_new given route i r o)
Grows-insert_new given route r i (some j) = refl
Grows-insert_new given route r i none = elim (Bool-cases (given && compare_netroutes r route)) [
  | inl new ↦ rw new (inr refl)
  | inr old ↦ rw old (inl refl)
]

-- No frame of a peer, whatever it holds and whatever the kernel, the memory and OpenSSL answer, takes
-- an address away from a connected peer that has it: every address that leads to a peer before
-- `process_frame` leads to the same one after it, and an address that leads to a peer only after it
-- leads to the sender. And `process_frame` ends.
pub process_frame-Grows :
    (e : Env) (i : ℕ) (buf : List ℕ) (header_type data_len : ℕ) (d : Daemon)
    → Holds
        (λ d'. (r : Netroute) → Grows i (get_peer_route r d.peers) (get_peer_route r d'.peers))
        (process_frame e i buf header_type data_len d)
process_frame-Grows e i buf header_type data_len d =
    Holds-map (Grown i d) _ _ (λ d' h. h.grown)
      ((process_frame-Runs e i
          (λ a b c h k. record {
            grown = λ r.
                Grows-trans i (get_peer_route r a.peers) (get_peer_route r b.peers)
                  (get_peer_route r c.peers) (h.grown r) (k.grown r);
          })
          (λ a b k. record {
            grown = λ r.
                subst (λ (ps : List Peer). Grows i (get_peer_route r a.peers) (get_peer_route r ps))
                  (sym k.peers) (Grows-refl i (get_peer_route r a.peers));
          })
          (λ packet len route. by λ a.
            Holds-map (Inserted e i route a) (Grown i a) _
              (λ b h. record {
                grown = λ r.
                    subst (Grows i (get_peer_route r a.peers)) (sym (h r))
                      (Grows-insert_new _ route r i (get_peer_route r a.peers));
              })
              (deliver_packet-Inserted e i packet len route a))
          buf header_type data_len).keeps
        d)
