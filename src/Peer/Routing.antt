-- ===== src/Peer/Routing.antt =====
-- Which peer a route leads to: `get_peer_route` of src/peer.c.
use vpnd.Base.{
  ℕ, zero, suc, ◌+◌, ◌≡◌, refl, sym, ap, ◌∙◌, subst, inl, inr, Bool, true, false, ◌&&◌, Option,
  none, some, List, [], ◌∷◌, ◌==◌, get_elem?, set, take, All, is_some, arith, Bool-cases, ==→eq,
  get_elem?-set_self, get_elem?-set_other, ==-false→neq, ◌⊎◌,
}
use vpnd.Netroute.{Netroute, compare_netroutes, netroute_in_array, add_netroute}
use vpnd.Netroute.Keys.{compare_netroutes_congr}
use vpnd.Netroute.Table.{in_array-add}
use vpnd.Peer.{Peer, get_peer_route_from, get_peer_route}

-- The peer is there and has the route.
abbrev pub serves : Netroute → Peer → Bool
serves route peer = peer.alive && is_some (netroute_in_array route peer.routes)

-- The answer of a search from slot `i` on: the first peer that has the route, or none if no peer has.
abbrev pub FirstFrom : Netroute → ℕ → List Peer → Option ℕ → Type 0
FirstFrom route i peers none = All (λ p. serves route p ≡ false) peers
FirstFrom route i peers (some j) =
    (k : ℕ) × (p : Peer) × (j ≡ i + k)
    × (get_elem? peers k ≡ some p)
    × (serves route p ≡ true)
    × All (λ q. serves route q ≡ false) (take k peers)

FirstFrom-skip :
    (route : Netroute) (i : ℕ) (x : Peer) (xs : List Peer) (o : Option ℕ)
    → serves route x ≡ false
    → FirstFrom route (i + 1) xs o
    → FirstFrom route i (x ∷ xs) o
FirstFrom-skip route i x xs none h f = (h, f)
FirstFrom-skip route i x xs (some j) h (k, p, at, found, good, before) =
    (suc k, p, omega arith, found, good, (h, before))

get_peer_route_from-First :
    (route : Netroute) (i : ℕ) (peers : List Peer)
    → FirstFrom route i peers (get_peer_route_from route i peers)
unfolding get_peer_route_from
get_peer_route_from-First route i [] = tt
get_peer_route_from-First route i (x ∷ xs) = elim (Bool-cases (serves route x)) [
  | inl good ↦ rw good (0, x, omega arith, refl, good, tt)
  | inr bad ↦
      rw bad (FirstFrom-skip route i x xs _ bad (get_peer_route_from-First route (i + 1) xs))
]

-- `get_peer_route` returns the first slot of the list with a connected peer that has the route, and
-- NULL only if no connected peer has it.
pub get_peer_route-First :
    (route : Netroute) (peers : List Peer) → FirstFrom route 0 peers (get_peer_route route peers)
unfolding get_peer_route
get_peer_route-First route peers = get_peer_route_from-First route 0 peers

-- No address is a route of two connected peers.
abbrev pub Exclusive : List Peer → Type 0
Exclusive peers =
    (r : Netroute) (i j : ℕ) (p q : Peer)
    → get_elem? peers i ≡ some p
    → get_elem? peers j ≡ some q
    → serves r p ≡ true
    → serves r q ≡ true
    → i ≡ j

All-get :
    (P : Peer → Type 0) (ps : List Peer) (i : ℕ) (p : Peer)
    → All P ps
    → get_elem? ps i ≡ some p
    → P p
All-get P [] i p a h = cc
All-get P (x ∷ ps) zero p a h = subst P (same h) a.0
  where
    same : some x ≡ some p → x ≡ p
    same e = cc
All-get P (x ∷ ps) (suc i) p a h = All-get P ps i p a.1 h

pub in_array_congr :
    (r route : Netroute) (array : List Netroute)
    → compare_netroutes r route ≡ true
    → is_some (netroute_in_array r array) ≡ is_some (netroute_in_array route array)
unfolding netroute_in_array
in_array_congr r route [] h = refl
in_array_congr r route (x ∷ xs) h =
    ground (arith, compare_netroutes_congr r route x h, in_array_congr r route xs h)

-- What a peer serves after it learnt a route.
serves-learnt :
    (alloc : Bool) (r route : Netroute) (p : Peer)
    → serves r (record p { routes = add_netroute alloc route p.routes }) ≡ true
    → (serves r p ≡ false)
    → compare_netroutes r route ≡ true
serves-learnt alloc r route p h old = ground (arith, in_array-add alloc r route p.routes)

-- What stands in a slot after a write to slot `i`.
pub slot-set :
    (peers : List Peer) (i a : ℕ) (p v x : Peer)
    → get_elem? peers i ≡ some p
    → get_elem? (set peers i v) a ≡ some x
    → ((i ≡ a) × (v ≡ x)) ⊎ (get_elem? peers a ≡ some x)
slot-set peers i a p v x found h = elim (Bool-cases (i == a)) [
  | inl same ↦
      let e : i ≡ a = ==→eq i a same in
      let got : some v ≡ some x = sym (get_elem?-set_self peers i v found) ∙ at_slot e in
      inl (e, cc)
  | inr other ↦ inr (sym (get_elem?-set_other peers i a v (==-false→neq i a other)) ∙ h)
]
  where
    at_slot : i ≡ a → get_elem? (set peers i v) i ≡ some x
    at_slot e = ap (get_elem? (set peers i v)) e ∙ h

pub set-Exclusive :
    (peers : List Peer) (i : ℕ) (p v : Peer)
    → get_elem? peers i ≡ some p
    → ((r : Netroute) (j : ℕ) (q : Peer)
        → get_elem? peers j ≡ some q
        → serves r v ≡ true
        → serves r q ≡ true
        → i ≡ j)
    → Exclusive peers
    → Exclusive (set peers i v)
set-Exclusive peers i p v found alone ex r a b x y ha hb sx sy =
    elim (slot-set peers i a p v x found ha) [
      | inl (i≡a, v≡x) ↦ elim (slot-set peers i b p v y found hb) [
        | inl (i≡b, v≡y) ↦ sym i≡a ∙ i≡b
        | inr at_b ↦ sym i≡a ∙ alone r b y at_b (rw v≡x sx) sy
      ]
      | inr at_a ↦ elim (slot-set peers i b p v y found hb) [
        | inl (i≡b, v≡y) ↦ sym (alone r a x at_a (rw v≡y sy) sx) ∙ i≡b
        | inr at_b ↦ ex r a b x y at_a at_b sx sy
      ]
    ]

-- A write that leaves `alive` and the routes of a peer.
pub update-Exclusive :
    (peers : List Peer) (i : ℕ) (p v : Peer)
    → get_elem? peers i ≡ some p
    → ((r : Netroute) → serves r v ≡ serves r p)
    → Exclusive peers
    → Exclusive (set peers i v)
update-Exclusive peers i p v found same ex =
    set-Exclusive peers i p v found
      (λ r j q at mine theirs. ex r i j p q found at (sym (same r) ∙ mine) theirs) ex

module _ (alloc : Bool) (route : Netroute) (peers : List Peer) (i : ℕ) (p : Peer)
    (found : get_elem? peers i ≡ some p) (unknown : All (λ q. serves route q ≡ false) peers)
    (exclusive : Exclusive peers) where
  abbrev learnt : Peer
  learnt = record p { routes = add_netroute alloc route p.routes }

  -- Another peer that serves what the learner now serves is the learner.
  learnt-alone :
      (r : Netroute) (j : ℕ) (q : Peer)
      → get_elem? peers j ≡ some q
      → serves r learnt ≡ true
      → serves r q ≡ true
      → i ≡ j
  learnt-alone r j q at mine theirs = elim (Bool-cases (serves r p)) [
    | inl old ↦ exclusive r i j p q found at old theirs
    | inr new ↦
        let same : compare_netroutes r route ≡ true = serves-learnt alloc r route p mine new in
        absurd (
          ground (
            arith,
            in_array_congr r route q.routes same,
            All-get (λ t. serves route t ≡ false) peers j q unknown at,
          ))
  ]

  -- A peer that learns a route that no connected peer has.
  pub learn-Exclusive : Exclusive (set peers i learnt)
  learn-Exclusive = set-Exclusive peers i p learnt found learnt-alone exclusive
