-- ===== src/Peer/RouteMap.antt =====
-- The routes of all peers of src/peer.c as one map from addresses to peers, and what learning a route
-- does to it.
use vpnd.Base.{
  ℕ, zero, suc, ◌+◌, ◌≡◌, refl, ap, ◌∙◌, inl, inr, Bool, true, false, ◌&&◌, ◌||◌, Option, none,
  some, List, [], ◌∷◌, if◌then◌else◌, get_elem?, set, All, arith, Bool-cases,
}
use vpnd.Netroute.{Netroute, compare_netroutes, add_netroute}
use vpnd.Netroute.Table.{in_array-add}
use vpnd.Peer.{Peer, get_peer_route_from, get_peer_route}
use vpnd.Peer.Routing.{serves, in_array_congr}

-- A map of addresses, where every address that is not in it gets an owner.
abbrev pub insert_new : Bool → Netroute → ℕ → Netroute → Option ℕ → Option ℕ
insert_new given route i r (some j) = some j
insert_new given route i r none = if given && compare_netroutes r route then some i else none

abbrev pub taught : Bool → Netroute → Peer → Peer
taught alloc route p = record p { routes = add_netroute alloc route p.routes }

serves-taught :
    (alloc : Bool) (route r : Netroute) (p : Peer)
    → serves r (taught alloc route p)
      ≡ (serves r p || ((p.alive && alloc) && compare_netroutes r route))
serves-taught alloc route r p = ground (arith, in_array-add alloc r route p.routes)

module _ (alloc : Bool) (route r : Netroute) where
  not_served :
      (k : ℕ) (peers : List Peer)
      → compare_netroutes r route ≡ true
      → All (λ q. serves route q ≡ false) peers
      → get_peer_route_from r k peers ≡ none
  unfolding get_peer_route_from
  not_served k [] same unknown = refl
  not_served k (x ∷ xs) same unknown =
      ground
        (arith, in_array_congr r route x.routes same, unknown, not_served (k + 1) xs same unknown.1)

  not_inserted :
      (given : Bool) (i : ℕ) (o : Option ℕ)
      → (given && compare_netroutes r route) ≡ false
      → o ≡ insert_new given route i r o
  not_inserted given i (some j) h = refl
  not_inserted given i none h = rw h refl

  teach_here :
      (k : ℕ) (p : Peer) (xs : List Peer)
      → All (λ q. serves route q ≡ false) xs
      → let rest = get_peer_route_from r (k + 1) xs in
        (if serves r (taught alloc route p) then some k else rest)
        ≡ insert_new (p.alive && alloc) route k r (if serves r p then some k else rest)
  teach_here k p xs unknown = rw (serves-taught alloc route r p) (elim (Bool-cases (serves r p)) [
    | inl old ↦ rw old refl
    | inr new ↦ elim (Bool-cases ((p.alive && alloc) && compare_netroutes r route)) [
      | inr other ↦ rw (new, other) (not_inserted (p.alive && alloc) k _ other)
      | inl same ↦
          let nobody : get_peer_route_from r (k + 1) xs ≡ none =
            not_served (k + 1) xs (ground (arith, same)) unknown in
          rw (new, nobody) (rw same refl)
    ]
  ])

  teach_from :
      (k : ℕ) (peers : List Peer) (i : ℕ) (p : Peer)
      → get_elem? peers i ≡ some p
      → All (λ q. serves route q ≡ false) peers
      → get_peer_route_from r k (set peers i (taught alloc route p))
        ≡ insert_new (p.alive && alloc) route (k + i) r (get_peer_route_from r k peers)
  unfolding get_peer_route_from
  teach_from k [] i p found unknown = cc
  teach_from k (x ∷ xs) zero p found unknown =
      let same : p ≡ x = cc found in
      rw same (
        teach_here k x xs unknown.1
        ∙ ap
            (λ (n : ℕ).
              insert_new (x.alive && alloc) route n r
                (if serves r x then some k else get_peer_route_from r (k + 1) xs))
            (omega arith))
  teach_from k (x ∷ xs) (suc i) p found unknown = elim (Bool-cases (serves r x)) [
    | inl served ↦ rw served refl
    | inr other ↦ rw other (
        teach_from (k + 1) xs i p found unknown.1
        ∙ ap (λ (n : ℕ). insert_new (p.alive && alloc) route n r (get_peer_route_from r (k + 1) xs))
            (omega arith))
  ]

-- When peer `i` learns a route that no connected peer has, the answers of `get_peer_route` change as
-- those of a map do into which the address is inserted if it is absent: the address, in whatever form,
-- now leads to peer `i` if that is connected and memory was given, and all other answers stay.
pub get_peer_route-taught :
    (alloc : Bool) (route r : Netroute) (peers : List Peer) (i : ℕ) (p : Peer)
    → get_elem? peers i ≡ some p
    → All (λ q. serves route q ≡ false) peers
    → get_peer_route r (set peers i (taught alloc route p))
      ≡ insert_new (p.alive && alloc) route i r (get_peer_route r peers)
unfolding get_peer_route
get_peer_route-taught alloc route r peers i p found unknown =
    teach_from alloc route r 0 peers i p found unknown
    ∙ ap (λ (n : ℕ). insert_new (p.alive && alloc) route n r (get_peer_route_from r 0 peers))
        (omega arith)

-- Routes that are the same lead to the same peer.
pub get_peer_route_congr :
    (r route : Netroute) (peers : List Peer)
    → compare_netroutes r route ≡ true
    → get_peer_route r peers ≡ get_peer_route route peers
unfolding get_peer_route get_peer_route_from
get_peer_route_congr r route peers same = from 0 peers
  where
    from : (k : ℕ) (ps : List Peer) → get_peer_route_from r k ps ≡ get_peer_route_from route k ps
    from k [] = refl
    from k (x ∷ xs) = rw (in_array_congr r route x.routes same, from (k + 1) xs) refl

-- An address that is in the map is not inserted.
pub insert_new-known :
    (given : Bool) (route r : Netroute) (i j : ℕ) (peers : List Peer)
    → get_peer_route route peers ≡ some j
    → get_peer_route r peers ≡ insert_new given route i r (get_peer_route r peers)
insert_new-known given route r i j peers known = elim (Bool-cases (compare_netroutes r route)) [
  | inl same ↦ rw (get_peer_route_congr r route peers same, known) refl
  | inr other ↦ not_inserted true route r given i (get_peer_route r peers) (ground (arith, other))
]
