-- ===== src/Peer/Tests.antt =====
-- Concrete peers, and the theorems of Peer/Slots, Peer/Contexts and Peer/Routing on them.
use vpnd.Base.{◌≡◌, refl, true, false, none, some, [], ◌∷◌, fault}
use vpnd.Netroute.{Netroute, compare_netroutes, netroute_in_array}
use vpnd.Encryption.{CtxStore, ctx_free, load_ctx}
use vpnd.Peer.{
  Peer, Connection, free_if, set_peer_info, add_peer, destroy_peer, get_peer_route,
  get_peer_route_from,
}
use vpnd.Peer.Slots.{AddedFrom, add_peer-Added}
use vpnd.Peer.Contexts.{set_peer_info-double_free}

abbrev host : Netroute
host = record {
  mac = false;
  ip4 = true;
  addr = 10 ∷ 0 ∷ 0 ∷ 1 ∷ 0 ∷ 0 ∷ 0 ∷ 0 ∷ 0 ∷ 0 ∷ 0 ∷ 0 ∷ 0 ∷ 0 ∷ 0 ∷ 0 ∷ [];
}

abbrev caller : Connection
caller = record { address = []; port = 9; s = some 6; is_client = false }

-- A peer whose connection is gone, with both contexts.
abbrev gone_peer : Peer
gone_peer = record {
  s = some 3;
  is_client = false;
  address = none;
  port = 1;
  alive = false;
  pubkey = some 7;
  authenticated = true;
  enc_ctx = some 0;
  dec_ctx = some 1;
  routes = host ∷ [];
}

abbrev busy_peer : Peer
busy_peer = record gone_peer { alive = true; s = some 4; enc_ctx = some 2; dec_ctx = some 3 }

abbrev contexts : CtxStore
contexts = some 0 ∷ some 0 ∷ some 0 ∷ some 0 ∷ []

route_to_busy : get_peer_route host (gone_peer ∷ busy_peer ∷ []) ≡ some 1
unfolding get_peer_route get_peer_route_from netroute_in_array compare_netroutes
route_to_busy = refl

add_peer-Added_example :
    AddedFrom true caller 0
      (busy_peer ∷ gone_peer ∷ [])
      contexts
      (add_peer true true caller (busy_peer ∷ gone_peer ∷ []) contexts)
add_peer-Added_example = add_peer-Added true true caller (busy_peer ∷ gone_peer ∷ []) contexts

abbrev reused : Peer
reused = record {
  s = some 6;
  is_client = false;
  address = none;
  port = 9;
  alive = true;
  pubkey = none;
  authenticated = false;
  enc_ctx = none;
  dec_ctx = some 1;
  routes = [];
}

set_peer_info-double_free_example :
    (set_peer_info true reused caller (none ∷ none ∷ some 0 ∷ some 0 ∷ []) ≡ fault)
    × (destroy_peer reused (none ∷ none ∷ some 0 ∷ some 0 ∷ []) ≡ fault)
unfolding set_peer_info free_if ctx_free load_ctx
set_peer_info-double_free_example =
    set_peer_info-double_free false true gone_peer reused caller caller contexts
      (none ∷ none ∷ some 0 ∷ some 0 ∷ []) 1 refl refl
