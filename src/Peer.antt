-- ===== src/Peer.antt =====
-- src/peer.c without the threads: the list of peers and their routes.
-- A peer pointer is the peer's place in the list, which only grows: peers that are gone leave a slot
-- (`alive` is false) that the next connection takes over. `strdup` and `malloc` are flags of the
-- call that say whether they give memory. An RSA key object is a number; the mutex of a peer has no
-- field, since an operation of the model is never interrupted.
pub mod Routing
pub mod RouteMap
pub mod Dump
pub mod Slots
pub mod FirstSlot
pub mod Contexts
mod Tests
use vpnd.Base.{
  ℕ, ◌+◌, Bool, true, false, not, ◌&&◌, Option, none, some, List, [], ◌∷◌, if◌then◌else◌, Outcome,
  ok, ◌>>=◌, is_some,
}
use vpnd.Netroute.{Netroute, netroute_in_array}
use vpnd.Encryption.{CtxStore, ctx_free}

pub record Peer : Type 0 where
  pub s : Option ℕ  -- -1 is `none`
  pub is_client : Bool
  pub address : Option (List ℕ)
  pub port : ℕ
  pub alive : Bool
  pub pubkey : Option ℕ
  pub authenticated : Bool
  pub enc_ctx : Option ℕ
  pub dec_ctx : Option ℕ
  pub routes : List Netroute

-- What a new connection brings.
pub record Connection : Type 0 where
  pub address : List ℕ
  pub port : ℕ
  pub s : Option ℕ
  pub is_client : Bool

unfoldable pub initialize_peer : Peer
initialize_peer = record {
  s = none;
  is_client = false;
  address = none;
  port = 0;
  alive = false;
  pubkey = none;
  authenticated = false;
  enc_ctx = none;
  dec_ctx = none;
  routes = [];
}

-- `if (ctx) EVP_CIPHER_CTX_free(ctx)`
unfoldable pub free_if : CtxStore → Option ℕ → Outcome CtxStore
free_if store none = ok store
free_if store (some p) = ctx_free store p

-- The second assignment to `enc_ctx` in the source stands where one to `dec_ctx` would: `dec_ctx`
-- keeps its value.
unfoldable pub set_peer_info : Bool → Peer → Connection → CtxStore → Outcome (Peer × CtxStore)
unfolding free_if
set_peer_info strdup peer c store = do
  store₁ ← free_if store peer.enc_ctx
  store₂ ← free_if store₁ peer.dec_ctx
  ok (
    record {
      s = c.s;
      is_client = c.is_client;
      address = if strdup then some c.address else none;
      port = c.port;
      alive = true;
      pubkey = none;
      authenticated = false;
      enc_ctx = none;
      dec_ctx = peer.dec_ctx;
      routes = [];
    },
    store₂,
  )

unfoldable pub create_peer : Bool → Bool → Connection → CtxStore → Outcome (Option Peer × CtxStore)
unfolding set_peer_info initialize_peer
create_peer malloc strdup c store =
    if not malloc
    then ok (none, store)
    else do (peer, store₁) ← set_peer_info strdup initialize_peer c store; ok (some peer, store₁)

-- At the end of the list: the new peer, if there is memory.
append_peer : ℕ → Option Peer × CtxStore → Outcome (Option ℕ × List Peer × CtxStore)
append_peer i (none, store) = ok (none, [], store)
append_peer i (some peer, store) = ok (some i, peer ∷ [], store)

-- The walk of `add_peer` from slot `i` on: the pointer returned and the list from there on.
unfoldable pub add_peer_from :
    Bool → Bool → Connection → ℕ → List Peer → CtxStore → Outcome (Option ℕ × List Peer × CtxStore)
unfolding append_peer
add_peer_from malloc strdup c i [] store = do
  made ← create_peer malloc strdup c store
  append_peer i made
add_peer_from malloc strdup c i (last ∷ rest) store =
    let further = add_peer_from malloc strdup c (i + 1) rest store in
    if not last.alive
    then (set_peer_info strdup last c store >>= λ r. ok (some i, r.0 ∷ rest, r.1))
    else (further >>= λ r. ok (r.0, last ∷ r.1, r.2))

unfoldable pub add_peer :
    Bool → Bool → Connection → List Peer → CtxStore → Outcome (Option ℕ × List Peer × CtxStore)
unfolding add_peer_from
add_peer malloc strdup c peers store = add_peer_from malloc strdup c 0 peers store

-- The context part of `destroy_peer`; the wait for the peer's thread changes nothing here.
unfoldable pub destroy_peer : Peer → CtxStore → Outcome CtxStore
unfolding free_if
destroy_peer peer store = do store₁ ← free_if store peer.enc_ctx; free_if store₁ peer.dec_ctx

unfoldable pub destroy_peers : List Peer → CtxStore → Outcome CtxStore
destroy_peers [] store = ok store
destroy_peers (current ∷ next) store = destroy_peer current store >>= destroy_peers next

unfoldable pub is_local_route : Netroute → List Netroute → Bool
is_local_route route local_routes = is_some (netroute_in_array route local_routes)

-- The walk of `get_peer_route` from slot `i` on.
unfoldable pub get_peer_route_from : Netroute → ℕ → List Peer → Option ℕ
get_peer_route_from route i [] = none
get_peer_route_from route i (peer ∷ rest) =
    if peer.alive && is_some (netroute_in_array route peer.routes)
    then some i
    else get_peer_route_from route (i + 1) rest

unfoldable pub get_peer_route : Netroute → List Peer → Option ℕ
unfolding get_peer_route_from
get_peer_route route peers = get_peer_route_from route 0 peers
