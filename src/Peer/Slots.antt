-- ===== src/Peer/Slots.antt =====
-- The slots of the list of peers: `add_peer` and `set_peer_info` of src/peer.c.
use vpnd.Base.{
  ℕ, zero, suc, ◌+◌, ◌≡◌, refl, ap, ◌≢◌, inl, inr, Bool, true, false, not, ◌||◌, Option, none, some,
  List, [], ◌∷◌, get_elem?, All, is_some, if◌then◌else◌, Outcome, ok, fault, stuck, ◌>>=◌, arith,
  Option-cases,
}
use vpnd.Encryption.{CtxStore, load_ctx, ctx_free}
use vpnd.Peer.{
  Peer, Connection, free_if, initialize_peer, set_peer_info, create_peer, append_peer,
  add_peer_from, add_peer,
}

-- What a new connection finds in its slot.
pub record Fresh (c : Connection) (q : Peer) : Type 0 where
  pub alive : q.alive ≡ true
  pub authenticated : q.authenticated ≡ false
  pub pubkey : q.pubkey ≡ none
  pub routes : q.routes ≡ []
  pub s : q.s ≡ c.s
  pub is_client : q.is_client ≡ c.is_client
  pub port : q.port ≡ c.port

-- What `add_peer` comes to from slot `i` on.
abbrev pub AddedFrom :
    Bool
    → Connection
    → ℕ
    → List Peer
    → CtxStore
    → Outcome (Option ℕ × List Peer × CtxStore)
    → Type 0
AddedFrom malloc c i peers store (ok (none, peers', store')) =
    (malloc ≡ false) × All (λ p. p.alive ≡ true) peers × (peers' ≡ peers) × (store' ≡ store)
AddedFrom malloc c i peers store (ok (some j, peers', store')) =
    (k : ℕ) × (q : Peer) × (j ≡ i + k)
    × (get_elem? peers' k ≡ some q)
    × Fresh c q
    × ((p : Peer) → get_elem? peers k ≡ some p → p.alive ≡ false)
    × ((m : ℕ) → m ≢ k → get_elem? peers' m ≡ get_elem? peers m)
AddedFrom malloc c i peers store fault =
    (k : ℕ) × (p : Peer) × (get_elem? peers k ≡ some p)
    × (p.alive ≡ false)
    × ((is_some p.enc_ctx || is_some p.dec_ctx) ≡ true)
AddedFrom malloc c i peers store stuck = ⊥

AddedFrom-next :
    (malloc : Bool) (c : Connection) (i : ℕ) (x : Peer) (xs : List Peer) (store : CtxStore)
    (r : Outcome (Option ℕ × List Peer × CtxStore))
    → x.alive ≡ true
    → AddedFrom malloc c (i + 1) xs store r
    → AddedFrom malloc c i (x ∷ xs) store (r >>= λ t. ok (t.0, x ∷ t.1, t.2))
AddedFrom-next malloc c i x xs store (ok (none, ps, st)) up (m, all, same, kept) =
    (m, (up, all), ap (◌∷◌ x) same, kept)
AddedFrom-next malloc c i x xs store (ok (some j, ps, st)) up
      (k, q, at, found, fresh, dead, others) =
    (suc k, q, omega arith, found, fresh, dead, keep)
  where
    keep : (m : ℕ) → m ≢ suc k → get_elem? (x ∷ ps) m ≡ get_elem? (x ∷ xs) m
    keep zero other = refl
    keep (suc m) other = others m (λ e. other (ap suc e))
AddedFrom-next malloc c i x xs store fault up (k, p, found, dead, ctx) =
    (suc k, p, found, dead, ctx)
AddedFrom-next malloc c i x xs store stuck up h = h

-- `set_peer_info` clears the slot, or faults on a context of its last connection.
abbrev pub Cleared : Connection → Peer → Outcome (Peer × CtxStore) → Type 0
Cleared c x (ok (q, st)) = Fresh c q
Cleared c x fault = (is_some x.enc_ctx || is_some x.dec_ctx) ≡ true
Cleared c x stuck = ⊥

abbrev Freed : Option ℕ → Outcome CtxStore → Type 0
Freed ctx (ok st) = Unit {0}
Freed ctx fault = is_some ctx ≡ true
Freed ctx stuck = ⊥

free_if-Freed : (store : CtxStore) (ctx : Option ℕ) → Freed ctx (free_if store ctx)
unfolding free_if ctx_free load_ctx
free_if-Freed store none = tt
free_if-Freed store (some p) = elim (Option-cases (get_elem? store p)) [
  | inl missing ↦ rw (missing, Freed) refl
  | inr (none, found) ↦ rw (found, Freed) refl
  | inr (some c, found) ↦ rw (found, Freed) tt
]

pub set_peer_info-Cleared :
    (strdup : Bool) (c : Connection) (x : Peer) (store : CtxStore)
    → Cleared c x (set_peer_info strdup x c store)
unfolding set_peer_info
set_peer_info-Cleared strdup c x store =
    first (free_if store x.enc_ctx) (free_if-Freed store x.enc_ctx)
  where
    pack : CtxStore → Outcome (Peer × CtxStore)
    pack st = ok (
      record {
        s = c.s;
        is_client = c.is_client;
        address = if strdup then some c.address else none;
        port = c.port;
        alive = true;
        pubkey = none;
        authenticated = false;
        enc_ctx = none;
        dec_ctx = x.dec_ctx;
        routes = [];
      },
      st,
    )

    second : (r : Outcome CtxStore) → Freed x.dec_ctx r → Cleared c x (r >>= pack)
    second (ok st) h = record {
      alive = refl;
      authenticated = refl;
      pubkey = refl;
      routes = refl;
      s = refl;
      is_client = refl;
      port = refl;
    }
    second fault h = ground arith
    second stuck h = h

    first :
        (r : Outcome CtxStore)
        → Freed x.enc_ctx r
        → Cleared c x (r >>= λ s₁. free_if s₁ x.dec_ctx >>= pack)
    first (ok s₁) h = second (free_if s₁ x.dec_ctx) (free_if-Freed s₁ x.dec_ctx)
    first fault h = ground arith
    first stuck h = h

reuse-Added :
    (malloc : Bool) (c : Connection) (i : ℕ) (x : Peer) (xs : List Peer) (store : CtxStore)
    (r : Outcome (Peer × CtxStore))
    → x.alive ≡ false
    → Cleared c x r
    → AddedFrom malloc c i (x ∷ xs) store (r >>= λ t. ok (some i, t.0 ∷ xs, t.1))
reuse-Added malloc c i x xs store (ok (q, st)) dead fresh =
    (0, q, omega arith, refl, fresh, gone, keep)
  where
    gone : (p : Peer) → some x ≡ some p → p.alive ≡ false
    gone p e = ground (arith, dead)

    keep : (m : ℕ) → m ≢ 0 → get_elem? (q ∷ xs) m ≡ get_elem? (x ∷ xs) m
    keep zero other = absurd (other refl)
    keep (suc m) other = refl
reuse-Added malloc c i x xs store fault dead ctx = (0, x, refl, dead, ctx)
reuse-Added malloc c i x xs store stuck dead h = h

append-Added :
    (malloc strdup : Bool) (c : Connection) (i : ℕ) (store : CtxStore)
    → AddedFrom malloc c i [] store
        (create_peer malloc strdup c store >>= λ made. append_peer i made)
unfolding create_peer append_peer initialize_peer set_peer_info
append-Added false strdup c i store = (refl, tt, refl, refl)
append-Added true strdup c i store = (
  0,
  _,
  omega arith,
  refl,
  record {
    alive = refl;
    authenticated = refl;
    pubkey = refl;
    routes = refl;
    s = refl;
    is_client = refl;
    port = refl;
  },
  (λ p h. cc),
  λ m other. beyond _ m other,
)
  where
    beyond : (q : Peer) (m : ℕ) → m ≢ 0 → get_elem? (q ∷ []) m ≡ none
    beyond q zero other = absurd (other refl)
    beyond q (suc m) other = refl

add_peer_from-Added :
    (malloc strdup : Bool) (c : Connection) (i : ℕ) (peers : List Peer) (store : CtxStore)
    → AddedFrom malloc c i peers store (add_peer_from malloc strdup c i peers store)
unfolding add_peer_from
add_peer_from-Added malloc strdup c i [] store = append-Added malloc strdup c i store
add_peer_from-Added malloc strdup c i (x ∷ xs) store =
    choose x.alive refl (add_peer_from-Added malloc strdup c (i + 1) xs store)
  where
    reuse : Outcome (Option ℕ × List Peer × CtxStore)
    reuse = set_peer_info strdup x c store >>= λ r. ok (some i, r.0 ∷ xs, r.1)

    further : Outcome (Option ℕ × List Peer × CtxStore)
    further = add_peer_from malloc strdup c (i + 1) xs store >>= λ r. ok (r.0, x ∷ r.1, r.2)

    choose :
        (b : Bool)
        → x.alive ≡ b
        → AddedFrom malloc c (i + 1) xs store (add_peer_from malloc strdup c (i + 1) xs store)
        → AddedFrom malloc c i (x ∷ xs) store (if not b then reuse else further)
    choose true up ih = AddedFrom-next malloc c i x xs store _ up ih
    choose false down ih =
        reuse-Added malloc c i x xs store _ down (set_peer_info-Cleared strdup c x store)

-- `add_peer` returns a slot that was new or of a connection that is gone, and in it a peer that is
-- connected, not authenticated and without a key or routes, on the new socket; every other slot
-- stays as it is. It returns NULL only if there is no memory and every slot is taken, and then
-- changes nothing. It faults only on a gone peer that still has a cipher context.
pub add_peer-Added :
    (malloc strdup : Bool) (c : Connection) (peers : List Peer) (store : CtxStore)
    → AddedFrom malloc c 0 peers store (add_peer malloc strdup c peers store)
unfolding add_peer
add_peer-Added malloc strdup c peers store = add_peer_from-Added malloc strdup c 0 peers store
