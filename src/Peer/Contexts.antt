-- ===== src/Peer/Contexts.antt =====
-- The cipher contexts of a slot that is taken over: `set_peer_info` and `destroy_peer` of src/peer.c.
use vpnd.Base.{
  ℕ, ◌≡◌, refl, sym, ap, ◌∙◌, inl, inr, Bool, true, false, none, some, [], get_elem?, if◌then◌else◌,
  Outcome, ok, fault, stuck, ◌>>=◌, Option-cases, get_elem?-set_self, ok-injective,
}
use vpnd.Encryption.{CtxStore, load_ctx, ctx_free}
use vpnd.Peer.{Peer, Connection, free_if, set_peer_info, destroy_peer}

-- A context that was freed cannot be freed again.
ctx_free-gone :
    (store after : CtxStore) (p : ℕ) → ctx_free store p ≡ ok after → ctx_free after p ≡ fault
unfolding ctx_free load_ctx
ctx_free-gone store after p h = elim (Option-cases (get_elem? store p)) [
  | inl missing ↦ absurd (no_ok (rw (missing, ctx_free, load_ctx) at h))
  | inr (none, found) ↦ absurd (no_ok (rw (found, ctx_free, load_ctx) at h))
  | inr (some c, found) ↦
      rw
        (
          sym (ok-injective (rw (found, ctx_free, load_ctx) at h)),
          get_elem?-set_self store p none found,
          load_ctx,
        )
        refl
]
  where
    no_ok : {A : Type 0} {a : A} → fault ≡ ok a → ⊥
    no_ok e = cc

-- What `set_peer_info` leaves of the contexts.
record Dangling (p : ℕ) (peer' : Peer) (store' : CtxStore) : Type 0 where
  no_enc : peer'.enc_ctx ≡ none
  dec : peer'.dec_ctx ≡ some p
  gone : ctx_free store' p ≡ fault

set_peer_info-Dangling :
    (strdup : Bool) (peer peer' : Peer) (c : Connection) (store store' : CtxStore) (p : ℕ)
    → peer.dec_ctx ≡ some p
    → set_peer_info strdup peer c store ≡ ok (peer', store')
    → Dangling p peer' store'
unfolding set_peer_info free_if
set_peer_info-Dangling strdup peer peer' c store store' p h done =
    first (free_if store peer.enc_ctx) (rw h at done)
  where
    pack : Peer → CtxStore → Outcome (Peer × CtxStore)
    pack q s₂ = ok (q, s₂)

    made : Peer
    made = record {
      s = c.s;
      is_client = c.is_client;
      address = if strdup then some c.address else none;
      port = c.port;
      alive = true;
      pubkey = none;
      authenticated = false;
      enc_ctx = none;
      dec_ctx = some p;
      routes = [];
    }

    second :
        (s₁ : CtxStore) (r : Outcome CtxStore)
        → ctx_free s₁ p ≡ r
        → (r >>= pack made) ≡ ok (peer', store')
        → Dangling p peer' store'
    second s₁ (ok s₂) f e =
        let both : (made, s₂) ≡ (peer', store') = ok-injective e in
        record {
          no_enc = sym (ap (λ (t : Peer × CtxStore). t.0.enc_ctx) both);
          dec = sym (ap (λ (t : Peer × CtxStore). t.0.dec_ctx) both);
          gone = ctx_free-gone s₁ store' p (f ∙ ap (λ (t : Peer × CtxStore). ok t.1) both);
        }
    second s₁ fault f e = cc
    second s₁ stuck f e = cc

    first :
        (r : Outcome CtxStore)
        → (r >>= λ s₁. (ctx_free s₁ p >>= pack made)) ≡ ok (peer', store')
        → Dangling p peer' store'
    first (ok s₁) e = second s₁ (ctx_free s₁ p) refl e
    first fault e = cc
    first stuck e = cc

-- A slot whose decryption context was freed for a new connection keeps the pointer: unless a new
-- handshake replaces it, both the next reuse of the slot and `destroy_peer` free it again.
pub set_peer_info-double_free :
    (strdup strdup' : Bool) (peer peer' : Peer) (c c' : Connection) (store store' : CtxStore)
    (p : ℕ)
    → peer.dec_ctx ≡ some p
    → set_peer_info strdup peer c store ≡ ok (peer', store')
    → (set_peer_info strdup' peer' c' store' ≡ fault) × (destroy_peer peer' store' ≡ fault)
unfolding set_peer_info destroy_peer free_if
set_peer_info-double_free strdup strdup' peer peer' c c' store store' p h done =
    let d = set_peer_info-Dangling strdup peer peer' c store store' p h done in
    (rw (d.no_enc, d.dec, d.gone) refl, rw (d.no_enc, d.dec, d.gone) refl)
