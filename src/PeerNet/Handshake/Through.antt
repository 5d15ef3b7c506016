-- ===== src/PeerNet/Handshake/Through.antt =====
-- From what holds of a write to the peer's own slot, to what holds of the handshake
-- (`authenticate_peer` of src/peer_net.c).
use vpnd.Base.{
  ℕ, ◌≡◌, refl, inl, inr, Option, some, List, get_elem?, set, is_some, Option-cases, true, false,
}
use vpnd.Protocol.{frame_header_size}
use vpnd.Encryption.{CtxStore, aes_init_ctx}
use vpnd.Rsa.{load_rsa_key_from_string, is_trusted_key}
use vpnd.Peer.{Peer}
use vpnd.Daemon.{Env, Daemon, Code, ◌>>=◌, peer_at, set_peer}
use vpnd.Daemon.Stays.{
  Holds, Holds-chain, Kept, Runs, by, Runs-bind, Runs-weaken, Keeps, Keeps-if, Keeps-pure,
  Keeps-peer_at,
}
use vpnd.PeerNet.Handshake.{guard, receive_pubkey, start_ciphers, authenticate_peer}
use vpnd.PeerNet.Process.Reading.{readable-Keeps}
use vpnd.PeerNet.Handshake.Keeps.{
  guard-Keeps, on_option-Keeps, daemon-Keeps, send_pubkey-Keeps, receive_auth-Keeps,
  receive_secrets-Keeps, send_secrets-Keeps,
}

-- What a handshake leaves of its peer.
pub record SameLink (p q : Peer) : Type 0 where
  pub s : q.s ≡ p.s
  pub alive : q.alive ≡ p.alive
  pub routes : q.routes ≡ p.routes

module _ (e : Env) (i : ℕ) {T : Daemon → Daemon → Type 0}
    (trans : (a b c : Daemon) → T a b → T b c → T a c) (of_Kept : (a b : Daemon) → Kept a b → T a b)
    (write : (d : Daemon) (p q : Peer)
      → get_elem? d.peers i ≡ some p
      → SameLink p q
      → T d (record d { peers = set d.peers i q }))
    (ctxs : (d : Daemon) (c : CtxStore) → T d (record d { ctxs = c })) where
  kept : {A : Type 0} {m : Code A} → Keeps m → Runs T m
  kept h = Runs-weaken of_Kept h

  bind :
      {A B : Type 0} {m : Code A} {f : A → Code B}
      → Runs T m
      → ((a : A) → Runs T (f a))
      → Runs T (m >>= f)
  bind h k = Runs-bind trans h k

  update-Runs :
      {B : Type 0} (f : Peer → Peer) (rest : Peer → Code B)
      → ((p : Peer) → SameLink p (f p))
      → ((p : Peer) → Runs T (rest p))
      → Runs T (peer_at i >>= λ p. set_peer i (f p) >>= λ _. rest p)
  unfolding peer_at set_peer
  update-Runs f rest h k = by λ d. elim (Option-cases (get_elem? d.peers i)) [
    | inl missing ↦ rw (missing, Holds) tt
    | inr (p, found) ↦
        rw (found, Holds)
          (Holds-chain trans d (record d { peers = set d.peers i (f p) }) _
            (write d p (f p) found (h p)) ((k p).keeps (record d { peers = set d.peers i (f p) })))
  ]

  write-Runs :
      (f : Peer → Peer)
      → ((p : Peer) → SameLink p (f p))
      → Runs T (peer_at i >>= λ p. set_peer i (f p))
  unfolding peer_at set_peer
  write-Runs f h = by λ d. elim (Option-cases (get_elem? d.peers i)) [
    | inl missing ↦ rw (missing, Holds) tt
    | inr (p, found) ↦ rw (found, Holds) (write d p (f p) found (h p))
  ]

  receive_pubkey-Runs : (buf : List ℕ) → Runs T (receive_pubkey e i buf)
  unfolding receive_pubkey
  receive_pubkey-Runs buf = bind (kept (receive_auth-Keeps e i buf)) λ f.
      bind (kept (readable-Keeps f.buf frame_header_size f.data_len)) λ pem.
        bind (kept daemon-Keeps) λ d.
          let loaded = load_rsa_key_from_string e.rsa (e.memory d.net.calls) pem true in
          update-Runs (λ p. record p { pubkey = loaded }) _
            (λ p. record { s = refl; alive = refl; routes = refl })
            λ p. bind (kept (on_option-Keeps loaded)) λ key.
              bind (kept (guard-Keeps (is_trusted_key e.rsa e.memory key d.trusted_keys)))
                λ _. kept (Keeps-pure f.buf)

  store_ctxs-Runs :
      (enc dec : Option ℕ)
      → Runs T (
          peer_at i >>= λ peer. set_peer i (record peer { enc_ctx = enc; dec_ctx = dec }) >>= λ _.
          guard (is_some enc) >>= λ _. guard (is_some dec) >>= λ _.
          peer_at i >>= λ peer'. set_peer i (record peer' { authenticated = true }))
  store_ctxs-Runs enc dec =
      update-Runs (λ p. record p { enc_ctx = enc; dec_ctx = dec }) _
        (λ p. record { s = refl; alive = refl; routes = refl })
        λ p. bind (kept (guard-Keeps (is_some enc))) λ _.
          bind (kept (guard-Keeps (is_some dec))) λ _.
            write-Runs (λ p. record p { authenticated = true })
              (λ p. record { s = refl; alive = refl; routes = refl })

  start_ciphers-Runs : (secrets : List ℕ × List ℕ) → Runs T (start_ciphers e i secrets)
  unfolding start_ciphers
  start_ciphers-Runs secrets = by λ d.
      let enc = aes_init_ctx e.evp d.ctxs secrets.0 secrets.1 true in
      let dec = aes_init_ctx e.evp enc.1 secrets.0 secrets.1 false in
      Holds-chain trans d (record d { ctxs = dec.1 }) _ (ctxs d dec.1)
        ((store_ctxs-Runs enc.0 dec.0).keeps (record d { ctxs = dec.1 }))

  pub authenticate_peer-Runs : (buf : List ℕ) → Runs T (authenticate_peer e i buf)
  unfolding authenticate_peer
  authenticate_peer-Runs buf = bind (kept (send_pubkey-Keeps e i)) λ _.
      bind (receive_pubkey-Runs buf) λ buf₁. bind (kept (Keeps-peer_at i)) λ p.
        bind
          (kept
            (Keeps-if p.is_client (receive_secrets-Keeps e i buf₁) (send_secrets-Keeps e i buf₁)))
          start_ciphers-Runs
