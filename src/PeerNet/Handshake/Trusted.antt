-- ===== src/PeerNet/Handshake/Trusted.antt =====
-- Who gets authenticated: the outcome of `authenticate_peer` of src/peer_net.c.
use vpnd.Base.{
  ℕ, ◌≡◌, refl, ap, ◌∙◌, true, false, Option, none, some, List, get_elem?, set, get_elem?-set_self,
  is_some, Bool-cases, inl, inr,
}
use vpnd.Protocol.{frame_header_size}
use vpnd.Encryption.{aes_init_ctx}
use vpnd.Rsa.{load_rsa_key_from_string, is_trusted_key}
use vpnd.Peer.{Peer}
use vpnd.Daemon.{Env, Daemon, Code, on_option, peer_at, set_peer, pure, ◌>>=◌}
use vpnd.Daemon.Stays.{Kept, Keeps, Post, Post-bind, Post-Keeps, Keeps-if, Keeps-peer_at}
use vpnd.PeerNet.Handshake.{guard, receive_pubkey, start_ciphers, authenticate_peer}
use vpnd.PeerNet.Process.Reading.{readable-Keeps}
use vpnd.PeerNet.Handshake.Keeps.{
  send_pubkey-Keeps, receive_auth-Keeps, receive_secrets-Keeps, send_secrets-Keeps,
}

-- Slot `i` of the daemon holds `p`, and the trusted keys are `trusted`.
pub record Slot (i : ℕ) (trusted : List ℕ) (p : Peer) (d : Daemon) : Type 0 where
  pub found : get_elem? d.peers i ≡ some p
  pub keys : d.trusted_keys ≡ trusted

-- The peer has given a key that is among the trusted ones.
pub record HasTrustedKey (e : Env) (trusted : List ℕ) (p : Peer) : Type 0 where
  pub key : ℕ
  pub given : p.pubkey ≡ some key
  pub is_trusted : is_trusted_key e.rsa e.memory key trusted ≡ true

-- Three stages of a slot in the handshake.
abbrev pub Unproven : ℕ → List ℕ → Daemon → Type 0
Unproven i trusted d = (p : Peer) × Slot i trusted p d × (p.authenticated ≡ false)

abbrev pub Proven : Env → ℕ → List ℕ → Daemon → Type 0
Proven e i trusted d =
    (p : Peer) × Slot i trusted p d × (p.authenticated ≡ false) × HasTrustedKey e trusted p

abbrev pub Authentic : Env → ℕ → List ℕ → Daemon → Type 0
Authentic e i trusted d =
    (p : Peer) × Slot i trusted p d
    × (p.authenticated ≡ true)
    × HasTrustedKey e trusted p
    × (is_some p.enc_ctx ≡ true)
    × (is_some p.dec_ctx ≡ true)

Slot-Kept :
    (i : ℕ) (trusted : List ℕ) (p : Peer) (d d' : Daemon)
    → Kept d d'
    → Slot i trusted p d
    → Slot i trusted p d'
Slot-Kept i trusted p d d' k s = record {
  found = ap (λ (ps : List Peer). get_elem? ps i) k.peers ∙ s.found;
  keys = k.trusted_keys ∙ s.keys;
}

Unproven-Kept :
    (i : ℕ) (trusted : List ℕ) (d d' : Daemon)
    → Unproven i trusted d
    → Kept d d'
    → Unproven i trusted d'
Unproven-Kept i trusted d d' (p, s, a) k = (p, Slot-Kept i trusted p d d' k s, a)

Proven-Kept :
    (e : Env) (i : ℕ) (trusted : List ℕ) (d d' : Daemon)
    → Proven e i trusted d
    → Kept d d'
    → Proven e i trusted d'
Proven-Kept e i trusted d d' (p, s, a, h) k = (p, Slot-Kept i trusted p d d' k s, a, h)

-- Code that keeps the daemon keeps the stage.
stay_Unproven :
    {A : Type 0} (i : ℕ) (trusted : List ℕ) (m : Code A) (d : Daemon)
    → Keeps m
    → Unproven i trusted d
    → Post (λ a. Unproven i trusted) (Unproven i trusted) (m d)
stay_Unproven i trusted m d k u =
    Post-Keeps m d (λ a. Unproven i trusted) (Unproven i trusted) k
      (λ a d'. Unproven-Kept i trusted d d' u) (λ d'. Unproven-Kept i trusted d d' u)

stay_Proven :
    {A : Type 0} (e : Env) (i : ℕ) (trusted : List ℕ) (m : Code A) (d : Daemon)
    → Keeps m
    → Proven e i trusted d
    → Post (λ a. Proven e i trusted) (Unproven i trusted) (m d)
stay_Proven e i trusted m d k h =
    Post-Keeps m d (λ a. Proven e i trusted) (Unproven i trusted) k
      (λ a d'. Proven-Kept e i trusted d d' h) (λ d'. Unproven-Kept i trusted d d' (h.0, h.1, h.2))

-- The last steps of `receive_pubkey`: the key is stored, then looked up among the trusted ones.
check_key :
    (e : Env) (i : ℕ) (trusted buf : List ℕ) (loaded : Option ℕ) (d : Daemon)
    → Unproven i trusted d
    → Post
        (λ a. Proven e i trusted)
        (Unproven i trusted)
        ((peer_at i >>= λ peer. set_peer i (record peer { pubkey = loaded }) >>= λ _.
            on_option loaded >>= λ pubkey.
            guard (is_trusted_key e.rsa e.memory pubkey d.trusted_keys) >>= λ _. pure buf)
          d)
unfolding peer_at set_peer
check_key e i trusted buf none d (p, s, a) = rw s.found (
  record p { pubkey = none },
  record { found = get_elem?-set_self d.peers i _ s.found; keys = s.keys },
  a,
)
check_key e i trusted buf (some key) d (p, s, a) =
    let slot : Slot i trusted (record p { pubkey = some key })
        (record d { peers = set d.peers i (record p { pubkey = some key }) }) =
      record { found = get_elem?-set_self d.peers i _ s.found; keys = s.keys } in
    elim (Bool-cases (is_trusted_key e.rsa e.memory key d.trusted_keys)) [
      | inl good ↦
          rw (s.found, good)
            (
              record p { pubkey = some key },
              slot,
              a,
              record { key = key; given = refl; is_trusted = rw s.keys at good },
            )
      | inr bad ↦ rw (s.found, bad) (record p { pubkey = some key }, slot, a)
    ]

receive_pubkey-Proven :
    (e : Env) (i : ℕ) (trusted buf : List ℕ) (d : Daemon)
    → Unproven i trusted d
    → Post (λ a. Proven e i trusted) (Unproven i trusted) (receive_pubkey e i buf d)
unfolding receive_pubkey
receive_pubkey-Proven e i trusted buf d u =
    Post-bind (λ a. Unproven i trusted) (λ a. Proven e i trusted) (Unproven i trusted) _ _
      (stay_Unproven i trusted _ d (receive_auth-Keeps e i buf) u)
      λ f d₁ u₁.
        Post-bind (λ a. Unproven i trusted) (λ a. Proven e i trusted) (Unproven i trusted) _ _
          (stay_Unproven i trusted _ d₁ (readable-Keeps f.buf frame_header_size f.data_len) u₁)
          λ pem d₂ u₂.
            check_key e i trusted f.buf
              (load_rsa_key_from_string e.rsa (e.memory d₂.net.calls) pem true) d₂ u₂

-- The last steps of `start_ciphers`, on the contexts that were made.
finish_ciphers-Authentic :
    (e : Env) (i : ℕ) (trusted : List ℕ) (enc dec : Option ℕ) (d : Daemon)
    → Proven e i trusted d
    → Post
        (λ a. Authentic e i trusted)
        (Unproven i trusted)
        ((peer_at i >>= λ peer. set_peer i (record peer { enc_ctx = enc; dec_ctx = dec }) >>= λ _.
            guard (is_some enc) >>= λ _. guard (is_some dec) >>= λ _.
            peer_at i >>= λ peer'. set_peer i (record peer' { authenticated = true }))
          d)
unfolding peer_at set_peer
finish_ciphers-Authentic e i trusted none dec d (p, s, a, h) =
    rw s.found (_, record { found = get_elem?-set_self d.peers i _ s.found; keys = s.keys }, a)
finish_ciphers-Authentic e i trusted (some x) none d (p, s, a, h) =
    rw s.found (_, record { found = get_elem?-set_self d.peers i _ s.found; keys = s.keys }, a)
finish_ciphers-Authentic e i trusted (some x) (some y) d (p, s, a, h) =
    let q : Peer = record p { enc_ctx = some x; dec_ctx = some y } in
    let found₁ : get_elem? (set d.peers i q) i ≡ some q = get_elem?-set_self d.peers i q s.found in
    rw (s.found, found₁)
      (
        record q { authenticated = true },
        record { found = get_elem?-set_self (set d.peers i q) i _ found₁; keys = s.keys },
        refl,
        record { key = h.key; given = h.given; is_trusted = h.is_trusted },
        refl,
        refl,
      )

start_ciphers-Authentic :
    (e : Env) (i : ℕ) (trusted : List ℕ) (secrets : List ℕ × List ℕ) (d : Daemon)
    → Proven e i trusted d
    → Post (λ a. Authentic e i trusted) (Unproven i trusted) (start_ciphers e i secrets d)
unfolding start_ciphers
start_ciphers-Authentic e i trusted secrets d (p, s, a, h) =
    let enc = aes_init_ctx e.evp d.ctxs secrets.0 secrets.1 true in
    let dec = aes_init_ctx e.evp enc.1 secrets.0 secrets.1 false in
    finish_ciphers-Authentic e i trusted enc.0 dec.0 (record d { ctxs = dec.1 })
      (p, record { found = s.found; keys = s.keys }, a, h)

-- `authenticate_peer` ends, whatever the peer sends and whatever the kernel, the memory and OpenSSL
-- answer. For a peer that was not authenticated before: if it succeeds, the peer is authenticated,
-- has both cipher contexts, and gave a public key that is among the trusted keys; if it returns
-- false, the peer is not authenticated; else it ended in a fault.
pub authenticate_peer-Authentic :
    (e : Env) (i : ℕ) (buf : List ℕ) (d : Daemon)
    → Unproven i d.trusted_keys d
    → Post
        (λ a. Authentic e i d.trusted_keys)
        (Unproven i d.trusted_keys)
        (authenticate_peer e i buf d)
unfolding authenticate_peer
authenticate_peer-Authentic e i buf d u =
    let t : List ℕ = d.trusted_keys in
    Post-bind (λ a. Unproven i t) (λ a. Authentic e i t) (Unproven i t) _ _
      (stay_Unproven i t _ d (send_pubkey-Keeps e i) u)
      λ _ d₁ u₁.
        Post-bind (λ a. Proven e i t) (λ a. Authentic e i t) (Unproven i t) _ _
          (receive_pubkey-Proven e i t buf d₁ u₁)
          λ buf₁ d₂ u₂.
            Post-bind (λ a. Proven e i t) (λ a. Authentic e i t) (Unproven i t) _ _
              (stay_Proven e i t _ d₂ (Keeps-peer_at i) u₂)
              λ p d₃ u₃.
                Post-bind (λ a. Proven e i t) (λ a. Authentic e i t) (Unproven i t) _ _
                  (stay_Proven e i t _ d₃
                    (Keeps-if p.is_client (receive_secrets-Keeps e i buf₁)
                      (send_secrets-Keeps e i buf₁))
                    u₃)
                  λ secrets d₄ u₄. start_ciphers-Authentic e i t secrets d₄ u₄
