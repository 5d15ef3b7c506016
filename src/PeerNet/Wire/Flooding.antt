-- ===== src/PeerNet/Wire/Flooding.antt =====
-- Whom a broadcast reaches: `broadcast_data_to_peers` of src/peer_net.c.
use vpnd.Base.{
  ℕ, zero, suc, ◌+◌, ◌-◌, ◌≡◌, refl, ◌∙◌, ◌≢◌, inl, inr, Bool, true, false, not, ◌&&◌, Option, none,
  some, List, [], ◌∷◌, if◌then◌else◌, ltb, ◌==◌, length, take, drop, get_elem?, Outcome, ok, fault,
  stuck, Bool-cases, ==-false→neq, ◌⊎◌, arith,
}
use vpnd.Protocol.{encode_frame_header}
use vpnd.Socket.{Kernel, Net, net_send, send_loop}
use vpnd.Encryption.{aes_encrypt}
use vpnd.Peer.{Peer}
use vpnd.Daemon.{Env, Daemon, Code, and_then, no_result, pure}
use vpnd.Daemon.Stays.{Holds}
use vpnd.PeerNet.Wire.{
  blank_header, then_net, send_frame, with_net, with_ctxs, encrypt_into, emit, send_to,
  broadcast_from, broadcast_data_to_peers,
}
use vpnd.PeerNet.Wire.Keeps.{broadcast-Keeps}

-- A descriptor that is not `t`.
abbrev pub Apart : ℕ → Option ℕ → Type 0
Apart t none = Unit {0}
Apart t (some s) = (t == s) ≡ false

abbrev SentElsewhere : ℕ → Net → Outcome (ℕ × Net) → Type 0
SentElsewhere t w (ok (n, v)) = v.outgoing t ≡ w.outgoing t
SentElsewhere t w fault = Unit {0}
SentElsewhere t w stuck = Unit {0}

net_send-elsewhere :
    (k : Kernel) (t : ℕ) (s : Option ℕ) (bytes : List ℕ) (w : Net)
    → Apart t s
    → (net_send k s bytes w).1.outgoing t ≡ w.outgoing t
unfolding net_send
net_send-elsewhere k t none bytes w h = refl
net_send-elsewhere k t (some s) bytes w h = rw h refl

elsewhere_trans :
    (t : ℕ) (w v : Net) (r : Outcome (ℕ × Net))
    → v.outgoing t ≡ w.outgoing t
    → SentElsewhere t v r
    → SentElsewhere t w r
elsewhere_trans t w v (ok (n, u)) e q = q ∙ e
elsewhere_trans t w v fault e q = tt
elsewhere_trans t w v stuck e q = tt

send_loop-elsewhere :
    (k : Kernel) (t fuel : ℕ) (s : Option ℕ) (bytes : List ℕ) (len sent : ℕ) (w : Net)
    → Apart t s
    → SentElsewhere t w (send_loop k fuel s bytes len sent w)
unfolding send_loop
send_loop-elsewhere k t zero s bytes len sent w h = tt
send_loop-elsewhere k t (suc fuel) s bytes len sent w h = elim (Bool-cases (ltb sent len)) [
  | inr stop ↦ rw stop refl
  | inl go ↦
      let offered : List ℕ = take (len - sent) (drop sent bytes) in
      let (n, w₁) = net_send k s offered w in
      let same = net_send-elsewhere k t s offered w h in
      elim (Bool-cases (n == 0)) [
        | inl refused ↦ rw (go, refused) same
        | inr taken ↦
            rw (go, taken)
              (elsewhere_trans t w w₁ _ same
                (send_loop-elsewhere k t fuel s bytes len (sent + n) w₁ h))
      ]
]

-- If the code returned, what the daemon put on descriptor `t` did not change.
abbrev pub Hush : {A : Type 0} → ℕ → Daemon → Outcome (Option A × Daemon) → Type 0
Hush t d (ok (o, d')) = d'.net.outgoing t ≡ d.net.outgoing t
Hush t d fault = Unit {0}
Hush t d stuck = Unit {0}

pub Hush-trans :
    {A : Type 0} (t : ℕ) (a b : Daemon) (r : Outcome (Option A × Daemon))
    → b.net.outgoing t ≡ a.net.outgoing t
    → Hush t b r
    → Hush t a r
Hush-trans t a b (ok (o, d)) e h = h ∙ e
Hush-trans t a b fault e h = tt
Hush-trans t a b stuck e h = tt

pub Hush-bind :
    {A B : Type 0} (t : ℕ) (d : Daemon) (r : Outcome (Option A × Daemon)) (f : A → Code B)
    → Hush t d r
    → ((a : A) (d₁ : Daemon) → Hush t d₁ (f a d₁))
    → Hush t d (and_then r f)
Hush-bind t d (ok (some a, d₁)) f h k = Hush-trans t d d₁ (f a d₁) h (k a d₁)
Hush-bind t d (ok (none, d₁)) f h k = h
Hush-bind t d fault f h k = tt
Hush-bind t d stuck f h k = tt

Hush-attempt :
    {A : Type 0} (t : ℕ) (d : Daemon) (r : Outcome (Option A × Daemon))
    → Hush t d r
    → Hush t d (no_result r)
Hush-attempt t d (ok (o, d₁)) h = h
Hush-attempt t d fault h = tt
Hush-attempt t d stuck h = tt

pub Hush-if :
    {A : Type 0} (t : ℕ) (d : Daemon) (b : Bool) (m n : Code A)
    → Hush t d (m d)
    → Hush t d (n d)
    → Hush t d ((if b then m else n) d)
Hush-if t d true m n h k = h
Hush-if t d false m n h k = k

framed-Hush :
    (e : Env) (t len : ℕ) (bytes : List ℕ) (s : Option ℕ) (d : Daemon) (w : Net)
    (r : Outcome (ℕ × Net))
    → Apart t s
    → SentElsewhere t d.net r
    → Hush t d
        (with_net d (then_net r λ w₁. then_net (send_loop e.kernel (len + 1) s bytes len 0 w₁) ok))
framed-Hush e t len bytes s d w (ok (n, w₁)) apart h =
    last (send_loop e.kernel (len + 1) s bytes len 0 w₁)
      (send_loop-elsewhere e.kernel t (len + 1) s bytes len 0 w₁ apart)
  where
    last : (r : Outcome (ℕ × Net)) → SentElsewhere t w₁ r → Hush t d (with_net d (then_net r ok))
    last (ok (m, w₂)) q = q ∙ h
    last fault q = tt
    last stuck q = tt
framed-Hush e t len bytes s d w fault apart h = tt
framed-Hush e t len bytes s d w stuck apart h = tt

emit-Hush :
    (e : Env) (t type : ℕ) (bytes : List ℕ) (len : ℕ) (s : Option ℕ) (d : Daemon)
    → Apart t s
    → Hush t d (emit e type bytes len s d)
unfolding emit send_frame
emit-Hush e t type bytes len s d apart = framed-Hush e t len bytes s d d.net _ apart (
    send_loop-elsewhere e.kernel t 6 s (encode_frame_header e.little blank_header type len) 5 0
      d.net apart)

with_ctxs-Hush :
    (t : ℕ) (d : Daemon) (r : Outcome (Option (List ℕ) × List (Option ℕ)))
    → Hush t d (with_ctxs d r)
with_ctxs-Hush t d (ok (o, c)) = refl
with_ctxs-Hush t d fault = tt
with_ctxs-Hush t d stuck = tt

pub send_to-Hush :
    (e : Env) (t type : ℕ) (bytes : List ℕ) (len : ℕ) (encrypt : Bool) (p : Peer) (d : Daemon)
    → Apart t p.s
    → Hush t d (send_to e type bytes len encrypt p d)
unfolding send_to encrypt_into
send_to-Hush e t type bytes len encrypt p d apart =
    Hush-if t d p.alive _ _
      (Hush-if t d encrypt _ _
        (Hush-if t d (not p.authenticated) _ _ refl (
          Hush-attempt t d _ (
            Hush-bind t d _ _
              (with_ctxs-Hush t d (aes_encrypt e.evp d.ctxs p.enc_ctx (take len bytes) 2048))
              (λ enc d₁. emit-Hush e t type enc (length enc) p.s d₁ apart))))
        (emit-Hush e t type bytes len p.s d apart))
      refl

broadcast_from-Hush :
    (e : Env) (t type : ℕ) (bytes : List ℕ) (len : ℕ) (encrypt : Bool) (x i : ℕ) (peers : List Peer)
    (d : Daemon)
    → ((k : ℕ) (p : Peer) → get_elem? peers k ≡ some p → i + k ≢ x → Apart t p.s)
    → Hush t d (broadcast_from e type bytes len encrypt (some x) i peers d)
unfolding broadcast_from
broadcast_from-Hush e t type bytes len encrypt x i [] d others = refl
broadcast_from-Hush e t type bytes len encrypt x i (p ∷ next) d others =
    Hush-bind t d _ _ (one (Bool-cases (i == x))) λ _ d₁.
      broadcast_from-Hush e t type bytes len encrypt x (i + 1) next d₁
        (λ k q at far. others (suc k) q at (λ same. far (omega arith)))
  where
    turn : Bool → Code (Unit {0})
    turn b = if not b && p.alive then send_to e type bytes len encrypt p else pure tt

    one : ((i == x) ≡ true) ⊎ ((i == x) ≡ false) → Hush t d (turn (i == x) d)
    one (inl same) = rw same refl
    one (inr far) =
        Hush-if t d (not (i == x) && p.alive) _ _
          (send_to-Hush e t type bytes len encrypt p d
            (others 0 p refl (λ e'. ==-false→neq i x far (omega arith))))
          refl

Holds-both :
    {A : Type 0} (t : ℕ) (d : Daemon) (P : Daemon → Type 0) (r : Outcome (Option A × Daemon))
    → Holds P r
    → Hush t d r
    → Holds (λ d'. d'.net.outgoing t ≡ d.net.outgoing t) r
Holds-both t d P (ok (o, d')) k h = h
Holds-both t d P fault k h = tt
Holds-both t d P stuck k h = k

-- A broadcast that excludes peer `x` ends and puts nothing on a descriptor that only peer `x` may
-- have: what came from a peer is not flooded back to it, whatever the kernel and OpenSSL answer.
pub broadcast_data_to_peers-excludes :
    (e : Env) (t type : ℕ) (bytes : List ℕ) (len : ℕ) (encrypt : Bool) (x : ℕ) (d : Daemon)
    → ((k : ℕ) (p : Peer) → get_elem? d.peers k ≡ some p → k ≢ x → Apart t p.s)
    → Holds
        (λ d'. d'.net.outgoing t ≡ d.net.outgoing t)
        (broadcast_data_to_peers e type bytes len encrypt (some x) d)
unfolding broadcast_data_to_peers
broadcast_data_to_peers-excludes e t type bytes len encrypt x d others =
    Holds-both t d _ _ ((broadcast-Keeps e type bytes len encrypt (some x)).keeps d) (
      broadcast_from-Hush e t type bytes len encrypt x 0 d.peers d
        (λ k p at far. others k p at (λ same. far (omega arith))))
