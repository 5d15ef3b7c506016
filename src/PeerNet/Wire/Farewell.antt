-- ===== src/PeerNet/Wire/Farewell.antt =====
-- A CLOSE frame to all peers: `broadcast_data_to_peers` of src/peer_net.c without a payload.
use vpnd.Base.{
  ℕ, zero, suc, ◌+◌, ◌≡◌, ◌≢◌, refl, sym, ap, ◌∙◌, Bool, true, false, not, ◌&&◌, Option, none, some,
  List, [], ◌∷◌, ◌++◌, get_elem?, if◌then◌else◌, Outcome, ok, fault, stuck, arith, subst,
}
use vpnd.Protocol.{hdr_close}
use vpnd.Socket.{Net}
use vpnd.Socket.Sending.{Accepts}
use vpnd.Peer.{Peer}
use vpnd.Daemon.{Env, Daemon, Code, and_then, pure}
use vpnd.PeerNet.Wire.{send_frame, with_net, emit, send_to, broadcast_from}
use vpnd.PeerNet.Wire.Delivery.{frame_bytes, send_frame-wire}
use vpnd.PeerNet.Wire.Flooding.{Apart, Hush, Hush-bind, Hush-if, send_to-Hush}

-- A CLOSE frame on the wire.
abbrev pub close_frame : Bool → List ℕ
close_frame little = frame_bytes little hdr_close 0 []

-- If the code returned, it put `bytes` on descriptor `t`.
abbrev pub Tells : {A : Type 0} → ℕ → List ℕ → Daemon → Outcome (Option A × Daemon) → Type 0
Tells t bytes d (ok (o, d')) = d'.net.outgoing t ≡ d.net.outgoing t ++ bytes
Tells t bytes d fault = Unit {0}
Tells t bytes d stuck = Unit {0}

Tells-Hush :
    {A B : Type 0} (t : ℕ) (bytes : List ℕ) (d : Daemon) (r : Outcome (Option A × Daemon))
    (f : A → Code B)
    → Tells t bytes d r
    → ((a : A) (d₁ : Daemon) → Hush t d₁ (f a d₁))
    → Tells t bytes d (and_then r f)
Tells-Hush {B} t bytes d (ok (some a, d₁)) f h k = last (f a d₁) (k a d₁)
  where
    last : (r : Outcome (Option B × Daemon)) → Hush t d₁ r → Tells t bytes d r
    last (ok (o, d₂)) q = q ∙ h
    last fault q = tt
    last stuck q = tt
Tells-Hush t bytes d (ok (none, d₁)) f h k = h
Tells-Hush t bytes d fault f h k = tt
Tells-Hush t bytes d stuck f h k = tt

-- The code does not give up.
abbrev Goes : {A : Type 0} → Outcome (Option A × Daemon) → Type 0
Goes (ok (some a, d)) = Unit {0}
Goes (ok (none, d)) = ⊥
Goes fault = Unit {0}
Goes stuck = Unit {0}

Goes-if :
    {A : Type 0} (b : Bool) (m n : Code A) (d : Daemon)
    → Goes (m d)
    → Goes (n d)
    → Goes ((if b then m else n) d)
Goes-if true m n d h k = h
Goes-if false m n d h k = k

with_net-Goes : (d : Daemon) (r : Outcome Net) → Goes (with_net d r)
with_net-Goes d (ok w) = tt
with_net-Goes d fault = tt
with_net-Goes d stuck = tt

Hush-Tells :
    {A B : Type 0} (t : ℕ) (bytes : List ℕ) (d : Daemon) (r : Outcome (Option A × Daemon))
    (f : A → Code B)
    → Hush t d r
    → Goes r
    → ((a : A) (d₁ : Daemon) → Tells t bytes d₁ (f a d₁))
    → Tells t bytes d (and_then r f)
Hush-Tells {B} t bytes d (ok (some a, d₁)) f h g k = last (f a d₁) (k a d₁)
  where
    last : (r : Outcome (Option B × Daemon)) → Tells t bytes d₁ r → Tells t bytes d r
    last (ok (o, d₂)) q = q ∙ ap (λ (x : List ℕ). x ++ bytes) h
    last fault q = tt
    last stuck q = tt
Hush-Tells t bytes d (ok (none, d₁)) f h g k = absurd g
Hush-Tells t bytes d fault f h g k = tt
Hush-Tells t bytes d stuck f h g k = tt

module _ (e : Env) (s : ℕ) (accepts : Accepts e.kernel) where
  send_to-Tells :
      (p : Peer) (d : Daemon)
      → p.alive ≡ true
      → p.s ≡ some s
      → send_to e hdr_close [] 0 false p d
        ≡ ok (
          some tt,
          record d { net = (send_frame-wire e hdr_close [] 0 s d.net accepts (omega arith)).0 },
        )
  unfolding send_to emit
  send_to-Tells p d alive socket =
      ap (λ (b : Bool). (if b then emit e hdr_close [] 0 p.s else pure tt) d) alive
      ∙ (ap (λ (o : Option ℕ). with_net d (send_frame e hdr_close [] 0 o d.net)) socket
          ∙ ap (with_net d) (send_frame-wire e hdr_close [] 0 s d.net accepts (omega arith)).1)

  -- One turn of the loop of `broadcast_data_to_peers`.
  turn : Peer → Code (Unit {0})
  turn p = if not false && p.alive then send_to e hdr_close [] 0 false p else pure tt

  turn-Hush : (p : Peer) (d : Daemon) → Apart s p.s → Hush s d (turn p d)
  unfolding turn
  turn-Hush p d apart =
      Hush-if s d (not false && p.alive) _ _ (send_to-Hush e s hdr_close [] 0 false p d apart) refl

  turn-Goes : (p : Peer) (d : Daemon) → Goes (turn p d)
  unfolding turn send_to emit
  turn-Goes p d =
      Goes-if (not false && p.alive) _ _ d
        (Goes-if p.alive _ _ d (with_net-Goes d (send_frame e hdr_close [] 0 p.s d.net)) tt) tt

  others-Hush :
      (i : ℕ) (peers : List Peer) (d : Daemon)
      → ((k : ℕ) (q : Peer) → get_elem? peers k ≡ some q → Apart s q.s)
      → Hush s d (broadcast_from e hdr_close [] 0 false none i peers d)
  unfolding broadcast_from turn
  others-Hush i [] d others = refl
  others-Hush i (p ∷ next) d others =
      Hush-bind s d _ _ (turn-Hush p d (others 0 p refl))
        λ _ d₁. others-Hush (i + 1) next d₁ (λ k q at. others (suc k) q at)

  turn-Tells :
      (p : Peer) (d : Daemon)
      → p.alive ≡ true
      → p.s ≡ some s
      → Tells s (close_frame e.little) d (turn p d)
  unfolding turn
  turn-Tells p d alive socket =
      subst (Tells s (close_frame e.little) d)
        (sym (
          ap
            (λ (b : Bool). (if not false && b then send_to e hdr_close [] 0 false p else pure tt) d)
            alive
          ∙ send_to-Tells p d alive socket))
        (send_frame-wire e hdr_close [] 0 s d.net accepts (omega arith)).2

  pub broadcast_from-Tells :
      (j i : ℕ) (p : Peer) (peers : List Peer) (d : Daemon)
      → get_elem? peers i ≡ some p
      → p.alive ≡ true
      → p.s ≡ some s
      → ((k : ℕ) (q : Peer) → get_elem? peers k ≡ some q → k ≢ i → Apart s q.s)
      → Tells s (close_frame e.little) d (broadcast_from e hdr_close [] 0 false none j peers d)
  unfolding broadcast_from turn
  broadcast_from-Tells j i p [] d found alive socket others = cc
  broadcast_from-Tells j zero p (x ∷ next) d found alive socket others =
      Tells-Hush s (close_frame e.little) d (turn x d) _
        (turn-Tells x d (ap (λ (t : Peer). t.alive) (same found) ∙ alive)
          (ap (λ (t : Peer). t.s) (same found) ∙ socket))
        λ _ d₁. others-Hush (j + 1) next d₁ (λ k q at. others (suc k) q at (λ h. cc))
    where
      same : some x ≡ some p → x ≡ p
      same h = cc
  broadcast_from-Tells j (suc i) p (x ∷ next) d found alive socket others =
      Hush-Tells s (close_frame e.little) d (turn x d) _ (turn-Hush x d (others 0 x refl (λ h. cc)))
        (turn-Goes x d)
        λ _ d₁.
          broadcast_from-Tells (j + 1) i p next d₁ found alive socket
            (λ k q at far. others (suc k) q at (λ h. far (omega (arith, h))))
