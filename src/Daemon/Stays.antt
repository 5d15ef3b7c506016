-- ===== src/Daemon/Stays.antt =====
-- What a piece of code leaves alone: a relation between the daemon before and after, carried through
-- `>>=` step by step.
use vpnd.Base.{
  ℕ, ◌≡◌, refl, ◌∙◌, Bool, true, false, Option, none, some, if◌then◌else◌, get_elem?, Outcome, ok,
  fault, stuck, subst, arith,
}
use vpnd.Socket.Endings.{Shrunk}
use vpnd.Peer.{Peer}
use vpnd.Daemon.{
  Daemon, Code, pure, give_up, and_then, no_result, attempt, ◌>>=◌, peer_at, found_peer,
}

-- The code ended: with a fault, or with a daemon that has the property.
abbrev pub Holds : {A : Type 0} → (Daemon → Type 0) → Outcome (Option A × Daemon) → Type 0
Holds P (ok (o, d)) = P d
Holds P fault = Unit {0}
Holds P stuck = ⊥

pub Holds-bind :
    {A B : Type 0} (P Q : Daemon → Type 0) (r : Outcome (Option A × Daemon)) (f : A → Code B)
    → Holds P r
    → ((a : A) (d : Daemon) → P d → Holds Q (f a d))
    → ((d : Daemon) → P d → Q d)
    → Holds Q (and_then r f)
Holds-bind P Q (ok (some a, d)) f h go stop = go a d h
Holds-bind P Q (ok (none, d)) f h go stop = stop d h
Holds-bind P Q fault f h go stop = tt
Holds-bind P Q stuck f h go stop = h

pub Holds-attempt :
    {A : Type 0} (P : Daemon → Type 0) (r : Outcome (Option A × Daemon))
    → Holds P r
    → Holds P (no_result r)
Holds-attempt P (ok (o, d)) h = h
Holds-attempt P fault h = tt
Holds-attempt P stuck h = h

-- Code that ends, and leaves a daemon that stands in the relation `R` to the one before.
pub record Runs (R : Daemon → Daemon → Type 0) {A : Type 0} (m : Code A) : Type 0 where
  pub keeps : (d : Daemon) → Holds (R d) (m d)

module _ {R : Daemon → Daemon → Type 0} where
  abbrev pub by : {A : Type 0} {m : Code A} → ((d : Daemon) → Holds (R d) (m d)) → Runs R m
  by h = record { keeps = h }

  pub Holds-chain :
      {A : Type 0} (trans : (a b c : Daemon) → R a b → R b c → R a c) (a b : Daemon)
      (r : Outcome (Option A × Daemon))
      → R a b
      → Holds (R b) r
      → Holds (R a) r
  Holds-chain trans a b (ok (o, c)) p q = trans a b c p q
  Holds-chain trans a b fault p q = tt
  Holds-chain trans a b stuck p q = q

  pub Runs-bind :
      {A B : Type 0} {m : Code A} {f : A → Code B}
      → ((a b c : Daemon) → R a b → R b c → R a c)
      → Runs R m
      → ((a : A) → Runs R (f a))
      → Runs R (m >>= f)
  Runs-bind {m} {f} trans h k = by λ d.
      Holds-bind (R d) (R d) (m d) f (h.keeps d)
        (λ a d₁ p. Holds-chain trans d d₁ (f a d₁) p ((k a).keeps d₁)) (λ d₁ p. p)

  pub Keeps-attempt : {A : Type 0} {m : Code A} → Runs R m → Runs R (attempt m)
  Keeps-attempt {m} h = by λ d. Holds-attempt (R d) (m d) (h.keeps d)

  pub Keeps-if :
      {A : Type 0} {m n : Code A} (b : Bool) → Runs R m → Runs R n → Runs R (if b then m else n)
  Keeps-if true h k = h
  Keeps-if false h k = k

pub Holds-map :
    {A : Type 0} (P Q : Daemon → Type 0) (r : Outcome (Option A × Daemon))
    → ((d : Daemon) → P d → Q d)
    → Holds P r
    → Holds Q r
Holds-map P Q (ok (o, d)) f h = f d h
Holds-map P Q fault f h = tt
Holds-map P Q stuck f h = h

pub Runs-weaken :
    {R S : Daemon → Daemon → Type 0} {A : Type 0} {m : Code A}
    → ((a b : Daemon) → R a b → S a b)
    → Runs R m
    → Runs S m
Runs-weaken {R} {S} {m} f h = by λ d. Holds-map (R d) (S d) (m d) (f d) (h.keeps d)

-- Code that is `Keeps` ends and changes neither the peers, nor the keys, nor the device; it may
-- change the cipher states and the network, where it takes from the streams.
pub record Kept (a b : Daemon) : Type 0 where
  pub peers : b.peers ≡ a.peers
  pub local_routes : b.local_routes ≡ a.local_routes
  pub trusted_keys : b.trusted_keys ≡ a.trusted_keys
  pub daemon_privkey : b.daemon_privkey ≡ a.daemon_privkey
  pub daemon_pubkey : b.daemon_pubkey ≡ a.daemon_pubkey
  pub if_fd : b.if_fd ≡ a.if_fd
  pub if_tap : b.if_tap ≡ a.if_tap
  pub tcp4_socket : b.tcp4_socket ≡ a.tcp4_socket
  pub tcp6_socket : b.tcp6_socket ≡ a.tcp6_socket
  pub shrunk : Shrunk a.net b.net

pub Kept-refl : (d : Daemon) → Kept d d
Kept-refl d = record {
  peers = refl;
  local_routes = refl;
  trusted_keys = refl;
  daemon_privkey = refl;
  daemon_pubkey = refl;
  if_fd = refl;
  if_tap = refl;
  tcp4_socket = refl;
  tcp6_socket = refl;
  shrunk = λ t. omega arith;
}

pub Kept-trans : (a b c : Daemon) → Kept a b → Kept b c → Kept a c
Kept-trans a b c h k = record {
  peers = k.peers ∙ h.peers;
  local_routes = k.local_routes ∙ h.local_routes;
  trusted_keys = k.trusted_keys ∙ h.trusted_keys;
  daemon_privkey = k.daemon_privkey ∙ h.daemon_privkey;
  daemon_pubkey = k.daemon_pubkey ∙ h.daemon_pubkey;
  if_fd = k.if_fd ∙ h.if_fd;
  if_tap = k.if_tap ∙ h.if_tap;
  tcp4_socket = k.tcp4_socket ∙ h.tcp4_socket;
  tcp6_socket = k.tcp6_socket ∙ h.tcp6_socket;
  shrunk = λ t. omega (arith, h.shrunk t, k.shrunk t);
}

abbrev pub Keeps : {A : Type 0} → Code A → Type 0
Keeps m = Runs Kept m

pub Keeps-pure : {A : Type 0} (a : A) → Keeps (pure a)
Keeps-pure a = by Kept-refl

pub Keeps-give_up : {A : Type 0} → Keeps (give_up {A = A})
Keeps-give_up = by Kept-refl

pub Keeps-bind :
    {A B : Type 0} {m : Code A} {f : A → Code B}
    → Keeps m
    → ((a : A) → Keeps (f a))
    → Keeps (m >>= f)
Keeps-bind h k = Runs-bind Kept-trans h k

found_peer-Keeps : (o : Option Peer) → Keeps (found_peer o)
found_peer-Keeps none = by λ d. tt
found_peer-Keeps (some p) = by Kept-refl

pub Keeps-peer_at : (i : ℕ) → Keeps (peer_at i)
unfolding peer_at
Keeps-peer_at i = by λ d. (found_peer-Keeps (get_elem? d.peers i)).keeps d

-- What a call that returned did.
pub Runs-of_return :
    {R : Daemon → Daemon → Type 0} {A : Type 0} (m : Code A) (o : Option A) (d d' : Daemon)
    → Runs R m
    → m d ≡ ok (o, d')
    → R d d'
Runs-of_return {R} m o d d' h e = subst (Holds (R d)) e (h.keeps d)

-- A call that returned kept what `Keeps` says.
pub Kept-of_return :
    {A : Type 0} (m : Code A) (o : Option A) (d d' : Daemon)
    → Keeps m
    → m d ≡ ok (o, d')
    → Kept d d'
Kept-of_return m o d d' h e = Runs-of_return m o d d' h e

-- The code ended: what holds when it returned a value, and what when it gave up.
abbrev pub Post :
    {A : Type 0} → (A → Daemon → Type 0) → (Daemon → Type 0) → Outcome (Option A × Daemon) → Type 0
Post P E (ok (some a, d)) = P a d
Post P E (ok (none, d)) = E d
Post P E fault = Unit {0}
Post P E stuck = ⊥

pub Post-bind :
    {A B : Type 0} (P : A → Daemon → Type 0) (Q : B → Daemon → Type 0) (E : Daemon → Type 0)
    (r : Outcome (Option A × Daemon)) (f : A → Code B)
    → Post P E r
    → ((a : A) (d : Daemon) → P a d → Post Q E (f a d))
    → Post Q E (and_then r f)
Post-bind P Q E (ok (some a, d)) f h go = go a d h
Post-bind P Q E (ok (none, d)) f h go = h
Post-bind P Q E fault f h go = tt
Post-bind P Q E stuck f h go = h

-- Code that keeps the daemon keeps what only looks at the kept parts.
pub Post-Keeps :
    {A : Type 0} (m : Code A) (d : Daemon) (P : A → Daemon → Type 0) (E : Daemon → Type 0)
    → Keeps m
    → ((a : A) (d' : Daemon) → Kept d d' → P a d')
    → ((d' : Daemon) → Kept d d' → E d')
    → Post P E (m d)
Post-Keeps {A} m d P E k good bad = cases (m d) (k.keeps d)
  where
    cases : (r : Outcome (Option A × Daemon)) → Holds (Kept d) r → Post P E r
    cases (ok (some a, d')) h = good a d' h
    cases (ok (none, d')) h = bad d' h
    cases fault h = tt
    cases stuck h = h
