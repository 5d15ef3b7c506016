-- ===== src/Main/Closing.antt =====
-- The end of the process: `close_vpnd` of src/vpnd.c.
use vpnd.Base.{
  ℕ, zero, suc, ◌≡◌, refl, sym, ap, ◌∙◌, ◌∷◌, inl, inr, get_elem?, Bool-cases, ◌==◌, arith, Bool,
  true, false, Option, none, some, List, [], Outcome, ok, fault, stuck, ◌>>=◌, ok-injective, subst,
  is_some, if◌then◌else◌,
}
use vpnd.Daemon.{Daemon}
use vpnd.Daemon.Descriptors.{positive, is_open, closed, close_fd, is_open-closed}
use vpnd.Peer.{Peer, destroy_peers}
use vpnd.KeyRing.{KeyRing, free_daemon_keys, clear_trusted_keys, free_all}
use vpnd.Interface.{close_device, tuntap_close}
use vpnd.Main.{Program, free_config_dir, closed_sockets, close_vpnd}

-- What is left when the process has closed, which had these peers.
pub record Closed (peers_before : List Peer) (p : Program) : Type 0 where
  pub sockets :
      (i : ℕ) (q : Peer) (fd : ℕ)
      → get_elem? peers_before i ≡ some q
      → q.alive ≡ true
      → q.s ≡ some fd
      → is_open fd p.daemon.fds ≡ false
  pub peers : p.daemon.peers ≡ []
  pub local_routes : p.daemon.local_routes ≡ []
  pub trusted_keys : p.ring.trusted_keys ≡ []
  pub if_fd : positive p.daemon.if_fd ≡ false
  pub closing : p.already_closing ≡ true

-- What holds when the code gives a program.
abbrev Gives : (Program → Type 0) → Outcome Program → Type 0
Gives P (ok p) = P p
Gives P fault = Unit {0}
Gives P stuck = Unit {0}

Gives-bind :
    {A : Type 0} (P : Program → Type 0) (r : Outcome A) (f : A → Outcome Program)
    → ((a : A) → r ≡ ok a → Gives P (f a))
    → Gives P (r >>= f)
Gives-bind P (ok a) f h = h a refl
Gives-bind P fault f h = tt
Gives-bind P stuck f h = tt

tuntap_close-positive : (d : Daemon) → positive (tuntap_close d).if_fd ≡ false
unfolding tuntap_close
tuntap_close-positive d = choose d.if_fd refl
  where
    choose : (o : Option ℕ) → d.if_fd ≡ o → positive (close_device d o).if_fd ≡ false
    choose none h = ap positive h
    choose (some zero) h = ap positive h
    choose (some (suc n)) h = refl

pub tuntap_close-peers : (d : Daemon) → (tuntap_close d).peers ≡ d.peers
unfolding tuntap_close
tuntap_close-peers d = choose d.if_fd
  where
    choose : (o : Option ℕ) → (close_device d o).peers ≡ d.peers
    choose none = refl
    choose (some zero) = refl
    choose (some (suc n)) = refl

closed-stays :
    (fd x : ℕ) (fds : List ℕ) → is_open fd fds ≡ false → is_open fd (closed x fds) ≡ false
closed-stays fd x [] h = refl
closed-stays fd x (y ∷ ys) h = elim (Bool-cases (y == x)) [
  | inl same ↦ rw same (closed-stays fd x ys (ground (arith, h)))
  | inr other ↦ rw other (ground (arith, h, closed-stays fd x ys (ground (arith, h))))
]

close_fd-stays :
    (fd : ℕ) (o : Option ℕ) (fds : List ℕ)
    → is_open fd fds ≡ false
    → is_open fd (close_fd o fds) ≡ false
close_fd-stays fd none fds h = h
close_fd-stays fd (some x) fds h = closed-stays fd x fds h

if-stays :
    (fd : ℕ) (b : Bool) (o : Option ℕ) (fds : List ℕ)
    → is_open fd fds ≡ false
    → is_open fd (if b then close_fd o fds else fds) ≡ false
if-stays fd true o fds h = close_fd-stays fd o fds h
if-stays fd false o fds h = h

closed_sockets-stays :
    (ps : List Peer) (fd : ℕ) (fds : List ℕ)
    → is_open fd fds ≡ false
    → is_open fd (closed_sockets ps fds) ≡ false
unfolding closed_sockets
closed_sockets-stays [] fd fds h = h
closed_sockets-stays (x ∷ xs) fd fds h =
    closed_sockets-stays xs fd _ (if-stays fd x.alive x.s fds h)

-- The descriptor of every connected peer is closed.
closed_sockets-closed :
    (ps : List Peer) (fds : List ℕ) (i : ℕ) (q : Peer) (fd : ℕ)
    → get_elem? ps i ≡ some q
    → q.alive ≡ true
    → q.s ≡ some fd
    → is_open fd (closed_sockets ps fds) ≡ false
unfolding closed_sockets
closed_sockets-closed [] fds i q fd found up socket = cc
closed_sockets-closed (x ∷ xs) fds (suc i) q fd found up socket =
    closed_sockets-closed xs _ i q fd found up socket
closed_sockets-closed (x ∷ xs) fds zero q fd found up socket = closed_sockets-stays xs fd _ (
    here x.alive x.s (ap (λ (t : Peer). t.alive) (same found) ∙ up)
      (ap (λ (t : Peer). t.s) (same found) ∙ socket))
  where
    same : some x ≡ some q → x ≡ q
    same e = cc

    here :
        (b : Bool) (o : Option ℕ)
        → b ≡ true
        → o ≡ some fd
        → is_open fd (if b then close_fd o fds else fds) ≡ false
    here false o h e = cc
    here true none h e = cc
    here true (some n) h e =
        subst (λ (m : ℕ). is_open fd (closed m fds) ≡ false) (sym (number e))
          (is_open-closed fd fds)
      where
        number : some n ≡ some fd → n ≡ fd
        number k = cc

clear_trusted_keys-none : (r r' : KeyRing) → clear_trusted_keys r ≡ ok r' → r'.trusted_keys ≡ []
unfolding clear_trusted_keys
clear_trusted_keys-none r r' = cases (free_all r.objects r.trusted_keys)
  where
    cases :
        (o : Outcome (List (Option ℕ)))
        → (o >>= λ objects. ok (record r { objects = objects; trusted_keys = [] })) ≡ ok r'
        → r'.trusted_keys ≡ []
    cases (ok objects) h = sym (ap (λ (t : KeyRing). t.trusted_keys) (ok-injective h))
    cases fault h = cc
    cases stuck h = cc

free_config_dir-Closed :
    (ps : List Peer) (p : Program) → Closed ps p → Gives (Closed ps) (free_config_dir p)
unfolding free_config_dir
free_config_dir-Closed ps p c = choose (is_some p.config_dir) p.config_freed
  where
    choose :
        (b f : Bool)
        → Gives
            (Closed ps)
            (if b then (if f then fault else ok (record p { config_freed = true })) else ok p)
    choose true true = tt
    choose true false = record {
      sockets = c.sockets;
      peers = c.peers;
      local_routes = c.local_routes;
      trusted_keys = c.trusted_keys;
      if_fd = c.if_fd;
      closing = c.closing;
    }
    choose false f = c

close_vpnd-Closed :
    (p : Program) → p.already_closing ≡ false → Gives (Closed p.daemon.peers) (close_vpnd p)
unfolding close_vpnd
close_vpnd-Closed p first =
    let d : Daemon = tuntap_close p.daemon in
    rw (first, Gives)
      (Gives-bind (Closed p.daemon.peers) (destroy_peers d.peers d.ctxs) _ λ ctxs h.
        Gives-bind (Closed p.daemon.peers) (free_daemon_keys p.ring) _ λ ring h₁.
          Gives-bind (Closed p.daemon.peers) (clear_trusted_keys ring) _ λ ring' h₂.
            free_config_dir-Closed p.daemon.peers _ (record {
              sockets = λ i q fd found up socket.
                  closed_sockets-closed d.peers d.fds i q fd
                    (ap (λ (ps : List Peer). get_elem? ps i) (tuntap_close-peers p.daemon) ∙ found)
                    up socket;
              peers = refl;
              local_routes = refl;
              trusted_keys = clear_trusted_keys-none ring ring' h₂;
              if_fd = tuntap_close-positive p.daemon;
              closing = refl;
            }))

close_vpnd-stops : (p : Program) → p.already_closing ≡ true → close_vpnd p ≡ ok p
unfolding close_vpnd
close_vpnd-stops p h = rw h refl

-- When the first `close_vpnd` returns, no peer, no route and no trusted key is left, the descriptor of
-- every peer that was connected is closed, and so is the device unless its descriptor is 0; and `close_vpnd` called again, as the exit of the process does,
-- changes nothing.
pub close_vpnd-again :
    (p p' : Program)
    → p.already_closing ≡ false
    → close_vpnd p ≡ ok p'
    → Closed p.daemon.peers p' × (close_vpnd p' ≡ ok p')
close_vpnd-again p p' first done =
    let c : Closed p.daemon.peers p' =
      subst (Gives (Closed p.daemon.peers)) done (close_vpnd-Closed p first) in
    (c, close_vpnd-stops p' c.closing)
