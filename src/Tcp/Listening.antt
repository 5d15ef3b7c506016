-- ===== src/Tcp/Listening.antt =====
-- The listening sockets: `tcp4_bind` of src/tcp4.c, `tcp6_bind` of src/tcp6.c, and the loop and the end of
-- `tcp_server` of src/tcp.c.
use vpnd.Base.{
  ℕ, zero, suc, ◌≡◌, refl, ap, ◌∙◌, inl, inr, Bool, true, false, ◌||◌, Option, none, some, List,
  ◌∷◌, if◌then◌else◌, Outcome, ok, fault, stuck, Bool-cases, arith,
}
use vpnd.Daemon.{Env, Daemon, Code, and_then, no_result, ◌>>◌}
use vpnd.Daemon.Descriptors.{closed, close_new, is_open, called, positive, opened}
use vpnd.Tcp.{
  Os, bind_socket, open_socket, bind_address, tcp4_bind, tcp6_bind, close_server, tcp_server_close,
  tcp_accept_connection, accept_if, after_poll, serve, tcp_server, htons,
}

-- What is open after a call that gives a descriptor or fails.
abbrev pub Bound : Daemon → Option ℕ × Daemon → Type 0
Bound d (none, d') = d'.fds ≡ d.fds
Bound d (some s, d') = (is_open s d.fds ≡ false) × (d'.fds ≡ s ∷ d.fds)

bind_socket-Bound :
    (os : Os) (e : Env) (ip6 : Bool) (addr : List ℕ) (port backlog s : ℕ) (a d : Daemon)
    → is_open s a.fds ≡ false
    → d.fds ≡ s ∷ a.fds
    → Bound a (bind_socket os e ip6 addr port backlog s d)
unfolding bind_socket
bind_socket-Bound os e ip6 addr port backlog s a d new fds =
    let closes : closed s d.fds ≡ a.fds = ap (closed s) fds ∙ close_new s a.fds new in
    elim (Bool-cases (os.bind d.net.calls s ip6 addr (htons e.little port))) [
      | inl bound ↦ elim (Bool-cases (os.listen (called d).net.calls s backlog)) [
        | inl listens ↦ rw (bound, listens, Bound) (new, fds)
        | inr deaf ↦ rw (bound, deaf, Bound) closes
      ]
      | inr free ↦ rw (free, Bound) closes
    ]

open_socket-Bound :
    (os : Os) (e : Env) (ip6 : Bool) (addr : List ℕ) (port backlog : ℕ) (d : Daemon)
    → Bound d (open_socket os e ip6 addr port backlog d)
unfolding open_socket
open_socket-Bound os e ip6 addr port backlog d = made (os.socket d.net.calls d.fds ip6) refl
  where
    set_options :
        (b : Bool) (s : ℕ)
        → (if b then called (called (opened s d)) else called (opened s d)).fds ≡ s ∷ d.fds
    set_options true s = refl
    set_options false s = refl

    made :
        (o : Option ℕ)
        → os.socket d.net.calls d.fds ip6 ≡ o
        → Bound d (elim o [
          | none ↦ (none, called d)
          | some s ↦
              bind_socket os e ip6 addr port backlog s
                (if ip6 then called (called (opened s d)) else called (opened s d))
        ])
    made none h = refl
    made (some s) h =
        bind_socket-Bound os e ip6 addr port backlog s d _ (os.socket_new d.net.calls d.fds ip6 s h)
          (set_options ip6 s)

-- `tcp4_bind` and `tcp6_bind` give a descriptor that was not open before, and open no other; when they
-- return -1, for whatever reason, the open descriptors are those from before.
pub tcp_bind-Bound :
    (os : Os) (e : Env) (address : Option (List ℕ)) (port backlog : ℕ) (d : Daemon)
    → Bound d (tcp4_bind os e address port backlog d)
      × Bound d (tcp6_bind os e address port backlog d)
unfolding tcp4_bind tcp6_bind
tcp_bind-Bound os e address port backlog d =
    (v4 (bind_address os false address), v6 (bind_address os true address))
  where
    v4 :
        (o : Option (List ℕ))
        → Bound d
            (elim o [ none ↦ (none, d) | some addr ↦ open_socket os e false addr port backlog d ])
    v4 none = refl
    v4 (some addr) = open_socket-Bound os e false addr port backlog d

    v6 :
        (o : Option (List ℕ))
        → Bound d
            (elim o [ none ↦ (none, d) | some addr ↦ open_socket os e true addr port backlog d ])
    v6 none = refl
    v6 (some addr) = open_socket-Bound os e true addr port backlog d

-- Neither server socket is open.
abbrev pub NotServing : Daemon → Type 0
NotServing d = (positive d.tcp4_socket || positive d.tcp6_socket) ≡ false

close_server-closed : (o : Option ℕ) (fds : List ℕ) → positive (close_server o fds).0 ≡ false
close_server-closed none fds = refl
close_server-closed (some zero) fds = refl
close_server-closed (some (suc n)) fds = refl

pub tcp_server_close-NotServing : (d : Daemon) → NotServing (tcp_server_close d)
unfolding tcp_server_close
tcp_server_close-NotServing d = ground (
  arith,
  close_server-closed d.tcp4_socket d.fds,
  close_server-closed d.tcp6_socket (close_server d.tcp4_socket d.fds).1,
)

-- What is closed stays as it is.
pub tcp_server_close-closed : (d : Daemon) → NotServing d → tcp_server_close d ≡ d
unfolding tcp_server_close
tcp_server_close-closed d shut =
    let (idle4, idle6) = both (positive d.tcp4_socket) (positive d.tcp6_socket) shut in
    let again4 = untouched d.tcp4_socket d.fds idle4 in
    let again6 = untouched d.tcp6_socket d.fds idle6 in rw (again4, again6) refl
  where
    both : (a b : Bool) → (a || b) ≡ false → (a ≡ false) × (b ≡ false)
    both true b h = cc
    both false b h = (refl, h)

    untouched : (o : Option ℕ) (fds : List ℕ) → positive o ≡ false → close_server o fds ≡ (o, fds)
    untouched none fds h = refl
    untouched (some zero) fds h = refl
    untouched (some (suc n)) fds h = cc

-- What holds of the daemon if the code returns.
abbrev pub Returned : (Daemon → Type 0) → Outcome (Option (Unit {0}) × Daemon) → Type 0
Returned P (ok (o, d)) = P d
Returned P fault = Unit {0}
Returned P stuck = Unit {0}

after_accept :
    (os : Os) (e : Env) (input : Bool) (s : Option ℕ) (k : Code (Unit {0})) (P : Daemon → Type 0)
    → ((d : Daemon) → Returned P (k d))
    → (d : Daemon) → Returned P ((accept_if os e input s >> k) d)
unfolding accept_if
after_accept os e false s k P h d = h d
after_accept os e true none k P h d = h (called d)
after_accept os e true (some s) k P h d = go (tcp_accept_connection os e s d)
  where
    go : (r : Outcome (Option (Unit {0}) × Daemon)) → Returned P (and_then (no_result r) (λ _. k))
    go (ok (o, d₁)) = h d₁
    go fault = tt
    go stuck = tt

serve-NotServing :
    (os : Os) (e : Env) (fd4 fd6 : Option ℕ) (fuel : ℕ) (d : Daemon)
    → Returned NotServing (serve os e fd4 fd6 fuel d)
unfolding serve
serve-NotServing os e fd4 fd6 zero d = tt
serve-NotServing os e fd4 fd6 (suc fuel) d =
    turn (positive d.tcp4_socket || positive d.tcp6_socket) refl (os.poll d.net.calls fd4 fd6)
      (serve-NotServing os e fd4 fd6 fuel)
  where
    polled :
        (o : Option (Bool × Bool))
        → ((d₁ : Daemon) → Returned NotServing (serve os e fd4 fd6 fuel d₁))
        → Returned NotServing (after_poll os e fd4 fd6 (serve os e fd4 fd6 fuel) o (called d))
    polled none ih = tcp_server_close-NotServing (called d)
    polled (some (in4, in6)) ih =
        after_accept os e in4 fd4 _ NotServing (after_accept os e in6 fd6 _ NotServing ih)
          (called d)

    turn :
        (b : Bool)
        → (positive d.tcp4_socket || positive d.tcp6_socket) ≡ b
        → (o : Option (Bool × Bool))
        → ((d₁ : Daemon) → Returned NotServing (serve os e fd4 fd6 fuel d₁))
        → Returned NotServing (
            if b
            then after_poll os e fd4 fd6 (serve os e fd4 fd6 fuel) o (called d)
            else ok (some tt, d))
    turn true serving o ih = polled o ih
    turn false shut o ih = shut

-- `tcp_server` returns only when neither of the server sockets is open: whatever the calls of the system
-- answer, whether it gave up on an error of `poll` or the sockets were closed.
pub tcp_server-NotServing :
    (os : Os) (e : Env) (ip4 ip6 : Bool) (backlog fuel : ℕ) (d : Daemon)
    → Returned NotServing (tcp_server os e ip4 ip6 backlog fuel d)
unfolding tcp_server
tcp_server-NotServing os e ip4 ip6 backlog fuel d = serve-NotServing os e _ _ fuel _
