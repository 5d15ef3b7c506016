-- ===== src/PeerNet/System/Threads.antt =====
-- The thread of a connection as steps of the daemon: `_peer_connection` of src/peer.c and
-- `peer_receive` of src/peer_net.c.
use vpnd.Base.{
  ℕ, zero, suc, ◌≡◌, refl, inl, inr, Option, none, some, List, [], Outcome, ok, fault, stuck,
  Bool-cases, subst, ap, arith, ◌⊎◌,
}
use vpnd.Daemon.{Env, Daemon, Code, and_then, no_result}
use vpnd.PeerNet.Wire.{receive_frame}
use vpnd.PeerNet.Process.{process_frame}
use vpnd.PeerNet.Handshake.{authenticate_peer, receive_frames, peer_receive}
use vpnd.PeerNet.Connection.{mark_dead, connection_thread}
use vpnd.PeerNet.System.{
  Phase, idle, shaking, streaming, leaving, System, at, has_no_buffer, authenticates, is_rejected,
  takes_frame, takes_last_frame, leaves, closes, Reach, done, then_step,
}

abbrev system : Daemon → (ℕ → Phase) → List ℕ → System
system d phase closers = record { daemon = d; phase = phase; closers = closers }

-- Steps lead from `a` to the daemon `d`, with the thread of slot `i` in phase `x`.
abbrev Arrives : Env → System → ℕ → Phase → List ℕ → Daemon → Type 0
Arrives e a i x closers d = (phase : ℕ → Phase) × Reach e a (system d phase closers) × (phase i ≡ x)

at_self : (phase : ℕ → Phase) (i : ℕ) (x : Phase) → at phase i x i ≡ x
at_self phase i x = ground arith

abbrev Left : {A : Type 0} → Option A → Daemon → Outcome (Option A × Daemon)
Left o d = ok (o, d)

no_result-ok :
    {A : Type 0} (r : Outcome (Option A × Daemon)) (o : Option (Unit {0})) (d : Daemon)
    → no_result r ≡ ok (o, d)
    → (o' : Option A) × (r ≡ ok (o', d))
no_result-ok (ok (x, d₁)) o d h = (x, ap (λ (t : Daemon). ok (x, t)) (daemon_of h))
  where
    daemon_of : no_result (ok (x, d₁)) ≡ ok (o, d) → d₁ ≡ d
    daemon_of k = cc
no_result-ok fault o d h = cc
no_result-ok stuck o d h = cc

and_then-ok :
    {A B : Type 0} (r : Outcome (Option A × Daemon)) (f : A → Code B) (o : Option B) (d : Daemon)
    → and_then r f ≡ ok (o, d)
    → ((a : A) × (d₁ : Daemon) × (r ≡ ok (some a, d₁)) × (f a d₁ ≡ ok (o, d)))
      ⊎ ((r ≡ ok (none, d)) × (o ≡ none))
and_then-ok (ok (some a, d₁)) f o d h = inl (a, d₁, refl, h)
and_then-ok {A} (ok (none, d₁)) f o d h = inr (stopped h, no_value h)
  where
    stopped : and_then (ok (none, d₁)) f ≡ ok (o, d) → Left {A = A} none d₁ ≡ Left none d
    stopped k = cc

    no_value : and_then (ok (none, d₁)) f ≡ ok (o, d) → o ≡ none
    no_value k = cc
and_then-ok fault f o d h = cc
and_then-ok stuck f o d h = cc

module _ (e : Env) (a : System) (i : ℕ) (closers : List ℕ) where
  frames-Arrives :
      (fuel : ℕ) (buf : List ℕ) (o : Option (Unit {0})) (d d' : Daemon) (phase : ℕ → Phase)
      → Reach e a (system d phase closers)
      → phase i ≡ streaming
      → receive_frames e i fuel buf d ≡ ok (o, d')
      → Arrives e a i leaving closers d'
  unfolding receive_frames
  frames-Arrives zero buf o d d' phase before now h = cc
  frames-Arrives (suc fuel) buf o d d' phase before now h =
      let (o₁, run) = no_result-ok _ o d' h in
      elim (and_then-ok (receive_frame e i buf d) _ o₁ d' run) [
        | inl (f, d₁, got, rest) ↦
            elim (and_then-ok (process_frame e i f.buf f.header_type f.data_len d₁) _ o₁ d' rest) [
              | inl (unit, d₂, processed, more) ↦
                  frames-Arrives fuel f.buf o₁ d₂ d' phase
                    (then_step before (takes_frame i buf d₂ now (rw got processed))) now more
              | inr (stopped, no_value) ↦ (
                at phase i leaving,
                then_step before (takes_last_frame i buf d' now (rw got stopped)),
                at_self phase i leaving,
              )
            ]
        | inr (closed, no_value) ↦ (
          at phase i leaving,
          then_step before (takes_last_frame i buf d' now (rw closed refl)),
          at_self phase i leaving,
        )
      ]

  session-Arrives :
      (fuel : ℕ) (buf : List ℕ) (o : Option (Unit {0})) (d d' : Daemon) (phase : ℕ → Phase)
      → Reach e a (system d phase closers)
      → phase i ≡ shaking
      → peer_receive e i fuel buf d ≡ ok (o, d')
      → Arrives e a i leaving closers d'
  unfolding peer_receive
  session-Arrives fuel buf o d d' phase before now h = elim (Bool-cases (e.memory d.net.calls)) [
    | inr refused ↦ subst (Arrives e a i leaving closers) (daemon_of (rw refused at h)) (
      at phase i leaving,
      then_step before (has_no_buffer i now refused),
      at_self phase i leaving,
    )
    | inl given ↦
        let (o₁, run) = no_result-ok _ o d' (rw given at h) in
        elim (and_then-ok (authenticate_peer e i buf d) _ o₁ d' run) [
          | inl (unit, d₁, proven, rest) ↦
              frames-Arrives fuel buf o₁ d₁ d' (at phase i streaming)
                (then_step before (authenticates i buf d₁ now proven)) (at_self phase i streaming)
                rest
          | inr (rejected, no_value) ↦ (
            at phase i leaving,
            then_step before (is_rejected i buf d' now rejected),
            at_self phase i leaving,
          )
        ]
  ]
    where
      daemon_of : Left (some tt) d ≡ Left o d' → d ≡ d'
      daemon_of k = cc

-- The thread of a connection, run from `peer_receive` to the last `close`, is a sequence of steps of the
-- daemon that ends without a thread in its slot.
pub connection_thread-Reach :
    (e : Env) (s : System) (i fuel : ℕ) (buf : List ℕ) (d' : Daemon)
    → s.phase i ≡ shaking
    → connection_thread e i fuel buf s.daemon ≡ ok (some tt, d')
    → (phase : ℕ → Phase) × Reach e s (system d' phase s.closers) × (phase i ≡ idle)
unfolding connection_thread
connection_thread-Reach e s i fuel buf d' now h =
    elim (and_then-ok (peer_receive e i fuel buf s.daemon) _ (some tt) d' h) [
      | inl (u, d₁, run, rest) ↦
          let (phase, reach, behind) =
            session-Arrives e s i s.closers fuel buf (some u) s.daemon d₁ s.phase done now run in
          elim (and_then-ok (mark_dead i d₁) _ (some tt) d' rest) [
            | inl (u', d₂, dead, last) ↦ (
              at phase i idle,
              then_step (then_step reach (leaves i d₂ behind dead))
                  (closes i [] s.closers d' refl last),
              at_self phase i idle,
            )
            | inr (stopped, no_value) ↦ absurd (has_value (some tt) refl no_value)
          ]
      | inr (stopped, no_value) ↦ absurd (has_value (some tt) refl no_value)
    ]
  where
    has_value : (v : Option (Unit {0})) → v ≡ some tt → v ≡ none → ⊥
    has_value v k l = cc
