-- ===== src/PeerNet/System/Invariant.antt =====
-- The states that the threads of src/peer.c and src/peer_net.c can reach.
use vpnd.Base.{
  ℕ, ◌≡◌, ◌≢◌, refl, ◌∙◌, sym, true, false, Option, none, some, List, [], get_elem?, ok, subst, ap,
  arith,
}
use vpnd.Peer.{Peer}
use vpnd.Daemon.{Env, Daemon}
use vpnd.Daemon.Stays.{Runs-bind, Runs-weaken, Runs-of_return, Post}
use vpnd.PeerNet.Wire.Keeps.{receive_frame-Keeps}
use vpnd.PeerNet.Handshake.{authenticate_peer}
use vpnd.PeerNet.Handshake.Trusted.{Authentic, Unproven, authenticate_peer-Authentic}
use vpnd.PeerNet.Device.Local.{local_packet-Tidy}
use vpnd.PeerNet.System.{
  Phase, idle, shaking, streaming, leaving, System, at, one_frame, Step, accepts, refuses,
  has_no_buffer, authenticates, is_rejected, takes_frame, takes_last_frame, is_on_the_way, call,
  leaves, closes, takes_packet, interrupts, makes_call, Reach, done, then_step,
}
use vpnd.PeerNet.System.Slotwise.{
  Slotwise, SameMember, SameMember-trans, SameMember-of_Kept, authenticate_peer-Shaken,
  process_frame-SameMember, call-SameMember,
}
use vpnd.PeerNet.System.Safety.{Member, At, Safe, Safe-phase, Safe-same}
use vpnd.PeerNet.System.Calls.{perform-Safe}
use vpnd.PeerNet.System.Interrupts.{interrupt-Safe}
use vpnd.PeerNet.System.Steps.{
  At-same, peer_connection-Safe, refused-Safe, Shaken-Safe, SameMember-Safe, mark_dead-Safe,
  close_socket-Safe,
}

one_frame-Safe :
    (e : Env) (i : ℕ) (buf : List ℕ) (o : Option (Unit {0})) (d d' : Daemon) (phase : ℕ → Phase)
    → one_frame e i buf d ≡ ok (o, d')
    → Safe e d phase
    → Safe e d' phase
one_frame-Safe e i buf o d d' phase h s =
    let slots : Slotwise SameMember d d' =
      Runs-of_return (one_frame e i buf) o d d'
        (Runs-bind SameMember-trans (Runs-weaken SameMember-of_Kept (receive_frame-Keeps e i buf))
          (λ f. process_frame-SameMember e i f.buf f.header_type f.data_len))
        h in
    SameMember-Safe e d d' phase slots s

-- The thread of slot `i` goes behind its loop.
goes_on :
    (e : Env) (d : Daemon) (phase : ℕ → Phase) (i : ℕ) (x y : Phase)
    → phase i ≡ x
    → x ≢ idle
    → y ≢ shaking
    → Safe e d phase
    → Safe e d (at phase i y)
goes_on e d phase i x y now busy ready s =
    Safe-phase e d phase i y (λ p h. absurd (ready h)) (λ h. s.running i (λ t. busy (sym now ∙ t)))
      s

idle≢shaking : idle ≢ shaking
idle≢shaking h = cc

shaking≢idle : shaking ≢ idle
shaking≢idle h = cc

streaming≢idle : streaming ≢ idle
streaming≢idle h = cc

streaming≢shaking : streaming ≢ shaking
streaming≢shaking h = cc

leaving≢shaking : leaving ≢ shaking
leaving≢shaking h = cc

at_self : (phase : ℕ → Phase) (i : ℕ) (x : Phase) → at phase i x i ≡ x
at_self phase i x = ground arith

System-Unproven :
    (e : Env) (s : System) (i : ℕ)
    → s.phase i ≡ shaking
    → Safe e s.daemon s.phase
    → Unproven i s.daemon.trusted_keys s.daemon
System-Unproven e s i h safe =
    let (p, found, up) = safe.running i (λ t. shaking≢idle (sym h ∙ t)) in
    (p, record { found = found; keys = refl }, safe.unproven i p h found)

handshake-Safe :
    (e : Env) (s : System) (i : ℕ) (buf : List ℕ) (o : Option (Unit {0})) (d : Daemon) (x : Phase)
    → s.phase i ≡ shaking
    → authenticate_peer e i buf s.daemon ≡ ok (o, d)
    → x ≢ shaking
    → ((q : Peer) → At d i q → q.authenticated ≡ true → Member e d.trusted_keys q)
    → Safe e s.daemon s.phase
    → Safe e d (at s.phase i x)
handshake-Safe e s i buf o d x h run ready member safe =
    Shaken-Safe e i s.daemon d (at s.phase i x)
      (Runs-of_return (authenticate_peer e i buf) o s.daemon d (authenticate_peer-Shaken e i buf)
        run)
      (λ t. ready (sym (at_self s.phase i x) ∙ t)) member
      (goes_on e s.daemon s.phase i shaking x h shaking≢idle ready safe)

pub Step-Safe :
    (e : Env) (s s' : System) → Step e s s' → Safe e s.daemon s.phase → Safe e s'.daemon s'.phase
Step-Safe e s s' (accepts malloc strdup c i d h) safe =
    peer_connection-Safe e malloc strdup c i s.daemon d s.phase h safe
Step-Safe e s s' (refuses malloc strdup c d h) safe =
    refused-Safe e malloc strdup c s.daemon d s.phase h safe
Step-Safe e s s' (has_no_buffer i h no_memory) safe =
    goes_on e s.daemon s.phase i shaking leaving h shaking≢idle leaving≢shaking safe
Step-Safe e s s' (authenticates i buf d h run) safe =
    let (p, slot, proven, key, enc, dec) : Authentic e i s.daemon.trusted_keys d =
      subst (Post (λ a. Authentic e i s.daemon.trusted_keys) (Unproven i s.daemon.trusted_keys)) run
        (authenticate_peer-Authentic e i buf s.daemon (System-Unproven e s i h safe)) in
    handshake-Safe e s i buf (some tt) d streaming h run streaming≢shaking
      (λ q found yes. subst (Member e d.trusted_keys) (At-same d i p q slot.found found) (
        subst (λ (t : List ℕ). Member e t p) (sym slot.keys)
          (record { key = key; enc = enc; dec = dec })))
      safe
Step-Safe e s s' (is_rejected i buf d h run) safe =
    let (p, slot, not_proven) : Unproven i s.daemon.trusted_keys d =
      subst (Post (λ a. Authentic e i s.daemon.trusted_keys) (Unproven i s.daemon.trusted_keys)) run
        (authenticate_peer-Authentic e i buf s.daemon (System-Unproven e s i h safe)) in
    handshake-Safe e s i buf none d leaving h run leaving≢shaking
      (λ q found yes.
        let same : p ≡ q = At-same d i p q slot.found found in
        let clash : true ≡ false =
          sym yes ∙ (ap (λ (t : Peer). t.authenticated) (sym same) ∙ not_proven) in
        cc)
      safe
Step-Safe e s s' (takes_frame i buf d h run) safe =
    one_frame-Safe e i buf (some tt) s.daemon d s.phase run safe
Step-Safe e s s' (takes_last_frame i buf d h run) safe =
    goes_on e d s.phase i streaming leaving h streaming≢idle leaving≢shaking
      (one_frame-Safe e i buf none s.daemon d s.phase run safe)
Step-Safe e s s' (is_on_the_way i c o d h run) safe =
    SameMember-Safe e s.daemon d s.phase
      (Runs-of_return (call e i c) o s.daemon d (call-SameMember e i c) run) safe
Step-Safe e s s' (leaves i d h run) safe =
    mark_dead-Safe e i s.daemon d (at s.phase i idle) run (at_self s.phase i idle) (
      Safe-phase e s.daemon s.phase i idle (λ p t. absurd (idle≢shaking t)) (λ t. absurd (t refl))
        safe)
Step-Safe e s s' (closes i before after d h run) safe =
    close_socket-Safe e i s.daemon d s.phase run safe
Step-Safe e s s' (interrupts d run) safe = interrupt-Safe e s.daemon d s.phase run safe
Step-Safe e s s' (makes_call c o d run) safe = perform-Safe e c o s.daemon d s.phase run safe
Step-Safe e s s' (takes_packet buf n route o d run) safe =
    let t = Runs-of_return _ o s.daemon d (local_packet-Tidy e buf n route) run in
    Safe-same e s.daemon d s.phase t.peers t.trusted_keys (t.distinct safe.distinct) safe

-- The daemon before its first connection.
abbrev pub Starts : System → Type 0
Starts s = (s.daemon.peers ≡ []) × (s.daemon.local_routes ≡ []) × ((i : ℕ) → s.phase i ≡ idle)

Starts-Safe : (e : Env) (s : System) → Starts s → Safe e s.daemon s.phase
Starts-Safe e s (no_peers, no_routes, no_threads) = record {
  members = λ i p found. absurd (nowhere i p found);
  distinct = rw no_routes tt;
  unproven = λ i p h found. absurd (nowhere i p found);
  running = λ i h. absurd (h (no_threads i));
}
  where
    nowhere : (i : ℕ) (p : Peer) → At s.daemon i p → ⊥
    nowhere i p found =
        let gone : get_elem? [] i ≡ some p =
          ap (λ (ps : List Peer). get_elem? ps i) (sym no_peers) ∙ found in
        cc

-- Whatever the order of the steps of the threads, where the calls on the way of a frame, of a packet of
-- the device and of the interrupt may alternate with those of other threads, and whatever the peers, the kernel, the memory and OpenSSL answer: in
-- every state that is reached from a daemon without peers, every authenticated peer has given a trusted
-- key and has both cipher contexts, the local routes are free of repetitions, no peer is authenticated
-- before its handshake, and the slot of every running thread is in use.
pub Reach-Safe : (e : Env) (a b : System) → Starts a → Reach e a b → Safe e b.daemon b.phase
Reach-Safe e a b start done = Starts-Safe e a start
Reach-Safe e a b start (then_step {b = m} before step) =
    Step-Safe e m b step (Reach-Safe e a m start before)
