-- ===== src/PeerNet/Handshake/Finishes.antt =====
-- The end of a connection's thread: `authenticate_peer` and `peer_receive` of src/peer_net.c.
use vpnd.Base.{
  ℕ, zero, suc, ◌+◌, ◌≤◌, ◌<◌, ◌≡◌, refl, inl, inr, Option, none, some, List, get_elem?, Outcome,
  ok, fault, stuck, Ended, arith, Option-cases, Bool-cases, subst, ◌≢◌,
}
use vpnd.Protocol.{frame_header_size}
use vpnd.Socket.{Net}
use vpnd.Socket.Endings.{left_on}
use vpnd.Peer.{Peer}
use vpnd.Daemon.{Env, Daemon, no_result, attempt, ◌>>=◌, peer_at}
use vpnd.Daemon.Stays.{Holds, Holds-map, Runs, Post, Post-bind}
use vpnd.PeerNet.Wire.{Frame, framed, receive_on, receive_frame}
use vpnd.PeerNet.Wire.Endings.{Consumed, receive_on-Consumed}
use vpnd.PeerNet.Endings.{left, Flows, Flows-trans, Flows-of_Kept, Flows-set, process_frame-Flows}
use vpnd.PeerNet.Handshake.{authenticate_peer, receive_frames, peer_receive}
use vpnd.PeerNet.Handshake.Through.{authenticate_peer-Runs}

authenticate_peer-Flows : (e : Env) (i : ℕ) (buf : List ℕ) → Runs Flows (authenticate_peer e i buf)
authenticate_peer-Flows e i =
    authenticate_peer-Runs e i Flows-trans Flows-of_Kept
      (λ d p q found same. Flows-set d i p q found same.s)
      (λ d c. record { flows = λ j. omega arith })

framed-drops :
    (i n : ℕ) (p : Peer) (d : Daemon) (r : Outcome (Option Frame × Net))
    → get_elem? d.peers i ≡ some p
    → left_on p.s d.net ≡ n
    → Consumed p.s d.net r
    → Post (λ f d'. left i d' + frame_header_size ≤ n) (λ d'. Unit {0}) (framed d r)
framed-drops i n p d (ok (none, w)) found size h = tt
framed-drops i n p d (ok (some f, w)) found size h = rw found (omega (arith, h.1))
framed-drops i n p d fault found size h = tt
framed-drops i n p d stuck found size h = h

receive_frame-drops :
    (e : Env) (i : ℕ) (buf : List ℕ) (d : Daemon)
    → Post
        (λ f d'. left i d' + frame_header_size ≤ left i d)
        (λ d'. Unit {0})
        (receive_frame e i buf d)
unfolding receive_frame peer_at
receive_frame-drops e i buf d = elim (Option-cases (get_elem? d.peers i)) [
  | inl missing ↦ rw (missing, Post) tt
  | inr (p, found) ↦
      rw (found, Post)
        (framed-drops i (left i d) p d (receive_on e p.s buf d.net) found (rw found refl)
          (receive_on-Consumed e p.s buf d.net))
]

Post-of_Holds :
    {A : Type 0} (P : Daemon → Type 0) (r : Outcome (Option A × Daemon))
    → Holds P r
    → Post (λ a. P) (λ d. Unit {0}) r
Post-of_Holds P (ok (some a, d)) h = h
Post-of_Holds P (ok (none, d)) h = tt
Post-of_Holds P fault h = h
Post-of_Holds P stuck h = h

Post-Ended :
    {A : Type 0} (r : Outcome (Option A × Daemon))
    → Post (λ a d. Unit {0}) (λ d. Unit {0}) r
    → Ended (no_result r)
Post-Ended (ok (some a, d)) h = tt
Post-Ended (ok (none, d)) h = tt
Post-Ended fault h = tt
Post-Ended stuck h = h

Ended-Post :
    (r : Outcome (Option (Unit {0}) × Daemon)) → Ended r → Post (λ a d. Unit {0}) (λ d. Unit {0}) r
Ended-Post (ok (some a, d)) h = tt
Ended-Post (ok (none, d)) h = tt
Ended-Post fault h = tt
Ended-Post stuck h = h

pub receive_frames-Ended :
    (e : Env) (i fuel : ℕ) (buf : List ℕ) (d : Daemon)
    → left i d < fuel
    → Ended (receive_frames e i fuel buf d)
unfolding receive_frames
receive_frames-Ended e i zero buf d h = absurd (omega arith)
receive_frames-Ended e i (suc fuel) buf d h = Post-Ended _ (
    Post-bind (λ f d'. left i d' + frame_header_size ≤ left i d) (λ a d'. Unit {0}) (λ d'. Unit {0})
      _ _ (receive_frame-drops e i buf d)
      λ f d₁ less.
        Post-bind (λ a d'. left i d' ≤ left i d₁) (λ a d'. Unit {0}) (λ d'. Unit {0}) _ _
          (Post-of_Holds (λ d'. left i d' ≤ left i d₁) _
            (Holds-map (Flows d₁) (λ d'. left i d' ≤ left i d₁) _ (λ d' fl. fl.flows i)
              ((process_frame-Flows e i f.buf f.header_type f.data_len).keeps d₁)))
          λ a d₂ le. Ended-Post _ (receive_frames-Ended e i fuel f.buf d₂ (omega arith)))

session-Ended :
    (e : Env) (i fuel : ℕ) (buf : List ℕ) (d : Daemon)
    → left i d < fuel
    → Ended (attempt (authenticate_peer e i buf >>= λ _. receive_frames e i fuel buf) d)
session-Ended e i fuel buf d h = Post-Ended _ (
    Post-bind (λ a d'. left i d' ≤ left i d) (λ a d'. Unit {0}) (λ d'. Unit {0}) _ _
      (Post-of_Holds (λ d'. left i d' ≤ left i d) _
        (Holds-map (Flows d) (λ d'. left i d' ≤ left i d) _ (λ d' fl. fl.flows i)
          ((authenticate_peer-Flows e i buf).keeps d)))
      λ a d₁ le. Ended-Post _ (receive_frames-Ended e i fuel buf d₁ (omega arith)))

-- The thread of a connection ends: with fuel for one turn more than the bytes that the peer's stream
-- has yet to deliver, `peer_receive` never runs out of fuel, whatever these bytes are and whatever
-- the kernel, the memory and OpenSSL answer. So the handshake and the receive loop end with the
-- stream at the latest.
pub peer_receive-Ended :
    (e : Env) (i fuel : ℕ) (buf : List ℕ) (d : Daemon)
    → left i d < fuel
    → peer_receive e i fuel buf d ≢ stuck
unfolding peer_receive
peer_receive-Ended e i fuel buf d h = elim (Bool-cases (e.memory d.net.calls)) [
  | inl given ↦ rw given (λ out. subst Ended out (session-Ended e i fuel buf d h))
  | inr refused ↦ rw refused (λ out. subst Ended out tt)
]
