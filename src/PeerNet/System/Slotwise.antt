-- ===== src/PeerNet/System/Slotwise.antt =====
-- What a step does to the slots, one by one, for the handshake and the frames of src/peer_net.c.
use vpnd.Base.{
  true, ℕ, ◌≡◌, ◌≢◌, refl, sym, ◌∙◌, subst, inl, inr, Option, none, some, List, get_elem?, set,
  ◌==◌, Bool-cases, ==→eq, ==-false→neq, get_elem?-set_self, get_elem?-set_other, Option-cases,
}
use vpnd.Netroute.{Netroute}
use vpnd.Encryption.{CtxStore}
use vpnd.Peer.{Peer}
use vpnd.Daemon.{Env, Daemon, peer_at, set_peer}
use vpnd.Protocol.{hdr_netpacket}
use vpnd.Daemon.Stays.{Holds, Kept, Runs, by, Runs-weaken, Keeps-attempt}
use vpnd.PeerNet.Wire.Keeps.{
  receive_frame-Keeps, decrypt_into-Keeps, tuntap_write-Keeps, send_data_to_peer-Keeps,
  broadcast-Keeps,
}
use vpnd.PeerNet.System.{FrameCall, receives, decrypts, learns, writes, sends, floods, call}
use vpnd.PeerNet.Process.{learn_route, process_frame}
use vpnd.PeerNet.Process.Through.{deliver_packet-Runs, process_frame-Runs}
use vpnd.PeerNet.Handshake.{authenticate_peer}
use vpnd.PeerNet.Handshake.Through.{authenticate_peer-Runs}

-- The slot is there before and after, or neither.
abbrev pub Both : (Peer → Peer → Type 0) → Option Peer → Option Peer → Type 0
Both R none none = Unit {0}
Both R none (some q) = ⊥
Both R (some p) none = ⊥
Both R (some p) (some q) = R p q

pub record Slotwise (R : ℕ → Peer → Peer → Type 0) (a b : Daemon) : Type 0 where
  pub slots : (j : ℕ) → Both (R j) (get_elem? a.peers j) (get_elem? b.peers j)
  pub trusted_keys : b.trusted_keys ≡ a.trusted_keys
  pub local_routes : b.local_routes ≡ a.local_routes

module _ (R : ℕ → Peer → Peer → Type 0) (R_refl : (j : ℕ) (p : Peer) → R j p p)
    (R_trans : (j : ℕ) (p q r : Peer) → R j p q → R j q r → R j p r) where
  Both-refl : (j : ℕ) (o : Option Peer) → Both (R j) o o
  Both-refl j none = tt
  Both-refl j (some p) = R_refl j p

  Both-trans : (j : ℕ) (x y z : Option Peer) → Both (R j) x y → Both (R j) y z → Both (R j) x z
  Both-trans j none none none h k = tt
  Both-trans j none none (some z) h k = k
  Both-trans j none (some y) z h k = absurd h
  Both-trans j (some x) none z h k = absurd h
  Both-trans j (some x) (some y) none h k = k
  Both-trans j (some x) (some y) (some z) h k = R_trans j x y z h k

  pub Slotwise-trans : (a b c : Daemon) → Slotwise R a b → Slotwise R b c → Slotwise R a c
  Slotwise-trans a b c h k = record {
    slots = λ j.
        Both-trans j (get_elem? a.peers j) (get_elem? b.peers j) (get_elem? c.peers j) (h.slots j)
          (k.slots j);
    trusted_keys = k.trusted_keys ∙ h.trusted_keys;
    local_routes = k.local_routes ∙ h.local_routes;
  }

  pub Slotwise-of_Kept : (a b : Daemon) → Kept a b → Slotwise R a b
  Slotwise-of_Kept a b k = record {
    slots = λ j.
        subst (λ (ps : List Peer). Both (R j) (get_elem? a.peers j) (get_elem? ps j)) (sym k.peers)
          (Both-refl j (get_elem? a.peers j));
    trusted_keys = k.trusted_keys;
    local_routes = k.local_routes;
  }

  -- A write to slot `i`.
  pub Slotwise-set :
      (d : Daemon) (i : ℕ) (p q : Peer)
      → get_elem? d.peers i ≡ some p
      → R i p q
      → Slotwise R d (record d { peers = set d.peers i q })
  Slotwise-set d i p q found r = record { slots = slot; trusted_keys = refl; local_routes = refl }
    where
      written : Both (R i) (get_elem? d.peers i) (get_elem? (set d.peers i q) i)
      written = rw (found, get_elem?-set_self d.peers i q found) r

      slot : (j : ℕ) → Both (R j) (get_elem? d.peers j) (get_elem? (set d.peers i q) j)
      slot j = elim (Bool-cases (i == j)) [
        | inl same ↦
            subst (λ (t : ℕ). Both (R t) (get_elem? d.peers t) (get_elem? (set d.peers i q) t))
              (==→eq i j same) written
        | inr other ↦
            subst (Both (R j) (get_elem? d.peers j))
              (sym (get_elem?-set_other d.peers i j q (==-false→neq i j other)))
              (Both-refl j (get_elem? d.peers j))
      ]

-- What a handshake on slot `i` leaves.
pub record Shaken (i j : ℕ) (p q : Peer) : Type 0 where
  pub alive : q.alive ≡ p.alive
  pub routes : q.routes ≡ p.routes
  pub other : j ≢ i → q ≡ p

Shaken-trans : (i j : ℕ) (p q r : Peer) → Shaken i j p q → Shaken i j q r → Shaken i j p r
Shaken-trans i j p q r h k = record {
  alive = k.alive ∙ h.alive;
  routes = k.routes ∙ h.routes;
  other = λ far. k.other far ∙ h.other far;
}

Shaken-refl : (i j : ℕ) (p : Peer) → Shaken i j p p
Shaken-refl i j p = record { alive = refl; routes = refl; other = λ far. refl }

-- A handshake changes the slot of its peer only, and of that neither `alive` nor the routes.
pub authenticate_peer-Shaken :
    (e : Env) (i : ℕ) (buf : List ℕ) → Runs (Slotwise (Shaken i)) (authenticate_peer e i buf)
authenticate_peer-Shaken e i =
    authenticate_peer-Runs e i (Slotwise-trans (Shaken i) (Shaken-refl i) (Shaken-trans i))
      (Slotwise-of_Kept (Shaken i) (Shaken-refl i) (Shaken-trans i))
      (λ d p q found same.
        Slotwise-set (Shaken i) (Shaken-refl i) (Shaken-trans i) d i p q found
          (record { alive = same.alive; routes = same.routes; other = λ far. absurd (far refl) }))
      (λ d c. ctxs_only d c)
  where
    ctxs_only : (d : Daemon) (c : CtxStore) → Slotwise (Shaken i) d (record d { ctxs = c })
    ctxs_only d c = record {
      slots = λ j. Both-refl (Shaken i) (Shaken-refl i) (Shaken-trans i) j (get_elem? d.peers j);
      trusted_keys = refl;
      local_routes = refl;
    }

-- What a frame leaves of every slot.
pub record SameMember (j : ℕ) (p q : Peer) : Type 0 where
  pub alive : q.alive ≡ p.alive
  pub authenticated : q.authenticated ≡ p.authenticated
  pub pubkey : q.pubkey ≡ p.pubkey
  pub enc_ctx : q.enc_ctx ≡ p.enc_ctx
  pub dec_ctx : q.dec_ctx ≡ p.dec_ctx

member_refl : (j : ℕ) (p : Peer) → SameMember j p p
member_refl j p = record {
  alive = refl;
  authenticated = refl;
  pubkey = refl;
  enc_ctx = refl;
  dec_ctx = refl;
}

member_trans : (j : ℕ) (p q r : Peer) → SameMember j p q → SameMember j q r → SameMember j p r
member_trans j p q r h k = record {
  alive = k.alive ∙ h.alive;
  authenticated = k.authenticated ∙ h.authenticated;
  pubkey = k.pubkey ∙ h.pubkey;
  enc_ctx = k.enc_ctx ∙ h.enc_ctx;
  dec_ctx = k.dec_ctx ∙ h.dec_ctx;
}

pub SameMember-trans :
    (a b c : Daemon) → Slotwise SameMember a b → Slotwise SameMember b c → Slotwise SameMember a c
SameMember-trans = Slotwise-trans SameMember member_refl member_trans

pub SameMember-of_Kept : (a b : Daemon) → Kept a b → Slotwise SameMember a b
SameMember-of_Kept = Slotwise-of_Kept SameMember member_refl member_trans

learn_route-SameMember :
    (e : Env) (i : ℕ) (route : Netroute) → Runs (Slotwise SameMember) (learn_route e i route)
unfolding learn_route peer_at set_peer
learn_route-SameMember e i route = by λ d. elim (Option-cases (get_elem? d.peers i)) [
  | inl missing ↦ rw (missing, Holds) tt
  | inr (p, found) ↦
      rw (found, Holds)
        (Slotwise-set SameMember member_refl member_trans d i p _ found (record {
          alive = refl;
          authenticated = refl;
          pubkey = refl;
          enc_ctx = refl;
          dec_ctx = refl;
        }))
]

-- A frame changes no more of a peer than its routes.
pub process_frame-SameMember :
    (e : Env) (i : ℕ) (buf : List ℕ) (type len : ℕ)
    → Runs (Slotwise SameMember) (process_frame e i buf type len)
process_frame-SameMember e i =
    process_frame-Runs e i SameMember-trans SameMember-of_Kept
      (deliver_packet-Runs e SameMember-trans SameMember-of_Kept (learn_route-SameMember e) i)

-- The same for each call on the way of a frame.
pub call-SameMember : (e : Env) (i : ℕ) (c : FrameCall) → Runs (Slotwise SameMember) (call e i c)
unfolding call
call-SameMember e i (receives buf) =
    Runs-weaken SameMember-of_Kept (Keeps-attempt (receive_frame-Keeps e i buf))
call-SameMember e i (decrypts room ctx bytes) =
    Runs-weaken SameMember-of_Kept (Keeps-attempt (decrypt_into-Keeps e room ctx bytes))
call-SameMember e i (learns route) = learn_route-SameMember e i route
call-SameMember e i (writes packet len) =
    Runs-weaken SameMember-of_Kept (tuntap_write-Keeps e packet len)
call-SameMember e i (sends packet len target) =
    Runs-weaken SameMember-of_Kept (send_data_to_peer-Keeps e hdr_netpacket packet len true target)
call-SameMember e i (floods packet len) =
    Runs-weaken SameMember-of_Kept (broadcast-Keeps e hdr_netpacket packet len true (some i))
