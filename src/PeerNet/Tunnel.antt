-- ===== src/PeerNet/Tunnel.antt =====
-- A packet on its way from the device of one daemon to the device of another: `local_packet` of
-- PeerNet/Device on one side, `receive_frame` and `process_frame` of src/peer_net.c on the other,
-- and on a daemon between the two.
pub mod Entering
pub mod Opening
pub mod Leaving
pub mod Links
pub mod Carrying
pub mod Relaying
mod Tests
use vpnd.Base.{ℕ, ◌≡◌, true, some, List, [], ◌∷◌, ◌++◌, Option, Outcome, ok, get_elem?}
use vpnd.Encryption.Agreement.{Agree}
use vpnd.Peer.{Peer}
use vpnd.Daemon.{Env, Daemon}

-- What the code put on descriptor `s`, in a run that returned `a`.
abbrev pub Puts : {A : Type 0} → A → ℕ → List ℕ → Daemon → Outcome (Option A × Daemon) → Type 0
Puts a s bytes d r =
    (d' : Daemon) × (r ≡ ok (some a, d')) × (d'.net.outgoing s ≡ d.net.outgoing s ++ bytes)

-- The peer has finished its handshake and stands on descriptor `s`.
pub record Ready (p : Peer) (s : ℕ) : Type 0 where
  pub alive : p.alive ≡ true
  pub authenticated : p.authenticated ≡ true
  pub socket : p.s ≡ some s

-- A connection: `p` is the far end as the near daemon sees it, `q` the near end as the far daemon
-- sees it. The context of the near end for encryption and the one of the far end for decryption are
-- live and agree on the text, and nothing was sent before.
pub record Link (e f : Env) (near far : Daemon) (p q : Peer) (s t : ℕ) (text : List ℕ)
    : Type 0 where
  pub sealing : ℕ
  pub sealing_state : ℕ
  pub opening : ℕ
  pub opening_state : ℕ
  pub order : e.little ≡ f.little
  pub near_ready : Ready p s
  pub far_ready : Ready q t
  pub sealing_ctx : p.enc_ctx ≡ some sealing
  pub sealing_live : get_elem? near.ctxs sealing ≡ some (some sealing_state)
  pub opening_ctx : q.dec_ctx ≡ some opening
  pub opening_live : get_elem? far.ctxs opening ≡ some (some opening_state)
  pub agree : Agree e.evp f.evp sealing_state opening_state text
  pub fresh : near.net.outgoing s ≡ []
