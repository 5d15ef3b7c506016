-- ===== src/PeerNet/Tunnel/Links.antt =====
-- A frame that goes over a connection between two daemons.
use vpnd.Base.{
  Bool, ==-refl, ℕ, ◌+◌, ◌≤◌, ◌≡◌, refl, ap, ◌∙◌, Option, some, List, ◌++◌, length, take,
  length-take, get_elem?, set, ok, arith, if◌then◌else◌, ◌==◌,
}
use vpnd.Protocol.{frame_payload_maxsize, frame_maxsize}
use vpnd.Socket.{Net}
use vpnd.Socket.Receiving.{Delivers}
use vpnd.Encryption.{CtxStore, aes_encrypt, aes_decrypt}
use vpnd.Encryption.Agreement.{aes_encrypt-ciphertext, aes_decrypt-ciphertext}
use vpnd.Peer.{Peer}
use vpnd.Daemon.{Env, Daemon, no_result}
use vpnd.PeerNet.Process.{route_packet}
use vpnd.PeerNet.System.{one_frame}
use vpnd.PeerNet.Tunnel.{Link}
use vpnd.PeerNet.Tunnel.Entering.{sealed}
use vpnd.PeerNet.Tunnel.Opening.{in_front, one_frame-opens}

-- The daemon after the bytes have come in on descriptor `t`.
abbrev pub incoming : ℕ → List ℕ → Daemon → Daemon
incoming t bytes d = record d {
  net = record d.net { incoming = λ s. if s == t then bytes else d.net.incoming s };
}

-- A packet of at most 2032 bytes leaves room for the padding.
pub take-fits :
    (n : ℕ) (buf : List ℕ)
    → n + 16 ≤ frame_payload_maxsize
    → length (take n buf) + 16 ≤ frame_payload_maxsize
take-fits n buf small = omega (arith, length-take n buf, small)

module _ (e f : Env) (near far : Daemon) (p q : Peer) (s t : ℕ) (text : List ℕ)
    (link : Link e f near far p q s t text) (fits : length text + 16 ≤ frame_payload_maxsize) where
  abbrev pub cipher : List ℕ
  cipher = link.agree.blocks ++ link.agree.padding

  pub seals :
      (ctxs : CtxStore) × (aes_encrypt e.evp near.ctxs p.enc_ctx text frame_payload_maxsize
        ≡ ok (some cipher, ctxs))
  seals =
      let (ctxs, encrypts) =
        aes_encrypt-ciphertext e.evp f.evp near.ctxs far.ctxs link.sealing link.opening
          link.sealing_state link.opening_state text link.sealing_live link.opening_live link.agree
          fits in
      (
        ctxs,
        ap (λ (o : Option ℕ). aes_encrypt e.evp near.ctxs o text frame_payload_maxsize)
              link.sealing_ctx
            ∙ encrypts,
      )

  opens :
      (state : ℕ) × (aes_decrypt f.evp far.ctxs q.dec_ctx cipher 2064
        ≡ ok (some text, set far.ctxs link.opening (some state)))
  opens =
      let (state, decrypts) =
        aes_decrypt-ciphertext e.evp f.evp near.ctxs far.ctxs link.sealing link.opening
          link.sealing_state link.opening_state text link.sealing_live link.opening_live link.agree
          fits in
      (
        state,
        ap (λ (o : Option ℕ). aes_decrypt f.evp far.ctxs o cipher 2064) link.opening_ctx ∙ decrypts,
      )

  -- The far end takes the frame that the near end has put on the connection.
  pub received :
      (i : ℕ) (room bytes : List ℕ)
      → Delivers f.kernel
      → get_elem? far.peers i ≡ some q
      → length room ≡ frame_maxsize
      → bytes ≡ near.net.outgoing s ++ sealed e cipher
      → (w : Net) × (state : ℕ) × (one_frame f i room (incoming t bytes far)
          ≡ no_result (
              route_packet f i
                (in_front f text)
                (length text)
                (record far { net = w; ctxs = set far.ctxs link.opening (some state) })))
        × (w.outgoing ≡ far.net.outgoing)
  received i room bytes live found size put =
      let (state, decrypts) = opens in
      let carried : (incoming t bytes far).net.incoming t ≡ sealed f cipher =
        ap (λ (b : Bool). if b then bytes else far.net.incoming t) (==-refl t)
        ∙ put
        ∙ rw (link.fresh, link.order) refl in
      let (w, ran, out) =
        one_frame-opens f i q text cipher (set far.ctxs link.opening (some state))
          (incoming t bytes far) t room live found link.far_ready size link.agree.filled
          (omega (arith, link.agree.size, fits)) carried decrypts in
      (w, state, ran, out)
