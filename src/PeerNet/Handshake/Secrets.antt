-- ===== src/PeerNet/Handshake/Secrets.antt =====
-- The two secrets of a handshake, from `send_secrets` of the server to `receive_secrets` of the client:
-- `authenticate_peer` of src/peer_net.c on both ends.
use vpnd.Base.{
  ℕ, ◌+◌, ◌≤◌, ◌≡◌, refl, sym, ap, ◌∙◌, Bool, true, false, Option, some, List, [], ◌∷◌, ◌++◌, ◌==◌,
  length, get_elem?, ok, arith, ok-injective, ltb-false,
}
use mathlib.Core.List.{append_assoc}
use vpnd.Protocol.{hdr_auth, frame_maxsize, frame_payload_maxsize}
use vpnd.Socket.Sending.{Accepts}
use vpnd.Socket.Receiving.{Delivers}
use vpnd.Rsa.{rsa_encrypt}
use vpnd.Peer.{Peer}
use vpnd.Daemon.{Env, Daemon}
use vpnd.PeerNet.Wire.Delivery.{frame_bytes}
use vpnd.PeerNet.Handshake.{aes_key_size, aes_iv_size, send_secrets, receive_secrets}
use vpnd.PeerNet.Handshake.Agreement.{send_secret-wire, receive_secret-reads}

-- What OpenSSL promises for a public key `k` in the one process and its private key `sk` in the other:
-- short messages can be encrypted, a ciphertext has the size of the key, and decrypting it gives the
-- message.
pub record KeyPair (e f : Env) (k sk : ℕ) : Type 0 where
  pub inverts :
      (seed : ℕ) (m : List ℕ)
      → length m ≤ aes_key_size
      → (enc : List ℕ) × (rsa_encrypt e.rsa seed m (some k) ≡ some enc)
        × (length enc ≡ f.rsa.size sk)
        × (f.rsa.private_decrypt sk enc ≡ some m)
  pub not_empty : (f.rsa.size sk == 0) ≡ false
  pub fits : f.rsa.size sk ≤ frame_payload_maxsize

pub append_cancel : (xs ys zs : List ℕ) → xs ++ ys ≡ xs ++ zs → ys ≡ zs
append_cancel [] ys zs h = h
append_cancel (x ∷ xs) ys zs h = append_cancel xs ys zs (tail h)
  where
    tail : x ∷ (xs ++ ys) ≡ x ∷ (xs ++ zs) → xs ++ ys ≡ xs ++ zs
    tail e = cc

module _ (e f : Env) (i s k sk : ℕ) (pair : KeyPair e f k sk) (key iv buf : List ℕ) (d : Daemon)
    (p : Peer) (accepts : Accepts e.kernel) (found : get_elem? d.peers i ≡ some p)
    (alive : p.alive ≡ true) (socket : p.s ≡ some s) (pubkey : p.pubkey ≡ some k)
    (key_drawn : e.rand d.net.calls aes_key_size ≡ some key)
    (iv_drawn : e.rand (d.net.calls + 1) aes_iv_size ≡ some iv)
    (key_size : length key ≡ aes_key_size) (iv_size : length iv ≡ aes_iv_size)
    (room : length buf ≡ frame_maxsize) where
  -- Two ciphertexts go out, one after the other.
  send_secrets-wire :
      (enc₁ enc₂ : List ℕ) × (d' : Daemon) × (send_secrets e i buf d ≡ ok (some (key, iv), d'))
      × (d'.net.outgoing s
          ≡ d.net.outgoing s
            ++ (frame_bytes e.little hdr_auth (length enc₁) enc₁
                ++ frame_bytes e.little hdr_auth (length enc₂) enc₂))
      × (length enc₁ ≡ f.rsa.size sk)
      × (f.rsa.private_decrypt sk enc₁ ≡ some key)
      × (length enc₂ ≡ f.rsa.size sk)
      × (f.rsa.private_decrypt sk enc₂ ≡ some iv)
  unfolding send_secrets
  send_secrets-wire =
      let (enc₁, encrypted₁, size₁, opens₁) =
        pair.inverts d.net.calls key (omega (arith, key_size)) in
      let (buf₁, w₁, sent₁, room₁, wire₁) =
        send_secret-wire e i s d p accepts found alive socket k key buf enc₁ pubkey encrypted₁
          (ap (λ (n : ℕ). n == 0) size₁ ∙ pair.not_empty) (omega (arith, size₁, room, pair.fits)) in
      let (enc₂, encrypted₂, size₂, opens₂) = pair.inverts w₁.calls iv (omega (arith, iv_size)) in
      let (buf₂, w₂, sent₂, room₂, wire₂) =
        send_secret-wire e i s (record d { net = w₁ }) p accepts found alive socket k iv buf₁ enc₂
          pubkey encrypted₂ (ap (λ (n : ℕ). n == 0) size₂ ∙ pair.not_empty)
          (omega (arith, size₁, size₂, room₁)) in
      (
        enc₁,
        enc₂,
        record d { net = w₂ },
        rw (key_drawn, iv_drawn, sent₁, sent₂) refl,
        wire₂
            ∙ (ap (λ (b : List ℕ). b ++ frame_bytes e.little hdr_auth (length enc₂) enc₂) wire₁
                ∙ append_assoc (d.net.outgoing s) (frame_bytes e.little hdr_auth (length enc₁) enc₁)
                    (frame_bytes e.little hdr_auth (length enc₂) enc₂)),
        size₁,
        opens₁,
        size₂,
        opens₂,
      )

  -- Client and server of a handshake agree on the secrets: when the server, whose client has given the
  -- public key `k`, has sent a key and an IV of the sizes of AES-256, and the client has the private key
  -- of `k` and its stream carries next what was sent, then the client receives this key and this IV,
  -- and takes no more from the stream. The kernels may cut the stream anywhere, and refuse nothing;
  -- the machines have the same byte order.
  pub receive_secrets-send_secrets :
      (j t : ℕ) (sent rest buf' : List ℕ) (d' c : Daemon) (q : Peer)
      → send_secrets e i buf d ≡ ok (some (key, iv), d')
      → d'.net.outgoing s ≡ d.net.outgoing s ++ sent
      → Delivers f.kernel
      → e.little ≡ f.little
      → get_elem? c.peers j ≡ some q
      → q.s ≡ some t
      → c.daemon_privkey ≡ some sk
      → length buf' ≡ frame_maxsize
      → c.net.incoming t ≡ sent ++ rest
      → (c' : Daemon) × (receive_secrets f j buf' c ≡ ok (some (key, iv), c'))
        × (c'.net.incoming t ≡ rest)
  unfolding receive_secrets
  receive_secrets-send_secrets j t sent rest buf' d' c q sends out live order found' socket' private
        size' stream =
      let (enc₁, enc₂, d₂, sends₂, wire, size₁, opens₁, size₂, opens₂) = send_secrets-wire in
      let same : d₂.net.outgoing s ≡ d'.net.outgoing s =
        ap (λ (x : Option (List ℕ × List ℕ) × Daemon). x.1.net.outgoing s)
          (ok-injective (sym sends₂ ∙ sends)) in
      let F : List ℕ → List ℕ = λ enc. frame_bytes f.little hdr_auth (length enc) enc in
      let both : sent ≡ F enc₁ ++ F enc₂ =
        append_cancel (d.net.outgoing s) sent (F enc₁ ++ F enc₂) (
          sym out
          ∙ (sym same
              ∙ (wire
                  ∙ ap
                      (λ (b : Bool).
                        d.net.outgoing s
                        ++ (frame_bytes b hdr_auth (length enc₁) enc₁
                            ++ frame_bytes b hdr_auth (length enc₂) enc₂))
                      order))) in
      let (buf₁, w₁, got₁, room₁, left₁) =
        receive_secret-reads f j t c q live found' socket' sk aes_key_size enc₁ key (F enc₂ ++ rest)
          buf' private (omega (arith, size₁, pair.fits))
          (ap (λ (n : ℕ). n == 0) size₁ ∙ pair.not_empty)
          (ltb-false (f.rsa.size sk) (length enc₁) (omega (arith, size₁))) opens₁
          (ground (arith, key_size)) size'
          (stream ∙ (ap (λ (b : List ℕ). b ++ rest) both ∙ append_assoc (F enc₁) (F enc₂) rest)) in
      let (buf₂, w₂, got₂, room₂, left₂) =
        receive_secret-reads f j t (record c { net = w₁ }) q live found' socket' sk aes_iv_size enc₂
          iv rest buf₁ private (omega (arith, size₂, pair.fits))
          (ap (λ (n : ℕ). n == 0) size₂ ∙ pair.not_empty)
          (ltb-false (f.rsa.size sk) (length enc₂) (omega (arith, size₂))) opens₂
          (ground (arith, iv_size)) room₁ left₁ in
      (record c { net = w₂ }, rw (got₁, got₂) refl, left₂)
