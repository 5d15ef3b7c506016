-- ===== src/PeerNet/Handshake/Keeps.antt =====
-- What the parts of the handshake of src/peer_net.c leave alone.
use vpnd.Base.{
  ℕ, ◌+◌, inl, inr, Bool-cases, Ended, Bool, true, false, not, ◌||◌, Option, none, some, List, ltb,
  leb, ◌==◌, length, Outcome, ok, fault, stuck,
}
use vpnd.Protocol.{hdr_auth, frame_header_size}
use vpnd.Socket.{put_at}
use vpnd.Rsa.{rsa_encrypt, rsa_decrypt}
use vpnd.Daemon.{Env, daemon, on_option}
use vpnd.Daemon.Stays.{Kept-refl, Keeps, by, Keeps-pure, Keeps-give_up, Keeps-bind, Keeps-peer_at}
use vpnd.PeerNet.Wire.Keeps.{send_data_to_peer-Keeps, receive_frame-Keeps}
use vpnd.PeerNet.Process.Reading.{readable-Keeps}
use vpnd.PeerNet.Handshake.{
  guard, on_outcome, key_object, pem_text, send_pubkey, receive_auth, receive_secret,
  receive_secrets, send_secret, send_secrets, aes_key_size, aes_iv_size,
}

pub guard-Keeps : (b : Bool) → Keeps (guard b)
guard-Keeps true = Keeps-pure tt
guard-Keeps false = Keeps-give_up

pub on_option-Keeps : {A : Type 0} (o : Option A) → Keeps (on_option o)
on_option-Keeps none = Keeps-give_up
on_option-Keeps (some a) = Keeps-pure a

on_outcome-Keeps : {A : Type 0} (o : Outcome A) → Ended o → Keeps (on_outcome o)
on_outcome-Keeps (ok a) h = by Kept-refl
on_outcome-Keeps fault h = by λ d. tt
on_outcome-Keeps stuck h = absurd h

put_at-Ended : (buf bytes : List ℕ) (i : ℕ) → Ended (put_at buf i bytes)
unfolding put_at
put_at-Ended buf bytes i = elim (Bool-cases (leb (i + length bytes) (length buf))) [
  | inl fits ↦ rw fits tt
  | inr outside ↦ rw outside tt
]

key_object-Keeps : (o : Option ℕ) → Keeps (key_object o)
key_object-Keeps none = by λ d. tt
key_object-Keeps (some k) = by Kept-refl

pub daemon-Keeps : Keeps daemon
daemon-Keeps = by Kept-refl

pub send_pubkey-Keeps : (e : Env) (i : ℕ) → Keeps (send_pubkey e i)
unfolding send_pubkey
send_pubkey-Keeps e i = Keeps-bind daemon-Keeps λ d.
    Keeps-bind (guard-Keeps (e.memory d.net.calls)) λ _.
      send_data_to_peer-Keeps e hdr_auth (pem_text e d.daemon_pubkey)
        (length (pem_text e d.daemon_pubkey)) false i

pub receive_auth-Keeps : (e : Env) (i : ℕ) (buf : List ℕ) → Keeps (receive_auth e i buf)
unfolding receive_auth
receive_auth-Keeps e i buf = Keeps-bind (receive_frame-Keeps e i buf) λ f.
    Keeps-bind (guard-Keeps (not (not (f.header_type == hdr_auth) || f.data_len == 0)))
      λ _. Keeps-pure f

receive_secret-Keeps : (e : Env) (i n : ℕ) (buf : List ℕ) → Keeps (receive_secret e i n buf)
unfolding receive_secret
receive_secret-Keeps e i n buf = Keeps-bind daemon-Keeps λ d.
    Keeps-bind (key_object-Keeps d.daemon_privkey) λ privkey.
      Keeps-bind (receive_auth-Keeps e i buf) λ f.
        Keeps-bind (guard-Keeps (not (ltb (e.rsa.size privkey) f.data_len))) λ _.
          Keeps-bind (readable-Keeps f.buf frame_header_size f.data_len) λ bytes.
            Keeps-bind (on_option-Keeps (rsa_decrypt e.rsa bytes (some privkey))) λ secret.
              Keeps-bind (guard-Keeps (length secret == n)) λ _. Keeps-pure (secret, f.buf)

pub receive_secrets-Keeps : (e : Env) (i : ℕ) (buf : List ℕ) → Keeps (receive_secrets e i buf)
unfolding receive_secrets
receive_secrets-Keeps e i buf =
    Keeps-bind (receive_secret-Keeps e i aes_key_size buf)
      λ key. Keeps-bind (receive_secret-Keeps e i aes_iv_size key.1) λ iv. Keeps-pure (key.0, iv.0)

send_secret-Keeps : (e : Env) (i : ℕ) (secret buf : List ℕ) → Keeps (send_secret e i secret buf)
unfolding send_secret
send_secret-Keeps e i secret buf = Keeps-bind daemon-Keeps λ d. Keeps-bind (Keeps-peer_at i) λ peer.
    Keeps-bind (on_option-Keeps (rsa_encrypt e.rsa d.net.calls secret peer.pubkey)) λ enc.
      Keeps-bind (guard-Keeps (not (length enc == 0))) λ _.
        Keeps-bind (on_outcome-Keeps (put_at buf 0 enc) (put_at-Ended buf enc 0)) λ buf'.
          Keeps-bind (send_data_to_peer-Keeps e hdr_auth buf' (length enc) false i)
            λ _. Keeps-pure buf'

pub send_secrets-Keeps : (e : Env) (i : ℕ) (buf : List ℕ) → Keeps (send_secrets e i buf)
unfolding send_secrets
send_secrets-Keeps e i buf = Keeps-bind daemon-Keeps λ d.
    Keeps-bind (on_option-Keeps (e.rand d.net.calls aes_key_size)) λ key.
      Keeps-bind (on_option-Keeps (e.rand (d.net.calls + 1) aes_iv_size)) λ iv.
        Keeps-bind (send_secret-Keeps e i key buf)
          λ buf₁. Keeps-bind (send_secret-Keeps e i iv buf₁) λ buf₂. Keeps-pure (key, iv)
