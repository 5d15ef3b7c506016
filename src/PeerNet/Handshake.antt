-- ===== src/PeerNet/Handshake.antt =====
-- The handshake and the life of a connection: `authenticate_peer` and `peer_receive` of
-- src/peer_net.c. `give_up` is the return of false; the receive buffer is passed from step to step.
pub mod Keeps
pub mod Through
pub mod Finishes
pub mod Trusted
pub mod Agreement
pub mod Secrets
mod Tests
pub mod Oversized
use vpnd.Base.{
  ℕ, zero, suc, ◌+◌, Bool, true, false, not, ◌||◌, Option, none, some, List, [], ◌∷◌, if◌then◌else◌,
  ltb, ◌==◌, length, take, is_some, Outcome, ok, fault, stuck,
}
use vpnd.Protocol.{frame_header_size, frame_maxsize, hdr_auth}
use vpnd.Socket.{put_at}
use vpnd.Encryption.{aes_init_ctx}
use vpnd.Rsa.{load_rsa_key_from_string, rsa_encrypt, rsa_decrypt, is_trusted_key}
use vpnd.Peer.{Peer}
use vpnd.Daemon.{
  Env, Daemon, Code, pure, give_up, crash, attempt, ◌>>=◌, ◌>>◌, daemon, store, on_option, peer_at,
  set_peer,
}
use vpnd.PeerNet.Wire.{Frame, send_data_to_peer, receive_frame}
use vpnd.PeerNet.Process.{readable, process_frame}

abbrev pub aes_key_size : ℕ
aes_key_size = 32

abbrev pub aes_iv_size : ℕ
aes_iv_size = 16

abbrev guard : Bool → Code (Unit {0})
guard true = pure tt
guard false = give_up

abbrev on_outcome : {A : Type 0} → Outcome A → Code A
on_outcome (ok a) d = ok (some a, d)
on_outcome fault d = fault
on_outcome stuck d = stuck

-- A NULL key crashes `RSA_size`.
abbrev key_object : Option ℕ → Code ℕ
key_object none d = fault
key_object (some k) d = ok (some k, d)

-- What `PEM_write_bio_RSA_PUBKEY` leaves in the buffer: it fails for a NULL key, and writes nothing.
abbrev pem_text : Env → Option ℕ → List ℕ
pem_text e none = []
pem_text e (some key) = e.rsa.pem key

-- The own public key, sent in the clear.
unfoldable pub send_pubkey : Env → ℕ → Code (Unit {0})
send_pubkey e i = do
  d ← daemon
  guard (e.memory d.net.calls)
  let pem_key = pem_text e d.daemon_pubkey
  send_data_to_peer e hdr_auth pem_key (length pem_key) false i

-- An AUTH frame with a payload.
unfoldable pub receive_auth : Env → ℕ → List ℕ → Code Frame
receive_auth e i buf = do
  f ← receive_frame e i buf
  guard (not (not (f.header_type == hdr_auth) || f.data_len == 0))
  pure f

-- The peer's public key: it is kept whether or not it is trusted.
unfoldable pub receive_pubkey : Env → ℕ → List ℕ → Code (List ℕ)
receive_pubkey e i buf = do
  f ← receive_auth e i buf
  pem ← readable f.buf frame_header_size f.data_len
  d ← daemon
  let loaded = load_rsa_key_from_string e.rsa (e.memory d.net.calls) pem true
  peer ← peer_at i
  set_peer i (record peer { pubkey = loaded })
  pubkey ← on_option loaded
  guard (is_trusted_key e.rsa e.memory pubkey d.trusted_keys)
  pure f.buf

-- One secret of `n` bytes from the server.
unfoldable pub receive_secret : Env → ℕ → ℕ → List ℕ → Code (List ℕ × List ℕ)
receive_secret e i n buf = do
  d ← daemon
  privkey ← key_object d.daemon_privkey
  f ← receive_auth e i buf
  guard (not (ltb (e.rsa.size privkey) f.data_len))
  bytes ← readable f.buf frame_header_size f.data_len
  secret ← on_option (rsa_decrypt e.rsa bytes (some privkey))
  guard (length secret == n)
  pure (secret, f.buf)

unfoldable pub receive_secrets : Env → ℕ → List ℕ → Code (List ℕ × List ℕ)
receive_secrets e i buf = do
  key ← receive_secret e i aes_key_size buf
  iv ← receive_secret e i aes_iv_size key.1
  pure (key.0, iv.0)

-- One secret to the client, encrypted into the front of the buffer.
unfoldable pub send_secret : Env → ℕ → List ℕ → List ℕ → Code (List ℕ)
send_secret e i secret buf = do
  d ← daemon
  peer ← peer_at i
  enc ← on_option (rsa_encrypt e.rsa d.net.calls secret peer.pubkey)
  guard (not (length enc == 0))
  buf' ← on_outcome (put_at buf 0 enc)
  send_data_to_peer e hdr_auth buf' (length enc) false i
  pure buf'

unfoldable pub send_secrets : Env → ℕ → List ℕ → Code (List ℕ × List ℕ)
send_secrets e i buf = do
  d ← daemon
  key ← on_option (e.rand d.net.calls aes_key_size)
  iv ← on_option (e.rand (d.net.calls + 1) aes_iv_size)
  buf₁ ← send_secret e i key buf
  buf₂ ← send_secret e i iv buf₁
  pure (key, iv)

-- The two cipher contexts. The flag `authenticated` is set if both were made.
unfoldable pub start_ciphers : Env → ℕ → List ℕ × List ℕ → Code (Unit {0})
start_ciphers e i secrets = do
  d ← daemon
  let enc = aes_init_ctx e.evp d.ctxs secrets.0 secrets.1 true
  let dec = aes_init_ctx e.evp enc.1 secrets.0 secrets.1 false
  store (record d { ctxs = dec.1 })
  peer ← peer_at i
  set_peer i (record peer { enc_ctx = enc.0; dec_ctx = dec.0 })
  guard (is_some enc.0)
  guard (is_some dec.0)
  peer' ← peer_at i
  set_peer i (record peer' { authenticated = true })

unfoldable pub authenticate_peer : Env → ℕ → List ℕ → Code (Unit {0})
authenticate_peer e i buf = do
  send_pubkey e i
  buf₁ ← receive_pubkey e i buf
  peer ← peer_at i
  secrets ← (if peer.is_client then receive_secrets e i buf₁ else send_secrets e i buf₁)
  start_ciphers e i secrets

-- The loop of `peer_receive`: it ends when the stream or a close ends it, or with the fuel.
unfoldable pub receive_frames : Env → ℕ → ℕ → List ℕ → Code (Unit {0})
receive_frames e i zero buf = λ d. stuck
receive_frames e i (suc fuel) buf = attempt (
    receive_frame e i buf >>= λ f.
    process_frame e i f.buf f.header_type f.data_len >>= λ _. receive_frames e i fuel f.buf)

-- `buf` is what `malloc` gives.
unfoldable pub peer_receive : Env → ℕ → ℕ → List ℕ → Code (Unit {0})
peer_receive e i fuel buf = do
  d ← daemon
  (if not (e.memory d.net.calls)
      then pure tt
      else attempt (authenticate_peer e i buf >>= λ _. receive_frames e i fuel buf))
