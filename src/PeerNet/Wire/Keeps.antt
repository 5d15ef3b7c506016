-- ===== src/PeerNet/Wire/Keeps.antt =====
-- What sending and receiving leave alone (src/peer_net.c).
use vpnd.Base.{
  ℕ, ◌+◌, ◌≡◌, refl, ap, Ended, Bool, not, ◌&&◌, Option, none, some, List, [], ◌∷◌, length, take,
  Outcome, ok, fault, stuck, arith,
}
use vpnd.Socket.{Net, send_loop}
use vpnd.Socket.Endings.{Quiet, send_loop-Quiet, Shrunk}
use vpnd.Encryption.Endings.{aes_encrypt-Ended, aes_decrypt-Ended}
use vpnd.PeerNet.Wire.Endings.{QuietNet, send_frame-Quiet, Consumed, receive_on-Consumed}
use vpnd.Encryption.{aes_encrypt, aes_decrypt}
use vpnd.Peer.{Peer}
use vpnd.Daemon.{Env, Daemon}
use vpnd.Daemon.Stays.{
  Holds, Kept, Kept-refl, Keeps, by, Keeps-pure, Keeps-bind, Keeps-attempt, Keeps-if, Keeps-peer_at,
}
use vpnd.PeerNet.Wire.{
  Frame, with_net, with_ctxs, framed, after_write, write_fd, send_frame, encrypt_into, decrypt_into,
  emit, send_to, send_data_to_peer, is_excluded, broadcast_from, broadcast_data_to_peers,
  receive_on, receive_frame, tuntap_write,
}

Kept-net : (d : Daemon) (w : Net) → Shrunk d.net w → Kept d (record d { net = w })
Kept-net d w h = record {
  peers = refl;
  local_routes = refl;
  trusted_keys = refl;
  daemon_privkey = refl;
  daemon_pubkey = refl;
  if_fd = refl;
  if_tap = refl;
  tcp4_socket = refl;
  tcp6_socket = refl;
  shrunk = h;
}

Shrunk-of_same : (w v : Net) → v.incoming ≡ w.incoming → Shrunk w v
Shrunk-of_same w v e t = omega (arith, ap (λ (f : ℕ → List ℕ). length (f t)) e)

with_net-Kept : (d : Daemon) (r : Outcome Net) → QuietNet d.net r → Holds (Kept d) (with_net d r)
with_net-Kept d (ok w) h = Kept-net d w (Shrunk-of_same d.net w h)
with_net-Kept d fault h = tt
with_net-Kept d stuck h = h

with_ctxs-Kept :
    (d : Daemon) (r : Outcome (Option (List ℕ) × List (Option ℕ)))
    → Ended r
    → Holds (Kept d) (with_ctxs d r)
with_ctxs-Kept d (ok (o, c)) h = record {
  peers = refl;
  local_routes = refl;
  trusted_keys = refl;
  daemon_privkey = refl;
  daemon_pubkey = refl;
  if_fd = refl;
  if_tap = refl;
  tcp4_socket = refl;
  tcp6_socket = refl;
  shrunk = λ t. omega arith;
}
with_ctxs-Kept d fault h = tt
with_ctxs-Kept d stuck h = h

pub encrypt_into-Keeps :
    (e : Env) (room : ℕ) (ctx : Option ℕ) (bytes : List ℕ) → Keeps (encrypt_into e room ctx bytes)
unfolding encrypt_into
encrypt_into-Keeps e room ctx bytes = by λ d.
    with_ctxs-Kept d (aes_encrypt e.evp d.ctxs ctx bytes room)
      (aes_encrypt-Ended e.evp d.ctxs ctx bytes room)

pub decrypt_into-Keeps :
    (e : Env) (room : ℕ) (ctx : Option ℕ) (bytes : List ℕ) → Keeps (decrypt_into e room ctx bytes)
unfolding decrypt_into
decrypt_into-Keeps e room ctx bytes = by λ d.
    with_ctxs-Kept d (aes_decrypt e.evp d.ctxs ctx bytes room)
      (aes_decrypt-Ended e.evp d.ctxs ctx bytes room)

pub emit-Keeps :
    (e : Env) (type : ℕ) (bytes : List ℕ) (len : ℕ) (s : Option ℕ) → Keeps (emit e type bytes len s)
unfolding emit
emit-Keeps e type bytes len s = by λ d.
    with_net-Kept d (send_frame e type bytes len s d.net)
      (send_frame-Quiet e type bytes len s d.net)

pub send_to-Keeps :
    (e : Env) (type : ℕ) (bytes : List ℕ) (len : ℕ) (encrypt : Bool) (p : Peer)
    → Keeps (send_to e type bytes len encrypt p)
unfolding send_to
send_to-Keeps e type bytes len encrypt p =
    Keeps-if p.alive
      (Keeps-if encrypt
        (Keeps-if (not p.authenticated) (Keeps-pure tt) (
          Keeps-attempt (
            Keeps-bind (encrypt_into-Keeps e 2048 p.enc_ctx (take len bytes))
              (λ enc. emit-Keeps e type enc (length enc) p.s))))
        (emit-Keeps e type bytes len p.s))
      (Keeps-pure tt)

pub send_data_to_peer-Keeps :
    (e : Env) (type : ℕ) (bytes : List ℕ) (len : ℕ) (encrypt : Bool) (i : ℕ)
    → Keeps (send_data_to_peer e type bytes len encrypt i)
unfolding send_data_to_peer
send_data_to_peer-Keeps e type bytes len encrypt i =
    Keeps-bind (Keeps-peer_at i) (send_to-Keeps e type bytes len encrypt)

broadcast_from-Keeps :
    (e : Env) (type : ℕ) (bytes : List ℕ) (len : ℕ) (encrypt : Bool) (exclude : Option ℕ) (i : ℕ)
    (peers : List Peer)
    → Keeps (broadcast_from e type bytes len encrypt exclude i peers)
unfolding broadcast_from
broadcast_from-Keeps e type bytes len encrypt exclude i [] = Keeps-pure tt
broadcast_from-Keeps e type bytes len encrypt exclude i (p ∷ next) =
    Keeps-bind
      (Keeps-if (not (is_excluded i exclude) && p.alive) (send_to-Keeps e type bytes len encrypt p)
        (Keeps-pure tt))
      (λ _. broadcast_from-Keeps e type bytes len encrypt exclude (i + 1) next)

pub broadcast-Keeps :
    (e : Env) (type : ℕ) (bytes : List ℕ) (len : ℕ) (encrypt : Bool) (exclude : Option ℕ)
    → Keeps (broadcast_data_to_peers e type bytes len encrypt exclude)
unfolding broadcast_data_to_peers
broadcast-Keeps e type bytes len encrypt exclude =
    by λ d. (broadcast_from-Keeps e type bytes len encrypt exclude 0 d.peers).keeps d

framed-Kept :
    (s : Option ℕ) (d : Daemon) (r : Outcome (Option Frame × Net))
    → Consumed s d.net r
    → Holds (Kept d) (framed d r)
framed-Kept s d (ok (none, w)) h = Kept-net d w h
framed-Kept s d (ok (some f, w)) h = Kept-net d w h.0
framed-Kept s d fault h = tt
framed-Kept s d stuck h = h

pub receive_frame-Keeps : (e : Env) (i : ℕ) (buf : List ℕ) → Keeps (receive_frame e i buf)
unfolding receive_frame
receive_frame-Keeps e i buf = Keeps-bind (Keeps-peer_at i) (λ p.
    by λ d. framed-Kept p.s d (receive_on e p.s buf d.net) (receive_on-Consumed e p.s buf d.net))

after_write-Kept :
    (d : Daemon) (r : Outcome (ℕ × Net)) → Quiet d.net r → Holds (Kept d) (after_write d r)
after_write-Kept d (ok (n, w)) h = Kept-net d w (Shrunk-of_same d.net w h)
after_write-Kept d fault h = tt
after_write-Kept d stuck h = h

write_fd-Keeps : (e : Env) (bytes : List ℕ) (n : ℕ) (fd : Option ℕ) → Keeps (write_fd e bytes n fd)
write_fd-Keeps e bytes n none = by λ d. Kept-refl d
write_fd-Keeps e bytes n (some fd) = by λ d.
    after_write-Kept d (send_loop e.kernel (n + 1) (some fd) bytes n 0 d.net)
      (send_loop-Quiet e.kernel (n + 1) (some fd) bytes n 0 d.net (omega arith))

pub tuntap_write-Keeps : (e : Env) (bytes : List ℕ) (n : ℕ) → Keeps (tuntap_write e bytes n)
unfolding tuntap_write
tuntap_write-Keeps e bytes n = by λ d. (write_fd-Keeps e bytes n d.if_fd).keeps d
