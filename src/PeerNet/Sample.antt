-- ===== src/PeerNet/Sample.antt =====
-- A machine and a daemon to run the code of src/peer_net.c on: a kernel that passes at most three
-- bytes in a call, and stand-ins for OpenSSL that are as simple as can be.
use vpnd.Base.{
  ℕ, zero, suc, true, false, Option, none, some, List, [], ◌∷◌, if◌then◌else◌, ◌==◌, arith, ◌+◌,
  ◌<◌, ◌≡◌, inl, inr, Bool-cases, ==→eq,
}
use Prim.Native.Nat.{min}
use vpnd.Netroute.{Netroute}
use vpnd.Socket.{Kernel, Net}
use vpnd.Socket.Receiving.{Delivers}
use vpnd.Socket.Sending.{Accepts}
use vpnd.Encryption.{Evp}
use vpnd.Rsa.{Rsa}
use vpnd.Peer.{Peer}
use vpnd.Daemon.{Env, Daemon}
use vpnd.Daemon.Descriptors.{is_open}

abbrev pub repeat : ℕ → ℕ → List ℕ
repeat zero b = []
repeat (suc n) b = b ∷ repeat n b

abbrev pub slow_kernel : Kernel
slow_kernel = record {
  send = λ i s k. min k 3;
  send_le = λ i s k. omega arith;
  recv = λ i s k a. min (min k a) 3;
  recv_le = λ i s k a. omega arith;
  recv_le_available = λ i s k a. omega arith;
}

pub slow_kernel-Accepts : Accepts slow_kernel
slow_kernel-Accepts i s offered h = omega arith

pub slow_kernel-Delivers : Delivers slow_kernel
slow_kernel-Delivers i s want available h k = omega arith

-- A cipher that changes nothing.
abbrev plain_evp : Evp
plain_evp = record {
  ctx_new = λ n. true;
  init = λ encrypt key iv. some 0;
  encrypt_restart = λ c. (c, true);
  decrypt_restart = λ c. (c, true);
  encrypt_update = λ c bytes. (c, some bytes);
  decrypt_update = λ c bytes. (c, some bytes);
  encrypt_final = λ c. (c, some []);
  decrypt_final = λ c. (c, some []);
}

-- The PEM text of key `k` is the byte `k`.
abbrev first_byte : List ℕ → Option ℕ
first_byte [] = none
first_byte (x ∷ xs) = some x

abbrev pub plain_rsa : Rsa
plain_rsa = record {
  size = λ k. 256;
  pem = λ k. k ∷ [];
  read_pubkey = first_byte;
  read_privkey = first_byte;
  public_encrypt = λ seed k bytes. some bytes;
  private_decrypt = λ k bytes. some bytes;
}

abbrev pub no_route : Netroute
no_route = record { mac = false; ip4 = false; addr = repeat 16 0 }

abbrev pub machine : Env
machine = record {
  little = true;
  kernel = slow_kernel;
  evp = plain_evp;
  rsa = plain_rsa;
  memory = λ n. true;
  rand = λ n k. some (repeat k 9);
  stack_packet = repeat 2064 0;
  stack_route = no_route;
}

-- Only descriptor 3 has something to deliver.
abbrev pub wire : List ℕ → Net
wire bytes = record { calls = 0; incoming = λ s. if s == 3 then bytes else []; outgoing = λ s. [] }

abbrev pub guest : Peer
guest = record {
  s = some 3;
  is_client = false;
  address = none;
  port = 1;
  alive = true;
  pubkey = none;
  authenticated = false;
  enc_ctx = none;
  dec_ctx = none;
  routes = [];
}

abbrev pub member : Peer
member = record guest { pubkey = some 7; authenticated = true; enc_ctx = some 0; dec_ctx = some 1 }

-- A daemon with key 5 that trusts key 7.
abbrev pub daemon_with : Peer → List ℕ → Daemon
daemon_with p bytes = record {
  net = wire bytes;
  peers = p ∷ [];
  local_routes = [];
  ctxs = some 0 ∷ some 0 ∷ [];
  trusted_keys = 7 ∷ [];
  daemon_privkey = some 5;
  daemon_pubkey = some 5;
  if_fd = some 4;
  if_tap = false;
  fds = 3 ∷ 4 ∷ [];
  tcp4_socket = none;
  tcp6_socket = none;
  devname = [];
}

-- A descriptor above all open ones.
abbrev pub unused : List ℕ → ℕ
unused [] = 1
unused (x ∷ xs) = x + unused xs

unused-positive : (fds : List ℕ) → 0 < unused fds
unused-positive [] = omega arith
unused-positive (x ∷ xs) = omega (arith, unused-positive xs)

open_below : (fd : ℕ) (fds : List ℕ) → is_open fd fds ≡ true → fd < unused fds
open_below fd [] h = cc
open_below fd (x ∷ xs) h = elim (Bool-cases (x == fd)) [
  | inl same ↦ omega (arith, ==→eq x fd same, unused-positive xs)
  | inr other ↦ omega (arith, open_below fd xs (rest other))
]
  where
    rest : (x == fd) ≡ false → is_open fd xs ≡ true
    rest other = ground (arith, other, h)

pub unused-new : (fds : List ℕ) (fd : ℕ) → some (unused fds) ≡ some fd → is_open fd fds ≡ false
unused-new fds fd h = elim (Bool-cases (is_open fd fds)) [
  | inl opened ↦ absurd (omega (arith, open_below fd fds opened, same h))
  | inr free ↦ free
]
  where
    same : some (unused fds) ≡ some fd → unused fds ≡ fd
    same e = cc
