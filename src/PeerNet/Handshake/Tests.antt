-- ===== src/PeerNet/Handshake/Tests.antt =====
-- The secrets of a handshake on a sample RSA, whose ciphertexts are padded messages of 80 bytes.
use vpnd.Base.{
  ℕ, zero, suc, ◌-◌, ◌≡◌, refl, ap, true, Option, none, some, List, [], ◌∷◌, ◌++◌, ◌==◌,
  if◌then◌else◌, length, take, Outcome, ok, fault, stuck, arith, length-append, take-length-append,
  ltb-false,
}
use vpnd.Rsa.{Rsa, rsa_encrypt}
use vpnd.Socket.{Net}
use vpnd.Peer.{Peer}
use vpnd.Daemon.{Env, Daemon}
use vpnd.PeerNet.Sample.{
  repeat, machine, plain_rsa, slow_kernel-Accepts, slow_kernel-Delivers, daemon_with, guest,
}
use vpnd.PeerNet.Handshake.{send_secrets, receive_secrets}
use vpnd.PeerNet.Handshake.Secrets.{KeyPair, receive_secrets-send_secrets}

abbrev unpad : List ℕ → Option (List ℕ)
unpad [] = none
unpad (n ∷ bytes) = some (take n bytes)

abbrev padded_rsa : Rsa
padded_rsa = record plain_rsa {
  size = λ k. 80;
  public_encrypt = λ seed k m. some (length m ∷ (m ++ repeat (79 - length m) 0));
  private_decrypt = λ k bytes. unpad bytes;
}

abbrev secret_machine : Env
secret_machine = record machine { rsa = padded_rsa }

length-repeat : (n b : ℕ) → length (repeat n b) ≡ n
length-repeat zero b = omega arith
length-repeat (suc n) b = omega (arith, length-repeat n b)

padded-KeyPair : KeyPair secret_machine secret_machine 7 5
unfolding rsa_encrypt
padded-KeyPair = record {
  inverts = λ seed m short. (
    length m ∷ (m ++ repeat (79 - length m) 0),
    rw (ltb-false 39 (length m) (omega (arith, short))) refl,
    omega
        (arith, length-append m (repeat (79 - length m) 0), length-repeat (79 - length m) 0, short),
    ap some (take-length-append m (repeat (79 - length m) 0)),
  );
  not_empty = refl;
  fits = omega arith;
}

-- A client that has given the key 7, and the server of that client.
abbrev client_peer : Peer
client_peer = record guest { pubkey = some 7 }

abbrev server : Daemon
server = daemon_with client_peer []

abbrev blank_buf : List ℕ
blank_buf = repeat 2053 0

abbrev key : List ℕ
key = repeat 32 9

abbrev iv : List ℕ
iv = repeat 16 9

abbrev daemon_of : {A : Type 0} → Outcome (Option A × Daemon) → Daemon
daemon_of (ok (o, d)) = d
daemon_of fault = server
daemon_of stuck = server

abbrev served : Daemon
served = daemon_of (send_secrets secret_machine 0 blank_buf server)

served_ok : send_secrets secret_machine 0 blank_buf server ≡ ok (some (key, iv), served)
unfolding send_secrets vpnd.PeerNet.Handshake.send_secret vpnd.PeerNet.Wire.send_data_to_peer
    vpnd.Daemon.peer_at vpnd.PeerNet.Wire.send_to vpnd.PeerNet.Wire.emit
    vpnd.PeerNet.Wire.send_frame vpnd.Socket.send_loop vpnd.Socket.net_send vpnd.Socket.put_at
    vpnd.Protocol.encode_frame_header vpnd.Protocol.write_uint32 rsa_encrypt
served_ok = refl

-- The client has the private key 5.
abbrev client : Daemon
client = record (daemon_with (record guest { is_client = true }) []) {
  net = record served.net {
    incoming = λ t. if t == 3 then served.net.outgoing 3 ++ (1 ∷ []) else [];
  };
}

receive_secrets-send_secrets_example :
    (c' : Daemon) × (receive_secrets secret_machine 0 blank_buf client ≡ ok (some (key, iv), c'))
    × (c'.net.incoming 3 ≡ 1 ∷ [])
receive_secrets-send_secrets_example =
    receive_secrets-send_secrets secret_machine secret_machine 0 3 7 5 padded-KeyPair key iv
      blank_buf server client_peer slow_kernel-Accepts refl refl refl refl refl refl refl refl refl
      0 3 (served.net.outgoing 3) (1 ∷ []) blank_buf served client
      (record guest { is_client = true }) served_ok refl slow_kernel-Delivers refl refl refl refl
      refl refl
