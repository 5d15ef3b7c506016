-- ===== src/Encryption/Tests.antt =====
-- A cipher that copies whole blocks and pads with zeros, and the theorem of Encryption/Padding on it.
use vpnd.Base.{ℕ, ◌*◌, ◌/◌, arith, refl, some, List, [], ◌∷◌, length, take}
use vpnd.PeerNet.Sample.{repeat, machine}
use vpnd.Encryption.{Evp, aes_encrypt}
use vpnd.Encryption.Padding.{Padded, Fits, aes_encrypt-Fits}

abbrev block_evp : Evp
block_evp = record machine.evp {
  encrypt_update = λ c bytes. (c, some (take (length bytes / 16 * 16) bytes));
  encrypt_final = λ c. (c, some (repeat 16 0));
}

abbrev message : List ℕ
message = repeat 20 7

message-Padded : Padded block_evp 4 message
message-Padded = record {
  out = repeat 16 7;
  more = repeat 16 0;
  restarts = refl;
  blocks = refl;
  blocks_size = refl;
  last_block = refl;
  last_block_size = refl;
}

aes_encrypt-Fits_example : Fits 20 (aes_encrypt block_evp (some 4 ∷ []) (some 0) message 2048)
aes_encrypt-Fits_example =
    aes_encrypt-Fits block_evp (some 4 ∷ []) 0 4 message refl message-Padded (omega arith)
