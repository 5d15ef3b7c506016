-- ===== src/Encryption/Agreement.antt =====
-- Two ends of a session: what `aes_encrypt` of src/encryption.c writes on one side is read by
-- `aes_decrypt` on the other, with the buffers of `send_data_to_peer` and `process_netpacket`
-- (src/peer_net.c).
use vpnd.Base.{
  ℕ, ◌+◌, ◌<◌, ◌≤◌, ◌≡◌, ap, ◌∙◌, true, Option, none, some, List, ◌++◌, length, get_elem?, set, ok,
  arith, length-append, ltb-false,
}
use vpnd.Protocol.{frame_payload_maxsize}
use vpnd.Encryption.{Evp, CtxStore, load_ctx, finish, run_cipher, aes_encrypt, aes_decrypt}

-- What OpenSSL promises of a context for encryption in state `c` and one for decryption in state `k`
-- with the same key and IV: no call fails, the ciphertext has one block of padding at most, and
-- what decryption writes in its two calls is the text.
pub record Agree (evp other : Evp) (c k : ℕ) (text : List ℕ) : Type 0 where
  pub blocks : List ℕ
  pub padding : List ℕ
  pub front : List ℕ
  pub back : List ℕ
  pub restarts : (evp.encrypt_restart c).1 ≡ true
  pub updates : (evp.encrypt_update (evp.encrypt_restart c).0 text).1 ≡ some blocks
  pub ends :
      (evp.encrypt_final (evp.encrypt_update (evp.encrypt_restart c).0 text).0).1 ≡ some padding
  pub other_restarts : (other.decrypt_restart k).1 ≡ true
  pub other_updates :
      (other.decrypt_update (other.decrypt_restart k).0 (blocks ++ padding)).1 ≡ some front
  pub other_ends :
      (other.decrypt_final
        (other.decrypt_update (other.decrypt_restart k).0 (blocks ++ padding)).0).1
      ≡ some back
  pub whole : front ++ back ≡ text
  pub size : length (blocks ++ padding) ≤ length text + 16
  pub filled : 0 < length (blocks ++ padding)

finish-both :
    (final : ℕ → ℕ × Option (List ℕ)) (store : CtxStore) (p room : ℕ) (x : ℕ × Option (List ℕ))
    (out more : List ℕ)
    → x.1 ≡ some out
    → (final x.0).1 ≡ some more
    → length (out ++ more) ≤ room
    → finish final store p room x ≡ ok (some (out ++ more), set store p (some (final x.0).0))
unfolding finish
finish-both final store p room (c, none) out more h₁ h₂ small = cc
finish-both final store p room (c, some out') out more h₁ h₂ small =
    let same : out' ≡ out = cc in
    let sizes = length-append out more in
    rw
      (
        ltb-false room (length out') (omega (arith, sizes, ap length same)),
        h₂,
        ltb-false room (length (out' ++ more))
            (omega (arith, ap (λ (b : List ℕ). length (b ++ more)) same)),
      )
      (ap (λ (b : List ℕ). ok (some (b ++ more), set store p (some (final c).0))) same)

module _ (evp other : Evp) (store other_store : CtxStore) (p o c k : ℕ) (text : List ℕ)
    (found : get_elem? store p ≡ some (some c))
    (other_found : get_elem? other_store o ≡ some (some k)) (agree : Agree evp other c k text)
    (small : length text + 16 ≤ frame_payload_maxsize) where
  abbrev pub ciphertext : List ℕ
  ciphertext = agree.blocks ++ agree.padding

  pub aes_encrypt-ciphertext :
      (ctxs : CtxStore) × (aes_encrypt evp store (some p) text frame_payload_maxsize
        ≡ ok (some ciphertext, ctxs))
  unfolding aes_encrypt run_cipher load_ctx
  aes_encrypt-ciphertext = (
    set store p (some (evp.encrypt_final (evp.encrypt_update (evp.encrypt_restart c).0 text).0).0),
    rw (aes_encrypt, run_cipher, load_ctx, found, agree.restarts)
        (finish-both evp.encrypt_final store p 2048
          (evp.encrypt_update (evp.encrypt_restart c).0 text) agree.blocks agree.padding
          agree.updates agree.ends (omega (arith, agree.size, small))),
  )

  pub aes_decrypt-ciphertext :
      (state : ℕ) × (aes_decrypt other other_store (some o) ciphertext 2064
        ≡ ok (some text, set other_store o (some state)))
  unfolding aes_decrypt run_cipher load_ctx
  aes_decrypt-ciphertext =
      let end : ℕ =
        (other.decrypt_final (other.decrypt_update (other.decrypt_restart k).0 ciphertext).0).0 in
      (
        end,
        rw (aes_decrypt, run_cipher, load_ctx, other_found, agree.other_restarts)
            (finish-both other.decrypt_final other_store o 2064
                (other.decrypt_update (other.decrypt_restart k).0 ciphertext) agree.front agree.back
                agree.other_updates agree.other_ends (omega (arith, ap length agree.whole, small))
              ∙ ap (λ (b : List ℕ). ok (some b, set other_store o (some end))) agree.whole),
      )
