-- ===== src/Encryption/Padding.antt =====
-- The room that a ciphertext needs: `aes_encrypt` of src/encryption.c into the buffer `enc_data` of
-- `send_data_to_peer` (src/peer_net.c), which has as many bytes as a payload.
use vpnd.Base.{
  ℕ, ◌+◌, ◌*◌, ◌/◌, ◌<◌, ◌≤◌, ◌≡◌, ap, ◌∙◌, inl, inr, true, Option, none, some, List, ◌++◌, ltb,
  length, get_elem?, Outcome, ok, fault, stuck, arith, Bool-cases, length-append, ltb-true,
  ltb-false,
}
use vpnd.Protocol.{frame_payload_maxsize}
use vpnd.Encryption.{Evp, CtxStore, load_ctx, finish, run_cipher, aes_encrypt}

-- What OpenSSL promises of AES-CBC with padding for a context in state `c`: it can be restarted, `Update`
-- on the restarted context gives the whole blocks of the text, and `Final_ex` then one block more.
pub record Padded (evp : Evp) (c : ℕ) (bytes : List ℕ) : Type 0 where
  pub out : List ℕ
  pub more : List ℕ
  pub restarts : (evp.encrypt_restart c).1 ≡ true
  pub blocks : (evp.encrypt_update (evp.encrypt_restart c).0 bytes).1 ≡ some out
  pub blocks_size : length out ≡ length bytes / 16 * 16
  pub last_block :
      (evp.encrypt_final (evp.encrypt_update (evp.encrypt_restart c).0 bytes).0).1 ≡ some more
  pub last_block_size : length more ≡ 16

-- What a text of `n` bytes comes to.
abbrev pub Fits : ℕ → Outcome (Option (List ℕ) × CtxStore) → Type 0
Fits n (ok (some out, store)) = (n < frame_payload_maxsize) × (length out ≡ n / 16 * 16 + 16)
Fits n (ok (none, store)) = ⊥
Fits n fault = n ≡ frame_payload_maxsize
Fits n stuck = ⊥

finish-Fits :
    (final : ℕ → ℕ × Option (List ℕ)) (store : CtxStore) (p n : ℕ) (x : ℕ × Option (List ℕ))
    (out more : List ℕ)
    → n ≤ frame_payload_maxsize
    → x.1 ≡ some out
    → (final x.0).1 ≡ some more
    → length out ≡ n / 16 * 16
    → length more ≡ 16
    → Fits n (finish final store p frame_payload_maxsize x)
unfolding finish
finish-Fits final store p n (c, none) out more small whole last size₁ size₂ = cc
finish-Fits final store p n (c, some out') out more small whole last size₁ size₂ =
    let same : length out' ≡ n / 16 * 16 = ap length (injective whole) ∙ size₁ in
    let total : length (out' ++ more) ≡ n / 16 * 16 + 16 =
      omega (arith, length-append out' more, same, size₂) in
    elim (Bool-cases (ltb n 2048)) [
      | inl below ↦
          rw
            (
              ltb-false 2048 (length out') (omega (arith, same)),
              last,
              ltb-false 2048 (length (out' ++ more)) (ground (arith, total, below)),
              Fits,
            )
            (ground (arith, below), total)
      | inr full ↦
          rw
            (
              ltb-false 2048 (length out') (omega (arith, same)),
              last,
              ltb-true 2048 (length (out' ++ more)) (ground (arith, total, full)),
              Fits,
            )
            (ground (arith, full, small))
    ]
  where
    injective : {o : List ℕ} → some out' ≡ some o → out' ≡ o
    injective e = cc

-- A payload that is encrypted for a peer fits into the buffer of 2048 bytes exactly when it has fewer
-- than 2048 bytes: then the ciphertext has the next multiple of 16 above its length; for 2048 bytes
-- `aes_encrypt` writes behind the buffer. Payloads are at most 2048 bytes, and the context is live.
pub aes_encrypt-Fits :
    (evp : Evp) (store : CtxStore) (p c : ℕ) (bytes : List ℕ)
    → get_elem? store p ≡ some (some c)
    → Padded evp c bytes
    → length bytes ≤ frame_payload_maxsize
    → Fits (length bytes) (aes_encrypt evp store (some p) bytes frame_payload_maxsize)
unfolding aes_encrypt run_cipher load_ctx
aes_encrypt-Fits evp store p c bytes found padded small =
    let begun : ℕ = (evp.encrypt_restart c).0 in
    rw (aes_encrypt, run_cipher, load_ctx, found, padded.restarts)
      (finish-Fits evp.encrypt_final store p (length bytes) (evp.encrypt_update begun bytes)
        padded.out padded.more small padded.blocks padded.last_block padded.blocks_size
        padded.last_block_size)
