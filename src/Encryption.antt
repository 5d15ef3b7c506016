-- ===== src/Encryption.antt =====
-- src/encryption.c: AES-256-CBC through the EVP interface of OpenSSL, which is a parameter.
-- The state inside a cipher context is a number that only `Evp` knows how to read. A pointer to a
-- context is its place in the store of all contexts ever made; a place that holds `none` was freed.
pub mod Agreement
pub mod Endings
pub mod Padding
mod Tests
use vpnd.Base.{
  ℕ, Bool, not, Option, none, some, List, [], ◌∷◌, ◌++◌, if◌then◌else◌, ltb, length, set, get_elem?,
  Outcome, ok, fault, ◌>>=◌, or_fault,
}

pub record Evp : Type 0 where
  -- whether the n-th `EVP_CIPHER_CTX_new` gives memory
  pub ctx_new : ℕ → Bool
  -- `Init_ex` with a key and an IV, for encryption or decryption: the state, if it succeeds
  pub init : Bool → List ℕ → List ℕ → Option ℕ
  -- `Init_ex` with NULL for all: the new state, and whether the call succeeds
  pub encrypt_restart : ℕ → ℕ × Bool
  pub decrypt_restart : ℕ → ℕ × Bool
  -- `Update` and `Final_ex`: the new state, and what is written, if the call succeeds
  pub encrypt_update : ℕ → List ℕ → ℕ × Option (List ℕ)
  pub decrypt_update : ℕ → List ℕ → ℕ × Option (List ℕ)
  pub encrypt_final : ℕ → ℕ × Option (List ℕ)
  pub decrypt_final : ℕ → ℕ × Option (List ℕ)

abbrev pub CtxStore : Type 0
CtxStore = List (Option ℕ)

-- What a context pointer refers to: a fault for NULL and for a context that was freed.
unfoldable pub load_ctx : CtxStore → Option ℕ → Outcome ℕ
load_ctx store none = fault
load_ctx store (some p) = elim (get_elem? store p) [ none ↦ fault | some cell ↦ or_fault cell ]

-- `EVP_CIPHER_CTX_free`: a fault if the context was freed before.
unfoldable pub ctx_free : CtxStore → ℕ → Outcome CtxStore
unfolding load_ctx
ctx_free store p = do c ← load_ctx store (some p); ok (set store p none)

-- The pointer, or NULL; a context whose initialisation fails is freed at once. The store has a place for
-- every call of `EVP_CIPHER_CTX_new`, also for one that gave no memory.
unfoldable pub aes_init_ctx : Evp → CtxStore → List ℕ → List ℕ → Bool → Option ℕ × CtxStore
aes_init_ctx evp store key iv encrypt =
    if not (evp.ctx_new (length store))
    then (none, store ++ (none ∷ []))
    else elim (evp.init encrypt key iv) [
      | none ↦ (none, store ++ (none ∷ []))
      | some c ↦ (some (length store), store ++ (some c ∷ []))
    ]

-- A context that has written `out` into a buffer of `room` bytes: the last block goes behind it.
finish :
    (ℕ → ℕ × Option (List ℕ))
    → CtxStore
    → ℕ
    → ℕ
    → ℕ × Option (List ℕ)
    → Outcome (Option (List ℕ) × CtxStore)
finish final store p room (c, none) = ok (none, set store p (some c))
finish final store p room (c, some out) =
    let last = final c in
    if ltb room (length out) then fault else elim last.1 [
      | none ↦ ok (none, set store p (some last.0))
      | some more ↦
          if ltb room (length (out ++ more))
          then fault
          else ok (some (out ++ more), set store p (some last.0))
    ]

-- The three calls on the context at `p`, into a buffer of `room` bytes: what they write in all, or
-- `none` for the return of -1. Writing past the buffer is a fault.
run_cipher :
    (ℕ → ℕ × Bool)
    → (ℕ → List ℕ → ℕ × Option (List ℕ))
    → (ℕ → ℕ × Option (List ℕ))
    → CtxStore
    → Option ℕ
    → List ℕ
    → ℕ
    → Outcome (Option (List ℕ) × CtxStore)
unfolding load_ctx finish
run_cipher restart update final store none bytes room = fault
run_cipher restart update final store (some p) bytes room = do
  c ← load_ctx store (some p)
  let begun = restart c
  if begun.1
      then finish final store p room (update begun.0 bytes)
      else ok (none, set store p (some begun.0))

unfoldable pub aes_encrypt :
    Evp → CtxStore → Option ℕ → List ℕ → ℕ → Outcome (Option (List ℕ) × CtxStore)
unfolding run_cipher
aes_encrypt evp = run_cipher evp.encrypt_restart evp.encrypt_update evp.encrypt_final

unfoldable pub aes_decrypt :
    Evp → CtxStore → Option ℕ → List ℕ → ℕ → Outcome (Option (List ℕ) × CtxStore)
unfolding run_cipher
aes_decrypt evp = run_cipher evp.decrypt_restart evp.decrypt_update evp.decrypt_final
