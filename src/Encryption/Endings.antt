-- ===== src/Encryption/Endings.antt =====
-- The ends of the calls of src/encryption.c.
use vpnd.Base.{
  ℕ, Bool, true, false, inl, inr, Option, none, some, List, ◌++◌, if◌then◌else◌, ltb, length,
  Outcome, Ended, Ended-bind, or_fault, get_elem?, Option-cases,
}
use vpnd.Encryption.{Evp, CtxStore, load_ctx, finish, run_cipher, aes_encrypt, aes_decrypt}

Ended-if :
    {A : Type 0} (x y : Outcome A) (b : Bool) → Ended x → Ended y → Ended (if b then x else y)
Ended-if x y true h k = h
Ended-if x y false h k = k

or_fault-Ended : {A : Type 0} (o : Option A) → Ended (or_fault o)
or_fault-Ended none = tt
or_fault-Ended (some a) = tt

load_ctx-Ended : (store : CtxStore) (p : ℕ) → Ended (load_ctx store (some p))
unfolding load_ctx
load_ctx-Ended store p = elim (Option-cases (get_elem? store p)) [
  | inl missing ↦ rw (missing, Ended) tt
  | inr (cell, found) ↦ rw (found, Ended) (or_fault-Ended cell)
]

finish-Ended :
    (final : ℕ → ℕ × Option (List ℕ)) (store : CtxStore) (p room : ℕ) (r : ℕ × Option (List ℕ))
    → Ended (finish final store p room r)
unfolding finish
finish-Ended final store p room (c, none) = tt
finish-Ended final store p room (c, some out) =
    Ended-if _ _ (ltb room (length out)) tt (elim (Option-cases (final c).1) [
      | inl failed ↦ rw (failed, Ended) tt
      | inr (more, made) ↦ rw (made, Ended) (Ended-if _ _ (ltb room (length (out ++ more))) tt tt)
    ])

run_cipher-Ended :
    (restart : ℕ → ℕ × Bool) (update : ℕ → List ℕ → ℕ × Option (List ℕ))
    (final : ℕ → ℕ × Option (List ℕ)) (store : CtxStore) (ctx : Option ℕ) (bytes : List ℕ)
    (room : ℕ)
    → Ended (run_cipher restart update final store ctx bytes room)
unfolding run_cipher
run_cipher-Ended restart update final store none bytes room = tt
run_cipher-Ended restart update final store (some p) bytes room =
    Ended-bind (load_ctx store (some p)) _ (load_ctx-Ended store p) λ c.
      Ended-if _ _ (restart c).1 (finish-Ended final store p room (update (restart c).0 bytes)) tt

pub aes_encrypt-Ended :
    (evp : Evp) (store : CtxStore) (ctx : Option ℕ) (bytes : List ℕ) (room : ℕ)
    → Ended (aes_encrypt evp store ctx bytes room)
unfolding aes_encrypt
aes_encrypt-Ended evp = run_cipher-Ended evp.encrypt_restart evp.encrypt_update evp.encrypt_final

pub aes_decrypt-Ended :
    (evp : Evp) (store : CtxStore) (ctx : Option ℕ) (bytes : List ℕ) (room : ℕ)
    → Ended (aes_decrypt evp store ctx bytes room)
unfolding aes_decrypt
aes_decrypt-Ended evp = run_cipher-Ended evp.decrypt_restart evp.decrypt_update evp.decrypt_final
