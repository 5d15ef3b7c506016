-- ===== src/Rsa/Tests.antt =====
-- A list of trusted keys, and the theorem of Rsa/Trust on it.
use vpnd.Base.{suc, ◌≡◌, arith, ◌↔◌, true, none, [], ◌∷◌}
use vpnd.Rsa.{Rsa, is_trusted_key}
use vpnd.Rsa.Trust.{IsText, Trusts, is_trusted_key_iff}

-- The PEM text of a key is one byte; nothing else of the library matters here.
abbrev tiny : Rsa
tiny = record {
  size = λ k. 256;
  pem = λ k. suc k ∷ [];
  read_pubkey = λ text. none;
  read_privkey = λ text. none;
  public_encrypt = λ seed k bytes. none;
  private_decrypt = λ k bytes. none;
}

tiny-IsText : IsText tiny
tiny-IsText k = (ground arith, tt)

is_trusted_key_iff_example :
    (is_trusted_key tiny (λ n. true) 6 (5 ∷ 6 ∷ []) ≡ true) ↔ Trusts tiny 6 (5 ∷ 6 ∷ [])
is_trusted_key_iff_example = is_trusted_key_iff tiny 6 (5 ∷ 6 ∷ []) tiny-IsText
