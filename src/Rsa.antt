-- ===== src/Rsa.antt =====
-- src/rsa.c: RSA keys through OpenSSL, which is a parameter, and the list of trusted keys.
-- A key object is a number. NULL is `none`; a result that is negative is `none`.
pub mod Trust
mod Tests
use vpnd.Base.{
  ℕ, zero, suc, ◌+◌, ◌-◌, ◌%◌, ◌^◌, Bool, true, false, not, ◌&&◌, ◌||◌, Option, none, some, List,
  [], ◌∷◌, if◌then◌else◌, ltb, ◌==◌, length,
}

pub record Rsa : Type 0 where
  -- `RSA_size`
  pub size : ℕ → ℕ
  -- what `PEM_write_bio_RSA_PUBKEY` writes
  pub pem : ℕ → List ℕ
  -- `PEM_read_bio_RSA_PUBKEY` and `PEM_read_bio_RSAPrivateKey`
  pub read_pubkey : List ℕ → Option ℕ
  pub read_privkey : List ℕ → Option ℕ
  -- `RSA_public_encrypt` with OAEP padding, which draws random bytes: the first argument
  pub public_encrypt : ℕ → ℕ → List ℕ → Option (List ℕ)
  -- `RSA_private_decrypt`
  pub private_decrypt : ℕ → List ℕ → Option (List ℕ)

-- `RSA_MAXSIZE(k)`, as the unsigned number that it is compared as
abbrev rsa_maxsize : Rsa → ℕ → ℕ
rsa_maxsize rsa k = (rsa.size k + 2 ^ 32 - 41) % 2 ^ 32

-- `bio` says whether `BIO_new_mem_buf` gives memory.
unfoldable pub load_rsa_key_from_string : Rsa → Bool → List ℕ → Bool → Option ℕ
load_rsa_key_from_string rsa bio key public =
    if not bio then none else if public then rsa.read_pubkey key else rsa.read_privkey key

unfoldable pub rsa_encrypt : Rsa → ℕ → List ℕ → Option ℕ → Option (List ℕ)
rsa_encrypt rsa seed src none = none
rsa_encrypt rsa seed src (some pubkey) =
    if ltb (rsa_maxsize rsa pubkey) (length src) then none else rsa.public_encrypt seed pubkey src

unfoldable pub rsa_decrypt : Rsa → List ℕ → Option ℕ → Option (List ℕ)
rsa_decrypt rsa src none = none
rsa_decrypt rsa src (some privkey) =
    if ltb (rsa.size privkey) (length src) then none else rsa.private_decrypt privkey src

-- `!strncmp(a, b, n)`: a zero byte in both ends the comparison.
unfoldable pub strncmp_same : ℕ → List ℕ → List ℕ → Bool
strncmp_same zero a b = true
strncmp_same (suc n) [] [] = true
strncmp_same (suc n) [] (y ∷ b) = y == 0
strncmp_same (suc n) (x ∷ a) [] = x == 0
strncmp_same (suc n) (x ∷ a) (y ∷ b) = x == y && (x == 0 || strncmp_same n a b)

-- `bios` says whether both `BIO_new` give memory.
unfoldable pub keys_match : Rsa → Bool → ℕ → ℕ → Bool
unfolding strncmp_same
keys_match rsa bios k1 k2 =
    let m1 = rsa.pem k1 in
    let m2 = rsa.pem k2 in
    if not bios
    then false
    else if length m1 == length m2
    then (if strncmp_same (length m1) m1 m2 then true else false)
    else false

unfoldable pub add_trusted_key : Bool → ℕ → List ℕ → List ℕ
add_trusted_key malloc key [] = if malloc then key ∷ [] else []
add_trusted_key malloc key (rkey ∷ rest) = rkey ∷ add_trusted_key malloc key rest

-- `bios n` is for the n-th key that is compared.
unfoldable pub is_trusted_key : Rsa → (ℕ → Bool) → ℕ → List ℕ → Bool
is_trusted_key rsa bios key [] = false
is_trusted_key rsa bios key (rkey ∷ rest) =
    keys_match rsa (bios 0) key rkey || is_trusted_key rsa (λ n. bios (suc n)) key rest
