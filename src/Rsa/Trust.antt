-- ===== src/Rsa/Trust.antt =====
-- What it means to be trusted: `keys_match` and `is_trusted_key` of src/rsa.c.
use vpnd.Base.{
  ℕ, zero, suc, ◌≡◌, refl, ap, ◌∙◌, ◌↔◌, inl, inr, Bool, true, false, ◌||◌, List, [], ◌∷◌, ◌==◌,
  length, All, arith, Bool-cases, ==→eq, get_elem?, some,
}
use vpnd.Rsa.{Rsa, strncmp_same, keys_match, is_trusted_key}

-- `PEM_write_bio_RSA_PUBKEY` writes text, without a zero byte.
abbrev pub IsText : Rsa → Type 0
IsText rsa = (k : ℕ) → All (λ b. (b == 0) ≡ false) (rsa.pem k)

strncmp_same_iff :
    (a b : List ℕ)
    → All (λ x. (x == 0) ≡ false) a
    → length a ≡ length b
    → (strncmp_same (length a) a b ≡ true) ↔ (a ≡ b)
unfolding strncmp_same
strncmp_same_iff [] [] t h = (λ _. refl, λ _. refl)
strncmp_same_iff [] (y ∷ b) t h = absurd (omega arith)
strncmp_same_iff (x ∷ a) [] t h = absurd (omega arith)
strncmp_same_iff (x ∷ a) (y ∷ b) (x≢0, t) h =
    let ih = strncmp_same_iff a b t (omega arith) in ground (arith, ih)

pub keys_match_iff :
    (rsa : Rsa) (k1 k2 : ℕ)
    → IsText rsa
    → (keys_match rsa true k1 k2 ≡ true) ↔ (rsa.pem k1 ≡ rsa.pem k2)
unfolding keys_match
keys_match_iff rsa k1 k2 text = elim (Bool-cases (length (rsa.pem k1) == length (rsa.pem k2))) [
  | inl same ↦
      let h = strncmp_same_iff (rsa.pem k1) (rsa.pem k2) (text k1) (==→eq _ _ same) in
      (λ m. h.0 (ground arith), λ e. ground (arith, h.1 e))
  | inr other ↦ (λ m. ground arith, λ e. ground (arith, ap length e))
]

-- Some trusted key has the PEM text of `key`.
abbrev pub Trusts : Rsa → ℕ → List ℕ → Type 0
Trusts rsa key trusted =
    (i : ℕ) × (rkey : ℕ) × (get_elem? trusted i ≡ some rkey) × (rsa.pem key ≡ rsa.pem rkey)

module _ (rsa : Rsa) (key : ℕ) (text : IsText rsa) where
  found-Trusts :
      (rkey : ℕ) (rest : List ℕ) (more : Bool)
      → (more ≡ true → Trusts rsa key rest)
      → (keys_match rsa true key rkey || more) ≡ true
      → Trusts rsa key (rkey ∷ rest)
  found-Trusts rkey rest more ih h = elim (Bool-cases (keys_match rsa true key rkey)) [
    | inl match ↦ (0, rkey, refl, (keys_match_iff rsa key rkey text).0 match)
    | inr other ↦ let (i, r, found, same) = ih (ground arith) in (suc i, r, found, same)
  ]

  Trusts-found :
      (rkey : ℕ) (rest : List ℕ) (more : Bool)
      → (Trusts rsa key rest → more ≡ true)
      → Trusts rsa key (rkey ∷ rest)
      → (keys_match rsa true key rkey || more) ≡ true
  Trusts-found rkey rest more ih (zero, r, found, same) =
      let at : r ≡ rkey = cc in
      let match = (keys_match_iff rsa key rkey text).1 (same ∙ ap rsa.pem at) in
      ground (arith, match)
  Trusts-found rkey rest more ih (suc i, r, found, same) =
      let later = ih (i, r, found, same) in ground (arith, later)

-- When there is memory, a key is trusted exactly when one of the trusted keys has the same PEM text,
-- which holds no zero byte.
pub is_trusted_key_iff :
    (rsa : Rsa) (key : ℕ) (trusted : List ℕ)
    → IsText rsa
    → (is_trusted_key rsa (λ n. true) key trusted ≡ true) ↔ Trusts rsa key trusted
unfolding is_trusted_key
is_trusted_key_iff rsa key [] text = (λ h. cc, λ (i, r, found, same). cc)
is_trusted_key_iff rsa key (rkey ∷ rest) text =
    let ih = is_trusted_key_iff rsa key rest text in
    (
      found-Trusts rsa key text rkey rest (is_trusted_key rsa (λ n. true) key rest) ih.0,
      Trusts-found rsa key text rkey rest (is_trusted_key rsa (λ n. true) key rest) ih.1,
    )
