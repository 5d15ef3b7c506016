-- ===== src/Config/Paths.antt =====
-- How two paths are joined: `join_paths` of src/config.c.
use vpnd.Base.{
  ℕ, ◌+◌, ◌≤◌, ◌≡◌, refl, sym, ap, ◌∙◌, true, some, List, [], ◌∷◌, ◌++◌, ◌==◌, length, drop,
  length-append, ok, arith, Bool-cases, inl, inr, if◌then◌else◌, ==→eq,
}
use mathlib.Core.List.{append_assoc}
use vpnd.Config.{slash, starts_with_slash, ends_with_slash, joined, join_paths}

abbrev pub unslashed : List ℕ → List ℕ
unslashed path2 = if starts_with_slash path2 then drop 1 path2 else path2

abbrev pub slashed : List ℕ → List ℕ
slashed path1 = if ends_with_slash path1 then path1 else path1 ++ (slash ∷ [])

joined-slash :
    (p1 p2 : List ℕ) → starts_with_slash p2 ≡ true → p1 ++ p2 ≡ (p1 ++ (slash ∷ [])) ++ drop 1 p2
joined-slash p1 [] h = cc
joined-slash p1 (y ∷ t) h =
    ap (λ (n : ℕ). p1 ++ (n ∷ t)) (==→eq y slash h) ∙ sym (append_assoc p1 (slash ∷ []) t)

joined-eq : (p1 p2 : List ℕ) → joined p1 p2 ≡ slashed p1 ++ unslashed p2
joined-eq p1 p2 = elim (Bool-cases (ends_with_slash p1)) [
  | inl a ↦ elim (Bool-cases (starts_with_slash p2)) [
    | inl b ↦ rw (a, b) refl
    | inr b ↦ rw (a, b) refl
  ]
  | inr a ↦ elim (Bool-cases (starts_with_slash p2)) [
    | inl b ↦ rw (a, b) (joined-slash p1 p2 b)
    | inr b ↦ rw (a, b) (sym (append_assoc p1 (slash ∷ []) p2))
  ]
]

length-slashed : (p1 : List ℕ) → length (slashed p1) ≤ length p1 + 1
length-slashed p1 = elim (Bool-cases (ends_with_slash p1)) [
  | inl a ↦ rw a (omega arith)
  | inr a ↦ rw a (omega (arith, length-append p1 (slash ∷ [])))
]

length-unslashed : (p2 : List ℕ) → length (unslashed p2) ≤ length p2
length-unslashed [] = omega arith
length-unslashed (y ∷ t) = elim (Bool-cases (y == slash)) [
  | inl a ↦ rw a (omega arith)
  | inr a ↦ rw a (omega arith)
]

-- `join_paths` on a first path that is not empty gives the first path, one slash and the second
-- path, where a slash that ends the first or starts the second path is not doubled; the text and its
-- terminator fit the memory that was asked for.
pub join_paths-joins :
    (x : ℕ) (xs path2 : List ℕ)
    → (result : List ℕ) × (join_paths true (x ∷ xs) path2 ≡ ok (some result))
      × (result ≡ slashed (x ∷ xs) ++ unslashed path2)
      × (length result + 1 ≤ length (x ∷ xs) + length path2 + 2)
unfolding join_paths
join_paths-joins x xs path2 =
    let p : List ℕ = x ∷ xs in
    (
      joined p path2,
      refl,
      joined-eq p path2,
      omega (
        arith,
        ap length (joined-eq p path2),
        length-append (slashed p) (unslashed path2),
        length-slashed p,
        length-unslashed path2,
      ),
    )
