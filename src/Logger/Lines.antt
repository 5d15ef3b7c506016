-- ===== src/Logger/Lines.antt =====
-- What `logger` of src/logger.c writes can be read back.
use vpnd.Base.{
  ℕ, zero, suc, ◌≤◌, ◌≡◌, refl, sym, ap, ◌∙◌, subst, List, [], ◌∷◌, if◌then◌else◌, ◌==◌, get_or,
  arith,
}
use mathlib.Core.List.{append_cancel_left, append_cancel_right}
use vpnd.Base.Text.{codes}
use vpnd.Logger.{print_logging_level_str, line}

-- The level whose name begins with a letter.
level_of : ℕ → ℕ
level_of c =
    if c == b'd'
    then 5
    else if c == b'i'
    then 4
    else if c == b'w'
    then 3
    else if c == b'e'
    then 2
    else 1

level_of-line :
    (level : ℕ) (message : List ℕ)
    → 1 ≤ level
    → level ≤ 5
    → level_of (get_or (line level message) 0 0) ≡ level
unfolding level_of line print_logging_level_str
level_of-line zero message h k = absurd (omega arith)
level_of-line (suc zero) message h k = refl
level_of-line (suc (suc zero)) message h k = refl
level_of-line (suc (suc (suc zero))) message h k = refl
level_of-line (suc (suc (suc (suc zero)))) message h k = refl
level_of-line (suc (suc (suc (suc (suc zero))))) message h k = refl
level_of-line (suc (suc (suc (suc (suc (suc n)))))) message h k = absurd (omega arith)

same_level : (l : ℕ) (m m' : List ℕ) → line l m ≡ line l m' → m ≡ m'
unfolding line
same_level l m m' h =
    append_cancel_right m m' (10 ∷ [])
      (append_cancel_left (codes ": ") _ _ (append_cancel_left (print_logging_level_str l) _ _ h))

-- Two messages that are logged as the same line are the same message at the same level.
pub line-injective :
    (l l' : ℕ) (m m' : List ℕ)
    → 1 ≤ l
    → l ≤ 5
    → 1 ≤ l'
    → l' ≤ 5
    → line l m ≡ line l' m'
    → (l ≡ l') × (m ≡ m')
line-injective l l' m m' p q p' q' h =
    let same : l ≡ l' =
      sym (level_of-line l m p q)
      ∙ ap (λ (t : List ℕ). level_of (get_or t 0 0)) h
      ∙ level_of-line l' m' p' q' in
    (same, same_level l' m m' (subst (λ (n : ℕ). line n m ≡ line l' m') same h))
