-- ===== src/Daemon/Descriptors.antt =====
-- The open descriptors of the process, as the calls of `close`, `socket`, `accept` and `open` in
-- src/peer.c, src/tcp.c, src/tcp4.c, src/tcp6.c and src/interface.c change them.
use vpnd.Base.{
  ℕ, zero, suc, ◌+◌, ◌≡◌, refl, ap, inl, inr, Bool, true, false, ◌||◌, ◌==◌, Option, none, some,
  List, [], ◌∷◌, if◌then◌else◌, Bool-cases, arith,
}
use vpnd.Daemon.{Daemon}

-- `close(fd)`: closing what is not open changes nothing.
abbrev pub closed : ℕ → List ℕ → List ℕ
closed fd [] = []
closed fd (x ∷ xs) = if x == fd then closed fd xs else x ∷ closed fd xs

abbrev pub close_fd : Option ℕ → List ℕ → List ℕ
close_fd none fds = fds
close_fd (some fd) fds = closed fd fds

abbrev pub is_open : ℕ → List ℕ → Bool
is_open fd [] = false
is_open fd (x ∷ xs) = (x == fd) || is_open fd xs

pub is_open-closed : (fd : ℕ) (fds : List ℕ) → is_open fd (closed fd fds) ≡ false
is_open-closed fd [] = refl
is_open-closed fd (x ∷ xs) = elim (Bool-cases (x == fd)) [
  | inl same ↦ rw same (is_open-closed fd xs)
  | inr other ↦ ground (arith, other, is_open-closed fd xs)
]

-- The others stay open.
pub is_open-closed_other :
    (fd old : ℕ) (fds : List ℕ)
    → (fd == old) ≡ false
    → is_open old (closed fd fds) ≡ is_open old fds
is_open-closed_other fd old [] h = refl
is_open-closed_other fd old (x ∷ xs) h = elim (Bool-cases (x == fd)) [
  | inl same ↦ let ih = is_open-closed_other fd old xs h in rw same (ground (arith, same, h, ih))
  | inr other ↦ rw other (ap (λ (b : Bool). (x == old) || b) (is_open-closed_other fd old xs h))
]

-- Closing what is not open.
pub closed-fresh : (fd : ℕ) (fds : List ℕ) → is_open fd fds ≡ false → closed fd fds ≡ fds
closed-fresh fd [] h = refl
closed-fresh fd (x ∷ xs) h = elim (Bool-cases (x == fd)) [
  | inl same ↦ absurd (ground (arith, same))
  | inr other ↦ rw other (ap (◌∷◌ x) (closed-fresh fd xs (ground (arith, other))))
]

pub close_new : (s : ℕ) (fds : List ℕ) → is_open s fds ≡ false → closed s (s ∷ fds) ≡ fds
close_new s fds h = choose (s == s) (ground arith)
  where
    choose : (b : Bool) → b ≡ true → (if b then closed s fds else s ∷ closed s fds) ≡ fds
    choose true e = closed-fresh s fds h
    choose false e = cc

-- One more system call was made.
abbrev pub called : Daemon → Daemon
called d = record d { net = record d.net { calls = d.net.calls + 1 } }

-- `fd > 0`
abbrev pub positive : Option ℕ → Bool
positive none = false
positive (some zero) = false
positive (some (suc n)) = true

abbrev pub opened : ℕ → Daemon → Daemon
opened fd d = record (called d) { fds = fd ∷ d.fds }

abbrev pub close : ℕ → Daemon → Daemon
close fd d = record d { fds = close_fd (some fd) d.fds }
