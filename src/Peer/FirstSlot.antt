-- ===== src/Peer/FirstSlot.antt =====
-- Which slot `add_peer` of src/peer.c takes.
use vpnd.Base.{
  ℕ, zero, suc, ◌+◌, ◌<◌, ◌≡◌, refl, ap, ◌∙◌, Bool, true, false, not, Option, some, List, [], ◌∷◌,
  get_elem?, set, if◌then◌else◌, Outcome, ok, ◌>>=◌, arith,
}
use vpnd.Encryption.{CtxStore}
use vpnd.Peer.{Peer, Connection, set_peer_info, add_peer_from}

-- The first slot that is free is taken.
pub add_peer_from-first :
    (malloc strdup : Bool) (c : Connection) (n i : ℕ) (peers : List Peer) (store : CtxStore)
    (p : Peer) (r : Peer × CtxStore)
    → get_elem? peers i ≡ some p
    → p.alive ≡ false
    → ((k : ℕ) (x : Peer) → k < i → get_elem? peers k ≡ some x → x.alive ≡ true)
    → set_peer_info strdup p c store ≡ ok r
    → add_peer_from malloc strdup c n peers store ≡ ok (some (n + i), set peers i r.0, r.1)
unfolding add_peer_from
add_peer_from-first malloc strdup c n i [] store p r found dead up made = cc
add_peer_from-first malloc strdup c n zero (x ∷ xs) store p r found dead up made =
    let same : x ≡ p = cc in
    ap
      (λ (b : Bool).
        if not b
        then (set_peer_info strdup x c store >>= λ t. ok (some n, t.0 ∷ xs, t.1))
        else (add_peer_from malloc strdup c (n + 1) xs store >>= λ t. ok (t.0, x ∷ t.1, t.2)))
      (ap (λ (y : Peer). y.alive) same ∙ dead)
    ∙ ap (λ (t : Outcome (Peer × CtxStore)). t >>= λ t. ok (some n, t.0 ∷ xs, t.1))
        (ap (λ (y : Peer). set_peer_info strdup y c store) same ∙ made)
    ∙ ap (λ (k : ℕ). ok (some k, r.0 ∷ xs, r.1)) (omega arith)
add_peer_from-first malloc strdup c n (suc i) (x ∷ xs) store p r found dead up made =
    let ih =
      add_peer_from-first malloc strdup c (n + 1) i xs store p r found dead
        (λ k y below at. up (suc k) y (omega (arith, below)) at) made in
    ap
      (λ (b : Bool).
        if not b
        then (set_peer_info strdup x c store >>= λ t. ok (some n, t.0 ∷ xs, t.1))
        else (add_peer_from malloc strdup c (n + 1) xs store >>= λ t. ok (t.0, x ∷ t.1, t.2)))
      (up 0 x (omega arith) refl)
    ∙ ap (λ (t : Outcome (Option ℕ × List Peer × CtxStore)). t >>= λ t. ok (t.0, x ∷ t.1, t.2)) ih
    ∙ ap (λ (k : ℕ). ok (some k, x ∷ set xs i r.0, r.1)) (omega arith)
