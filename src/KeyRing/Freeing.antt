-- ===== src/KeyRing/Freeing.antt =====
-- Freeing the keys of the daemon twice: `free_daemon_keys` of src/rsa.c leaves the pointers.
use vpnd.Base.{
  ℕ, ◌≡◌, refl, ap, ◌∙◌, Option, none, some, List, get_elem?, set, Outcome, ok, fault, stuck, ◌>>=◌,
  get_elem?-set_self,
}
use vpnd.KeyRing.{KeyRing, rsa_free, free_daemon_keys}

-- A key that was freed cannot be freed again.
rsa_free-twice :
    (objects : List (Option ℕ)) (k : ℕ)
    → (rsa_free objects (some k) >>= λ o. rsa_free o (some k)) ≡ fault
unfolding rsa_free
rsa_free-twice objects k = go (get_elem? objects k) refl
  where
    free : List (Option ℕ) → Option (Option ℕ) → Outcome (List (Option ℕ))
    free os x = elim x [ none ↦ fault | some none ↦ fault | some (some key) ↦ ok (set os k none) ]

    go :
        (x : Option (Option ℕ))
        → get_elem? objects k ≡ x
        → (free objects x >>= λ o. rsa_free o (some k)) ≡ fault
    go none h = refl
    go (some none) h = refl
    go (some (some key)) h = rw (rsa_free, get_elem?-set_self objects k none h) refl

-- With a private key only.
free_daemon_keys-private :
    (r : KeyRing) (k : ℕ)
    → r.daemon_privkey ≡ some k
    → r.daemon_pubkey ≡ none
    → free_daemon_keys r
      ≡ (rsa_free r.objects (some k) >>= λ objects. ok (record r { objects = objects }))
unfolding free_daemon_keys rsa_free
free_daemon_keys-private r k private public = go r.daemon_pubkey r.daemon_privkey public private
  where
    go :
        (pk sk : Option ℕ)
        → pk ≡ none
        → sk ≡ some k
        → (rsa_free r.objects pk >>= λ o. rsa_free o sk >>= λ o'. ok (record r { objects = o' }))
          ≡ (rsa_free r.objects (some k) >>= λ objects. ok (record r { objects = objects }))
    go none sk h same = rw (rsa_free, same) refl
    go (some q) sk h same = cc

pub free_daemon_keys-twice :
    (r : KeyRing) (k : ℕ)
    → r.daemon_privkey ≡ some k
    → r.daemon_pubkey ≡ none
    → (free_daemon_keys r >>= free_daemon_keys) ≡ fault
free_daemon_keys-twice r k private public =
    ap (λ (o : Outcome KeyRing). o >>= free_daemon_keys)
      (free_daemon_keys-private r k private public)
    ∙ go (rsa_free r.objects (some k)) (rsa_free-twice r.objects k)
  where
    again :
        (objects : List (Option ℕ))
        → rsa_free objects (some k) ≡ fault
        → free_daemon_keys (record r { objects = objects }) ≡ fault
    again objects h =
        free_daemon_keys-private (record r { objects = objects }) k private public
        ∙ ap
            (λ (o : Outcome (List (Option ℕ))).
              o >>= λ os. ok (record (record r { objects = objects }) { objects = os }))
            h

    go :
        (o : Outcome (List (Option ℕ)))
        → (o >>= λ objects. rsa_free objects (some k)) ≡ fault
        → ((o >>= λ objects. ok (record r { objects = objects })) >>= free_daemon_keys) ≡ fault
    go (ok objects) h = again objects h
    go fault h = refl
    go stuck h = cc
