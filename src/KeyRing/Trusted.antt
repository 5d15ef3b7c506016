-- ===== src/KeyRing/Trusted.antt =====
-- Which keys are trusted: `load_trusted_keys` of src/rsa.c.
use vpnd.Base.{
  ℕ, zero, suc, ◌+◌, ◌<◌, ◌≡◌, refl, sym, ap, ◌∙◌, Bool, true, false, not, ◌&&◌, Option, none, some,
  List, [], ◌∷◌, ◌++◌, get_elem?, length, drop, if◌then◌else◌, Outcome, ok, fault, stuck, ◌>>=◌,
  All, arith, subst,
}
use vpnd.Config.{joined, join_paths, starts_with_slash, ends_with_slash, slash}
use vpnd.Rsa.{Rsa}
use vpnd.KeyRing.{
  Entry, Files, KeyRing, load_rsa_key, trust, scan, trusted_name, asked, close_dir, scan_dir,
  trust_folder, load_trusted_keys, key_at,
}

-- The keys that the pointers stand for, in order.
abbrev pub keys_at : List (Option ℕ) → List ℕ → List (Option ℕ)
keys_at objects [] = []
keys_at objects (p ∷ ps) = key_at objects p ∷ keys_at objects ps

-- The keys of the regular files of a folder that hold one, in order.
abbrev with_key : Option ℕ → List (Option ℕ) → List (Option ℕ)
with_key none keys = keys
with_key (some key) keys = some key ∷ keys

abbrev pub folder_keys : Rsa → Files → List ℕ → List Entry → List (Option ℕ)
folder_keys rsa files path [] = []
folder_keys rsa files path (x ∷ xs) =
    let rest = folder_keys rsa files path xs in
    if x.is_file then with_key (load_rsa_key rsa files (joined path x.name) true) rest else rest

-- Every pointer is to an object.
abbrev pub Placed : KeyRing → Type 0
Placed r = All (λ p. p < length r.objects) r.trusted_keys

get_elem?-append :
    (xs ys : List (Option ℕ)) (i : ℕ) → i < length xs → get_elem? (xs ++ ys) i ≡ get_elem? xs i
get_elem?-append [] ys i h = absurd (omega arith)
get_elem?-append (x ∷ xs) ys zero h = refl
get_elem?-append (x ∷ xs) ys (suc i) h = get_elem?-append xs ys i (omega arith)

get_elem?-last :
    (xs : List (Option ℕ)) (v : Option ℕ) → get_elem? (xs ++ (v ∷ [])) (length xs) ≡ some v
get_elem?-last [] v = refl
get_elem?-last (x ∷ xs) v = get_elem?-last xs v

key_at-append :
    (xs ys : List (Option ℕ)) (i : ℕ) → i < length xs → key_at (xs ++ ys) i ≡ key_at xs i
unfolding key_at
key_at-append xs ys i h = rw (key_at, get_elem?-append xs ys i h) refl

key_at-last : (xs : List (Option ℕ)) (v : Option ℕ) → key_at (xs ++ (v ∷ [])) (length xs) ≡ v
unfolding key_at
key_at-last xs v = rw (key_at, get_elem?-last xs v) refl

-- A new object at the end, and a pointer to it.
keys_at-trust :
    (objects : List (Option ℕ)) (ptrs : List ℕ) (key : ℕ)
    → All (λ p. p < length objects) ptrs
    → keys_at (objects ++ (some key ∷ [])) (ptrs ++ (length objects ∷ []))
      ≡ keys_at objects ptrs ++ (some key ∷ [])
keys_at-trust objects [] key h = ap (λ (t : Option ℕ). t ∷ []) (key_at-last objects (some key))
keys_at-trust objects (p ∷ ps) key h =
    ap (λ (t : Option ℕ). t ∷ keys_at (objects ++ (some key ∷ [])) (ps ++ (length objects ∷ [])))
      (key_at-append objects (some key ∷ []) p h.0)
    ∙ ap (◌∷◌ (key_at objects p)) (keys_at-trust objects ps key h.1)

length-snoc : (xs : List (Option ℕ)) (v : Option ℕ) → length (xs ++ (v ∷ [])) ≡ length xs + 1
length-snoc [] v = omega arith
length-snoc (x ∷ xs) v = omega (arith, length-snoc xs v)

Placed-trust :
    (objects : List (Option ℕ)) (ptrs : List ℕ) (key : ℕ)
    → All (λ p. p < length objects) ptrs
    → All (λ p. p < length (objects ++ (some key ∷ []))) (ptrs ++ (length objects ∷ []))
Placed-trust objects [] key h = (omega (arith, length-snoc objects (some key)), tt)
Placed-trust objects (p ∷ ps) key h =
    (omega (arith, h.0, length-snoc objects (some key)), Placed-trust objects ps key h.1)

append_assoc : (xs ys zs : List (Option ℕ)) → (xs ++ ys) ++ zs ≡ xs ++ (ys ++ zs)
append_assoc [] ys zs = refl
append_assoc (x ∷ xs) ys zs = ap (◌∷◌ x) (append_assoc xs ys zs)

append_nil : (xs : List (Option ℕ)) → xs ++ [] ≡ xs
append_nil [] = refl
append_nil (x ∷ xs) = ap (◌∷◌ x) (append_nil xs)

-- The keys of the ring after a scan are those from before, and `more`.
abbrev Gains : KeyRing → List (Option ℕ) → Outcome (Bool × KeyRing) → Type 0
Gains r more (ok (is_open, r')) =
    (is_open ≡ true)
    × Placed r'
    × (keys_at r'.objects r'.trusted_keys ≡ keys_at r.objects r.trusted_keys ++ more)
Gains r more fault = ⊥
Gains r more stuck = ⊥

module _ (rsa : Rsa) (files : Files) (memory : ℕ → Bool) (given : (n : ℕ) → memory n ≡ true) where
  trust-Placed :
      (o : Option ℕ) (r : KeyRing)
      → Placed r
      → Placed (trust memory o r)
        × (keys_at (trust memory o r).objects (trust memory o r).trusted_keys
            ≡ keys_at r.objects r.trusted_keys ++ with_key o [])
  unfolding trust
  trust-Placed none r h = (h, sym (append_nil (keys_at r.objects r.trusted_keys)))
  trust-Placed (some key) r h =
      rw (given r.allocs)
        (Placed-trust r.objects r.trusted_keys key h, keys_at-trust r.objects r.trusted_keys key h)

  join_paths-given :
      (n c : ℕ) (cs name : List ℕ)
      → join_paths (memory n) (c ∷ cs) name ≡ ok (some (joined (c ∷ cs) name))
  unfolding join_paths
  join_paths-given n c cs name = rw (given n) refl

  with_key-append :
      (o : Option ℕ) (more : List (Option ℕ)) → with_key o [] ++ more ≡ with_key o more
  with_key-append none more = refl
  with_key-append (some key) more = refl

  Gains-after :
      (r r₁ : KeyRing) (o : Option ℕ) (more : List (Option ℕ)) (res : Outcome (Bool × KeyRing))
      → keys_at r₁.objects r₁.trusted_keys ≡ keys_at r.objects r.trusted_keys ++ with_key o []
      → Gains r₁ more res
      → Gains r (with_key o more) res
  Gains-after r r₁ o more (ok (is_open, r')) h (still, placed, keys) = (
    still,
    placed,
    keys
        ∙ (ap (λ (t : List (Option ℕ)). t ++ more) h
            ∙ (append_assoc (keys_at r.objects r.trusted_keys) (with_key o []) more
                ∙ ap (λ (t : List (Option ℕ)). keys_at r.objects r.trusted_keys ++ t)
                    (with_key-append o more))),
  )
  Gains-after r r₁ o more fault h g = g
  Gains-after r r₁ o more stuck h g = g

  scan-Gains :
      (c : ℕ) (cs : List ℕ) (elements : List Entry) (r : KeyRing)
      → Placed r
      → Gains r
          (folder_keys rsa files (c ∷ cs) elements)
          (scan rsa files memory (c ∷ cs) elements r)
  unfolding scan
  scan-Gains c cs [] r h = (refl, h, sym (append_nil (keys_at r.objects r.trusted_keys)))
  scan-Gains c cs (x ∷ xs) r h = choose x.is_file (scan-Gains c cs xs)
    where
      file : List ℕ
      file = joined (c ∷ cs) x.name

      rest : List (Option ℕ)
      rest = folder_keys rsa files (c ∷ cs) xs

      load : Option (List ℕ) → Outcome (Bool × KeyRing)
      load fullpath = elim fullpath [
        | none ↦ ok (false, asked r)
        | some full ↦
            scan rsa files memory (c ∷ cs) xs
              (trust memory (load_rsa_key rsa files full true) (asked r))
      ]

      choose :
          (b : Bool)
          → ((r' : KeyRing) → Placed r' → Gains r' rest (scan rsa files memory (c ∷ cs) xs r'))
          → Gains r (if b then with_key (load_rsa_key rsa files file true) rest else rest) (
              if b
              then join_paths (memory r.allocs) (c ∷ cs) x.name >>= load
              else scan rsa files memory (c ∷ cs) xs r)
      choose false ih = ih r h
      choose true ih =
          let o : Option ℕ = load_rsa_key rsa files file true in
          let t = trust-Placed o (asked r) h in
          subst (λ (j : Outcome (Option (List ℕ))). Gains r (with_key o rest) (j >>= load))
            (sym (join_paths-given r.allocs c cs x.name))
            (Gains-after r (trust memory o (asked r)) o rest _ t.1
              (ih (trust memory o (asked r)) t.0))

  joined-cons : (c : ℕ) (cs name : List ℕ) → (t : List ℕ) × (joined (c ∷ cs) name ≡ c ∷ t)
  joined-cons c cs name =
      first (not (ends_with_slash (c ∷ cs)) && not (starts_with_slash name))
        (ends_with_slash (c ∷ cs) && starts_with_slash name)
    where
      first :
          (a b : Bool)
          → (t : List ℕ) × ((if a
                then (c ∷ cs) ++ (slash ∷ name)
                else if b
                then (c ∷ cs) ++ drop 1 name
                else (c ∷ cs) ++ name)
              ≡ c ∷ t)
      first true b = (cs ++ (slash ∷ name), refl)
      first false true = (cs ++ drop 1 name, refl)
      first false false = (cs ++ name, refl)

  closed_dir :
      (r : KeyRing) (more : List (Option ℕ)) (res : Outcome (Bool × KeyRing))
      → Gains r more res
      → (r' : KeyRing) × ((res >>= close_dir) ≡ ok r')
        × Placed r'
        × (keys_at r'.objects r'.trusted_keys ≡ keys_at r.objects r.trusted_keys ++ more)
  closed_dir r more (ok (true, r')) (still, placed, keys) = (r', refl, placed, keys)
  closed_dir r more (ok (false, r')) (still, placed, keys) = cc
  closed_dir r more fault g = absurd g
  closed_dir r more stuck g = absurd g

  -- When there is memory and the folder `trusted_keys` of the configuration directory can be listed,
  -- `load_trusted_keys` adds to the trusted keys, in the order of the listing, the public keys of all
  -- regular files that hold one, and nothing else; the keys that were trusted before stay.
  pub load_trusted_keys-keys :
      (c : ℕ) (cs : List ℕ) (elements : List Entry) (r : KeyRing)
      → files.entries (joined (c ∷ cs) trusted_name) ≡ some elements
      → Placed r
      → (r' : KeyRing) × (load_trusted_keys rsa files memory (c ∷ cs) r ≡ ok r')
        × Placed r'
        × (keys_at r'.objects r'.trusted_keys
            ≡ keys_at r.objects r.trusted_keys
              ++ folder_keys rsa files (joined (c ∷ cs) trusted_name) elements)
  unfolding load_trusted_keys
  load_trusted_keys-keys c cs elements r listed h =
      let path : List ℕ = joined (c ∷ cs) trusted_name in
      let (t, path_cons) = joined-cons c cs trusted_name in
      let (r', scanned, placed, keys) =
        closed_dir (asked r) (folder_keys rsa files path elements)
          (scan rsa files memory path elements (asked r))
          (subst
            (λ (p : List ℕ).
              Gains (asked r) (folder_keys rsa files p elements)
                (scan rsa files memory p elements (asked r)))
            (sym path_cons) (scan-Gains c t elements (asked r) h)) in
      (
        r',
        ap (λ (j : Outcome (Option (List ℕ))). j >>= λ p. trust_folder rsa files memory p (asked r))
              (join_paths-given r.allocs c cs trusted_name)
            ∙ (ap (λ (o : Option (List Entry)). scan_dir rsa files memory path o (asked r)) listed
                ∙ scanned),
        placed,
        keys,
      )
