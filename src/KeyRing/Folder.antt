-- ===== src/KeyRing/Folder.antt =====
-- A folder of trusted keys that is read without enough memory: `load_trusted_keys` of src/rsa.c.
use vpnd.Base.{
  ℕ, ◌+◌, ◌≡◌, refl, ap, ◌∙◌, Bool, true, false, Option, none, some, List, [], ◌∷◌, ◌++◌,
  if◌then◌else◌, Outcome, ok, fault, ◌>>=◌, All,
}
use vpnd.Config.{joined, join_paths}
use vpnd.Rsa.{Rsa}
use vpnd.KeyRing.{
  Entry, Files, KeyRing, load_rsa_key, trust, scan, trusted_name, asked, close_dir, scan_dir,
  trust_folder, load_trusted_keys,
}

join_paths-refused : (b : Bool) (path name : List ℕ) → b ≡ false → join_paths b path name ≡ ok none
unfolding join_paths
join_paths-refused true path name h = cc
join_paths-refused false path name h = refl

join_paths-given :
    (b : Bool) (c : ℕ) (cs name : List ℕ)
    → b ≡ true
    → join_paths b (c ∷ cs) name ≡ ok (some (joined (c ∷ cs) name))
unfolding join_paths
join_paths-given true c cs name h = refl
join_paths-given false c cs name h = cc

-- The scan passes what is no file and stops at the first file.
scan-refused :
    (rsa : Rsa) (files : Files) (memory : ℕ → Bool) (path : List ℕ) (before after : List Entry)
    (x : Entry) (r : KeyRing)
    → All (λ y. y.is_file ≡ false) before
    → x.is_file ≡ true
    → memory r.allocs ≡ false
    → scan rsa files memory path (before ++ (x ∷ after)) r ≡ ok (false, asked r)
unfolding scan
scan-refused rsa files memory path [] after x r others file refused = choose x.is_file file
  where
    load : Option (List ℕ) → Outcome (Bool × KeyRing)
    load fullpath = elim fullpath [
      | none ↦ ok (false, asked r)
      | some full ↦
          scan rsa files memory path after
            (trust memory (load_rsa_key rsa files full true) (asked r))
    ]

    choose :
        (b : Bool)
        → b ≡ true
        → (if b
            then join_paths (memory r.allocs) path x.name >>= load
            else scan rsa files memory path after r)
          ≡ ok (false, asked r)
    choose true h =
        ap (λ (j : Outcome (Option (List ℕ))). j >>= load)
          (join_paths-refused (memory r.allocs) path x.name refused)
    choose false h = cc
scan-refused rsa files memory path (y ∷ ys) after x r others file refused =
    choose y.is_file others.0 _
      (scan-refused rsa files memory path ys after x r others.1 file refused)
  where
    choose :
        (b : Bool)
        → b ≡ false
        → (l : Outcome (Bool × KeyRing)) {further : Outcome (Bool × KeyRing)}
        → further ≡ ok (false, asked r)
        → (if b then l else further) ≡ ok (false, asked r)
    choose true h l e = cc
    choose false h l e = e

-- When the memory for the path of the first regular file of the folder is refused, `load_trusted_keys`
-- closes the directory, leaves the loop, and closes the directory again.
pub load_trusted_keys-closes_twice :
    (rsa : Rsa) (files : Files) (memory : ℕ → Bool) (c : ℕ) (cs : List ℕ)
    (before after : List Entry) (x : Entry) (r : KeyRing)
    → memory r.allocs ≡ true
    → files.entries (joined (c ∷ cs) trusted_name) ≡ some (before ++ (x ∷ after))
    → All (λ y. y.is_file ≡ false) before
    → x.is_file ≡ true
    → memory (r.allocs + 1) ≡ false
    → load_trusted_keys rsa files memory (c ∷ cs) r ≡ fault
unfolding load_trusted_keys
load_trusted_keys-closes_twice rsa files memory c cs before after x r given listed others file
      refused =
    let path : List ℕ = joined (c ∷ cs) trusted_name in
    ap (λ (j : Outcome (Option (List ℕ))). j >>= λ p. trust_folder rsa files memory p (asked r))
      (join_paths-given (memory r.allocs) c cs trusted_name given)
    ∙ (ap (λ (o : Option (List Entry)). scan_dir rsa files memory path o (asked r)) listed
        ∙ ap (λ (s : Outcome (Bool × KeyRing)). s >>= close_dir)
            (scan-refused rsa files memory path before after x (asked r) others file refused))
