-- ===== src/KeyRing.antt =====
-- The keys of the daemon: the second half of src/rsa.c, which loads keys from the configuration directory
-- and frees them. The files are a parameter.
-- A pointer to a key is its place in `objects`; a place that holds `none` was freed, and freeing it
-- again is a fault. What a place holds else is a key as `Rsa` reads it.
pub mod Trusted
pub mod Folder
pub mod Freeing
mod Tests
use vpnd.Base.{
  ℕ, zero, suc, ◌+◌, Bool, true, false, Option, none, some, List, [], ◌∷◌, ◌++◌, get_elem?, set,
  length, if◌then◌else◌, Outcome, ok, fault, stuck, ◌>>=◌,
}
use vpnd.Config.{join_paths}
use vpnd.Rsa.{Rsa}

pub record Entry : Type 0 where
  pub name : List ℕ
  pub is_file : Bool  -- `d_type == DT_REG`

pub record Files : Type 0 where
  -- what a file holds, if `fopen` opens it
  pub contents : List ℕ → Option (List ℕ)
  -- what `readdir` lists, if `opendir` opens it
  pub entries : List ℕ → Option (List Entry)

pub record KeyRing : Type 0 where
  pub objects : List (Option ℕ)
  pub daemon_privkey : Option ℕ
  pub daemon_pubkey : Option ℕ
  pub trusted_keys : List ℕ
  pub allocs : ℕ  -- the allocations asked for so far

-- "key.priv", "key.pub" and "trusted_keys"
abbrev pub priv_name : List ℕ
priv_name = 107 ∷ 101 ∷ 121 ∷ 46 ∷ 112 ∷ 114 ∷ 105 ∷ 118 ∷ []

abbrev pub pub_name : List ℕ
pub_name = 107 ∷ 101 ∷ 121 ∷ 46 ∷ 112 ∷ 117 ∷ 98 ∷ []

abbrev pub trusted_name : List ℕ
trusted_name = 116 ∷ 114 ∷ 117 ∷ 115 ∷ 116 ∷ 101 ∷ 100 ∷ 95 ∷ 107 ∷ 101 ∷ 121 ∷ 115 ∷ []

unfoldable pub load_rsa_key : Rsa → Files → List ℕ → Bool → Option ℕ
load_rsa_key rsa files path public = elim (files.contents path) [
  | none ↦ none
  | some bytes ↦ if public then rsa.read_pubkey bytes else rsa.read_privkey bytes
]

-- `RSA_free`, which does nothing for NULL.
unfoldable pub rsa_free : List (Option ℕ) → Option ℕ → Outcome (List (Option ℕ))
rsa_free objects none = ok objects
rsa_free objects (some p) = elim (get_elem? objects p) [
  | none ↦ fault
  | some none ↦ fault
  | some (some key) ↦ ok (set objects p none)
]

-- A loaded key is a new object.
unfoldable pub place : Option ℕ → List (Option ℕ) → Option ℕ × List (Option ℕ)
place none objects = (none, objects)
place (some key) objects = (some (length objects), objects ++ (some key ∷ []))

-- One more allocation was asked for.
abbrev pub asked : KeyRing → KeyRing
asked r = record r { allocs = r.allocs + 1 }

abbrev pub put_privkey : KeyRing → Option ℕ × List (Option ℕ) → Option ℕ × KeyRing
put_privkey r (key, objects) = (key, record r { objects = objects; daemon_privkey = key })

abbrev pub put_pubkey : KeyRing → Option ℕ × List (Option ℕ) → Option ℕ × KeyRing
put_pubkey r (key, objects) = (key, record r { objects = objects; daemon_pubkey = key })

-- `path` is what `join_paths` gives.
unfoldable pub replace_privkey :
    Rsa → Files → Option (List ℕ) → KeyRing → Outcome (Option ℕ × KeyRing)
replace_privkey rsa files none r = ok (r.daemon_privkey, r)
replace_privkey rsa files (some path) r = rsa_free r.objects r.daemon_privkey >>= λ objects.
    ok (put_privkey r (place (load_rsa_key rsa files path false) objects))

-- The key that is returned when there is no memory is the private one.
unfoldable pub replace_pubkey :
    Rsa → Files → Option (List ℕ) → KeyRing → Outcome (Option ℕ × KeyRing)
replace_pubkey rsa files none r = ok (r.daemon_privkey, r)
replace_pubkey rsa files (some path) r = rsa_free r.objects r.daemon_pubkey >>= λ objects.
    ok (put_pubkey r (place (load_rsa_key rsa files path true) objects))

unfoldable pub load_daemon_privkey :
    Rsa → Files → (ℕ → Bool) → List ℕ → KeyRing → Outcome (Option ℕ × KeyRing)
load_daemon_privkey rsa files memory config_dir r = do
  path ← join_paths (memory r.allocs) config_dir priv_name
  replace_privkey rsa files path (asked r)

unfoldable pub load_daemon_pubkey :
    Rsa → Files → (ℕ → Bool) → List ℕ → KeyRing → Outcome (Option ℕ × KeyRing)
load_daemon_pubkey rsa files memory config_dir r = do
  path ← join_paths (memory r.allocs) config_dir pub_name
  replace_pubkey rsa files path (asked r)

-- Both pointers stay as they are.
unfoldable pub free_daemon_keys : KeyRing → Outcome KeyRing
free_daemon_keys r = do
  objects ← rsa_free r.objects r.daemon_pubkey
  objects' ← rsa_free objects r.daemon_privkey
  ok (record r { objects = objects' })

unfoldable pub free_all : List (Option ℕ) → List ℕ → Outcome (List (Option ℕ))
free_all objects [] = ok objects
free_all objects (key ∷ next) = rsa_free objects (some key) >>= λ objects'. free_all objects' next

unfoldable pub clear_trusted_keys : KeyRing → Outcome KeyRing
clear_trusted_keys r = free_all r.objects r.trusted_keys >>= λ objects.
    ok (record r { objects = objects; trusted_keys = [] })

-- `add_trusted_key`, where the key was loaded; without memory for it the key stays an object.
unfoldable pub trust : (ℕ → Bool) → Option ℕ → KeyRing → KeyRing
trust memory none r = r
trust memory (some key) r = record r {
  objects = r.objects ++ (some key ∷ []);
  trusted_keys =
      if memory r.allocs then r.trusted_keys ++ (length r.objects ∷ []) else r.trusted_keys;
  allocs = r.allocs + 1;
}

-- The loop over the directory: whether the directory is still open behind it.
unfoldable pub scan :
    Rsa → Files → (ℕ → Bool) → List ℕ → List Entry → KeyRing → Outcome (Bool × KeyRing)
scan rsa files memory path [] r = ok (true, r)
scan rsa files memory path (element ∷ rest) r =
    let further = λ (r' : KeyRing). scan rsa files memory path rest r' in
    if element.is_file
    then (join_paths (memory r.allocs) path element.name >>= λ fullpath. elim fullpath [
      | none ↦ ok (false, asked r)
      | some full ↦ further (trust memory (load_rsa_key rsa files full true) (asked r))
    ])
    else further r

-- `closedir`, which is a fault when it was called before.
abbrev pub close_dir : Bool × KeyRing → Outcome KeyRing
close_dir (is_open, r) = if is_open then ok r else fault

abbrev pub scan_dir :
    Rsa → Files → (ℕ → Bool) → List ℕ → Option (List Entry) → KeyRing → Outcome KeyRing
scan_dir rsa files memory path none r = ok r
scan_dir rsa files memory path (some elements) r =
    scan rsa files memory path elements r >>= close_dir

abbrev pub trust_folder : Rsa → Files → (ℕ → Bool) → Option (List ℕ) → KeyRing → Outcome KeyRing
trust_folder rsa files memory none r = ok r
trust_folder rsa files memory (some path) r = scan_dir rsa files memory path (files.entries path) r

unfoldable pub load_trusted_keys : Rsa → Files → (ℕ → Bool) → List ℕ → KeyRing → Outcome KeyRing
load_trusted_keys rsa files memory config_dir r = do
  path ← join_paths (memory r.allocs) config_dir trusted_name
  trust_folder rsa files memory path (asked r)

-- The keys that pointers stand for.
unfoldable pub key_at : List (Option ℕ) → ℕ → Option ℕ
key_at objects p = elim (get_elem? objects p) [ none ↦ none | some cell ↦ cell ]
