-- ===== src/KeyRing/Tests.antt =====
-- A configuration directory "e" with a folder of two keys, and the theorems on it.
use vpnd.Base.{
  ◌≡◌, refl, true, false, none, some, List, [], ◌∷◌, ◌++◌, ◌==◌, if◌then◌else◌, length, ok, arith,
}
use vpnd.Config.{joined}
use vpnd.PeerNet.Sample.{plain_rsa}
use vpnd.KeyRing.{Entry, Files, KeyRing, trusted_name, load_trusted_keys}
use vpnd.KeyRing.Trusted.{Placed, keys_at, folder_keys, load_trusted_keys-keys}

abbrev dir_entry : Entry
dir_entry = record { name = 46 ∷ []; is_file = false }

abbrev key_a : Entry
key_a = record { name = 97 ∷ []; is_file = true }

abbrev key_b : Entry
key_b = record { name = 98 ∷ []; is_file = true }

abbrev listing : List Entry
listing = dir_entry ∷ key_a ∷ key_b ∷ []

-- The file "e/trusted_keys/a" holds the key 7; every other is empty.
abbrev sample_files : Files
sample_files = record {
  contents = λ path. if length path == 16 then some (7 ∷ []) else some [];
  entries = λ path. some listing;
}

abbrev sample_ring : KeyRing
sample_ring = record {
  objects = some 4 ∷ [];
  daemon_privkey = none;
  daemon_pubkey = none;
  trusted_keys = 0 ∷ [];
  allocs = 0;
}

load_trusted_keys-keys_example :
    (r' : KeyRing) × (load_trusted_keys plain_rsa sample_files (λ n. true) (101 ∷ []) sample_ring
      ≡ ok r')
    × Placed r'
    × (keys_at r'.objects r'.trusted_keys
        ≡ keys_at sample_ring.objects sample_ring.trusted_keys
          ++ folder_keys plain_rsa sample_files (joined (101 ∷ []) trusted_name) listing)
load_trusted_keys-keys_example =
    load_trusted_keys-keys plain_rsa sample_files (λ n. true) (λ n. refl) 101 [] listing sample_ring
      refl (omega arith, tt)
