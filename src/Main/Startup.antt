-- ===== src/Main/Startup.antt =====
-- A start without the public key: `vpnd` of src/vpnd.c, which frees the keys, and the exit, which frees
-- them again.
use vpnd.Base.{
  ℕ, ◌≡◌, refl, sym, ap, ◌∙◌, Bool, true, false, Option, none, some, List, [], ◌∷◌, Outcome, ok,
  fault, stuck, ◌>>=◌, or_fault, ok-injective, if◌then◌else◌,
}
use vpnd.Config.{Args, join_paths}
use vpnd.Peer.{Peer, destroy_peers}
use vpnd.Encryption.{CtxStore}
use vpnd.KeyRing.{
  KeyRing, rsa_free, replace_privkey, replace_pubkey, load_daemon_privkey, load_daemon_pubkey,
  free_daemon_keys, priv_name, pub_name, asked, place, put_privkey, put_pubkey, load_rsa_key,
}
use vpnd.Interface.{tuntap_close}
use vpnd.KeyRing.Freeing.{free_daemon_keys-twice}
use vpnd.Main.Closing.{tuntap_close-peers}
use vpnd.Main.{
  Machine, Program, close_vpnd, load_keys, public_next, keys_or_free, with_ring, run_keys, run_vpnd,
  exit_process,
}

-- The pointers to the private key and to the public key after a step.
replace_privkey-keeps :
    (m : Machine) (path : Option (List ℕ)) (r r' : KeyRing) (k : ℕ)
    → replace_privkey m.env.rsa m.files path r ≡ ok (some k, r')
    → (r'.daemon_privkey ≡ some k) × (r'.daemon_pubkey ≡ r.daemon_pubkey)
unfolding replace_privkey
replace_privkey-keeps m none r r' k h =
    let both : (r.daemon_privkey, r) ≡ (some k, r') = ok-injective h in
    (
      ap (λ (t : Option ℕ × KeyRing). t.1.daemon_privkey) (sym both)
          ∙ ap (λ (t : Option ℕ × KeyRing). t.0) both,
      ap (λ (t : Option ℕ × KeyRing). t.1.daemon_pubkey) (sym both),
    )
replace_privkey-keeps m (some path) r r' k h = freed (rsa_free r.objects r.daemon_privkey) h
  where
    freed :
        (o : Outcome (List (Option ℕ)))
        → (o >>= λ objects.
            ok (put_privkey r (place (load_rsa_key m.env.rsa m.files path false) objects)))
          ≡ ok (some k, r')
        → (r'.daemon_privkey ≡ some k) × (r'.daemon_pubkey ≡ r.daemon_pubkey)
    freed (ok objects) e =
        let both : put_privkey r (place (load_rsa_key m.env.rsa m.files path false) objects)
            ≡ (some k, r') =
          ok-injective e in
        (
          ap (λ (t : Option ℕ × KeyRing). t.1.daemon_privkey) (sym both)
              ∙ ap (λ (t : Option ℕ × KeyRing). t.0) both,
          ap (λ (t : Option ℕ × KeyRing). t.1.daemon_pubkey) (sym both),
        )
    freed fault e = cc
    freed stuck e = cc

replace_pubkey-fails :
    (m : Machine) (path : Option (List ℕ)) (r r' : KeyRing) (k : ℕ)
    → r.daemon_privkey ≡ some k
    → replace_pubkey m.env.rsa m.files path r ≡ ok (none, r')
    → (r'.daemon_privkey ≡ some k) × (r'.daemon_pubkey ≡ none)
unfolding replace_pubkey
replace_pubkey-fails m none r r' k private h =
    let both : (r.daemon_privkey, r) ≡ (none, r') = ok-injective h in
    absurd (has_key (sym private ∙ ap (λ (t : Option ℕ × KeyRing). t.0) both))
  where
    has_key : some k ≡ none → ⊥
    has_key e = cc
replace_pubkey-fails m (some path) r r' k private h = freed (rsa_free r.objects r.daemon_pubkey) h
  where
    freed :
        (o : Outcome (List (Option ℕ)))
        → (o >>= λ objects.
            ok (put_pubkey r (place (load_rsa_key m.env.rsa m.files path true) objects)))
          ≡ ok (none, r')
        → (r'.daemon_privkey ≡ some k) × (r'.daemon_pubkey ≡ none)
    freed (ok objects) e =
        let both : put_pubkey r (place (load_rsa_key m.env.rsa m.files path true) objects)
            ≡ (none, r') =
          ok-injective e in
        (
          ap (λ (t : Option ℕ × KeyRing). t.1.daemon_privkey) (sym both) ∙ private,
          ap (λ (t : Option ℕ × KeyRing). t.1.daemon_pubkey) (sym both)
              ∙ ap (λ (t : Option ℕ × KeyRing). t.0) both,
        )
    freed fault e = cc
    freed stuck e = cc

load_daemon_privkey-keeps :
    (m : Machine) (dir : List ℕ) (r r' : KeyRing) (k : ℕ)
    → load_daemon_privkey m.env.rsa m.files m.memory dir r ≡ ok (some k, r')
    → r'.daemon_privkey ≡ some k
unfolding load_daemon_privkey
load_daemon_privkey-keeps m dir r r' k = go (join_paths (m.memory r.allocs) dir priv_name)
  where
    go :
        (o : Outcome (Option (List ℕ)))
        → (o >>= λ path. replace_privkey m.env.rsa m.files path (asked r)) ≡ ok (some k, r')
        → r'.daemon_privkey ≡ some k
    go (ok path) h = (replace_privkey-keeps m path (asked r) r' k h).0
    go fault h = cc
    go stuck h = cc

load_daemon_pubkey-fails :
    (m : Machine) (dir : List ℕ) (r r' : KeyRing) (k : ℕ)
    → r.daemon_privkey ≡ some k
    → load_daemon_pubkey m.env.rsa m.files m.memory dir r ≡ ok (none, r')
    → (r'.daemon_privkey ≡ some k) × (r'.daemon_pubkey ≡ none)
unfolding load_daemon_pubkey
load_daemon_pubkey-fails m dir r r' k private = go (join_paths (m.memory r.allocs) dir pub_name)
  where
    go :
        (o : Outcome (Option (List ℕ)))
        → (o >>= λ path. replace_pubkey m.env.rsa m.files path (asked r)) ≡ ok (none, r')
        → (r'.daemon_privkey ≡ some k) × (r'.daemon_pubkey ≡ none)
    go (ok path) h = replace_pubkey-fails m path (asked r) r' k private h
    go fault h = cc
    go stuck h = cc

load_keys-fails :
    (m : Machine) (dir : List ℕ) (r r₁ r₂ : KeyRing) (k : ℕ)
    → load_daemon_privkey m.env.rsa m.files m.memory dir r ≡ ok (some k, r₁)
    → load_daemon_pubkey m.env.rsa m.files m.memory dir r₁ ≡ ok (none, r₂)
    → load_keys m dir r ≡ (free_daemon_keys r₂ >>= λ r'. ok (false, r'))
unfolding load_keys
load_keys-fails m dir r r₁ r₂ k private public =
    ap (λ (o : Outcome (Option ℕ × KeyRing)). o >>= λ x. (public_next m dir x >>= keys_or_free))
      private
    ∙ ap (λ (o : Outcome (Option ℕ × KeyRing)). o >>= keys_or_free) public

-- `close_vpnd` does not get past keys that cannot be freed.
close_vpnd-faults :
    (p : Program)
    → p.already_closing ≡ false
    → p.daemon.peers ≡ []
    → free_daemon_keys p.ring ≡ fault
    → close_vpnd p ≡ fault
unfolding close_vpnd destroy_peers
close_vpnd-faults p first no_peers freed = choose p.already_closing first _ (
    go (tuntap_close p.daemon).peers (tuntap_close-peers p.daemon ∙ no_peers) _ _
      (free_daemon_keys p.ring) freed)
  where
    choose :
        (b : Bool) → b ≡ false → (x : Outcome Program) → x ≡ fault → (if b then ok p else x) ≡ fault
    choose true h x e = cc
    choose false h x e = e

    go :
        (ps : List Peer)
        → ps ≡ []
        → (ctxs : CtxStore) (f : CtxStore → KeyRing → Outcome Program) (o : Outcome KeyRing)
        → o ≡ fault
        → (destroy_peers ps ctxs >>= λ c. (o >>= f c)) ≡ fault
    go [] h ctxs f o e = ap (λ (t : Outcome KeyRing). t >>= f ctxs) e
    go (x ∷ xs) h ctxs f o e = cc

-- When the private key was loaded and the public key cannot be, `vpnd` frees the private key and returns,
-- and the exit of the process frees it again.
pub run_vpnd-double_free :
    (m : Machine) (args : Args) (fuel : ℕ) (buf dir : List ℕ) (p : Program) (k : ℕ)
    (r₁ r₂ : KeyRing)
    → p.config_dir ≡ some dir
    → p.daemon.peers ≡ []
    → p.already_closing ≡ false
    → load_daemon_privkey m.env.rsa m.files m.memory dir p.ring ≡ ok (some k, r₁)
    → load_daemon_pubkey m.env.rsa m.files m.memory dir r₁ ≡ ok (none, r₂)
    → (run_vpnd m args fuel buf p >>= exit_process) ≡ fault
unfolding run_vpnd run_keys exit_process
run_vpnd-double_free m args fuel buf dir p k r₁ r₂ config no_peers first private public =
    let (kept, none_left) =
      load_daemon_pubkey-fails m dir r₁ r₂ k (load_daemon_privkey-keeps m dir p.ring r₁ k private)
        public in
    ap
      (λ (c : Option (List ℕ)).
        (or_fault c >>= λ dir'. (load_keys m dir' p.ring >>= run_keys m args fuel buf dir' p))
        >>= exit_process)
      config
    ∙ (ap
          (λ (o : Outcome (Bool × KeyRing)).
            (o >>= run_keys m args fuel buf dir p) >>= exit_process)
          (load_keys-fails m dir p.ring r₁ r₂ k private public)
        ∙ go (free_daemon_keys r₂) (free_daemon_keys-twice r₂ k kept none_left))
  where
    go :
        (o : Outcome KeyRing)
        → (o >>= free_daemon_keys) ≡ fault
        → (((o >>= λ r'. ok (false, r')) >>= run_keys m args fuel buf dir p) >>= exit_process)
          ≡ fault
    go (ok r') h =
        ap (λ (o : Outcome Program). o >>= λ p'. ok (false, p'))
          (close_vpnd-faults (record (with_ring p r') { daemon = tuntap_close p.daemon }) first
            (tuntap_close-peers p.daemon ∙ no_peers) h)
    go fault h = refl
    go stuck h = cc
