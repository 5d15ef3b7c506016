-- ===== src/Config/Arguments.antt =====
-- What a command line that is accepted has set: `parse_cmdline_arguments` of src/args.c.
use vpnd.Base.{
  ℕ, ◌≤◌, ◌<◌, ◌≡◌, refl, sym, ap, ◌∙◌, Bool, true, false, not, ◌&&◌, ◌||◌, Option, none, some,
  List, [], ◌∷◌, ltb, leb, ◌==◌, length, length-take, is_some, arith, Bool-cases, inl, inr,
  if◌then◌else◌,
}
use vpnd.Base.Text.{same_text}
use vpnd.Logger.{log_levels, set_logging_level, level_from, set_logging_level_str}
use vpnd.Config.{
  ℤ, negsuc, pos, long, short, first_address, Settings, Libc, Found, uint16_max, ifnamsiz,
  set_config_dir, set_dev, initialize_default_args, parse_interface_mode, port_of, parse_port,
  level_set, parse_log_level, parse_longopt, parse_shortopt, parse_option, parse_rest,
  parse_options, take_address, parse_cmdline_arguments,
}

-- What the rest of the program relies on: a port that is not 0 and fits 16 bits, an interface name
-- that leaves room for its terminator, and a log level that exists.
pub record Valid (s : Settings) : Type 0 where
  pub port_positive : 0 < s.args.port
  pub port_bound : s.args.port ≤ uint16_max
  pub dev_bound : length s.args.dev < ifnamsiz
  pub level_positive : 0 < s.log_level
  pub level_bound : s.log_level ≤ 5

abbrev Accepts : (Settings → Type 0) → Option Settings → Type 0
Accepts P none = Unit {0}
Accepts P (some s) = P s

Accepts-if :
    (P : Settings → Type 0) (b : Bool) (x y : Option Settings)
    → Accepts P x
    → Accepts P y
    → Accepts P (if b then x else y)
Accepts-if P true x y h k = h
Accepts-if P false x y h k = k

-- The settings while the options are read.
abbrev Ready : Settings → Type 0
Ready s = Valid s × (s.args.address ≡ none)

-- An option that sets none of the four fields.
flag-Ready :
    (s t : Settings)
    → t.args.port ≡ s.args.port
    → t.args.dev ≡ s.args.dev
    → t.log_level ≡ s.log_level
    → t.args.address ≡ s.args.address
    → Ready s
    → Ready t
flag-Ready s t p d l a (v, none_yet) = (
  record {
    port_positive = omega (arith, v.port_positive);
    port_bound = omega (arith, v.port_bound);
    dev_bound = omega (arith, v.dev_bound, ap length d);
    level_positive = omega (arith, v.level_positive);
    level_bound = omega (arith, v.level_bound);
  },
  cc,
)

set_dev-Ready : (name : List ℕ) (s : Settings) → Ready s → Ready (set_dev name s)
unfolding set_dev
set_dev-Ready name s (v, none_yet) = (
  record {
    port_positive = v.port_positive;
    port_bound = v.port_bound;
    dev_bound = omega (arith, length-take 15 name);
    level_positive = v.level_positive;
    level_bound = v.level_bound;
  },
  none_yet,
)

port_of-Ready : (p : ℤ) (s : Settings) → Ready s → Accepts Ready (port_of p s)
unfolding port_of
port_of-Ready (negsuc n) s r = tt
port_of-Ready (pos n) s (v, none_yet) = elim (Bool-cases (n == 0 || ltb uint16_max n)) [
  | inl bad ↦ rw (bad, Accepts) tt
  | inr good ↦
      rw (good, Accepts)
        (
          record {
            port_positive = ground arith;
            port_bound = ground arith;
            dev_bound = v.dev_bound;
            level_positive = v.level_positive;
            level_bound = v.level_bound;
          },
          none_yet,
        )
]

abbrev Level : Option ℕ → Type 0
Level none = Unit {0}
Level (some n) = (0 < n) × (n ≤ 5)

set_logging_level-Level : (n : ℕ) → Level (set_logging_level n)
unfolding set_logging_level
set_logging_level-Level n = elim (Bool-cases (leb 1 n && leb n 5)) [
  | inl good ↦ rw (good, Level) (ground arith, ground arith)
  | inr bad ↦ rw (bad, Level) tt
]

level_from-Level : (text : List ℕ) (levels : List (List ℕ × ℕ)) → Level (level_from text levels)
unfolding level_from
level_from-Level text [] = tt
level_from-Level text ((name, level) ∷ rest) = elim (Bool-cases (same_text text name)) [
  | inl same ↦ rw (same, Level) (set_logging_level-Level level)
  | inr other ↦ rw (other, Level) (level_from-Level text rest)
]

level_set-Ready : (o : Option ℕ) (s : Settings) → Level o → Ready s → Accepts Ready (level_set o s)
unfolding level_set
level_set-Ready none s l r = tt
level_set-Ready (some n) s (low, high) (v, none_yet) = (
  record {
    port_positive = v.port_positive;
    port_bound = v.port_bound;
    dev_bound = v.dev_bound;
    level_positive = low;
    level_bound = high;
  },
  none_yet,
)

parse_log_level-Ready :
    (arg : List ℕ) (s : Settings) → Ready s → Accepts Ready (parse_log_level arg s)
unfolding parse_log_level set_logging_level_str
parse_log_level-Ready arg s r = level_set-Ready _ s (level_from-Level arg log_levels) r

parse_interface_mode-Ready :
    (arg : List ℕ) (s : Settings) → Ready s → Accepts Ready (parse_interface_mode arg s)
unfolding parse_interface_mode
parse_interface_mode-Ready arg s r =
    Accepts-if Ready (same_text arg _) _ _ (flag-Ready s _ refl refl refl refl r)
      (Accepts-if Ready (same_text arg _) _ _ (flag-Ready s _ refl refl refl refl r) tt)

parse_longopt-Ready :
    (c : Libc) (k : ℕ) (arg : List ℕ) (s : Settings)
    → Ready s
    → Accepts Ready (parse_longopt c k arg s)
unfolding parse_longopt parse_port set_config_dir
parse_longopt-Ready c k arg s r = Accepts-if Ready (k == 2) _ _ (parse_log_level-Ready arg s r) (
    Accepts-if Ready (k == 3) _ _ (flag-Ready s _ refl refl refl refl r) (
      Accepts-if Ready (k == 4) _ _ (parse_interface_mode-Ready arg s r) (
        Accepts-if Ready (k == 5) _ _ (port_of-Ready (c.atoi arg) s r) (
          Accepts-if Ready (k == 6) _ _ (set_dev-Ready arg s r) (
            Accepts-if Ready (k == 7) _ _ (flag-Ready s _ refl refl refl refl r) (
              Accepts-if Ready (k == 8) _ _ (flag-Ready s _ refl refl refl refl r) (
                Accepts-if Ready (k == 9) _ _ (flag-Ready s _ refl refl refl refl r)
                  (Accepts-if Ready (k == 10) _ _ (flag-Ready s _ refl refl refl refl r) tt))))))))

parse_shortopt-Ready :
    (c : Libc) (k : ℕ) (arg : List ℕ) (s : Settings)
    → Ready s
    → Accepts Ready (parse_shortopt c k arg s)
unfolding parse_shortopt parse_port set_config_dir
parse_shortopt-Ready c k arg s r =
    Accepts-if Ready (k == 115) _ _ (flag-Ready s _ refl refl refl refl r) (
      Accepts-if Ready (k == 109) _ _ (parse_interface_mode-Ready arg s r) (
        Accepts-if Ready (k == 112) _ _ (port_of-Ready (c.atoi arg) s r) (
          Accepts-if Ready (k == 105) _ _ (set_dev-Ready arg s r)
            (Accepts-if Ready (k == 99) _ _ (flag-Ready s _ refl refl refl refl r) tt))))

parse_option-Ready :
    (c : Libc) (f : Found) (s : Settings) → Ready s → Accepts Ready (parse_option c f s)
unfolding parse_option
parse_option-Ready c (long k arg) s r = parse_longopt-Ready c k arg s r
parse_option-Ready c (short k arg) s r = parse_shortopt-Ready c k arg s r

Accepts-rest :
    (P Q : Settings → Type 0) (c : Libc) (o : Option Settings) (k : Settings → Option Settings)
    → Accepts P o
    → ((s : Settings) → P s → Accepts Q (k s))
    → Accepts Q (parse_rest c o k)
unfolding parse_rest
Accepts-rest P Q c none k h go = tt
Accepts-rest P Q c (some s) k h go = go s h

parse_options-Ready :
    (c : Libc) (found : List Found) (s : Settings)
    → Ready s
    → Accepts Ready (parse_options c found s)
unfolding parse_options
parse_options-Ready c [] s r = r
parse_options-Ready c (f ∷ rest) s r =
    Accepts-rest Ready Ready c _ _ (parse_option-Ready c f s r) (parse_options-Ready c rest)

-- The settings of a command line that is accepted: they are valid, and there is an address to
-- connect to exactly in client mode.
abbrev pub Accepted : Option Settings → Type 0
Accepted = Accepts (λ s. Valid s × (is_some s.args.address ≡ not s.args.server))

take_address-Accepted :
    (left : List (List ℕ)) (s : Settings) → Ready s → Accepted (take_address left s)
unfolding take_address first_address
take_address-Accepted left s (v, none_yet) = choose s.args.server refl left
  where
    choose :
        (b : Bool)
        → s.args.server ≡ b
        → (rest : List (List ℕ))
        → Accepted
            (if not b then first_address rest s else if length rest == 0 then some s else none)
    choose false e [] = tt
    choose false e (address ∷ more) = (
      record {
        port_positive = v.port_positive;
        port_bound = v.port_bound;
        dev_bound = v.dev_bound;
        level_positive = v.level_positive;
        level_bound = v.level_bound;
      },
      sym (ap not e),
    )
    choose true e rest =
        Accepts-if _ (length rest == 0) _ _ (v, ap is_some none_yet ∙ sym (ap not e)) tt

initialize-Ready :
    (c : Libc) (level : ℕ) → 0 < level → level ≤ 5 → Ready (initialize_default_args c level)
unfolding initialize_default_args
initialize-Ready c level low high = (
  record {
    port_positive = omega arith;
    port_bound = omega arith;
    dev_bound = omega arith;
    level_positive = low;
    level_bound = high;
  },
  refl,
)

-- Parsing either exits or gives settings with a port from 1 to 65535, an interface name of at most
-- 15 characters, a log level that exists, and an address exactly in client mode; for every command
-- line and whatever `atoi` and `strdup` answer, if the log level was valid at the start.
pub parse_cmdline_arguments-Accepted :
    (c : Libc) (level : ℕ) (found : List Found) (left : List (List ℕ))
    → 0 < level
    → level ≤ 5
    → Accepted (parse_cmdline_arguments c level found left)
unfolding parse_cmdline_arguments
parse_cmdline_arguments-Accepted c level found left low high =
    Accepts-rest Ready _ c _ _ (parse_options-Ready c found _ (initialize-Ready c level low high))
      (take_address-Accepted left)
