-- ===== src/Config/Options.antt =====
-- The options of src/args.c: the tables that are given to `getopt_long`, and the help that names them.
-- Of the help, the lines of options are modelled, by the names that they give.
use vpnd.Base.{
  ℕ, ◌+◌, ◌≡◌, refl, Bool, true, false, Option, none, some, List, [], ◌∷◌, if◌then◌else◌, ◌==◌,
  ◌||◌, All,
}
use vpnd.Base.Text.{codes, same_text}
use vpnd.Config.{Libc, Settings, long, short, parse_longopt, parse_shortopt, parse_option}

-- `opts`: names, and whether an argument is required.
abbrev pub opts : List (List ℕ × Bool)
opts =
    (codes "help", false)
    ∷ (codes "version", false)
    ∷ (codes "log-level", true)
    ∷ (codes "server", false)
    ∷ (codes "mode", true)
    ∷ (codes "port", true)
    ∷ (codes "interface", true)
    ∷ (codes "detach", false)
    ∷ (codes "config", true)
    ∷ (codes "no-ipv4", false)
    ∷ (codes "no-ipv6", false)
    ∷ []

abbrev pub optstring : List ℕ
optstring = codes "hvsm:p:i:c:"

-- The options of `print_help` in its order: the letter, if there is one, and the name.
abbrev pub help_options : List (Option ℕ × List ℕ)
help_options =
    (some b'h', codes "help")
    ∷ (some b'v', codes "version")
    ∷ (none, codes "log-level")
    ∷ (some b'c', codes "config")
    ∷ (some b's', codes "server")
    ∷ (none, codes "no-ipv4")
    ∷ (none, codes "no-ipv6")
    ∷ (some b'i', codes "interface")
    ∷ (some b'm', codes "mode")
    ∷ (some b'p', codes "port")
    ∷ (none, codes "detach")
    ∷ []

-- The place of a name among the options, and whether it takes an argument.
unfoldable pub find_long : List ℕ → ℕ → List (List ℕ × Bool) → Option (ℕ × Bool)
unfolding same_text
find_long name i [] = none
find_long name i ((n, arg) ∷ rest) =
    if same_text name n then some (i, arg) else find_long name (i + 1) rest

abbrev followed_by_colon : List ℕ → Bool
followed_by_colon [] = false
followed_by_colon (c ∷ cs) = c == b':'

-- Whether a letter is an option, and whether it takes an argument.
unfoldable pub find_short : ℕ → List ℕ → Option Bool
find_short letter [] = none
find_short letter (c ∷ cs) =
    if c == letter then some (followed_by_colon cs) else find_short letter cs

-- The name is an option; where the help has a letter beside it, the letter is one as well, takes an
-- argument just as the name does, and does the same to every settings with every argument.
abbrev pub Agrees : Libc → Option ℕ × List ℕ → Type 0
Agrees c (none, name) = (i : ℕ) × (arg : Bool) × (find_long name 0 opts ≡ some (i, arg))
Agrees c (some letter, name) =
    (i : ℕ) × (arg : Bool) × (find_long name 0 opts ≡ some (i, arg))
    × (find_short letter optstring ≡ some arg)
    × ((optarg : List ℕ) (s : Settings)
        → parse_option c (long i optarg) s ≡ parse_option c (short letter optarg) s)

-- The help has a line for the name.
unfoldable pub is_named : List ℕ → List (Option ℕ × List ℕ) → Bool
unfolding same_text
is_named name [] = false
is_named name ((letter, n) ∷ rest) = same_text name n || is_named name rest

known_options : (c : Libc) → All (Agrees c) help_options
unfolding find_long find_short parse_option parse_longopt parse_shortopt
known_options c = (
  (0, false, refl, refl, λ a s. refl),
  (
    (1, false, refl, refl, λ a s. refl),
    (
      (2, true, refl),
      (
        (8, true, refl, refl, λ a s. refl),
        (
          (3, false, refl, refl, λ a s. refl),
          (
            (9, false, refl),
            (
              (10, false, refl),
              (
                (6, true, refl, refl, λ a s. refl),
                (
                  (4, true, refl, refl, λ a s. refl),
                  ((5, true, refl, refl, λ a s. refl), ((7, false, refl), tt)),
                ),
              ),
            ),
          ),
        ),
      ),
    ),
  ),
)

named_options : All (λ (o : List ℕ × Bool). is_named o.0 help_options ≡ true) opts
unfolding is_named
named_options =
    (refl, (refl, (refl, (refl, (refl, (refl, (refl, (refl, (refl, (refl, (refl, tt)))))))))))

-- Every option that the help names is known to `getopt_long` by its name, and where the help gives a
-- letter beside the name, the letter is known too, takes an argument exactly if the name does, and
-- has the same effect. The other way round, the help names every long option.
pub help_options-Agrees :
    (c : Libc)
    → All (Agrees c) help_options
      × All (λ (o : List ℕ × Bool). is_named o.0 help_options ≡ true) opts
help_options-Agrees c = (known_options c, named_options)
