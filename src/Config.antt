-- ===== src/Config.antt =====
-- src/config.c, src/args.c and `struct args` of include/structs.h.
-- A C string is the list of its characters. `exit` is `none`. `getopt_long`, `atoi` and the memory
-- of `strdup` belong to the C library: the options that `getopt_long` finds are a list of events, and
-- what is left of the command line is a list of strings.
pub mod Paths
pub mod Arguments
pub mod Options
mod Tests
use vpnd.Base.Text.{same_text}
use vpnd.Logger.{set_logging_level_str}
use vpnd.Base.{
  ℕ, zero, suc, ◌+◌, ◌-◌, ◌≤◌, Bool, true, false, not, ◌&&◌, ◌||◌, Option, none, some, List, [],
  ◌∷◌, ◌++◌, if◌then◌else◌, ltb, leb, ◌==◌, ◌%◌, ◌^◌, length, take, drop, Outcome, ok, fault,
}

-- '/' of a path
abbrev pub slash : ℕ
slash = 47

-- `path2[0] == '/'`; an empty string starts with its terminator.
abbrev pub starts_with_slash : List ℕ → Bool
starts_with_slash [] = false
starts_with_slash (x ∷ xs) = x == slash

-- `path1[path1_len - 1] == '/'` of a string that is not empty.
abbrev pub ends_with_slash : List ℕ → Bool
ends_with_slash [] = false
ends_with_slash (x ∷ []) = x == slash
ends_with_slash (x ∷ y ∷ xs) = ends_with_slash (y ∷ xs)

abbrev pub joined : List ℕ → List ℕ → List ℕ
joined path1 path2 =
    if not (ends_with_slash path1) && not (starts_with_slash path2)
    then path1 ++ (slash ∷ path2)
    else if ends_with_slash path1 && starts_with_slash path2
    then path1 ++ drop 1 path2
    else path1 ++ path2

-- An empty first path is read in front of its first byte.
unfoldable pub join_paths : Bool → List ℕ → List ℕ → Outcome (Option (List ℕ))
join_paths false path1 path2 = ok none
join_paths true [] path2 = fault
join_paths true (x ∷ xs) path2 = ok (some (joined (x ∷ xs) path2))

-- Integers of C.
pub data ℤ : Type 0 where
  pos : ℕ → ℤ
  negsuc : ℕ → ℤ

pub record Args : Type 0 where
  pub detach : Bool
  pub tap_mode : Bool
  pub server : Bool
  pub dev : List ℕ
  pub address : Option (List ℕ)
  pub port : ℕ
  pub no_ipv4 : Bool
  pub no_ipv6 : Bool

-- The arguments with the two static variables that parsing sets.
pub record Settings : Type 0 where
  pub args : Args
  pub config_dir : Option (List ℕ)
  pub log_level : ℕ

-- The C library.
pub record Libc : Type 0 where
  pub atoi : List ℕ → ℤ
  pub strdup : List ℕ → Bool

abbrev pub ifnamsiz : ℕ
ifnamsiz = 16

abbrev pub uint16_max : ℕ
uint16_max = 65535

abbrev pub default_port : ℕ
default_port = 9678

unfoldable pub set_config_dir : Libc → List ℕ → Settings → Settings
set_config_dir c dir s = record s { config_dir = if c.strdup dir then some dir else none }

-- `strncpy(args->dev, name, IFNAMSIZ - 1)` over a buffer whose last byte is zero.
unfoldable pub set_dev : List ℕ → Settings → Settings
set_dev name s = record s { args = record s.args { dev = take (ifnamsiz - 1) name } }

-- `log_level` is what the logger starts with.
unfoldable pub initialize_default_args : Libc → ℕ → Settings
unfolding set_config_dir
initialize_default_args c log_level = set_config_dir c (46 ∷ 47 ∷ []) (record {
  args = record {
    detach = false;
    tap_mode = false;
    server = false;
    dev = 118 ∷ 112 ∷ 110 ∷ 100 ∷ [];
    address = none;
    port = default_port;
    no_ipv4 = false;
    no_ipv6 = false;
  };
  config_dir = none;
  log_level = log_level;
})

unfoldable pub parse_interface_mode : List ℕ → Settings → Option Settings
parse_interface_mode arg s =
    if same_text arg (116 ∷ 117 ∷ 110 ∷ [])
    then some (record s { args = record s.args { tap_mode = false } })
    else if same_text arg (116 ∷ 97 ∷ 112 ∷ [])
    then some (record s { args = record s.args { tap_mode = true } })
    else none

port_of : ℤ → Settings → Option Settings
port_of (negsuc n) s = none
port_of (pos n) s =
    if n == 0 || ltb uint16_max n
    then none
    else some (record s { args = record s.args { port = n % 2 ^ 16 } })

unfoldable pub parse_port : Libc → List ℕ → Settings → Option Settings
unfolding port_of
parse_port c arg s = port_of (c.atoi arg) s

level_set : Option ℕ → Settings → Option Settings
level_set none s = none
level_set (some level) s = some (record s { log_level = level })

unfoldable pub parse_log_level : List ℕ → Settings → Option Settings
unfolding level_set
parse_log_level arg s = level_set (set_logging_level_str arg) s

-- What `getopt_long` finds: a long option by its index or a short one by its letter, and `optarg`.
pub data Found : Type 0 where
  long : ℕ → List ℕ → Found
  short : ℕ → List ℕ → Found

unfoldable pub parse_longopt : Libc → ℕ → List ℕ → Settings → Option Settings
parse_longopt c opt_index optarg s =
    if opt_index == 2
    then parse_log_level optarg s
    else if opt_index == 3
    then some (record s { args = record s.args { server = true } })
    else if opt_index == 4
    then parse_interface_mode optarg s
    else if opt_index == 5
    then parse_port c optarg s
    else if opt_index == 6
    then some (set_dev optarg s)
    else if opt_index == 7
    then some (record s { args = record s.args { detach = true } })
    else if opt_index == 8
    then some (set_config_dir c optarg s)
    else if opt_index == 9
    then some (record s { args = record s.args { no_ipv4 = true } })
    else if opt_index == 10
    then some (record s { args = record s.args { no_ipv6 = true } })
    else none

-- The letters s, m, p, i and c; h, v and all others exit.
unfoldable pub parse_shortopt : Libc → ℕ → List ℕ → Settings → Option Settings
parse_shortopt c opt optarg s =
    if opt == 115
    then some (record s { args = record s.args { server = true } })
    else if opt == 109
    then parse_interface_mode optarg s
    else if opt == 112
    then parse_port c optarg s
    else if opt == 105
    then some (set_dev optarg s)
    else if opt == 99
    then some (set_config_dir c optarg s)
    else none

unfoldable pub parse_option : Libc → Found → Settings → Option Settings
parse_option c (long opt_index optarg) s = parse_longopt c opt_index optarg s
parse_option c (short opt optarg) s = parse_shortopt c opt optarg s

parse_rest : Libc → Option Settings → (Settings → Option Settings) → Option Settings
parse_rest c none k = none
parse_rest c (some s) k = k s

unfoldable pub parse_options : Libc → List Found → Settings → Option Settings
unfolding parse_rest
parse_options c [] s = some s
parse_options c (f ∷ rest) s = parse_rest c (parse_option c f s) (parse_options c rest)

first_address : List (List ℕ) → Settings → Option Settings
first_address [] s = none
first_address (address ∷ more) s =
    some (record s { args = record s.args { address = some address } })

-- The check behind the loop, on what is left of the command line.
unfoldable pub take_address : List (List ℕ) → Settings → Option Settings
unfolding first_address
take_address left s =
    if not s.args.server then first_address left s else if length left == 0 then some s else none

unfoldable pub parse_cmdline_arguments : Libc → ℕ → List Found → List (List ℕ) → Option Settings
unfolding parse_rest
parse_cmdline_arguments c log_level found left =
    parse_rest c (parse_options c found (initialize_default_args c log_level)) (take_address left)
