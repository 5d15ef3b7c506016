-- ===== src/Logger.antt =====
-- src/logger.c: the log level, the names of the levels, and what a message puts on the two streams.
-- What `vfprintf` makes of the format is an argument. A level is a number, since no caller passes a
-- negative one.
pub mod Levels
pub mod Lines
mod Tests
use vpnd.Base.{
  ℕ, Bool, true, false, ◌&&◌, Option, none, some, List, [], ◌∷◌, ◌++◌, if◌then◌else◌, leb, ◌==◌,
}
use vpnd.Base.Text.{codes, same_text}

abbrev pub log_info : ℕ
log_info = 4

-- `log_levels_str` beside `log_levels`.
abbrev pub log_levels : List (List ℕ × ℕ)
log_levels =
    (codes "debug", 5)
    ∷ (codes "info", 4)
    ∷ (codes "warn", 3)
    ∷ (codes "error", 2)
    ∷ (codes "crit", 1)
    ∷ []

-- `none` is the return of -1, with the level as it was.
unfoldable pub set_logging_level : ℕ → Option ℕ
set_logging_level level = if leb 1 level && leb level 5 then some level else none

unfoldable pub level_from : List ℕ → List (List ℕ × ℕ) → Option ℕ
unfolding same_text
level_from text [] = none
level_from text ((name, level) ∷ rest) =
    if same_text text name then set_logging_level level else level_from text rest

unfoldable pub set_logging_level_str : List ℕ → Option ℕ
unfolding level_from
set_logging_level_str text = level_from text log_levels

-- What the loops print from an entry on.
unfoldable pub levels_from : List (List ℕ × ℕ) → List ℕ
levels_from [] = []
levels_from ((name, level) ∷ []) = name
levels_from ((name, level) ∷ next ∷ rest) = name ++ (codes ", " ++ levels_from (next ∷ rest))

unfoldable pub print_logging_levels_str : List ℕ
unfolding levels_from
print_logging_levels_str = levels_from log_levels

unfoldable pub level_str_from : ℕ → List (List ℕ × ℕ) → List ℕ
level_str_from level [] = []
level_str_from level ((name, l) ∷ rest) =
    (if level == l then name else []) ++ level_str_from level rest

unfoldable pub print_logging_level_str : ℕ → List ℕ
unfolding level_str_from
print_logging_level_str level = level_str_from level log_levels

pub record Streams : Type 0 where
  pub stdout : List ℕ
  pub stderr : List ℕ

-- `stdout` from LOG_INFO up.
unfoldable pub put : ℕ → List ℕ → Streams → Streams
put level text out =
    if leb log_info level
    then record { stdout = out.stdout ++ text; stderr = out.stderr }
    else record { stdout = out.stdout; stderr = out.stderr ++ text }

-- The name of the level, ": ", the message and a line feed (10).
unfoldable pub line : ℕ → List ℕ → List ℕ
line level message = print_logging_level_str level ++ (codes ": " ++ (message ++ (10 ∷ [])))

unfoldable pub logger : ℕ → ℕ → List ℕ → Streams → Streams
unfolding put line
logger log_level level message out =
    if leb level log_level then put level (line level message) out else out
