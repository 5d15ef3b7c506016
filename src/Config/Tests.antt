-- ===== src/Config/Tests.antt =====
-- A command line and two paths, and the theorems of Config on them.
use vpnd.Base.{ℕ, ◌-◌, true, List, [], ◌∷◌, arith}
use vpnd.Config.{ℤ, pos, long, short, Libc, parse_cmdline_arguments}
use vpnd.Config.Arguments.{Accepted, parse_cmdline_arguments-Accepted}

-- An `atoi` that reads one digit.
abbrev digit : List ℕ → ℤ
digit [] = pos 0
digit (x ∷ xs) = pos (x - 48)

abbrev libc : Libc
libc = record { atoi = digit; strdup = λ dir. true }

-- `-s -p 7 --mode tap`
parse_cmdline_arguments-Accepted_example : Accepted (
    parse_cmdline_arguments libc 3
      (short 115 [] ∷ short 112 (55 ∷ []) ∷ long 4 (116 ∷ 97 ∷ 112 ∷ []) ∷ [])
      [])
parse_cmdline_arguments-Accepted_example =
    parse_cmdline_arguments-Accepted libc 3
      (short 115 [] ∷ short 112 (55 ∷ []) ∷ long 4 (116 ∷ 97 ∷ 112 ∷ []) ∷ []) [] (omega arith)
      (omega arith)
