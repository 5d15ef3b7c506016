-- ===== src/Logger/Levels.antt =====
-- The names of the levels of src/logger.c, printed and read.
use vpnd.Base.{ℕ, zero, suc, ◌≡◌, refl, arith}
use vpnd.Logger.{set_logging_level, set_logging_level_str, print_logging_level_str}

-- Setting the level by the text that is printed for a level is setting that level, for every number:
-- the five levels are set, and all others, which are printed as nothing, are refused both ways.
pub set_logging_level_str-print :
    (level : ℕ) → set_logging_level_str (print_logging_level_str level) ≡ set_logging_level level
unfolding set_logging_level_str print_logging_level_str set_logging_level
set_logging_level_str-print zero = refl
set_logging_level_str-print (suc zero) = refl
set_logging_level_str-print (suc (suc zero)) = refl
set_logging_level_str-print (suc (suc (suc zero))) = refl
set_logging_level_str-print (suc (suc (suc (suc zero)))) = refl
set_logging_level_str-print (suc (suc (suc (suc (suc zero))))) = refl
set_logging_level_str-print (suc (suc (suc (suc (suc (suc n)))))) = ground arith
