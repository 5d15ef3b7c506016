-- ===== src/Logger/Tests.antt =====
-- What src/logger.c prints, on concrete messages.
use vpnd.Base.{◌≡◌, refl, []}
use vpnd.Base.Text.{codes}
use vpnd.Logger.{Streams, logger, print_logging_levels_str, print_logging_level_str}

abbrev silent : Streams
silent = record { stdout = []; stderr = [] }

names : print_logging_levels_str ≡ codes "debug, info, warn, error, crit"
unfolding print_logging_levels_str
names = refl

warned : (logger 3 3 (codes "no route") silent).stderr ≡ codes "warn: no route\n"
unfolding logger print_logging_level_str
warned = refl

kept_quiet : logger 3 4 (codes "no route") silent ≡ silent
unfolding logger
kept_quiet = refl
