-- ===== src/Main/Signals.antt =====
-- `usr1_handler` and `override_signals` of src/signals.c. What a signal does is a table over the
-- numbers of signals, where `none` is what the system does by itself; SIGINT and SIGUSR1 have the
-- numbers of Linux. Where the handlers' messages go is the pair of streams of Logger; `decimal` is
-- what printf makes of `%i` and `%u`.
use vpnd.Base.{refl, [], ℕ, ◌≡◌, ◌≢◌, ◌∙◌, Bool, Option, List, ◌++◌, Outcome, ok, ◌>>=◌}
use vpnd.Base.Text.{codes}
use vpnd.Netroute.{InetNtop}
use vpnd.Peer.{Peer}
use vpnd.Peer.Dump.{dump_peers}
use vpnd.Logger.{Streams, logger}

abbrev log_debug : ℕ
log_debug = 5

abbrev sigint : ℕ
sigint = 2

abbrev sigusr1 : ℕ
sigusr1 = 10

data Handler : Type 0 where
  runs_interrupt_program_handler : Handler
  runs_usr1_handler : Handler

abbrev Dispositions : Type 0
Dispositions = ℕ → Option Handler

-- The call `signal(sig, handler)` of the C library is the first argument.
unfoldable override_signals :
    (ℕ → Handler → Dispositions → Dispositions) → Dispositions → Dispositions
override_signals signal table =
    signal sigusr1 runs_usr1_handler (signal sigint runs_interrupt_program_handler table)

-- The message, then the peers on the standard output. No part of the daemon changes.
unfoldable usr1_handler :
    InetNtop → Bool → (ℕ → List ℕ) → ℕ → ℕ → List Peer → Streams → Outcome Streams
usr1_handler inet_ntop little decimal log_level sig peers out =
    let logged =
      logger log_level log_debug (codes "usr1_handler (signal: " ++ (decimal sig ++ codes ")"))
        out in
    dump_peers inet_ntop little decimal peers >>= λ text.
    ok (record { stdout = logged.stdout ++ text; stderr = logged.stderr })

-- No signal but these two gets another meaning, if a call of `signal` changes that of its own signal
-- only.
override_signals-others :
    (signal : ℕ → Handler → Dispositions → Dispositions)
    → ((sig n : ℕ) (h : Handler) (t : Dispositions) → n ≢ sig → signal sig h t n ≡ t n)
    → (table : Dispositions) (n : ℕ) → n ≢ sigint
    → n ≢ sigusr1
    → override_signals signal table n ≡ table n
unfolding override_signals
override_signals-others signal keeps table n h k =
    keeps sigusr1 n runs_usr1_handler (signal sigint runs_interrupt_program_handler table) k
    ∙ keeps sigint n runs_interrupt_program_handler table h

-- Without peers and messages the handler writes the heading.
heading :
    (inet_ntop : InetNtop) (little : Bool) (decimal : ℕ → List ℕ) (out : Streams)
    → usr1_handler inet_ntop little decimal 3 sigusr1 [] out
      ≡ ok (record { stdout = out.stdout ++ codes "Connected peers:\n"; stderr = out.stderr })
unfolding usr1_handler dump_peers vpnd.Peer.Dump.dump_from logger
heading inet_ntop little decimal out = refl
