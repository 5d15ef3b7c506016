-- ===== src/PeerNet/Process/Reading.antt =====
-- The read of a payload out of the receive buffer (src/peer_net.c).
use vpnd.Base.{ℕ, ◌+◌, List, leb, length}
use vpnd.Daemon.Stays.{Kept-refl, Keeps, by, Keeps-if}
use vpnd.PeerNet.Process.{readable}

pub readable-Keeps : (buf : List ℕ) (i n : ℕ) → Keeps (readable buf i n)
unfolding readable
readable-Keeps buf i n = Keeps-if (leb (i + n) (length buf)) (by Kept-refl) (by λ d. tt)
