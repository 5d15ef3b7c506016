-- ===== src/Peer/Dump.antt =====
-- `dump_peers` of src/peer.c: the peers and their routes as text. `%u` is the C library's, and
-- `inet_ntop` too.
pub mod Routes
mod Tests
use vpnd.Base.{
  ℕ, Bool, Option, none, some, List, [], ◌∷◌, ◌++◌, if◌then◌else◌, Outcome, ok, fault, stuck,
  or_fault, ◌>>=◌,
}
use vpnd.Base.Text.{codes}
use vpnd.Netroute.{Netroute, InetNtop, get_netroute_addr}
use vpnd.Netroute.Printing.{inet6_addrstrlen}
use vpnd.Peer.{Peer}

abbrev pub kind_text : Netroute → List ℕ
kind_text route =
    if route.mac then codes "mac" else if route.ip4 then codes "ipv4" else codes "ipv6"

module _ (inet_ntop : InetNtop) (little : Bool) (decimal : ℕ → List ℕ) where
  -- The text is written over a buffer of zeros.
  unfoldable pub route_line : Netroute → List ℕ
  route_line route =
      codes "            "
      ++ (get_netroute_addr inet_ntop little route [] inet6_addrstrlen
          ++ (codes " (" ++ (kind_text route ++ codes ")\n")))

  unfoldable pub route_lines : List Netroute → List ℕ
  unfolding route_line
  route_lines [] = []
  route_lines (route ∷ next) = route_line route ++ route_lines next

  -- An address that is NULL is read all the same.
  unfoldable pub peer_lines : Peer → Outcome (List ℕ)
  unfolding route_lines
  peer_lines peer = or_fault peer.address >>= λ address. ok (
      codes "    Peer "
      ++ (address
          ++ (codes ":"
              ++ (decimal peer.port
                  ++ (codes " ("
                      ++ ((if peer.alive then codes "alive" else codes "dead")
                          ++ (codes ")\n"
                              ++ (codes "        Routes:\n" ++ route_lines peer.routes))))))))

  unfoldable pub dump_from : List Peer → Outcome (List ℕ)
  unfolding peer_lines
  dump_from [] = ok []
  dump_from (peer ∷ next) = peer_lines peer >>= λ text. dump_from next >>= λ rest. ok (text ++ rest)

  unfoldable pub dump_peers : List Peer → Outcome (List ℕ)
  unfolding dump_from
  dump_peers peers = dump_from peers >>= λ text. ok (codes "Connected peers:\n" ++ text)
