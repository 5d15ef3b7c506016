-- ===== src/Peer/Dump/Tests.antt =====
-- A dump of one peer with two routes, and the theorem of Peer/Dump/Routes at two routes.
use vpnd.Base.{ℕ, ◌≡◌, ◌↔◌, refl, true, false, none, some, List, [], ◌∷◌, ok, arith}
use vpnd.Base.Text.{codes}
use vpnd.Netroute.{Netroute, InetNtop, compare_netroutes, get_netroute_addr}
use vpnd.Netroute.Printing.{IsReadable}
use vpnd.Peer.{Peer}
use vpnd.Peer.Dump.{dump_peers}
use vpnd.Peer.Dump.Routes.{shown, route_line_iff}

-- An `inet_ntop` that writes the bytes as they are.
abbrev plain : InetNtop
plain v6 bytes size = some bytes

plain-IsReadable : IsReadable plain
plain-IsReadable = record { written = λ v6 a h. refl; different = λ v6 a b h k e. cc }

abbrev device : ℕ → Netroute
device n = record {
  mac = true;
  ip4 = false;
  addr = 2 ∷ 0 ∷ 0 ∷ 0 ∷ 0 ∷ n ∷ 0 ∷ 0 ∷ 0 ∷ 0 ∷ 0 ∷ 0 ∷ 0 ∷ 0 ∷ 0 ∷ 0 ∷ [];
}

abbrev one_peer : Peer
one_peer = record {
  s = none;
  is_client = false;
  address = some (codes "host");
  port = 9;
  alive = false;
  pubkey = none;
  authenticated = false;
  enc_ctx = none;
  dec_ctx = none;
  routes = device 10 ∷ [];
}

abbrev digit : ℕ → List ℕ
digit n = (b'0') ∷ n ∷ []

dumped :
    dump_peers plain true (λ n. codes "9") (one_peer ∷ [])
    ≡ ok (
        codes
          "Connected peers:\n    Peer host:9 (dead)\n        Routes:\n            02:00:00:00:00:0a (mac)\n")
unfolding dump_peers get_netroute_addr
dumped = refl

route_line_iff_example :
    (shown plain true digit (device 1) ≡ shown plain true digit (device 2))
    ↔ (compare_netroutes (device 1) (device 2) ≡ true)
route_line_iff_example =
    route_line_iff plain true digit (device 1) (device 2) plain-IsReadable
      (record { size = refl; bytes = omega arith; one_kind = λ h. refl })
      (record { size = refl; bytes = omega arith; one_kind = λ h. refl })
