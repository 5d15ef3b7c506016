-- ===== src/PacketHeader/Tests.antt =====
-- Concrete packets, and the theorems of PacketHeader/Address and PacketHeader/Printing on them.
use vpnd.Base.{ℕ, suc, zero, ◌≡◌, refl, true, false, List, [], ◌∷◌, ◌++◌, arith, if◌then◌else◌}
use vpnd.Netroute.{Netroute}
use vpnd.Netroute.Keys.{key}
use vpnd.PacketHeader.{ether_type, parse_packet_addr, parse_ip_packet}
use vpnd.PacketHeader.Address.{has_address, address_key, parse_packet_addr-key}

abbrev zeros : ℕ → List ℕ
zeros zero = []
zeros (suc n) = 0 ∷ zeros n

-- An IPv4 packet from 10.0.0.1 to 10.0.0.2, behind a TUN header.
abbrev ip_packet : List ℕ
ip_packet = 0 ∷ 0 ∷ 8 ∷ 0 ∷ (zeros 12 ++ (10 ∷ 0 ∷ 0 ∷ 1 ∷ 10 ∷ 0 ∷ 0 ∷ 2 ∷ zeros 24))

abbrev blank_route : Netroute
blank_route = record { mac = false; ip4 = false; addr = zeros 16 }

source_little :
    (parse_packet_addr false true ip_packet blank_route true).addr ≡ 1 ∷ 0 ∷ 0 ∷ 10 ∷ zeros 12
unfolding parse_packet_addr parse_ip_packet ether_type
source_little = refl

parse_packet_addr-key_example : key (parse_packet_addr false true ip_packet blank_route false) ≡ (
    if has_address false ip_packet then address_key false true ip_packet false else key blank_route)
parse_packet_addr-key_example =
    parse_packet_addr-key false true ip_packet blank_route false (omega arith) (omega arith) refl
