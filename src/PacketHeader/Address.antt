-- ===== src/PacketHeader/Address.antt =====
-- Which address a packet gives (src/packet_header.c).
use vpnd.Base.{
  ℕ, zero, suc, ◌+◌, ◌*◌, ◌/◌, ◌^◌, ◌≤◌, ◌<◌, ◌≡◌, ap, ◌∙◌, ==→eq, Bool, true, false, not, ◌&&◌,
  ◌||◌, List, [], ◌∷◌, if◌then◌else◌, ◌==◌, length, drop, take, drop-add, length-set, length-append,
  length-take, length-drop, take-take-append, arith, All, Bool-cases, inl, inr,
}
use vpnd.Base.Bits.{and-low_byte}
use vpnd.Protocol.{byte_at}
use vpnd.Netroute.{Netroute, addr_size, compare_limit}
use vpnd.Netroute.Keys.{Key, key}
use vpnd.PacketHeader.{
  load32, store_ip4, memcpy, parse_ip_packet, parse_eth_packet, parse_packet_addr, ether_type,
  eth_p_ip, eth_p_ipv6,
}

-- Whether `parse_packet_addr` looks into the packet.
abbrev pub has_address : Bool → List ℕ → Bool
has_address tap packet = tap || ether_type packet == eth_p_ip || ether_type packet == eth_p_ipv6

-- The bytes `n` long at `i`, as they stand in the packet.
abbrev pub field : List ℕ → ℕ → ℕ → List ℕ
field packet i n = take n (drop i packet)

-- Four bytes as the machine keeps them in `addr`: reversed on a little-endian one.
abbrev pub host_order : Bool → List ℕ → List ℕ
host_order little a =
    if little
    then byte_at a 3 ∷ byte_at a 2 ∷ byte_at a 1 ∷ byte_at a 0 ∷ []
    else byte_at a 0 ∷ byte_at a 1 ∷ byte_at a 2 ∷ byte_at a 3 ∷ []

-- The address of the packet's source or destination, read off its bytes.
unfoldable pub address_key : Bool → Bool → List ℕ → Bool → Key
address_key tap little packet source =
    if tap
    then record { mac = true; ip4 = false; bytes = field packet (if source then 10 else 4) 6 }
    else if ether_type packet == eth_p_ip
    then record {
      mac = false;
      ip4 = true;
      bytes = host_order little (field packet (if source then 16 else 20) 4);
    }
    else record { mac = false; ip4 = false; bytes = field packet (if source then 12 else 28) 16 }

byte_at_lt : (buf : List ℕ) (i : ℕ) → All (λ b. b < 256) buf → byte_at buf i < 256
byte_at_lt [] i h = omega arith
byte_at_lt (x ∷ xs) zero h = h.0
byte_at_lt (x ∷ xs) (suc i) h = byte_at_lt xs i h.1

drop-IsByte : (n : ℕ) (buf : List ℕ) → All (λ b. b < 256) buf → All (λ b. b < 256) (drop n buf)
drop-IsByte zero buf h = h
drop-IsByte (suc n) [] h = h
drop-IsByte (suc n) (x ∷ xs) h = drop-IsByte n xs h.1

take-store_ip4 :
    (little : Bool) (addr p : List ℕ)
    → 4 ≤ length addr
    → 4 ≤ length p
    → All (λ b. b < 256) p
    → take 4 (store_ip4 addr (load32 little p)) ≡ host_order little (take 4 p)
unfolding store_ip4
take-store_ip4 true (w ∷ x ∷ y ∷ z ∷ more) (a ∷ b ∷ c ∷ d ∷ rest) ha hp h =
    let v : ℕ = d * 2 ^ 24 + c * 2 ^ 16 + b * 2 ^ 8 + a in
    ground (
      arith,
      and-low_byte (v / 2 ^ 24),
      and-low_byte (v / 2 ^ 16),
      and-low_byte (v / 2 ^ 8),
      and-low_byte v,
    )
take-store_ip4 false (w ∷ x ∷ y ∷ z ∷ more) (a ∷ b ∷ c ∷ d ∷ rest) ha hp h =
    let v : ℕ = a * 2 ^ 24 + b * 2 ^ 16 + c * 2 ^ 8 + d in
    ground (
      arith,
      and-low_byte (v / 2 ^ 24),
      and-low_byte (v / 2 ^ 16),
      and-low_byte (v / 2 ^ 8),
      and-low_byte v,
    )
take-store_ip4 little _ _ ha hp h = absurd (omega arith)

-- A field copied from behind the TUN/TAP header is the field of the packet.
field-memcpy :
    (m k n : ℕ) (packet addr : List ℕ)
    → m + k + n ≤ length packet
    → take n (memcpy addr (drop k (drop m packet)) n) ≡ field packet (m + k) n
field-memcpy m k n packet addr h = rw (← drop-add m k packet) (
    take-take-append n (drop (m + k) packet) (drop n addr)
      (omega (arith, length-drop (m + k) packet)))

abbrev as_key : Bool → Bool → List ℕ → Key
as_key mac ip4 bytes = record { mac = mac; ip4 = ip4; bytes = bytes }

parse_eth_packet-key :
    (packet : List ℕ) (nroute : Netroute) (source : Bool)
    → 16 ≤ length packet
    → key (parse_eth_packet (drop 4 packet) nroute source)
      ≡ as_key true false (field packet (if source then 10 else 4) 6)
unfolding parse_eth_packet compare_limit
parse_eth_packet-key packet nroute true h =
    ap (as_key true false) (field-memcpy 4 6 6 packet nroute.addr (omega arith))
parse_eth_packet-key packet nroute false h =
    ap (as_key true false) (field-memcpy 4 0 6 packet nroute.addr (omega arith))

ip4_field :
    (little : Bool) (k : ℕ) (packet addr : List ℕ)
    → 8 + k ≤ length packet
    → All (λ b. b < 256) packet
    → length addr ≡ addr_size
    → take 4 (store_ip4 addr (load32 little (drop k (drop 4 packet))))
      ≡ host_order little (field packet (4 + k) 4)
ip4_field little k packet addr h b l = rw (← drop-add 4 k packet) (
    take-store_ip4 little addr (drop (4 + k) packet) (omega arith)
      (omega (arith, length-drop (4 + k) packet)) (drop-IsByte (4 + k) packet b))

parse_ip4_packet-key :
    (little : Bool) (packet : List ℕ) (nroute : Netroute) (source : Bool)
    → 44 ≤ length packet
    → All (λ b. b < 256) packet
    → length nroute.addr ≡ addr_size
    → key (parse_ip_packet little (drop 4 packet) eth_p_ip nroute source)
      ≡ as_key false true (host_order little (field packet (if source then 16 else 20) 4))
unfolding parse_ip_packet compare_limit
parse_ip4_packet-key little packet nroute true h b l =
    ap (as_key false true) (ip4_field little 12 packet nroute.addr (omega arith) b l)
parse_ip4_packet-key little packet nroute false h b l =
    ap (as_key false true) (ip4_field little 16 packet nroute.addr (omega arith) b l)

parse_ip6_packet-key :
    (little : Bool) (packet : List ℕ) (proto : ℕ) (nroute : Netroute) (source : Bool)
    → 44 ≤ length packet
    → (proto == eth_p_ip) ≡ false
    → key (parse_ip_packet little (drop 4 packet) proto nroute source)
      ≡ as_key false false (field packet (if source then 12 else 28) 16)
unfolding parse_ip_packet compare_limit
parse_ip6_packet-key little packet proto nroute true h e =
    rw e (ap (as_key false false) (field-memcpy 4 8 16 packet nroute.addr (omega arith)))
parse_ip6_packet-key little packet proto nroute false h e =
    rw e (ap (as_key false false) (field-memcpy 4 24 16 packet nroute.addr (omega arith)))

-- The route that a packet of at least 44 bytes gives is the address that stands in its header,
-- whatever `nroute` held before, and in the machine's byte order for an IPv4 address. A TUN packet
-- that is neither IPv4 nor IPv6 leaves the address as it was.
pub parse_packet_addr-key :
    (tap little : Bool) (packet : List ℕ) (nroute : Netroute) (source : Bool)
    → 44 ≤ length packet
    → All (λ b. b < 256) packet
    → length nroute.addr ≡ addr_size
    → key (parse_packet_addr tap little packet nroute source)
      ≡ (if has_address tap packet then address_key tap little packet source else key nroute)
unfolding parse_packet_addr address_key
parse_packet_addr-key true little packet nroute source h b l =
    parse_eth_packet-key packet nroute source (omega arith)
parse_packet_addr-key false little packet nroute source h b l =
    elim (Bool-cases (ether_type packet == eth_p_ip)) [
      | inl ip ↦
          rw (ip, ==→eq _ eth_p_ip ip) (parse_ip4_packet-key little packet nroute source h b l)
      | inr other ↦ elim (Bool-cases (ether_type packet == eth_p_ipv6)) [
        | inl ip6 ↦
            rw (other, ip6)
              (parse_ip6_packet-key little packet (ether_type packet) nroute source h other)
        | inr none ↦ rw (other, none)
      ]
    ]

length-store_ip4 : (addr : List ℕ) (v : ℕ) → length (store_ip4 addr v) ≡ length addr
unfolding store_ip4
length-store_ip4 addr v = rw (length-set, length-set, length-set, length-set)

length-memcpy :
    (k n : ℕ) (packet dest : List ℕ)
    → 4 + k + n ≤ length packet
    → n ≤ length dest
    → length (memcpy dest (drop k (drop 4 packet)) n) ≡ length dest
length-memcpy k n packet dest h l = omega (
  arith,
  length-append (take n (drop k (drop 4 packet))) (drop n dest),
  length-take n (drop k (drop 4 packet)),
  length-drop k (drop 4 packet),
  length-drop 4 packet,
  length-drop n dest,
)

parse_eth_packet-size :
    (packet : List ℕ) (nroute : Netroute) (source : Bool)
    → 44 ≤ length packet
    → length nroute.addr ≡ addr_size
    → length (parse_eth_packet (drop 4 packet) nroute source).addr ≡ addr_size
unfolding parse_eth_packet
parse_eth_packet-size packet nroute true h l =
    length-memcpy 6 6 packet nroute.addr (omega arith) (omega arith) ∙ l
parse_eth_packet-size packet nroute false h l =
    length-memcpy 0 6 packet nroute.addr (omega arith) (omega arith) ∙ l

parse_ip_packet-size :
    (little : Bool) (packet : List ℕ) (proto : ℕ) (nroute : Netroute) (source : Bool)
    → 44 ≤ length packet
    → length nroute.addr ≡ addr_size
    → length (parse_ip_packet little (drop 4 packet) proto nroute source).addr ≡ addr_size
unfolding parse_ip_packet
parse_ip_packet-size little packet proto nroute source h l = elim (Bool-cases (proto == eth_p_ip)) [
  | inl ip ↦ rw ip (length-store_ip4 nroute.addr _ ∙ l)
  | inr other ↦ rw other (tail source)
]
  where
    tail :
        (source : Bool)
        → length (memcpy nroute.addr (drop (if source then 8 else 24) (drop 4 packet)) 16) ≡ 16
    tail true = length-memcpy 8 16 packet nroute.addr (omega arith) (omega arith) ∙ l
    tail false = length-memcpy 24 16 packet nroute.addr (omega arith) (omega arith) ∙ l

-- No copy leaves the 16 bytes of the address: they stay 16, for every packet of at least 44 bytes.
pub parse_packet_addr-size :
    (tap little : Bool) (packet : List ℕ) (nroute : Netroute) (source : Bool)
    → 44 ≤ length packet
    → length nroute.addr ≡ addr_size
    → length (parse_packet_addr tap little packet nroute source).addr ≡ addr_size
unfolding parse_packet_addr
parse_packet_addr-size true little packet nroute source h l =
    parse_eth_packet-size packet nroute source h l
parse_packet_addr-size false little packet nroute source h l =
    elim (Bool-cases
      (not (ether_type packet == eth_p_ip) && not (ether_type packet == eth_p_ipv6))) [
        | inl skip ↦ rw skip l
        | inr ip ↦ rw ip (parse_ip_packet-size little packet (ether_type packet) nroute source h l)
      ]
