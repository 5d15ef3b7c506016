-- ===== src/PacketHeader/Printing.antt =====
-- How an address that was read from a packet is printed (`get_netroute_addr` of src/netroute.c over
-- the routes of src/packet_header.c).
use vpnd.Base.{
  ℕ, ◌≤◌, ◌<◌, ◌≡◌, ap, Bool, true, false, List, [], ◌∷◌, length, drop, length-drop, arith, All,
  if◌then◌else◌, take, length-take,
}
use vpnd.Netroute.{Netroute, InetNtop, compare_limit, addr_size, put_text, get_netroute_addr}
use vpnd.Netroute.Keys.{key}
use vpnd.PacketHeader.{parse_packet_addr, ether_type, eth_p_ip}
use vpnd.PacketHeader.Address.{
  field, host_order, address_key, parse_packet_addr-key, parse_packet_addr-size,
}

print_host_order :
    (inet_ntop : InetNtop) (little : Bool) (addr p dest : List ℕ) (maxlen : ℕ)
    → 4 ≤ length addr
    → length p ≡ 4
    → take 4 addr ≡ host_order little p
    → get_netroute_addr inet_ntop little
        (record { mac = false; ip4 = true; addr = addr })
        dest
        maxlen
      ≡ put_text dest (inet_ntop false p maxlen)
unfolding get_netroute_addr
print_host_order inet_ntop true (x ∷ y ∷ z ∷ w ∷ rest) (a ∷ b ∷ c ∷ d ∷ []) dest maxlen k h e =
    let ordered : ◌≡◌ {A = List ℕ} (w ∷ z ∷ y ∷ x ∷ []) (a ∷ b ∷ c ∷ d ∷ []) = cc in
    ap (λ (q : List ℕ). put_text dest (inet_ntop false q maxlen)) ordered
print_host_order inet_ntop false (x ∷ y ∷ z ∷ w ∷ rest) (a ∷ b ∷ c ∷ d ∷ []) dest maxlen k h e =
    ap (λ (q : List ℕ). put_text dest (inet_ntop false q maxlen)) e
print_host_order inet_ntop little _ _ dest maxlen k h e = absurd (omega arith)

print_key :
    (inet_ntop : InetNtop) (little mac ip4 : Bool) (addr p dest : List ℕ) (maxlen : ℕ)
    → 4 ≤ length addr
    → length p ≡ 4
    → key (record { mac = mac; ip4 = ip4; addr = addr })
      ≡ record { mac = false; ip4 = true; bytes = host_order little p }
    → get_netroute_addr inet_ntop little (record { mac = mac; ip4 = ip4; addr = addr }) dest maxlen
      ≡ put_text dest (inet_ntop false p maxlen)
unfolding compare_limit
print_key inet_ntop little true ip4 addr p dest maxlen k h e = cc (ap (λ q. q.mac) e)
print_key inet_ntop little false false addr p dest maxlen k h e = cc (ap (λ q. q.ip4) e)
print_key inet_ntop little false true addr p dest maxlen k h e =
    print_host_order inet_ntop little addr p dest maxlen k h (ap (λ q. q.bytes) e)

length-field :
    (packet : List ℕ) (source : Bool)
    → 44 ≤ length packet
    → length (field packet (if source then 16 else 20) 4) ≡ 4
length-field packet true h = omega (arith, length-take 4 (drop 16 packet), length-drop 16 packet)
length-field packet false h = omega (arith, length-take 4 (drop 20 packet), length-drop 20 packet)

-- The address of an IPv4 packet is printed from its bytes in the order in which they stand in the
-- packet, on a machine of either byte order, for every TUN packet of at least 44 bytes.
pub print-parse :
    (inet_ntop : InetNtop) (little : Bool) (packet dest : List ℕ) (nroute : Netroute) (maxlen : ℕ)
    (source : Bool)
    → 44 ≤ length packet
    → All (λ b. b < 256) packet
    → length nroute.addr ≡ addr_size
    → ether_type packet ≡ eth_p_ip
    → get_netroute_addr inet_ntop little
        (parse_packet_addr false little packet nroute source)
        dest
        maxlen
      ≡ put_text dest (inet_ntop false (field packet (if source then 16 else 20) 4) maxlen)
unfolding address_key
print-parse inet_ntop little packet dest nroute maxlen source h b l ip =
    let r = parse_packet_addr false little packet nroute source in
    print_key inet_ntop little r.mac r.ip4 r.addr (field packet (if source then 16 else 20) 4) dest
      maxlen (omega (arith, parse_packet_addr-size false little packet nroute source h l))
      (length-field packet source h)
      (rw ip at (parse_packet_addr-key false little packet nroute source h b l))
