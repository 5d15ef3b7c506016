-- ===== src/PacketHeader.antt =====
-- src/packet_header.c. A packet is the buffer that holds it: four bytes of the TUN/TAP header, then
-- the network packet. The offsets are those of the headers' layouts: source and destination at 12
-- and 16 of an IPv4 header, at 8 and 24 of an IPv6 header, and at 6 and 0 of an Ethernet header.
-- `little` stands for the machine's byte order, in which it loads the `__be32` fields.
pub mod Address
pub mod Printing
mod Tests
use vpnd.Base.{
  ℕ, ◌+◌, ◌*◌, ◌/◌, ◌%◌, ◌^◌, bit_and, bit_or, Bool, true, false, not, ◌&&◌, List, ◌++◌,
  if◌then◌else◌, ◌==◌, set, take, drop,
}
use vpnd.Protocol.{byte_at}
use vpnd.Netroute.{Netroute, addr_size}

abbrev pub eth_p_ip : ℕ
eth_p_ip = 0x0800

abbrev pub eth_p_ipv6 : ℕ
eth_p_ipv6 = 0x86dd

-- `memcpy(dest, src, n)`, with the rest of `dest` kept.
abbrev pub memcpy : List ℕ → List ℕ → ℕ → List ℕ
memcpy dest src n = take n src ++ drop n dest

-- A load of a 32-bit field at `p`, in the machine's byte order.
abbrev load32 : Bool → List ℕ → ℕ
load32 little p =
    if little
    then byte_at p 3 * 2 ^ 24 + byte_at p 2 * 2 ^ 16 + byte_at p 1 * 2 ^ 8 + byte_at p 0
    else byte_at p 0 * 2 ^ 24 + byte_at p 1 * 2 ^ 16 + byte_at p 2 * 2 ^ 8 + byte_at p 3

-- The four assignments to `nroute->addr`.
store_ip4 : List ℕ → ℕ → List ℕ
store_ip4 addr ip4_addr =
    set
      (set
        (set (set addr 0 (bit_and (ip4_addr / 2 ^ 24) 0xff)) 1 (bit_and (ip4_addr / 2 ^ 16) 0xff)) 2
        (bit_and (ip4_addr / 2 ^ 8) 0xff))
      3 (bit_and ip4_addr 0xff)

unfoldable pub parse_ip_packet : Bool → List ℕ → ℕ → Netroute → Bool → Netroute
unfolding store_ip4
parse_ip_packet little packet proto nroute source =
    if proto == eth_p_ip
    then record {
      mac = false;
      ip4 = true;
      addr = store_ip4 nroute.addr (load32 little (drop (if source then 12 else 16) packet));
    }
    else record {
      mac = false;
      ip4 = false;
      addr = memcpy nroute.addr (drop (if source then 8 else 24) packet) addr_size;
    }

unfoldable pub parse_eth_packet : List ℕ → Netroute → Bool → Netroute
parse_eth_packet packet nroute source = record {
  mac = true;
  ip4 = false;
  addr = if source then memcpy nroute.addr (drop 6 packet) 6 else memcpy nroute.addr packet 6;
}

-- `(packet[2] << 8) | (packet[3])` as a uint16
unfoldable pub ether_type : List ℕ → ℕ
ether_type packet = bit_or (byte_at packet 2 * 2 ^ 8) (byte_at packet 3) % 2 ^ 16

-- `tap` is `tuntap_tap_mode()`. A packet of another type leaves the route as it was.
unfoldable pub parse_packet_addr : Bool → Bool → List ℕ → Netroute → Bool → Netroute
parse_packet_addr tap little packet nroute source =
    if tap
    then parse_eth_packet (drop 4 packet) nroute source
    else if not (ether_type packet == eth_p_ip) && not (ether_type packet == eth_p_ipv6)
    then nroute
    else parse_ip_packet little (drop 4 packet) (ether_type packet) nroute source
