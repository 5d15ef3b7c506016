-- ===== src/Netroute.antt =====
-- src/netroute.c and `struct netroute` of include/structs.h. The linked list of routes is a list,
-- so the `next` field is the order of the list. `alloc` says whether `malloc` gives memory.
pub mod Keys
pub mod Printing
pub mod Table
pub mod Heap
mod Tests
use vpnd.Base.{
  ℕ, zero, suc, ◌+◌, ◌-◌, ◌/◌, ◌%◌, Bool, true, false, not, ◌&&◌, ◌||◌, Option, none, some, List,
  [], ◌∷◌, ◌++◌, if◌then◌else◌, same_flag, ltb, ◌==◌, take,
}
use vpnd.Protocol.{byte_at}

pub record Netroute : Type 0 where
  pub mac : Bool
  pub ip4 : Bool
  pub addr : List ℕ

-- `sizeof(r1->addr)`
abbrev pub addr_size : ℕ
addr_size = 16

-- `memcmp(xs, ys, n) == 0`
unfoldable pub memcmp_same : ℕ → List ℕ → List ℕ → Bool
memcmp_same zero xs ys = true
memcmp_same (suc n) [] [] = true
memcmp_same (suc n) [] (y ∷ ys) = false
memcmp_same (suc n) (x ∷ xs) [] = false
memcmp_same (suc n) (x ∷ xs) (y ∷ ys) = x == y && memcmp_same n xs ys

-- How many bytes of the address count.
unfoldable pub compare_limit : Netroute → ℕ
compare_limit r = if not r.mac then (if r.ip4 then 4 else addr_size) else 6

unfoldable pub compare_netroutes : Netroute → Netroute → Bool
unfolding memcmp_same compare_limit
compare_netroutes r1 r2 =
    if not (same_flag r1.mac r2.mac) || not (same_flag r1.ip4 r2.ip4)
    then false
    else if not (memcmp_same (compare_limit r1) r1.addr r2.addr)
    then false
    else true

unfoldable pub duplicate_netroute : Bool → Netroute → Option Netroute
duplicate_netroute alloc route =
    if not alloc
    then none
    else some (record { mac = route.mac; ip4 = route.ip4; addr = route.addr })

-- The walk to the last node, and the write of its `next`.
append_last : List Netroute → Netroute → List Netroute
append_last [] dupr = dupr ∷ []
append_last (r ∷ rs) dupr = r ∷ append_last rs dupr

unfoldable pub add_netroute : Bool → Netroute → List Netroute → List Netroute
unfolding duplicate_netroute append_last
add_netroute alloc route array = elim (duplicate_netroute alloc route) [
  | none ↦ array
  | some dupr ↦ append_last array dupr
]

unfoldable pub netroute_in_array : Netroute → List Netroute → Option Netroute
netroute_in_array route [] = none
netroute_in_array route (i ∷ rest) =
    if compare_netroutes route i then some i else netroute_in_array route rest

-- `%02x` of a byte.
hex_digit : ℕ → ℕ
hex_digit n = if ltb n 10 then n + 48 else n + 87

hex_byte : ℕ → List ℕ
unfolding hex_digit
hex_byte b = hex_digit (b / 16) ∷ hex_digit (b % 16) ∷ []

-- `snprintf(dest, maxlen, …)`: at most `maxlen - 1` characters, and nothing at all for 0.
snprintf : List ℕ → ℕ → List ℕ → List ℕ
snprintf dest maxlen text = if maxlen == 0 then dest else take (maxlen - 1) text

-- The text of six bytes, with colons (58) between them.
mac_text : List ℕ → List ℕ
unfolding hex_byte
mac_text a =
    hex_byte (byte_at a 0)
    ++ (58 ∷ hex_byte (byte_at a 1))
    ++ (58 ∷ hex_byte (byte_at a 2))
    ++ (58 ∷ hex_byte (byte_at a 3))
    ++ (58 ∷ hex_byte (byte_at a 4))
    ++ (58 ∷ hex_byte (byte_at a 5))

-- `inet_ntop` of the C library is a parameter: it is given whether the address is an IPv6 one, its
-- bytes and the size of the destination, and may refuse, which leaves `dest` as it was.
abbrev pub InetNtop : Type 0
InetNtop = Bool → List ℕ → ℕ → Option (List ℕ)

abbrev pub put_text : List ℕ → Option (List ℕ) → List ℕ
put_text dest none = dest
put_text dest (some text) = text

unfoldable pub get_netroute_addr : InetNtop → Bool → Netroute → List ℕ → ℕ → List ℕ
unfolding snprintf mac_text
get_netroute_addr inet_ntop little route dest maxlen =
    let a = route.addr in
    let ordered_ip = byte_at a 3 ∷ byte_at a 2 ∷ byte_at a 1 ∷ byte_at a 0 ∷ [] in
    if route.mac
    then snprintf dest maxlen (mac_text a)
    else if route.ip4
    then if little
      then put_text dest (inet_ntop false ordered_ip maxlen)
      else put_text dest (inet_ntop false (take 4 a) maxlen)
    else put_text dest (inet_ntop true (take addr_size a) maxlen)
