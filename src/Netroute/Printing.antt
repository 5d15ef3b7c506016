-- ===== src/Netroute/Printing.antt =====
-- The text of an address, `get_netroute_addr` of src/netroute.c, tells which address it is.
use vpnd.Base.{
  ℕ, ◌/◌, ◌%◌, ◌<◌, ◌≡◌, refl, sym, ap, ◌∙◌, Bool, true, false, Option, none, some, List, [], ◌∷◌,
  if◌then◌else◌, length, take, All, arith, is_some, length-take,
}
use vpnd.Netroute.{
  Netroute, InetNtop, addr_size, compare_limit, hex_digit, mac_text, put_text, get_netroute_addr,
}
use vpnd.Protocol.{byte_at}

-- INET6_ADDRSTRLEN
abbrev pub inet6_addrstrlen : ℕ
inet6_addrstrlen = 46

-- `inet_ntop` writes every address into a buffer of 46 bytes, and two addresses differently.
abbrev pub address_size : Bool → ℕ
address_size v6 = if v6 then 16 else 4

pub record IsReadable (inet_ntop : InetNtop) : Type 0 where
  pub written :
      (v6 : Bool) (a : List ℕ)
      → length a ≡ address_size v6
      → is_some (inet_ntop v6 a inet6_addrstrlen) ≡ true
  pub different :
      (v6 : Bool) (a b : List ℕ)
      → length a ≡ address_size v6
      → length b ≡ address_size v6
      → inet_ntop v6 a inet6_addrstrlen ≡ inet_ntop v6 b inet6_addrstrlen
      → a ≡ b

-- A route as the parsers leave it: sixteen bytes, and not both a MAC and an IPv4 address.
pub record IsAddress (r : Netroute) : Type 0 where
  pub size : length r.addr ≡ addr_size
  pub bytes : All (λ b. b < 256) r.addr
  pub one_kind : r.mac ≡ true → r.ip4 ≡ false

hex_digit-injective : (x y : ℕ) → x < 16 → y < 16 → hex_digit x ≡ hex_digit y → x ≡ y
unfolding hex_digit
hex_digit-injective x y p q h = ground arith

byte-injective :
    (x y : ℕ)
    → x < 256
    → y < 256
    → hex_digit (x / 16) ≡ hex_digit (y / 16)
    → hex_digit (x % 16) ≡ hex_digit (y % 16)
    → x ≡ y
byte-injective x y p q h k = omega (
  arith,
  hex_digit-injective (x / 16) (y / 16) (omega arith) (omega arith) h,
  hex_digit-injective (x % 16) (y % 16) (omega arith) (omega arith) k,
)

-- The first six bytes.
mac_text-injective :
    (a b : List ℕ)
    → length a ≡ 16
    → length b ≡ 16
    → All (λ x. x < 256) a
    → All (λ x. x < 256) b
    → mac_text a ≡ mac_text b
    → take 6 a ≡ take 6 b
unfolding mac_text
mac_text-injective (a ∷ b ∷ c ∷ d ∷ e ∷ f ∷ rest) (a' ∷ b' ∷ c' ∷ d' ∷ e' ∷ f' ∷ rest') p q h k t =
    let ea : a ≡ a' = byte-injective a a' h.0 k.0 (cc) (cc) in
    let eb : b ≡ b' = byte-injective b b' h.1.0 k.1.0 (cc) (cc) in
    let ec : c ≡ c' = byte-injective c c' h.1.1.0 k.1.1.0 (cc) (cc) in
    let ed : d ≡ d' = byte-injective d d' h.1.1.1.0 k.1.1.1.0 (cc) (cc) in
    let ee : e ≡ e' = byte-injective e e' h.1.1.1.1.0 k.1.1.1.1.0 (cc) (cc) in
    let ef : f ≡ f' = byte-injective f f' h.1.1.1.1.1.0 k.1.1.1.1.1.0 (cc) (cc) in
    rw (ea, eb, ec, ed, ee, ef) refl
mac_text-injective _ _ p q h k t = absurd (omega arith)

mac_text-take : (a : List ℕ) → length a ≡ 16 → mac_text a ≡ mac_text (take 6 a)
unfolding mac_text
mac_text-take (a ∷ b ∷ c ∷ d ∷ e ∷ f ∷ rest) h = refl
mac_text-take _ h = absurd (omega arith)

-- The bytes that are handed to `inet_ntop` for an IPv4 address.
abbrev ip4_bytes : Bool → List ℕ → List ℕ
ip4_bytes little a =
    if little then byte_at a 3 ∷ byte_at a 2 ∷ byte_at a 1 ∷ byte_at a 0 ∷ [] else take 4 a

ip4_bytes-take :
    (little : Bool) (a : List ℕ) → length a ≡ 16 → ip4_bytes little a ≡ ip4_bytes little (take 4 a)
ip4_bytes-take true (a ∷ b ∷ c ∷ d ∷ rest) h = refl
ip4_bytes-take false (a ∷ b ∷ c ∷ d ∷ rest) h = refl
ip4_bytes-take little _ h = absurd (omega arith)

ip4_bytes-injective :
    (little : Bool) (a b : List ℕ)
    → length a ≡ 16
    → length b ≡ 16
    → ip4_bytes little a ≡ ip4_bytes little b
    → take 4 a ≡ take 4 b
ip4_bytes-injective true (a ∷ b ∷ c ∷ d ∷ rest) (a' ∷ b' ∷ c' ∷ d' ∷ rest') h k e = cc
ip4_bytes-injective false a b h k e = e
ip4_bytes-injective true _ _ h k e = absurd (omega arith)

length-ip4_bytes : (little : Bool) (a : List ℕ) → length a ≡ 16 → length (ip4_bytes little a) ≡ 4
length-ip4_bytes true a h = refl
length-ip4_bytes false a h = omega (arith, length-take 4 a)

put_text-injective :
    (o o' : Option (List ℕ))
    → is_some o ≡ true
    → is_some o' ≡ true
    → put_text [] o ≡ put_text [] o'
    → o ≡ o'
put_text-injective none o' h k e = cc
put_text-injective (some t) none h k e = cc
put_text-injective (some t) (some t') h k e = ap some e

module _ (inet_ntop : InetNtop) (little : Bool) where
  -- The text that is written over a buffer of zeros.
  abbrev pub text : Netroute → List ℕ
  text r = get_netroute_addr inet_ntop little r [] inet6_addrstrlen

  -- The text of an address of each kind.
  text-mac :
      (ip4 : Bool) (a : List ℕ) → text (record { mac = true; ip4 = ip4; addr = a }) ≡ mac_text a
  unfolding get_netroute_addr
  text-mac ip4 a = refl

  text-ip4 :
      (a : List ℕ)
      → text (record { mac = false; ip4 = true; addr = a })
        ≡ put_text [] (inet_ntop false (ip4_bytes little a) inet6_addrstrlen)
  unfolding get_netroute_addr
  text-ip4 a = ground arith

  text-ip6 :
      (a : List ℕ)
      → text (record { mac = false; ip4 = false; addr = a })
        ≡ put_text [] (inet_ntop true (take 16 a) inet6_addrstrlen)
  unfolding get_netroute_addr
  text-ip6 a = refl

  abbrev route : Bool → Bool → List ℕ → Netroute
  route mac ip4 a = record { mac = mac; ip4 = ip4; addr = a }

  pub text-same :
      (mac ip4 : Bool) (a b : List ℕ)
      → length a ≡ 16
      → length b ≡ 16
      → take (compare_limit (route mac ip4 a)) a ≡ take (compare_limit (route mac ip4 b)) b
      → text (route mac ip4 a) ≡ text (route mac ip4 b)
  unfolding compare_limit
  text-same true ip4 a b h k e =
      text-mac ip4 a ∙ mac_text-take a h ∙ ap mac_text e ∙ sym (text-mac ip4 b ∙ mac_text-take b k)
  text-same false true a b h k e =
      text-ip4 a
      ∙ ap (λ (t : List ℕ). put_text [] (inet_ntop false t inet6_addrstrlen))
          (ip4_bytes-take little a h ∙ ap (ip4_bytes little) e ∙ sym (ip4_bytes-take little b k))
      ∙ sym (text-ip4 b)
  text-same false false a b h k e =
      text-ip6 a
      ∙ ap (λ (t : List ℕ). put_text [] (inet_ntop true t inet6_addrstrlen)) e
      ∙ sym (text-ip6 b)

  pub text-injective :
      (mac ip4 : Bool) (a b : List ℕ)
      → IsReadable inet_ntop
      → length a ≡ 16
      → length b ≡ 16
      → All (λ x. x < 256) a
      → All (λ x. x < 256) b
      → text (route mac ip4 a) ≡ text (route mac ip4 b)
      → take (compare_limit (route mac ip4 a)) a ≡ take (compare_limit (route mac ip4 b)) b
  unfolding compare_limit
  text-injective true ip4 a b good h k ba bb e =
      mac_text-injective a b h k ba bb (sym (text-mac ip4 a) ∙ e ∙ text-mac ip4 b)
  text-injective false true a b good h k ba bb e =
      let la = length-ip4_bytes little a h in
      let lb = length-ip4_bytes little b k in
      ip4_bytes-injective little a b h k (
        good.different false (ip4_bytes little a) (ip4_bytes little b) la lb (
          put_text-injective _ _ (good.written false (ip4_bytes little a) la)
            (good.written false (ip4_bytes little b) lb) (sym (text-ip4 a) ∙ e ∙ text-ip4 b)))
  text-injective false false a b good h k ba bb e =
      let la : length (take 16 a) ≡ 16 = omega (arith, length-take 16 a) in
      let lb : length (take 16 b) ≡ 16 = omega (arith, length-take 16 b) in
      good.different true (take 16 a) (take 16 b) la lb (
        put_text-injective _ _ (good.written true (take 16 a) la) (good.written true (take 16 b) lb)
          (sym (text-ip6 a) ∙ e ∙ text-ip6 b))
