-- ===== src/Netroute/Tests.antt =====
-- Concrete routes, and the theorems of Netroute/Keys and Netroute/Table at concrete inputs.
use vpnd.Base.{◌≡◌, refl, ◌↔◌, true, false, none, [], ◌∷◌}
use vpnd.Netroute.{Netroute, compare_netroutes, get_netroute_addr}
use vpnd.Netroute.Keys.{key, compare_netroutes_iff}

-- 10.0.0.1 and 10.0.0.2, with rubbish behind the four bytes that count.
abbrev host_one : Netroute
host_one = record {
  mac = false;
  ip4 = true;
  addr = 10 ∷ 0 ∷ 0 ∷ 1 ∷ 0 ∷ 0 ∷ 0 ∷ 0 ∷ 0 ∷ 0 ∷ 0 ∷ 0 ∷ 0 ∷ 0 ∷ 0 ∷ 0 ∷ [];
}

abbrev host_one_again : Netroute
host_one_again = record {
  mac = false;
  ip4 = true;
  addr = 10 ∷ 0 ∷ 0 ∷ 1 ∷ 7 ∷ 7 ∷ 7 ∷ 7 ∷ 7 ∷ 7 ∷ 7 ∷ 7 ∷ 7 ∷ 7 ∷ 7 ∷ 7 ∷ [];
}

abbrev host_two : Netroute
host_two = record {
  mac = false;
  ip4 = true;
  addr = 10 ∷ 0 ∷ 0 ∷ 2 ∷ 0 ∷ 0 ∷ 0 ∷ 0 ∷ 0 ∷ 0 ∷ 0 ∷ 0 ∷ 0 ∷ 0 ∷ 0 ∷ 0 ∷ [];
}

same_host : compare_netroutes host_one host_one_again ≡ true
unfolding compare_netroutes
same_host = refl

-- 0a:00:00:02:00:00, cut to the destination's size.
abbrev card : Netroute
card = record { mac = true; ip4 = false; addr = host_two.addr }

print_card :
    get_netroute_addr (λ v6 a n. none) true card [] 9 ≡ 48 ∷ 97 ∷ 58 ∷ 48 ∷ 48 ∷ 58 ∷ 48 ∷ 48 ∷ []
unfolding get_netroute_addr
print_card = refl

compare_netroutes_iff_example :
    (compare_netroutes host_one host_two ≡ true) ↔ (key host_one ≡ key host_two)
compare_netroutes_iff_example = compare_netroutes_iff host_one host_two
