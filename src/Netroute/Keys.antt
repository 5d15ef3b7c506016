-- ===== src/Netroute/Keys.antt =====
-- When two routes are the same: `compare_netroutes` of src/netroute.c.
use vpnd.Base.{
  ℕ, zero, suc, ◌≡◌, refl, sym, ap, ◌∙◌, ◌↔◌, Bool, true, not, List, [], ◌∷◌, take, arith,
  if◌then◌else◌, Bool-ext,
}
use vpnd.Netroute.{Netroute, memcmp_same, compare_limit, compare_netroutes}

-- What a route stands for: its kind, and the bytes that this kind has.
pub record Key : Type 0 where
  pub mac : Bool
  pub ip4 : Bool
  pub bytes : List ℕ

abbrev pub key_size : Netroute → ℕ
key_size r = if not r.mac then (if r.ip4 then 4 else 16) else 6

abbrev pub key : Netroute → Key
key r = record { mac = r.mac; ip4 = r.ip4; bytes = take (key_size r) r.addr }

memcmp_same_iff : (n : ℕ) (xs ys : List ℕ) → (memcmp_same n xs ys ≡ true) ↔ (take n xs ≡ take n ys)
unfolding memcmp_same
memcmp_same_iff zero xs ys = (λ _. refl, λ _. refl)
memcmp_same_iff (suc n) [] [] = (λ _. refl, λ _. refl)
memcmp_same_iff (suc n) [] (y ∷ ys) = (λ h. cc, λ h. cc)
memcmp_same_iff (suc n) (x ∷ xs) [] = (λ h. cc, λ h. cc)
memcmp_same_iff (suc n) (x ∷ xs) (y ∷ ys) = let ih = memcmp_same_iff n xs ys in ground (arith, ih)

-- Two routes compare equal exactly when they are of the same kind and agree in the bytes that this
-- kind has: 6 of a MAC address, 4 of an IPv4 address, 16 of an IPv6 address.
pub compare_netroutes_iff :
    (r1 r2 : Netroute) → (compare_netroutes r1 r2 ≡ true) ↔ (key r1 ≡ key r2)
unfolding compare_netroutes compare_limit
compare_netroutes_iff r1 r2 = (
  (λ h. ground (arith, memcmp_same_iff (key_size r1) r1.addr r2.addr)),
  (λ h. ground (
    arith,
    ap (λ k. k.mac) h,
    ap (λ k. k.ip4) h,
    ap (λ k. k.bytes) h,
    memcmp_same_iff (key_size r1) r1.addr r2.addr,
  )),
)

pub compare_netroutes_refl : (r : Netroute) → compare_netroutes r r ≡ true
compare_netroutes_refl r = (compare_netroutes_iff r r).1 refl

pub compare_netroutes_comm : (r1 r2 : Netroute) → compare_netroutes r1 r2 ≡ compare_netroutes r2 r1
compare_netroutes_comm r1 r2 =
    Bool-ext _ _ (λ h. (compare_netroutes_iff r2 r1).1 (sym ((compare_netroutes_iff r1 r2).0 h)))
      (λ h. (compare_netroutes_iff r1 r2).1 (sym ((compare_netroutes_iff r2 r1).0 h)))

-- Routes that are the same are the same to every third route.
pub compare_netroutes_congr :
    (r1 r2 r3 : Netroute)
    → compare_netroutes r1 r2 ≡ true
    → compare_netroutes r1 r3 ≡ compare_netroutes r2 r3
compare_netroutes_congr r1 r2 r3 h =
    let same = (compare_netroutes_iff r1 r2).0 h in
    Bool-ext _ _
      (λ k. (compare_netroutes_iff r2 r3).1 (sym same ∙ (compare_netroutes_iff r1 r3).0 k))
      (λ k. (compare_netroutes_iff r1 r3).1 (same ∙ (compare_netroutes_iff r2 r3).0 k))
