-- ===== src/Peer/Dump/Routes.antt =====
-- What the lines of `dump_peers` of src/peer.c tell of the routes.
use vpnd.Base.{
  ℕ, ◌≡◌, ◌↔◌, refl, sym, ap, ◌∙◌, Bool, true, false, List, [], ◌∷◌, ◌++◌, length, length-append,
  take, arith, ◌≤◌,
}
use vpnd.Base.Text.{codes}
use mathlib.Core.List.{append_cancel_left, append_cancel_right}
use vpnd.Netroute.{Netroute, InetNtop, compare_limit, compare_netroutes}
use vpnd.Netroute.Keys.{key, key_size, compare_netroutes_iff}
use vpnd.Netroute.Printing.{IsReadable, IsAddress, text, text-same, text-injective}
use vpnd.Peer.Dump.{kind_text, route_line}

-- The third last character of a text.
third_last : List ℕ → ℕ
third_last [] = 0
third_last (x ∷ []) = 0
third_last (x ∷ y ∷ []) = 0
third_last (x ∷ y ∷ z ∷ []) = x
third_last (x ∷ y ∷ z ∷ w ∷ rest) = third_last (y ∷ z ∷ w ∷ rest)

third_last-cons : (x : ℕ) (ys : List ℕ) → 3 ≤ length ys → third_last (x ∷ ys) ≡ third_last ys
unfolding third_last
third_last-cons x (y ∷ z ∷ w ∷ rest) h = refl
third_last-cons x _ h = absurd (omega arith)

third_last-append : (xs ys : List ℕ) → 3 ≤ length ys → third_last (xs ++ ys) ≡ third_last ys
third_last-append [] ys h = refl
third_last-append (x ∷ xs) ys h =
    third_last-cons x (xs ++ ys) (omega (arith, length-append xs ys)) ∙ third_last-append xs ys h

-- "mac)", "ipv4)" or "ipv6)"
letter : Bool → Bool → ℕ
letter true ip4 = b'c'
letter false true = b'4'
letter false false = b'6'

module _ (inet_ntop : InetNtop) (little : Bool) (decimal : ℕ → List ℕ) where
  abbrev route : Bool → Bool → List ℕ → Netroute
  route mac ip4 a = record { mac = mac; ip4 = ip4; addr = a }

  abbrev pub shown : Netroute → List ℕ
  shown = route_line inet_ntop little decimal

  abbrev tail : Bool → Bool → List ℕ → List ℕ
  tail mac ip4 a = codes " (" ++ (kind_text (route mac ip4 a) ++ codes ")\n")

  length-tail : (mac ip4 : Bool) (a : List ℕ) → 3 ≤ length (tail mac ip4 a)
  length-tail true ip4 a = omega arith
  length-tail false true a = omega arith
  length-tail false false a = omega arith

  letter_of-shown :
      (mac ip4 : Bool) (a : List ℕ) → third_last (shown (route mac ip4 a)) ≡ letter mac ip4
  unfolding route_line letter
  letter_of-shown mac ip4 a =
      third_last-append (codes "            ") _ (
        omega (
          arith,
          length-append (text inet_ntop little (route mac ip4 a)) (tail mac ip4 a),
          length-tail mac ip4 a,
        ))
      ∙ third_last-append (text inet_ntop little (route mac ip4 a)) _ (length-tail mac ip4 a)
      ∙ ends mac ip4
    where
      ends :
          (m i : Bool)
          → third_last (codes " (" ++ (kind_text (route m i a) ++ codes ")\n")) ≡ letter m i
      ends true i = unfold third_last in refl
      ends false true = unfold third_last in refl
      ends false false = unfold third_last in refl

  letter-injective :
      (m i m' i' : Bool)
      → (m ≡ true → i ≡ false)
      → (m' ≡ true → i' ≡ false)
      → letter m i ≡ letter m' i'
      → (m ≡ m') × (i ≡ i')
  unfolding letter
  letter-injective true i true i' h k e = (refl, h refl ∙ sym (k refl))
  letter-injective true i false true h k e = absurd (omega arith)
  letter-injective true i false false h k e = absurd (omega arith)
  letter-injective false true true i' h k e = absurd (omega arith)
  letter-injective false false true i' h k e = absurd (omega arith)
  letter-injective false true false true h k e = (refl, refl)
  letter-injective false true false false h k e = absurd (omega arith)
  letter-injective false false false true h k e = absurd (omega arith)
  letter-injective false false false false h k e = (refl, refl)

  text_of-shown :
      (mac ip4 : Bool) (a b : List ℕ)
      → shown (route mac ip4 a) ≡ shown (route mac ip4 b)
      → text inet_ntop little (route mac ip4 a) ≡ text inet_ntop little (route mac ip4 b)
  unfolding route_line
  text_of-shown mac ip4 a b h =
      append_cancel_right _ _ (tail mac ip4 a) (append_cancel_left (codes "            ") _ _ h)

  same_kind :
      (r r' : Netroute)
      → IsAddress r
      → IsAddress r'
      → shown r ≡ shown r'
      → (r.mac ≡ r'.mac) × (r.ip4 ≡ r'.ip4)
  same_kind r r' good good' h =
      letter-injective r.mac r.ip4 r'.mac r'.ip4 good.one_kind good'.one_kind (
        sym (letter_of-shown r.mac r.ip4 r.addr)
        ∙ ap third_last h
        ∙ letter_of-shown r'.mac r'.ip4 r'.addr)

  same_bytes :
      (mac ip4 : Bool) (r r' : Netroute)
      → r ≡ route mac ip4 r.addr
      → r' ≡ route mac ip4 r'.addr
      → IsReadable inet_ntop
      → IsAddress r
      → IsAddress r'
      → shown r ≡ shown r'
      → key r ≡ key r'
  unfolding compare_limit
  same_bytes mac ip4 r r' e e' readable good good' h =
      let shown_same : shown (route mac ip4 r.addr) ≡ shown (route mac ip4 r'.addr) =
        ap shown (sym e) ∙ h ∙ ap shown e' in
      let bytes =
        text-injective inet_ntop little mac ip4 r.addr r'.addr readable good.size good'.size
          good.bytes good'.bytes (text_of-shown mac ip4 r.addr r'.addr shown_same) in
      ap key e
      ∙ ap (λ (t : List ℕ). record { mac = mac; ip4 = ip4; bytes = t }) bytes
      ∙ ap key (sym e')

  shown_same :
      (mac ip4 : Bool) (a b : List ℕ)
      → text inet_ntop little (route mac ip4 a) ≡ text inet_ntop little (route mac ip4 b)
      → shown (route mac ip4 a) ≡ shown (route mac ip4 b)
  unfolding route_line
  shown_same mac ip4 a b h = ap (λ (t : List ℕ). codes "            " ++ (t ++ tail mac ip4 a)) h

  same_key : (r r' : Netroute) → IsAddress r → IsAddress r' → key r ≡ key r' → shown r ≡ shown r'
  unfolding compare_limit
  same_key r r' good good' h =
      let m : r.mac ≡ r'.mac = ap (λ k. k.mac) h in
      let i : r.ip4 ≡ r'.ip4 = ap (λ k. k.ip4) h in
      let e : r' ≡ route r.mac r.ip4 r'.addr = cc in
      let bytes = ap (λ k. k.bytes) h ∙ ap (λ (q : Netroute). take (key_size q) q.addr) e in
      shown_same r.mac r.ip4 r.addr r'.addr
        (text-same inet_ntop little r.mac r.ip4 r.addr r'.addr good.size good'.size bytes)
      ∙ ap shown (sym e)

  -- Two routes of sixteen address bytes, neither of both a MAC and an IPv4 kind, have the same line in
  -- the output of `dump_peers` exactly if `compare_netroutes` takes them for the same route; provided
  -- that `inet_ntop` writes every address, and two addresses differently.
  pub route_line_iff :
      (r r' : Netroute)
      → IsReadable inet_ntop
      → IsAddress r
      → IsAddress r'
      → (shown r ≡ shown r') ↔ (compare_netroutes r r' ≡ true)
  route_line_iff r r' readable good good' = (
    (λ h.
        let (m, i) = same_kind r r' good good' h in
        (compare_netroutes_iff r r').1
          (same_bytes r.mac r.ip4 r r' refl (cc) readable good good' h)),
    (λ h. same_key r r' good good' ((compare_netroutes_iff r r').0 h)),
  )
