-- ===== src/Netroute/Heap/Chains.antt =====
-- What a linked list of routes of src/netroute.c stands for.
use vpnd.Base.{
  ℕ, zero, suc, ◌<◌, ◌≡◌, refl, ◌∙◌, inl, inr, Bool, true, false, ◌||◌, Option, none, some, List,
  [], ◌∷◌, ◌==◌, length, ok, arith, Bool-cases, ==-refl,
}
use vpnd.Netroute.{Netroute, compare_netroutes}
use vpnd.Netroute
use vpnd.Netroute.Heap.{Node, Memory, write, netroute_in_array}

-- Addresses and routes, in the order of the list.
abbrev pub Cells : Type 0
Cells = List (ℕ × Netroute)

abbrev pub has : ℕ → Cells → Bool
has a [] = false
has a ((p, r) ∷ cs) = (a == p) || has a cs

abbrev pub routes : Cells → List Netroute
routes [] = []
routes ((p, r) ∷ cs) = r ∷ routes cs

abbrev pub node : Netroute → Option ℕ → Node
node r q = record { route = r; next = q }

-- From `p` the `next` pointers lead through these nodes, no one twice, to NULL.
pub data Chain (h : Memory) : Option ℕ → Cells → Type 0 where
  nil : Chain h none []
  cons :
      {p : ℕ} {r : Netroute} {q : Option ℕ} {cs : Cells}
      → h p ≡ some (node r q)
      → has p cs ≡ false
      → Chain h q cs
      → Chain h (some p) ((p, r) ∷ cs)

-- A chain does not notice what happens at other addresses.
pub Chain-frame :
    {h g : Memory} {p : Option ℕ} {cs : Cells}
    → Chain h p cs
    → ((a : ℕ) → has a cs ≡ true → g a ≡ h a)
    → Chain g p cs
Chain-frame nil same = nil
Chain-frame (cons {p} e out s) same =
    cons (same p (ground (arith, ==-refl p)) ∙ e) out (Chain-frame s (λ a i. same a (ground arith)))

pub Chain-write :
    {h : Memory} {p : Option ℕ} {cs : Cells} (a : ℕ) (c : Option Node)
    → Chain h p cs
    → has a cs ≡ false
    → Chain (write h a c) p cs
Chain-write a c s out = Chain-frame s (λ b i. ground (arith, i, out))

-- No free address is in a chain.
pub has-free :
    {h : Memory} {p : Option ℕ} {cs : Cells} (a : ℕ) → Chain h p cs → h a ≡ none → has a cs ≡ false
has-free a nil free = refl
has-free a (cons {p} e out s) free = ground (arith, has-free a s free)

-- What the search for a route comes to: NULL, or the address of a node of the list with that route.
abbrev pub FoundAt : Memory → Option Netroute → Option ℕ → Type 0
FoundAt h none o = o ≡ none
FoundAt h (some r) o = (p : ℕ) × (q : Option ℕ) × (o ≡ some p) × (h p ≡ some (node r q))

-- On a linked list, with more fuel than it has nodes, the search of `netroute_in_array` ends without
-- a bad read, and comes to the node of the very route that the search in the list of the routes finds,
-- or to NULL where that finds none.
pub netroute_in_array-FoundAt :
    (fuel : ℕ) (route : Netroute) (h : Memory) (p : Option ℕ) (cs : Cells)
    → Chain h p cs
    → length cs < fuel
    → (o : Option ℕ) × (netroute_in_array fuel route p h ≡ ok o)
      × FoundAt h (Netroute.netroute_in_array route (routes cs)) o
unfolding netroute_in_array Netroute.netroute_in_array
netroute_in_array-FoundAt zero route h p cs s le = absurd (omega arith)
netroute_in_array-FoundAt (suc fuel) route h none [] nil le = (none, refl, refl)
netroute_in_array-FoundAt (suc fuel) route h none (c ∷ cs) s le = elim s [ ]
netroute_in_array-FoundAt (suc fuel) route h (some p) [] s le = elim s [ ]
netroute_in_array-FoundAt (suc fuel) route h (some p) ((p', r) ∷ cs) (cons {q} e out s) le =
    elim (Bool-cases (compare_netroutes route r)) [
      | inl same ↦
          let ran : netroute_in_array (suc fuel) route (some p) h ≡ ok (some p) =
            ground (arith, e, same) in
          (some p, ran, rw same (p, q, refl, e))
      | inr other ↦
          let (o, ran, found) = netroute_in_array-FoundAt fuel route h q cs s (omega arith) in
          let ran' : netroute_in_array (suc fuel) route (some p) h ≡ ok o =
            ground (arith, e, other, ran) in
          (o, ran', rw other found)
    ]
