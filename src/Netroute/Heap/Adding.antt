-- ===== src/Netroute/Heap/Adding.antt =====
-- `add_netroute` of src/netroute.c on the nodes of a list.
use vpnd.Base.{
  ℕ, zero, suc, ◌<◌, ◌≡◌, refl, sym, ap, ◌∙◌, inl, inr, Bool-cases, ==→eq, true, false, ◌||◌,
  Option, none, some, [], ◌∷◌, ◌++◌, ◌==◌, length, ok, arith, is_some, ==-refl,
}
use vpnd.Netroute.{Netroute, append_last}
use vpnd.Netroute
use vpnd.Netroute.Heap.{Node, Memory, write, duplicate_netroute, walk, append_node, add_netroute}
use vpnd.Netroute.Heap.Chains.{Cells, has, routes, node, Chain, nil, cons, Chain-write, has-free}

-- The memory that `malloc` gives is not in use.
abbrev pub IsFresh : Memory → Option ℕ → Type 0
IsFresh h none = Unit {0}
IsFresh h (some d) = h d ≡ none

has-append : (a : ℕ) (cs ds : Cells) → has a (cs ++ ds) ≡ (has a cs || has a ds)
has-append a [] ds = refl
has-append a ((p, r) ∷ cs) ds = ground (arith, has-append a cs ds)

routes-append :
    (cs : Cells) (d : ℕ) (r : Netroute) → routes (cs ++ ((d, r) ∷ [])) ≡ append_last (routes cs) r
unfolding append_last
routes-append [] d r = refl
routes-append ((p, x) ∷ cs) d r = ap (◌∷◌ x) (routes-append cs d r)

-- An address in the chain is no address outside of it.
has-ne : (a b : ℕ) (cs : Cells) → has a cs ≡ false → has b cs ≡ true → (a == b) ≡ false
has-ne a b cs out inside = elim (Bool-cases (a == b)) [
  | inl same ↦ let e : has a cs ≡ has b cs = ap (λ (c : ℕ). has c cs) (==→eq a b same) in cc
  | inr other ↦ other
]

-- The walk comes to the last node, and linking `d` there makes the list one longer.
record Linked (fuel : ℕ) (h : Memory) (p : ℕ) (cs : Cells) (d : ℕ) (rt : Netroute) : Type 0 where
  last : ℕ
  its_route : Netroute
  walked : walk fuel p h ≡ ok last
  is_last : h last ≡ some (node its_route none)
  inside : has last cs ≡ true
  longer : Chain (write h last (some (node its_route (some d)))) (some p) (cs ++ ((d, rt) ∷ []))

walk-Linked :
    (fuel : ℕ) (h : Memory) (p : ℕ) (r : Netroute) (q : Option ℕ) (cs : Cells) (d : ℕ)
    (rt : Netroute)
    → h p ≡ some (node r q)
    → has p cs ≡ false
    → Chain h q cs
    → has d ((p, r) ∷ cs) ≡ false
    → h d ≡ some (node rt none)
    → length cs < fuel
    → Linked fuel h p ((p, r) ∷ cs) d rt
unfolding walk
walk-Linked zero h p r q cs d rt e out s fresh at_d le = absurd (omega arith)
walk-Linked (suc fuel) h p r none (c ∷ cs) d rt e out s fresh at_d le = elim s [ ]
walk-Linked (suc fuel) h p r (some q) [] d rt e out s fresh at_d le = elim s [ ]
walk-Linked (suc fuel) h p r none [] d rt e out s fresh at_d le = record {
  last = p;
  its_route = r;
  walked = rw e refl;
  is_last = e;
  inside = ground (arith, ==-refl p);
  longer =
      cons (rw (==-refl p) refl) (ground (arith, fresh))
        (cons (ground (arith, fresh, at_d)) refl nil);
}
walk-Linked (suc fuel) h p r (some q) ((q', r₂) ∷ cs) d rt e out (cons {q = q₂} e₂ out₂ s) fresh
      at_d le =
    let k : Linked fuel h q ((q, r₂) ∷ cs) d rt =
      walk-Linked fuel h q r₂ q₂ cs d rt e₂ out₂ s (ground (arith, fresh)) at_d (omega arith) in
    record {
      last = k.last;
      its_route = k.its_route;
      walked = rw e k.walked;
      is_last = k.is_last;
      inside = ground (arith, k.inside);
      longer =
          let apart : (p == k.last) ≡ false = has-ne p k.last ((q, r₂) ∷ cs) out k.inside in
          let not_d : (p == d) ≡ false = ground (arith, fresh) in
          cons (rw apart e)
            (has-append p ((q, r₂) ∷ cs) ((d, rt) ∷ []) ∙ ground (arith, out, not_d)) k.longer;
    }

-- Where the list ends up: the routes are those of `add_netroute` on lists of routes, and only the new
-- node and nodes of the list are written.
abbrev pub Extended : Memory → Option ℕ → Cells → Netroute → Memory → Option ℕ → Type 0
Extended h malloc cs route g p =
    (ds : Cells) × Chain g p ds
    × (routes ds ≡ Netroute.add_netroute (is_some malloc) route (routes cs))
    × ((a : ℕ) → has a ds ≡ false → g a ≡ h a)

-- The memory with the new node, whose `next` is set to NULL.
abbrev prepared : Memory → ℕ → Node → Memory
prepared h d n = write (write h d (some (node n.route n.next))) d (some (node n.route none))

prepared-outside :
    (h : Memory) (d : ℕ) (n : Node) (a : ℕ) → (a == d) ≡ false → prepared h d n a ≡ h a
prepared-outside h d n a out = rw out refl

Chain-prepared :
    {h : Memory} {p : Option ℕ} {cs : Cells} (d : ℕ) (n : Node)
    → Chain h p cs
    → has d cs ≡ false
    → Chain (prepared h d n) p cs
Chain-prepared d n s out =
    Chain-write d (some (node n.route none)) (Chain-write d (some (node n.route n.next)) s out) out

-- Behind the first write of the new node, and where the last node is.
abbrev new_memory : (h : Memory) (d : ℕ) (n : Node) (last : ℕ) → Netroute → Memory
new_memory h d n last r = write (prepared h d n) last (some (node r (some d)))

append_node-Linked :
    (fuel : ℕ) (h : Memory) (d : ℕ) (n : Node) (p last : ℕ) (r : Netroute)
    → walk fuel p (prepared h d n) ≡ ok last
    → prepared h d n last ≡ some (node r none)
    → append_node fuel (some d) (some p) (write h d (some (node n.route n.next)))
      ≡ ok (some p, new_memory h d n last r)
unfolding append_node
append_node-Linked fuel h d n p last r walked is_last = rw (==-refl d) (rw walked (rw is_last refl))

new_memory-outside :
    (h : Memory) (d : ℕ) (n : Node) (last : ℕ) (r : Netroute) (cs : Cells) (a : ℕ)
    → has last cs ≡ true
    → has a (cs ++ ((d, n.route) ∷ [])) ≡ false
    → new_memory h d n last r a ≡ h a
new_memory-outside h d n last r cs a inside missing =
    let split : (has a cs || has a ((d, n.route) ∷ [])) ≡ false =
      sym (has-append a cs ((d, n.route) ∷ [])) ∙ missing in
    let out : has a cs ≡ false = ground (arith, split) in
    let not_d : (a == d) ≡ false = ground (arith, split) in
    let not_last : (a == last) ≡ false = has-ne a last cs out inside in
    rw not_last (prepared-outside h d n a not_d)

-- On a linked list, with more fuel than it has nodes and where `malloc` gives NULL or memory that is
-- not in use, `add_netroute` ends without a bad read or write, and leaves a linked list of the routes
-- that `add_netroute` makes of a list of routes; memory outside of that list stays as it was.
pub add_netroute-Extended :
    (fuel : ℕ) (h : Memory) (malloc : Option ℕ) (route : Node) (array : Option ℕ) (cs : Cells)
    → Chain h array cs
    → IsFresh h malloc
    → length cs < fuel
    → (p : Option ℕ) × (g : Memory) × (add_netroute fuel malloc route array h ≡ ok (p, g))
      × Extended h malloc cs route.route g p
unfolding add_netroute duplicate_netroute append_node Netroute.add_netroute
add_netroute-Extended fuel h none route array cs s free le =
    (array, h, refl, (cs, s, refl, λ a i. refl))
add_netroute-Extended fuel h (some d) route none (c ∷ cs) s free le = elim s [ ]
add_netroute-Extended fuel h (some d) route (some p) [] s free le = elim s [ ]
add_netroute-Extended fuel h (some d) route none [] s free le = (
  some d,
  prepared h d route,
  rw (==-refl d) refl,
  (
    (d, route.route) ∷ [],
    cons (rw (==-refl d) refl) refl nil,
    refl,
    λ a out. prepared-outside h d route a (ground (arith, out)),
  ),
)
add_netroute-Extended fuel h (some d) route (some p) ((p', r) ∷ cs) (cons {q} e out s) free le =
    let unused : has d ((p, r) ∷ cs) ≡ false = has-free d (cons e out s) free in
    let not_d : (p == d) ≡ false = ground (arith, unused) in
    let h₁ : Memory = prepared h d route in
    let k : Linked fuel h₁ p ((p, r) ∷ cs) d route.route =
      walk-Linked fuel h₁ p r q cs d route.route (prepared-outside h d route p not_d ∙ e) out
        (Chain-prepared d route s (ground (arith, unused))) unused (rw (==-refl d) refl)
        (omega arith) in
    (
      some p,
      new_memory h d route k.last k.its_route,
      append_node-Linked fuel h d route p k.last k.its_route k.walked k.is_last,
      (
        ((p, r) ∷ cs) ++ ((d, route.route) ∷ []),
        k.longer,
        routes-append ((p, r) ∷ cs) d route.route,
        λ a missing.
            new_memory-outside h d route k.last k.its_route ((p, r) ∷ cs) a k.inside missing,
      ),
    )
