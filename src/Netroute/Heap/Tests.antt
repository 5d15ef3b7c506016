-- ===== src/Netroute/Heap/Tests.antt =====
-- A list of two nodes in memory, and the theorems about src/netroute.c at it.
use vpnd.Base.{
  ℕ, ◌≡◌, refl, true, false, Option, none, some, [], ◌∷◌, if◌then◌else◌, ◌==◌, ok, arith,
}
use vpnd.Netroute.{Netroute, compare_netroutes}
use vpnd.Netroute
use vpnd.Netroute.Heap.{Memory, add_netroute, destroy_netroutes, netroute_in_array}
use vpnd.Netroute.Heap.Chains.{
  Cells, has, routes, node, Chain, nil, cons, FoundAt, netroute_in_array-FoundAt,
}
use vpnd.Netroute.Heap.Adding.{Extended, add_netroute-Extended}
use vpnd.Netroute.Heap.Freeing.{destroy_netroutes-frees}

abbrev device : ℕ → Netroute
device n = record { mac = true; ip4 = false; addr = 2 ∷ 0 ∷ 0 ∷ 0 ∷ 0 ∷ n ∷ [] }

-- The node at 20, then the one at 10.
abbrev memory : Memory
memory a =
    if a == 20
    then some (node (device 1) (some 10))
    else if a == 10
    then some (node (device 2) none)
    else none

abbrev cells : Cells
cells = (20, device 1) ∷ (10, device 2) ∷ []

cells-Chain : Chain memory (some 20) cells
cells-Chain = cons refl refl (cons refl refl nil)

found_second : netroute_in_array 3 (device 2) (some 20) memory ≡ ok (some 10)
unfolding netroute_in_array compare_netroutes
found_second = refl

netroute_in_array-FoundAt_example :
    (o : Option ℕ) × (netroute_in_array 3 (device 2) (some 20) memory ≡ ok o)
    × FoundAt memory (Netroute.netroute_in_array (device 2) (routes cells)) o
netroute_in_array-FoundAt_example =
    netroute_in_array-FoundAt 3 (device 2) memory (some 20) cells cells-Chain (omega arith)

add_netroute-Extended_example :
    (p : Option ℕ) × (g : Memory) × (add_netroute 3
        (some 30)
        (node (device 3) (some 99))
        (some 20)
        memory
      ≡ ok (p, g))
    × Extended memory (some 30) cells (device 3) g p
add_netroute-Extended_example =
    add_netroute-Extended 3 memory (some 30) (node (device 3) (some 99)) (some 20) cells cells-Chain
      refl (omega arith)

destroy_netroutes-frees_example :
    (g : Memory) × (destroy_netroutes 3 (some 20) memory ≡ ok g)
    × ((a : ℕ) → g a ≡ (if has a cells then none else memory a))
destroy_netroutes-frees_example =
    destroy_netroutes-frees 3 memory (some 20) cells cells-Chain (omega arith)
