-- ===== src/Netroute/Heap/Freeing.antt =====
-- `destroy_netroutes` of src/netroute.c on the nodes of a list.
use vpnd.Base.{
  ℕ, zero, suc, ◌<◌, ◌≡◌, refl, Option, none, some, [], ◌∷◌, if◌then◌else◌, length, ok, arith,
}
use vpnd.Netroute.Heap.{Memory, write, destroy_netroutes}
use vpnd.Netroute.Heap.Chains.{Cells, has, Chain, cons, Chain-write}

-- On a linked list, with more fuel than it has nodes, `destroy_netroutes` ends without a bad read or a
-- second free: every node of the list is freed, and no other memory changes.
pub destroy_netroutes-frees :
    (fuel : ℕ) (h : Memory) (p : Option ℕ) (cs : Cells)
    → Chain h p cs
    → length cs < fuel
    → (g : Memory) × (destroy_netroutes fuel p h ≡ ok g)
      × ((a : ℕ) → g a ≡ (if has a cs then none else h a))
unfolding destroy_netroutes
destroy_netroutes-frees zero h p cs s le = absurd (omega arith)
destroy_netroutes-frees (suc fuel) h none [] s le = (h, refl, λ a. refl)
destroy_netroutes-frees (suc fuel) h none (c ∷ cs) s le = elim s [ ]
destroy_netroutes-frees (suc fuel) h (some p) [] s le = elim s [ ]
destroy_netroutes-frees (suc fuel) h (some p) ((p', r) ∷ cs) (cons {q} e out s) le =
    let (g, ran, gone) =
      destroy_netroutes-frees fuel (write h p none) q cs (Chain-write p none s out) (omega arith) in
    (g, rw e ran, λ a. ground (arith, gone a))
