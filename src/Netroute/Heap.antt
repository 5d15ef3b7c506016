-- ===== src/Netroute/Heap.antt =====
-- The linked lists of src/netroute.c in memory: `add_netroute`, `netroute_in_array` and
-- `destroy_netroutes` over nodes at addresses. A pointer is an address, or `none` for NULL; what
-- `malloc` returns is an argument. The loops take fuel.
pub mod Chains
pub mod Adding
pub mod Freeing
mod Tests
use vpnd.Base.{
  ℕ, zero, suc, true, false, Option, none, some, if◌then◌else◌, ◌==◌, Outcome, ok, fault, stuck,
  or_fault, ◌>>=◌,
}
use vpnd.Netroute.{Netroute, compare_netroutes}

-- `struct netroute` with its `next`.
pub record Node : Type 0 where
  pub route : Netroute
  pub next : Option ℕ

abbrev pub Memory : Type 0
Memory = ℕ → Option Node

abbrev pub write : Memory → ℕ → Option Node → Memory
write h p c a = if a == p then c else h a

-- `*p`, a fault where no node is.
abbrev pub load : ℕ → Memory → Outcome Node
load p h = or_fault (h p)

-- A write of the whole node, and of its `next`.
abbrev pub store : ℕ → Node → Memory → Outcome Memory
store p n h = ok (write h p (some n))

abbrev pub set_next : ℕ → Option ℕ → Memory → Outcome Memory
set_next p q h = load p h >>= λ n. store p (record { route = n.route; next = q }) h

abbrev pub free : ℕ → Memory → Outcome Memory
free p h = load p h >>= λ n. ok (write h p none)

-- The memory behind `malloc` holds nothing that is read before it is written.
unfoldable pub duplicate_netroute : Option ℕ → Node → Memory → Outcome (Option ℕ × Memory)
duplicate_netroute none route h = ok (none, h)
duplicate_netroute (some dupr) route h =
    store dupr (record { route = route.route; next = route.next }) h >>= λ h'. ok (some dupr, h')

-- `while (last->next) last = last->next;`
unfoldable pub walk : ℕ → ℕ → Memory → Outcome ℕ
walk zero last h = stuck
walk (suc fuel) last h =
    load last h >>= λ n. elim n.next [ none ↦ ok last | some q ↦ walk fuel q h ]

-- Behind the allocation: `array` is the value of `*array`, and the new one is returned.
unfoldable pub append_node : ℕ → Option ℕ → Option ℕ → Memory → Outcome (Option ℕ × Memory)
append_node fuel none array h = ok (array, h)
append_node fuel (some dupr) none h = set_next dupr none h >>= λ h'. ok (some dupr, h')
append_node fuel (some dupr) (some first) h = set_next dupr none h >>= λ h₁.
    walk fuel first h₁ >>= λ last. set_next last (some dupr) h₁ >>= λ h₂. ok (some first, h₂)

unfoldable pub add_netroute : ℕ → Option ℕ → Node → Option ℕ → Memory → Outcome (Option ℕ × Memory)
add_netroute fuel malloc route array h =
    duplicate_netroute malloc route h >>= λ (dupr, h₁). append_node fuel dupr array h₁

unfoldable pub destroy_netroutes : ℕ → Option ℕ → Memory → Outcome Memory
destroy_netroutes zero current h = stuck
destroy_netroutes (suc fuel) none h = ok h
destroy_netroutes (suc fuel) (some current) h =
    load current h >>= λ n. free current h >>= λ h'. destroy_netroutes fuel n.next h'

unfoldable pub netroute_in_array : ℕ → Netroute → Option ℕ → Memory → Outcome (Option ℕ)
netroute_in_array zero route i h = stuck
netroute_in_array (suc fuel) route none h = ok none
netroute_in_array (suc fuel) route (some i) h = load i h >>= λ n.
    elim (compare_netroutes route n.route) [
      | true ↦ ok (some i)
      | false ↦ netroute_in_array fuel route n.next h
    ]
