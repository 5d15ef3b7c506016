-- ===== src/Netroute/Table.antt =====
-- The lists of routes: `add_netroute` and `netroute_in_array` of src/netroute.c.
use vpnd.Base.{
  ◌≡◌, refl, ap, ◌∙◌, subst, inl, inr, Bool, true, false, ◌&&◌, ◌||◌, Option, none, some, List, [],
  ◌∷◌, ◌++◌, All, arith, is_some, Bool-cases,
}
use vpnd.Netroute.{Netroute, compare_netroutes, append_last, add_netroute, netroute_in_array}
use vpnd.Netroute.Keys.{compare_netroutes_comm}

-- No route of the list is `r`.
abbrev pub Absent : Netroute → List Netroute → Type 0
Absent r = All (λ i. compare_netroutes r i ≡ false)

-- The list names no address twice.
abbrev pub Distinct : List Netroute → Type 0
Distinct [] = Unit {0}
Distinct (r ∷ rs) = Absent r rs × Distinct rs

-- The search ends at the first route that is the same as the one asked for, with none before it,
-- or finds nothing, and then no route of the list is the same.
abbrev pub Search : Netroute → List Netroute → Option Netroute → Type 0
Search r array none = Absent r array
Search r array (some i) =
    (front : List Netroute) × (back : List Netroute) × (array ≡ front ++ (i ∷ back))
    × (compare_netroutes r i ≡ true)
    × Absent r front

Search-skip :
    (r x : Netroute) (xs : List Netroute) (o : Option Netroute)
    → compare_netroutes r x ≡ false
    → Search r xs o
    → Search r (x ∷ xs) o
Search-skip r x xs none h s = (h, s)
Search-skip r x xs (some i) h (front, back, e, c, a) = (x ∷ front, back, ap (◌∷◌ x) e, c, (h, a))

-- `netroute_in_array` returns the first route of the list that is the same as the one asked for, and
-- NULL only if no route of the list is the same.
pub netroute_in_array-Search :
    (r : Netroute) (array : List Netroute) → Search r array (netroute_in_array r array)
unfolding netroute_in_array
netroute_in_array-Search r [] = tt
netroute_in_array-Search r (x ∷ xs) = elim (Bool-cases (compare_netroutes r x)) [
  | inl same ↦ rw same ([], xs, refl, same, tt)
  | inr other ↦ rw other (Search-skip r x xs _ other (netroute_in_array-Search r xs))
]

in_array-append_last :
    (r route : Netroute) (array : List Netroute)
    → is_some (netroute_in_array r (append_last array route))
      ≡ (is_some (netroute_in_array r array) || compare_netroutes r route)
unfolding netroute_in_array append_last
in_array-append_last r route [] = ground arith
in_array-append_last r route (x ∷ xs) = ground (arith, in_array-append_last r route xs)

-- A route that was added is found from then on, by every route that is the same, and no other
-- search changes; where no memory was given nothing changes.
pub in_array-add :
    (alloc : Bool) (r route : Netroute) (array : List Netroute)
    → is_some (netroute_in_array r (add_netroute alloc route array))
      ≡ (is_some (netroute_in_array r array) || (alloc && compare_netroutes r route))
unfolding add_netroute
in_array-add false r route array = ground arith
in_array-add true r route array = in_array-append_last r route array

Absent-of_none :
    (r : Netroute) (array : List Netroute) → netroute_in_array r array ≡ none → Absent r array
Absent-of_none r array e = subst (Search r array) e (netroute_in_array-Search r array)

Absent-append_last :
    (r route : Netroute) (array : List Netroute)
    → Absent r array
    → compare_netroutes r route ≡ false
    → Absent r (append_last array route)
unfolding append_last
Absent-append_last r route [] a h = (h, tt)
Absent-append_last r route (x ∷ xs) a h = (a.0, Absent-append_last r route xs a.1 h)

append_last-Distinct :
    (route : Netroute) (array : List Netroute)
    → Absent route array
    → Distinct array
    → Distinct (append_last array route)
unfolding append_last
append_last-Distinct route [] a d = (tt, tt)
append_last-Distinct route (x ∷ xs) a d = (
  Absent-append_last x route xs d.0 (compare_netroutes_comm x route ∙ a.0),
  append_last-Distinct route xs a.1 d.1,
)

-- Adding a route that the search does not find keeps the list free of repetitions.
pub add_netroute-Distinct :
    (alloc : Bool) (route : Netroute) (array : List Netroute)
    → netroute_in_array route array ≡ none
    → Distinct array
    → Distinct (add_netroute alloc route array)
unfolding add_netroute
add_netroute-Distinct false route array e d = d
add_netroute-Distinct true route array e d =
    append_last-Distinct route array (Absent-of_none route array e) d
