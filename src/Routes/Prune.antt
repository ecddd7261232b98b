-- ===== src/Routes/Prune.antt =====
-- `prune` of engine.go: covered prefixes are dropped, and the rest is sorted by address.
pub mod Coverage
use edge_route_gw.Prelude.{
  ℕ, Bool, true, false, ◌&&◌, ◌||◌, List, [], ◌∷◌, ◌++◌, ltb, leb, ◌==◌, any, if◌then◌else◌,
}
use edge_route_gw.Prelude.Sorting.{SortSlice}
use edge_route_gw.Net.{contains, addr_less, addr_eq}
use edge_route_gw.Routes.{Route}

-- fewer bits first, then the lower address
abbrev pub broader_first : Route → Route → Bool
broader_first a b =
    if a.prefix.bits == b.prefix.bits
    then addr_less a.prefix.addr b.prefix.addr
    else ltb a.prefix.bits b.prefix.bits

-- the lower address first, then fewer bits
abbrev pub by_address : Route → Route → Bool
by_address a b =
    if addr_eq a.prefix.addr b.prefix.addr
    then ltb a.prefix.bits b.prefix.bits
    else addr_less a.prefix.addr b.prefix.addr

-- the test of the inner loop
abbrev pub covered : List Route → Route → Bool
covered out r = any (λ o. leb o.prefix.bits r.prefix.bits && contains o.prefix r.prefix.addr) out

unfoldable pub drop_covered : List Route → List Route → List Route
unfolding contains
drop_covered out [] = out
drop_covered out (r ∷ rs) = drop_covered (if covered out r then out else out ++ r ∷ []) rs

module _ (sorting : SortSlice Route) where
  unfoldable pub prune : List Route → List Route
  unfolding drop_covered
  prune rs = sorting.sort by_address (drop_covered [] (sorting.sort broader_first rs))
