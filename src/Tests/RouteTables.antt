-- ===== src/Tests/RouteTables.antt =====
-- The route table driver over a kernel that keeps one table as a list.
use edge_route_gw.Prelude.{
  ℕ, Bool, true, false, List, [], ◌∷◌, ◌++◌, none, some, any, any-append, ◌==◌, if◌then◌else◌, ◌≡◌,
  refl, arith,
}
use edge_route_gw.Prelude.Sorting.{insertion, insertion_sort}
use edge_route_gw.Net.{Prefix, prefix_eq}
use edge_route_gw.RouteTable.{
  route_table, Kernel, listing, Pace, TableDriver, missing, diff, apply_state, plan, plan_of,
}
use edge_route_gw.RouteTable.Converge.{IsTable, any-missing, apply_state-holds}
use edge_route_gw.RouteTable.Plans.{plan-unchanged}
use edge_route_gw.Driver.{changes}
use edge_route_gw.Tests.Sample.{ip, cidr}

abbrev lists : Kernel (List Prefix)
lists = record {
  list = λ w t. listing (if t == route_table then w else []);
  add = λ t ps w. if t == route_table then (w ++ ps, none) else (w, some "no such table");
  del = λ t ps w. if t == route_table then (missing w ps, none) else (w, some "no such table");
}

abbrev lists_hold : List Prefix → ℕ → Prefix → Bool
lists_hold w t p = if t == route_table then any (prefix_eq p) w else false

lists-IsTable : IsTable lists lists_hold
lists-IsTable = record {
  listed = λ t w have l p. ground (arith, l);
  added = λ t ps w e u p. ground (arith, e, any-append (prefix_eq p) w ps);
  deleted = λ t ps w e u p. ground (arith, e, any-missing p w ps);
}

abbrev before : List Prefix
before = cidr (ip 198 51 100 0) 24 ∷ cidr (ip 203 0 113 0) 24 ∷ []

abbrev wanted : List Prefix
wanted = cidr (ip 203 0 113 0) 24 ∷ cidr (ip 192 0 2 1) 32 ∷ []

abbrev one_by_one : Pace (List Prefix)
one_by_one = record { batch = 1; interval = 2; sleep = λ t w. none }

abbrev idle : TableDriver
idle = record { last_err = ""; last_apply = none; cleaned = true; installed = 0 }

applied :
    (apply_state lists one_by_one (diff insertion before wanted) before idle).0.0
    ≡ cidr (ip 203 0 113 0) 24 ∷ cidr (ip 192 0 2 1) 32 ∷ []
unfolding apply_state diff insertion_sort
applied = refl

apply_state-holds_example :
    lists_hold
      (apply_state lists one_by_one (diff insertion before wanted) before idle).0.0
      route_table
      (cidr (ip 192 0 2 1) 32)
    ≡ any (prefix_eq (cidr (ip 192 0 2 1) 32)) wanted
unfolding apply_state diff insertion_sort
apply_state-holds_example =
    apply_state-holds lists lists_hold insertion one_by_one before wanted before idle
      (cidr (ip 192 0 2 1) 32) lists-IsTable refl refl

-- The table holds what is wanted, and the plan is to do nothing.
plan-unchanged_example :
    lists_hold wanted route_table (cidr (ip 192 0 2 1) 32)
    ≡ any (prefix_eq (cidr (ip 192 0 2 1) 32)) wanted
unfolding plan plan_of diff insertion_sort changes
plan-unchanged_example =
    plan-unchanged lists lists_hold insertion (λ p. "") (λ n. "") wanted wanted
      (plan_of (λ p. "") (λ n. "") 2 (diff insertion wanted wanted)) (cidr (ip 192 0 2 1) 32)
      lists-IsTable refl refl
