-- ===== src/RouteTable.antt =====
-- internal/driver/route/route.go: the driver of the kernel table that FRR redistributes. The kernel
-- is an interface over a world; every call is for the one protocol, so that it is left out. `%d` is
-- a parameter.
pub mod Converge
pub mod Plans
use edge_route_gw.Prelude.{
  ℕ, zero, suc, ◌-◌, String, Bool, true, false, not, ◌&&◌, List, [], ◌∷◌, ◌++◌, map, Option, none,
  some, ltb, ◌==◌, any, keep, take, drop, is_nil, length, if◌then◌else◌,
}
use Prim.Native.String
use edge_route_gw.Prelude.Sorting.{SortSlice}
use edge_route_gw.Net.{Prefix, addr_eq, addr_less, prefix_eq}
use edge_route_gw.Model.{frr, ComponentHealth, active, degraded}
use edge_route_gw.Driver.{Plan, Planned, planned, plan_error, Action, noop, exec}
use edge_route_gw.Routes.Policy.{concat}
use edge_route_gw.Text.{is_empty}

abbrev pub route_table : ℕ
route_table = 200

-- `LegacyTables` has this one entry
abbrev pub legacy_table : ℕ
legacy_table = 100

pub data Listed : Type 0 where
  listing : List Prefix → Listed
  list_error : String → Listed

-- A call that returns an error may have done a part of its work.
pub record Kernel (W : Type 0) : Type 0 where
  pub list : W → ℕ → Listed
  pub add : ℕ → List Prefix → W → W × Option String
  pub del : ℕ → List Prefix → W → W × Option String

pub record PlanState : Type 0 where
  pub add : List Prefix
  pub del : List Prefix

-- The driver's own fields.
pub record TableDriver : Type 0 where
  pub last_err : String
  pub last_apply : Option ℕ
  pub cleaned : Bool
  pub installed : ℕ

-- `Sleep` ends with an error if the context is done; where it is nil it never does.
pub record Pace (W : Type 0) : Type 0 where
  pub batch : ℕ
  pub interval : ℕ
  pub sleep : ℕ → W → Option String

-- the order of `sortPrefixes`
abbrev pub prefix_less : Prefix → Prefix → Bool
prefix_less p q = if addr_eq p.addr q.addr then ltb p.bits q.bits else addr_less p.addr q.addr

-- The prefixes of one list that are not in the other.
abbrev pub missing : List Prefix → List Prefix → List Prefix
missing ps qs = keep (λ p. not (any (prefix_eq p) qs)) ps

-- what `Plan` computes from the table and from the wanted routes
unfoldable pub diff : SortSlice Prefix → List Prefix → List Prefix → PlanState
diff sorting have want = record {
  add = sorting.sort prefix_less (missing want have);
  del = sorting.sort prefix_less (missing have want);
}

abbrev join_lines : List String → String
join_lines [] = ""
join_lines (l ∷ []) = l
join_lines (l ∷ ls) = let rest = join_lines ls in concat l (concat "\n" rest)

abbrev cut_lines : (ℕ → String) → List String → ℕ → List String
cut_lines show_nat lines top =
    if ltb top (length lines)
    then take top lines ++ concat "… " (concat (show_nat (length lines - top)) " more") ∷ []
    else lines

unfoldable pub route_diff :
    (Prefix → String) → (ℕ → String) → List Prefix → List Prefix → ℕ → String
route_diff show_prefix show_nat adds dels top = join_lines (
    cut_lines show_nat
      (map (λ p. concat "- " (show_prefix p)) dels ++ map (λ p. concat "+ " (show_prefix p)) adds)
      top)

abbrev unchanged_note : (ℕ → String) → ℕ → String
unchanged_note show_nat n =
    concat (show_nat n) (concat " route(s) in table " (concat (show_nat route_table) ", unchanged"))

abbrev changed_note : (ℕ → String) → PlanState → String
changed_note show_nat st = concat "routes +" (
    concat (show_nat (length st.add)) (
      concat " -" (
        concat (show_nat (length st.del)) (concat " (table " (concat (show_nat route_table) ")")))))

unfoldable pub plan_of : (Prefix → String) → (ℕ → String) → ℕ → PlanState → Plan PlanState
unfolding route_diff
plan_of show_prefix show_nat count st =
    if is_nil st.add && is_nil st.del
    then record {
      component = frr;
      actions = record { kind = noop; detail = unchanged_note show_nat count } ∷ [];
      diff = "";
      state = none;
    }
    else record {
      component = frr;
      actions = record { kind = exec; detail = changed_note show_nat st } ∷ [];
      diff = route_diff show_prefix show_nat st.add st.del 60;
      state = some st;
    }

abbrev pub plan_listed :
    SortSlice Prefix → (Prefix → String) → (ℕ → String) → List Prefix → Listed → Planned PlanState
plan_listed sorting show_prefix show_nat want (list_error why) =
    plan_error (concat "list kernel routes: " why)
plan_listed sorting show_prefix show_nat want (listing have) =
    planned (plan_of show_prefix show_nat (length have) (diff sorting have want))

abbrev counted : Listed → TableDriver → TableDriver
counted (list_error why) d = d
counted (listing have) d = record d { installed = length have }

abbrev pub batch_size : ℕ → ℕ
batch_size batch = if batch == 0 then 500 else batch

module _ {W : Type 0} where
  -- `Plan`; `want` are the prefixes of the rendered routes
  unfoldable pub plan :
      SortSlice Prefix
      → (Prefix → String)
      → (ℕ → String)
      → Kernel W
      → List Prefix
      → W
      → Planned PlanState
  unfolding diff plan_of
  plan sorting show_prefix show_nat kernel want w =
      plan_listed sorting show_prefix show_nat want (kernel.list w route_table)

  -- after one batch: stop at its error, or at that of the pause if there is a further batch
  abbrev pub go_on :
      Option String → Bool → Option String → W → W × Option String → W × Option String
  go_on (some why) last nap w more = (w, some why)
  go_on none true nap w more = more
  go_on none false (some why) w more = (w, some why)
  go_on none false none w more = more

  abbrev pub pause : Pace W → W → Option String
  pause pace w = if ltb 0 pace.interval then pace.sleep pace.interval w else none

  -- `paced`; the first number is fuel: as many steps as there are prefixes are enough
  unfoldable pub paced :
      (List Prefix → W → W × Option String) → Pace W → ℕ → ℕ → List Prefix → W → W × Option String
  paced fn pace batch n [] w = (w, none)
  paced fn pace batch zero (p ∷ ps) w = (w, some "out of fuel")
  paced fn pace batch (suc n) (p ∷ ps) w =
      let (w', e) = fn (take batch (p ∷ ps)) w in
      let rest = drop batch (p ∷ ps) in
      let more = paced fn pace batch n rest w' in go_on e (is_nil rest) (pause pace w') w' more

  abbrev pub after_adds :
      Kernel W → TableDriver → W × Option String → (W × TableDriver) × Option String
  after_adds kernel d (w, some why) = ((w, d), some (concat "add routes: " why))
  after_adds kernel d (w, none) = ((w, counted (kernel.list w route_table) d), none)

  abbrev pub after_dels :
      Kernel W
      → Pace W
      → ℕ
      → PlanState
      → TableDriver
      → W × Option String
      → (W × TableDriver) × Option String
  after_dels kernel pace size st d (w, some why) = ((w, d), some (concat "delete routes: " why))
  after_dels kernel pace size st d (w, none) =
      after_adds kernel d (paced (kernel.add route_table) pace size (length st.add) st.add w)

  -- the private `apply`: deletes first
  unfoldable pub apply_state :
      Kernel W → Pace W → PlanState → W → TableDriver → (W × TableDriver) × Option String
  unfolding paced
  apply_state kernel pace st w d =
      let size = batch_size pace.batch in
      after_dels kernel pace size st d
        (paced (kernel.del route_table) pace size (length st.del) st.del w)

  abbrev clean_listed : Kernel W → Listed → W → W
  clean_listed kernel (list_error why) w = w
  clean_listed kernel (listing old) w = if is_nil old then w else (kernel.del legacy_table old w).0

  abbrev pub clean : Kernel W → Bool → W → W
  clean kernel cleaned w = if cleaned then w else clean_listed kernel (kernel.list w legacy_table) w

  abbrev noted : (W × TableDriver) × Option String → (W × TableDriver) × Option String
  noted ((w, d), some why) = ((w, record d { last_err = why }), some why)
  noted ((w, d), none) = ((w, record d { last_err = "" }), none)

  abbrev with_state :
      Kernel W → Pace W → Option PlanState → W → TableDriver → (W × TableDriver) × Option String
  with_state kernel pace none w d = ((w, d), none)
  with_state kernel pace (some st) w d = noted (apply_state kernel pace st w d)

  -- `Apply`
  unfoldable pub apply :
      Kernel W → Pace W → ℕ → Plan PlanState → W → TableDriver → (W × TableDriver) × Option String
  unfolding apply_state
  apply kernel pace now p w d =
      with_state kernel pace p.state (clean kernel d.cleaned w)
        (record d { last_apply = some now; cleaned = true })

unfoldable pub health : TableDriver → ComponentHealth
health d = record {
  name = frr;
  status = if is_empty d.last_err then active else degraded;
  last_error = d.last_err;
}
