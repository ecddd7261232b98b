-- ===== src/Reconcile/Loop.antt =====
-- The loop of `pass` over the drivers, in internal/reconcile/reconcile.go.
pub mod Rounds
use Prim.Native.String
use edge_route_gw.Prelude.{
  ℕ, ◌+◌, ◌*◌, String, Bool, true, false, not, ◌&&◌, ◌||◌, List, [], ◌∷◌, ◌++◌, map, Option, none,
  some, ltb, ◌==◌, count_if, any, if◌then◌else◌,
}
use edge_route_gw.Model.{
  Component, xray, mosdns, nftables, frr, wireguard, ComponentHealth, ComponentStatus, degraded,
  down,
}
use edge_route_gw.Desired.{Snapshot}
use edge_route_gw.Routes.{Route, State, pending, published}
use edge_route_gw.Routes.Rows.{PublishedRoute}
use edge_route_gw.Driver.{
  Driver, Plan, Planned, planned, plan_error, changes, summary, noop, Action,
}
use edge_route_gw.Reconcile.{
  index, PassError, cancelled, load_failed, render_failed, record_failed, drivers_failed, Loaded,
  loaded, load_error, LogEntry, Env, BusEvent, apply_started, component_health, apply_failed,
  apply_finished, Status, Reconciler, set_good, publish, fail,
}

-- The variables of the loop over the drivers.
pub record Loop (W A S : Type 0) : Type 0 where
  pub rec : Reconciler W A S
  pub plans : List (Plan S)
  pub errs : List (Component × String)

abbrev pub failed_plan : {S : Type 0} → Component → String → Plan S
failed_plan comp why = record {
  component = comp;
  actions = record { kind = noop; detail = String.◌++◌ "plan failed: " why } ∷ [];
  diff = "";
  state = none;
}

abbrev pub add_err :
    Component → Option String → List (Component × String) → List (Component × String)
add_err comp none errs = errs
add_err comp (some why) errs = errs ++ (comp, why) ∷ []

abbrev pub good_after :
    {A : Type 0} → Component → Option String → A → (Component → Option A) → Component → Option A
good_after comp none arts good = set_good comp arts good
good_after comp (some _) arts good = good

module _ {W A S : Type 0} where
  -- what follows a plan that changes something
  unfoldable pub run_apply : Env W A S → ℕ → A → Driver W A S → Plan S → Loop W A S → Loop W A S
  unfolding summary
  run_apply env gen arts d p l =
      let r = l.rec in
      let (w, aerr) = d.apply r.world p arts in
      let entry : LogEntry = record {
        generation = gen;
        component = d.component;
        action = summary p;
        error = aerr;
      } in
      record {
        rec = record r {
          world = env.record_apply w entry;
          last_good = good_after d.component aerr arts r.last_good;
        };
        plans = l.plans ++ p ∷ [];
        errs = add_err d.component aerr l.errs;
      }

  unfoldable pub run_planned :
      Env W A S → ℕ → A → Driver W A S → Planned S → Loop W A S → Loop W A S
  unfolding run_apply changes
  run_planned env gen arts d (plan_error why) l =
      let r = l.rec in
      let entry : LogEntry = record {
        generation = gen;
        component = d.component;
        action = "plan";
        error = some why;
      } in
      record {
        rec = record r { world = env.record_apply r.world entry };
        plans = l.plans ++ failed_plan d.component why ∷ [];
        errs = l.errs ++ (d.component, why) ∷ [];
      }
  run_planned env gen arts d (planned p) l =
      let r = l.rec in
      let quiet : Loop W A S = record {
        rec = record r { last_good = set_good d.component arts r.last_good };
        plans = l.plans ++ p ∷ [];
        errs = l.errs;
      } in
      if not (changes p) then quiet else run_apply env gen arts d p l

  -- one round of the loop
  unfoldable pub run_driver : Env W A S → ℕ → A → Driver W A S → Loop W A S → Loop W A S
  unfolding run_planned
  run_driver env gen arts d l =
      let r = l.rec in run_planned env gen arts d (d.plan r.world (r.last_good d.component) arts) l

  unfoldable pub run_drivers : Env W A S → ℕ → A → List (Driver W A S) → Loop W A S → Loop W A S
  unfolding run_driver
  run_drivers env gen arts [] l = l
  run_drivers env gen arts (d ∷ ds) l = run_drivers env gen arts ds (run_driver env gen arts d l)
