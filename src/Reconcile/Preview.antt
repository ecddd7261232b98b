-- ===== src/Reconcile/Preview.antt =====
-- `PlanOnly` of internal/reconcile/reconcile.go: the plans without their application. The map of last
-- good artifacts is a function, so that its copy is the map.
use edge_route_gw.Prelude.{List, [], ◌∷◌, none}
use edge_route_gw.Routes.Policy.{concat}
use edge_route_gw.Model.{Component}
use edge_route_gw.Desired.{Snapshot}
use edge_route_gw.Driver.{Driver, Plan, Planned, planned, plan_error, noop}
use edge_route_gw.Reconcile.{Loaded, loaded, load_error, Env, Reconciler}

-- a plan that failed is shown as one that does nothing
abbrev pub shown_plan : {S : Type 0} → Component → Planned S → Plan S
shown_plan c (planned p) = p
shown_plan c (plan_error why) = record {
  component = c;
  actions = record { kind = noop; detail = concat "plan error: " why } ∷ [];
  diff = "";
  state = none;
}

module _ {W A S : Type 0} where
  unfoldable pub preview : List (Driver W A S) → A → Reconciler W A S → List (Plan S)
  preview [] arts r = []
  preview (d ∷ ds) arts r =
      shown_plan d.component (d.plan r.world (r.last_good d.component) arts) ∷ preview ds arts r

  abbrev pub with_artifacts :
      List (Driver W A S) → Loaded A → Reconciler W A S → Loaded (List (Plan S) × A)
  with_artifacts ds (load_error why) r = load_error why
  with_artifacts ds (loaded arts) r = loaded (preview ds arts r, arts)

  abbrev pub with_snapshot :
      Env W A S
      → List (Driver W A S)
      → Loaded Snapshot
      → Reconciler W A S
      → Loaded (List (Plan S) × A)
  with_snapshot env ds (load_error why) r = load_error why
  with_snapshot env ds (loaded snap) r = with_artifacts ds (env.render snap) r

  unfoldable pub plan_only :
      Env W A S → List (Driver W A S) → Reconciler W A S → Loaded (List (Plan S) × A)
  unfolding preview
  plan_only env ds r = with_snapshot env ds (env.load r.world) r
