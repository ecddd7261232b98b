-- ===== src/Reconcile/Pass.antt =====
-- `pass` and `persistRoutes` of internal/reconcile/reconcile.go.
pub mod Outcome
pub mod Claims
use Prim.Native.String
use edge_route_gw.Prelude.{
  ℕ, ◌+◌, ◌*◌, String, Bool, true, false, not, ◌&&◌, ◌||◌, List, [], ◌∷◌, ◌++◌, map, Option, none,
  some, ltb, ◌==◌, count_if, any, if◌then◌else◌,
}
use edge_route_gw.Model.{
  Component, xray, mosdns, nftables, frr, wireguard, ComponentHealth, ComponentStatus, degraded,
  down,
}
use edge_route_gw.Desired.{Snapshot}
use edge_route_gw.Routes.{Route, State, pending, published}
use edge_route_gw.Routes.Rows.{PublishedRoute}
use edge_route_gw.Driver.{
  Driver, Plan, Planned, planned, plan_error, changes, summary, noop, Action,
}
use edge_route_gw.Reconcile.{
  index, PassError, cancelled, load_failed, render_failed, record_failed, drivers_failed, Loaded,
  loaded, load_error, LogEntry, Env, BusEvent, apply_started, component_health, apply_failed,
  apply_finished, Status, Reconciler, set_good, publish, fail,
}
use edge_route_gw.Reconcile.Loop.{Loop, run_drivers}

abbrev pub is_bad : ComponentStatus → Bool
is_bad degraded = true
is_bad down = true
is_bad _ = false

-- `frrOK`
abbrev pub frr_ok : List ComponentHealth → Bool
frr_ok hs = not (any (λ h. index h.name == index frr && is_bad h.status) hs)

-- The rows of `persistRoutes`
abbrev pub mark_row : Bool → PublishedRoute → PublishedRoute
mark_row claim row = elim row.state [
  | pending ↦ if claim then record row { state = published } else row
  | _ ↦ row
]

unfoldable pub marked_rows : Bool → List PublishedRoute → List PublishedRoute
marked_rows claim rows = map (mark_row claim) rows

module _ {W A S : Type 0} where
  abbrev pub is_nil_drivers : List (Driver W A S) → Bool
  is_nil_drivers [] = true
  is_nil_drivers (_ ∷ _) = false

  -- `pass` after the loop, its errors aside
  unfoldable pub report : Env W A S → A → List (Driver W A S) → Loop W A S → Reconciler W A S
  unfolding marked_rows
  report env arts ds l =
      let r = l.rec in
      let health = map (λ d. d.health r.world) ds in
      let claim = frr_ok health && not (is_nil_drivers ds) in
      let old = r.status in
      publish (component_health health) (record r {
        world = env.replace_published r.world (marked_rows claim (env.rows arts));
        status = record old {
          components = health;
          warnings = env.warnings arts;
          last_plans = l.plans;
        };
      })

  abbrev pub event_if_changed : Env W A S → List (Plan S) → ℕ → W → W
  event_if_changed env plans gen w = if any changes plans then env.add_event w gen none else w

  unfoldable pub succeed :
      Env W A S → ℕ → ℕ → A → List (Plan S) → Reconciler W A S → Reconciler W A S
  unfolding changes
  succeed env now gen arts plans r =
      let old = r.status in
      publish (apply_finished gen plans (env.warnings arts)) (record r {
        status = record old { applied_gen = gen; last_success_at = now; last_error = none };
        backoff = 0;
        retry_at = none;
        world = event_if_changed env plans gen r.world;
      })

  abbrev pub set_world : W → Reconciler W A S → Reconciler W A S
  set_world w r = record r { world = w }

  -- once the generation is recorded as applied, or is not
  unfoldable pub recorded :
      Option String
      → Env W A S
      → ℕ
      → ℕ
      → ℕ
      → A
      → List (Plan S)
      → Reconciler W A S
      → Reconciler W A S × Option PassError
  unfolding fail succeed
  recorded (some why) env max_backoff now gen arts plans r =
      (fail env max_backoff now gen (record_failed why) (some plans) r, some (record_failed why))
  recorded none env max_backoff now gen arts plans r = (succeed env now gen arts plans r, none)

  -- the end of `pass`: the errors of the drivers, or else the record of the generation
  unfoldable pub conclude :
      Env W A S
      → ℕ
      → ℕ
      → ℕ
      → A
      → List (Component × String)
      → List (Plan S)
      → Reconciler W A S
      → Reconciler W A S × Option PassError
  unfolding fail recorded
  conclude env max_backoff now gen arts (e ∷ es) plans r = (
    fail env max_backoff now gen (drivers_failed (e ∷ es)) (some plans) r,
    some (drivers_failed (e ∷ es)),
  )
  conclude env max_backoff now gen arts [] plans r =
      let (w, rerr) = env.set_last_applied r.world gen in
      recorded rerr env max_backoff now gen arts plans (set_world w r)

  abbrev pub no_rounds : Reconciler W A S → Loop W A S
  no_rounds r = record { rec = r; plans = []; errs = [] }

  -- `pass` once the desired state is rendered
  unfoldable pub apply_all :
      Env W A S
      → ℕ
      → ℕ
      → List (Driver W A S)
      → ℕ
      → A
      → Reconciler W A S
      → Reconciler W A S × Option PassError
  unfolding run_drivers report conclude
  apply_all env max_backoff now ds gen arts r =
      let l = run_drivers env gen arts ds (no_rounds (publish (apply_started gen) r)) in
      conclude env max_backoff now gen arts l.errs l.plans (report env arts ds l)

  abbrev pub after_render :
      Env W A S
      → ℕ
      → ℕ
      → List (Driver W A S)
      → ℕ
      → Loaded A
      → Reconciler W A S
      → Reconciler W A S × Option PassError
  after_render env max_backoff now ds gen (load_error why) r =
      (fail env max_backoff now gen (render_failed why) none r, some (render_failed why))
  after_render env max_backoff now ds gen (loaded arts) r =
      apply_all env max_backoff now ds gen arts r

  abbrev pub after_load :
      Env W A S
      → ℕ
      → ℕ
      → List (Driver W A S)
      → Loaded Snapshot
      → Reconciler W A S
      → Reconciler W A S × Option PassError
  after_load env max_backoff now ds (load_error why) r =
      (fail env max_backoff now 0 (load_failed why) none r, some (load_failed why))
  after_load env max_backoff now ds (loaded snap) r =
      after_render env max_backoff now ds snap.generation (env.render snap) r

  abbrev pub begin : ℕ → Reconciler W A S → Reconciler W A S
  begin start r =
      let old = r.status in
      record r { status = record old { applying = true; last_attempt_at = start } }

  -- the deferred reset of `Applying`
  abbrev pub end_pass : Reconciler W A S × Option PassError → Reconciler W A S × Option PassError
  end_pass (r, e) = let old = r.status in (record r { status = record old { applying = false } }, e)

  -- `pass`; `start` and `now` are the readings of the clock, and `done` is the context's state
  unfoldable pub pass :
      Env W A S
      → ℕ
      → List (Driver W A S)
      → ℕ
      → ℕ
      → Bool
      → Reconciler W A S
      → Reconciler W A S × Option PassError
  unfolding apply_all fail
  pass env max_backoff ds start now done r =
      let begun = begin start r in
      if done
      then (r, some cancelled)
      else end_pass (after_load env max_backoff now ds (env.load r.world) begun)
