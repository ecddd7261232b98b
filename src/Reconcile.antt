-- ===== src/Reconcile.antt =====
-- internal/reconcile/reconcile.go: one pass of the reconciler, and its retry delay. Durations are in
-- nanoseconds. The store, the renderer and the drivers are parameters over a world; log lines are
-- left out, and error texts are constructors. An error that the code throws away (`_ =`) is not
-- in the model either.
pub mod Backoff
pub mod Loop
pub mod Pass
pub mod Preview
pub mod Shown
use edge_route_gw.Prelude.{
  ℕ, ◌+◌, ◌*◌, String, Bool, true, false, not, ◌&&◌, ◌||◌, List, [], ◌∷◌, ◌++◌, map, Option, none,
  some, ltb, ◌==◌, count_if, any, if◌then◌else◌,
}
use edge_route_gw.Model.{
  Component, xray, mosdns, nftables, frr, wireguard, ComponentHealth, ComponentStatus, degraded,
  down,
}
use edge_route_gw.Desired.{Snapshot}
use edge_route_gw.Routes.{Route, State, pending, published}
use edge_route_gw.Routes.Rows.{PublishedRoute}
use Prim.Native.String
use edge_route_gw.Driver.{
  Driver, Plan, Planned, planned, plan_error, changes, summary, noop, Action,
}

abbrev pub second : ℕ
second = 1000000000

abbrev pub index : Component → ℕ
index xray = 0
index mosdns = 1
index nftables = 2
index frr = 3
index wireguard = 4

pub data PassError : Type 0 where
  cancelled : PassError
  load_failed render_failed record_failed : String → PassError
  drivers_failed : List (Component × String) → PassError

pub data Loaded (A : Type 0) : Type 0 where
  loaded : A → Loaded A
  load_error : String → Loaded A

-- model.ApplyLogEntry, without its duration
pub record LogEntry : Type 0 where
  pub generation : ℕ
  pub component : Component
  pub action : String
  pub error : Option String

-- What the pass asks of the store and of the renderer.
pub record Env (W A S : Type 0) : Type 0 where
  pub load : W → Loaded Snapshot
  pub render : Snapshot → Loaded A
  pub warnings : A → List String
  pub rows : A → List PublishedRoute
  pub record_apply : W → LogEntry → W
  pub set_last_applied : W → ℕ → W × Option String
  pub replace_published : W → List PublishedRoute → W
  pub add_event : W → ℕ → Option PassError → W

pub data BusEvent (S : Type 0) : Type 0 where
  apply_started : ℕ → BusEvent S
  component_health : List ComponentHealth → BusEvent S
  apply_failed : ℕ → PassError → ℕ → BusEvent S
  apply_finished : ℕ → List (Plan S) → List String → BusEvent S

pub record Status (S : Type 0) : Type 0 where
  pub applying : Bool
  pub applied_gen : ℕ
  pub last_attempt_at : ℕ
  pub last_success_at : ℕ
  pub last_error : Option PassError
  pub components : List ComponentHealth
  pub warnings : List String
  pub last_plans : List (Plan S)

pub record Reconciler (W A S : Type 0) : Type 0 where
  pub world : W
  pub status : Status S
  pub last_good : Component → Option A
  pub backoff : ℕ
  pub retry_at : Option ℕ
  pub bus : List (BusEvent S)

-- the new delay of `fail`
unfoldable pub next_backoff : ℕ → ℕ → ℕ
next_backoff max_backoff backoff =
    if backoff == 0
    then second
    else if ltb max_backoff (backoff * 2)
    then max_backoff
    else backoff * 2

-- `lastGood[comp] = arts`
abbrev pub set_good {ℓ} :
    {A : Type ℓ} → Component → A → (Component → Option A) → Component → Option A
set_good comp arts good c = if index c == index comp then some arts else good c

abbrev pub keep_plans : {S : Type 0} → Option (List (Plan S)) → List (Plan S) → List (Plan S)
keep_plans none old = old
keep_plans (some plans) old = plans

module _ {W A S : Type 0} where
  abbrev pub publish : BusEvent S → Reconciler W A S → Reconciler W A S
  publish e r = record r { bus = r.bus ++ e ∷ [] }

  -- `fail`
  unfoldable pub fail :
      Env W A S
      → ℕ
      → ℕ
      → ℕ
      → PassError
      → Option (List (Plan S))
      → Reconciler W A S
      → Reconciler W A S
  unfolding next_backoff
  fail env max_backoff now gen err plans r =
      let delay = next_backoff max_backoff r.backoff in
      let old = r.status in
      publish (apply_failed gen err delay) (record r {
        backoff = delay;
        retry_at = some (now + delay);
        status = record old { last_error = some err; last_plans = keep_plans plans old.last_plans };
        world = env.add_event r.world gen (some err);
      })
