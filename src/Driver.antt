-- ===== src/Driver.antt =====
-- internal/driver/driver.go: plans, and what the reconciler asks of a component. A driver is a
-- parameter, over the type of the outside world, of the rendered artifacts and of the data that a
-- plan carries from `Plan` to `Apply`.
use Prim.Native.String
use edge_route_gw.Prelude.{String, Bool, true, false, List, [], ◌∷◌, Option, any}
use edge_route_gw.Model.{Component, ComponentHealth}

pub data ActionKind : Type 0 where
  noop write hot restart start exec skipped : ActionKind

pub record Action : Type 0 where
  pub kind : ActionKind
  pub detail : String

pub record Plan (S : Type 0) : Type 0 where
  pub component : Component
  pub actions : List Action
  pub diff : String
  pub state : Option S

abbrev pub does_something : ActionKind → Bool
does_something noop = false
does_something skipped = false
does_something _ = true

-- `Changes`
unfoldable pub changes : {S : Type 0} → Plan S → Bool
changes p = any (λ a. does_something a.kind) p.actions

abbrev pub kind_text : ActionKind → String
kind_text noop = "noop"
kind_text write = "write"
kind_text hot = "hot"
kind_text restart = "restart"
kind_text start = "start"
kind_text exec = "exec"
kind_text skipped = "skipped"

unfoldable pub join_kinds : List Action → String
join_kinds [] = ""
join_kinds (a ∷ []) = kind_text a.kind
join_kinds (a ∷ rest) = String.◌++◌ (kind_text a.kind) (String.◌++◌ "+" (join_kinds rest))

abbrev pub summary_of : List Action → String
summary_of [] = "noop"
summary_of actions = join_kinds actions

-- `Summary`
unfoldable pub summary : {S : Type 0} → Plan S → String
unfolding join_kinds
summary p = summary_of p.actions

pub data Planned (S : Type 0) : Type 0 where
  planned : Plan S → Planned S
  plan_error : String → Planned S

-- `Plan` and `Health` change nothing.
pub record Driver (W A S : Type 0) : Type 0 where
  pub component : Component
  pub plan : W → Option A → A → Planned S
  pub apply : W → Plan S → A → W × Option String
  pub health : W → ComponentHealth
