-- ===== src/Routes/Preflight.antt =====
-- `Preflight` of engine.go: what blocks a mode switch. Problems and warnings are constructors with
-- the values that their texts print.
pub mod Verdict
use edge_route_gw.Prelude.{
  ℕ, String, Bool, true, false, not, ◌&&◌, ◌||◌, List, [], ◌∷◌, ◌++◌, Option, none, some, map, ltb,
  length, if◌then◌else◌,
}
use edge_route_gw.Text.{is_empty}
use edge_route_gw.Prelude.Sorting.{SortSlice}
use edge_route_gw.Net.{Prefix}
use edge_route_gw.Net.Text.{NetText}
use edge_route_gw.Model.{Mode, mode_a, mode_b, MatchKind, match_domain, Rule, Node}
use edge_route_gw.Desired.{Snapshot, enabled_nodes}
use edge_route_gw.Rulespec.Domain.{Parsed, ok, err, parse_domain}
use edge_route_gw.Routes.{Route, State, protected, Result}
use edge_route_gw.Routes.Compute.{Sources, compute}

pub data Problem : Type 0 where
  no_enabled_node no_service_iface : Problem
  wildcard_rule invalid_pool : String → Problem

pub data Warning : Type 0 where
  engine_warning default_iface_used : String → Warning
  endpoints_excluded : ℕ → Warning

pub record PreflightResult : Type 0 where
  pub is_ok : Bool
  pub mode : Mode
  pub routes : ℕ
  pub rejected : ℕ
  pub protected_conflicts : List (Prefix × String)
  pub problems : List Problem
  pub warnings : List Warning

abbrev pub is_protected : State → Bool
is_protected protected = true
is_protected _ = false

unfoldable pub conflicts : List Route → List (Prefix × String)
conflicts [] = []
conflicts (r ∷ rs) =
    let rest = conflicts rs in if is_protected r.state then (r.prefix, r.detail) ∷ rest else rest

abbrev pub excluded_note : ℕ → List Warning
excluded_note n = if ltb 0 n then endpoints_excluded n ∷ [] else []

abbrev pub node_problem : List Node → List Problem
node_problem [] = no_enabled_node ∷ []
node_problem (_ ∷ _) = []

abbrev pub iface_problem : String → String → List Problem
iface_problem service default =
    if is_empty service && is_empty default then no_service_iface ∷ [] else []

abbrev pub iface_warning : String → String → List Warning
iface_warning service default =
    if is_empty service && is_empty default
    then []
    else if is_empty service
    then default_iface_used default ∷ []
    else []

abbrev pub is_wildcard : Parsed → Bool
is_wildcard (ok p) = p.wildcard
is_wildcard (err _) = false

abbrev pub has_wildcard : MatchKind → String → Bool
has_wildcard match_domain value = is_wildcard (parse_domain value)
has_wildcard _ value = false

-- the loop over all rules, disabled ones too
unfoldable pub wildcard_problems : List Rule → List Problem
wildcard_problems [] = []
wildcard_problems (r ∷ rs) =
    let rest = wildcard_problems rs in
    if has_wildcard r.match_kind r.match_value then wildcard_rule r.match_value ∷ rest else rest

abbrev pub pool_problem : Mode → Option Prefix → String → List Problem
pool_problem mode_b none pool = invalid_pool pool ∷ []
pool_problem _ _ pool = []

abbrev pub no_problem : List Problem → Bool
no_problem [] = true
no_problem (_ ∷ _) = false

module _ (net : NetText) (sorting : SortSlice Route) where
  -- `s := *snap; s.Network.Mode = mode`
  abbrev pub in_mode : Snapshot → Mode → Snapshot
  in_mode s m = let n = s.network in record s { network = record n { mode = m } }

  abbrev pub all_problems : Snapshot → Sources → Mode → List Problem
  all_problems s src m =
      node_problem (enabled_nodes s)
      ++ (iface_problem s.network.service_iface src.default_iface
          ++ (wildcard_problems s.rules
              ++ pool_problem m (net.parse_prefix s.network.fakeip_pool) s.network.fakeip_pool))

  unfoldable pub checked : Snapshot → Sources → Mode → PreflightResult
  unfolding conflicts wildcard_problems enabled_nodes
  checked s src m =
      let res = compute net sorting (in_mode s m) src in
      record {
        is_ok = no_problem (all_problems s src m);
        mode = m;
        routes = length res.publish;
        rejected = length res.rejected;
        protected_conflicts = conflicts res.rejected;
        problems = all_problems s src m;
        warnings =
            map engine_warning res.warnings
            ++ (excluded_note (length (conflicts res.rejected))
                ++ iface_warning s.network.service_iface src.default_iface);
      }

  unfoldable pub preflight : Snapshot → Sources → Mode → PreflightResult
  unfolding checked
  preflight s src mode_a = record {
    is_ok = true;
    mode = mode_a;
    routes = 0;
    rejected = 0;
    protected_conflicts = [];
    problems = [];
    warnings = [];
  }
  preflight s src m = checked s src m
