-- ===== src/Routes/Rows.antt =====
-- `ToPublished` and `ProtectedDomains` of engine.go.
use edge_route_gw.Prelude.{
  String, ◌||◌, List, [], ◌∷◌, ◌++◌, map, any, is_some, str_eq, if◌then◌else◌,
}
use edge_route_gw.Text.{is_empty, to_lower, trim_space}
use edge_route_gw.Net.Text.{NetText}
use edge_route_gw.Desired.{Snapshot}
use edge_route_gw.Routes.{Route, State, Result}
use edge_route_gw.Routes.Compute.{sort_names}

-- store.PublishedRoute
pub record PublishedRoute : Type 0 where
  pub cidr : String
  pub source : String
  pub rule_id : String
  pub state : State
  pub detail : String

module _ (net : NetText) where
  abbrev pub row : Route → PublishedRoute
  row r = record {
    cidr = net.show_prefix r.prefix;
    source = r.source;
    rule_id = r.rule_id;
    state = r.state;
    detail = r.detail;
  }

  unfoldable pub to_published : Result → List PublishedRoute
  to_published res = map row res.publish ++ map row res.rejected

  -- one call of `add`; the names in `out` are those in `seen`
  unfoldable pub add_domain : String → List String → List String
  unfolding to_lower trim_space
  add_domain host out =
      let h = to_lower (trim_space host) in
      if is_empty h || any (str_eq h) out
      then out
      else if is_some (net.parse_addr h)
      then out
      else out ++ h ∷ []

  unfoldable pub add_domains : List String → List String → List String
  unfolding add_domain
  add_domains [] out = out
  add_domains (h ∷ hs) out = add_domains hs (add_domain h out)

  unfoldable pub protected_domains : Snapshot → List String
  unfolding add_domains sort_names
  protected_domains s =
      sort_names (add_domains s.protected_hosts (add_domains (map (λ n. n.address) s.nodes) []))
