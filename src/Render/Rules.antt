-- ===== src/Render/Rules.antt =====
-- The list of routing rules that `renderXray` builds, with `rule` and `XrayValue`. The upstream
-- servers of the DNS settings, `%d` and regexp.QuoteMeta are parameters, and `build` says why the
-- outbound of a node cannot be built, if so.
use edge_route_gw.Prelude.{
  ℕ, suc, String, not, ◌||◌, List, [], ◌∷◌, ◌++◌, Option, none, some, keep, map, is_none, str_eq,
  if◌then◌else◌,
}
use edge_route_gw.Text.{concat, is_empty}
use edge_route_gw.Net.Text.{NetText}
use edge_route_gw.Model.{
  Node, Rule, Mode, mode_b, MatchKind, match_domain, match_ip, match_geosite, match_geoip,
}
use edge_route_gw.Desired.{Snapshot, enabled_nodes, active_rules}
use edge_route_gw.Rulespec.Domain.{
  DomainKind, full, suffix, single_level, Parsed, ok, err, parse_domain,
}
use edge_route_gw.Rulespec.Address.{normalize_ip_or_cidr}
use edge_route_gw.Rulespec.Tag.{normalize_geo_tag}
use edge_route_gw.Rulespec.Upstream.{normalize_upstream, upstream_host, is_public_addr}
use edge_route_gw.Render.{
  tag_block, node_tag, rule_tag, Target, to_outbound, rule_skipped, unknown_match, Rendering,
  XrayRule, bare_rule,
}
use edge_route_gw.Render.Targets.{add_warning, default_target, catch_all, resolve_action}
use edge_route_gw.Render.Probes.{probe_slots, probe_slot_count, probe_rules_from}

-- the tags of the enabled nodes whose outbound is built
unfoldable pub live_tags : (Node → Option String) → Snapshot → List String
unfolding enabled_nodes
live_tags build s = map (λ n. node_tag n.id) (keep (λ n. is_none (build n)) (enabled_nodes s))

-- `XrayValue`
unfoldable pub xray_value : (String → String) → DomainKind → String → String
xray_value quote_meta suffix base = concat "domain:" base
xray_value quote_meta single_level base =
    concat "regexp:^(?:([^.]+\\.)?" (concat (quote_meta base) ")$")
xray_value quote_meta full base = concat "full:" base

abbrev pub private_cidrs : List String
private_cidrs =
    "10.0.0.0/8" ∷ "172.16.0.0/12" ∷ "192.168.0.0/16" ∷ "127.0.0.0/8" ∷ "169.254.0.0/16"
    ∷ "100.64.0.0/10" ∷ []

-- What a rule matches, or why it is skipped.
pub data Condition : Type 0 where
  on_domain : String → Condition
  on_ip : List String → Condition
  skipped : Condition
  unknown_kind : Condition

abbrev pub geoip_value : String → List String
geoip_value tag = if str_eq tag "private" then private_cidrs else concat "geoip:" tag ∷ []

abbrev pub parsed_condition : (String → String) → Parsed → Condition
parsed_condition quote_meta (err why) = skipped
parsed_condition quote_meta (ok p) = on_domain (xray_value quote_meta p.kind p.base)

abbrev pub geosite_condition : Option String → Condition
geosite_condition none = skipped
geosite_condition (some tag) = on_domain (concat "geosite:" tag)

abbrev pub ip_condition : Option String → Condition
ip_condition none = skipped
ip_condition (some cidr) = on_ip (cidr ∷ [])

abbrev pub geoip_condition : Option String → Condition
geoip_condition none = skipped
geoip_condition (some tag) = on_ip (geoip_value tag)

unfoldable pub condition_of : NetText → (String → String) → MatchKind → String → Condition
unfolding xray_value
condition_of net quote_meta match_domain value = parsed_condition quote_meta (parse_domain value)
condition_of net quote_meta match_geosite value = geosite_condition (normalize_geo_tag value)
condition_of net quote_meta match_ip value = ip_condition (normalize_ip_or_cidr net value)
condition_of net quote_meta match_geoip value = geoip_condition (normalize_geo_tag value)
condition_of net quote_meta _ value = unknown_kind

-- the test that is written into the object
abbrev pub conditioned : Condition → XrayRule → Option XrayRule
conditioned (on_domain d) x = some (record x { domain = some d })
conditioned (on_ip ips) x = some (record x { ip = ips })
conditioned skipped x = none
conditioned unknown_kind x = none

module _ (s : Snapshot) (live : List String) (strategy_of : String → Option String) where
  abbrev pub with_condition : Condition → Rule → Rendering → Option XrayRule × Rendering
  with_condition skipped rule r = (none, add_warning (rule_skipped rule.id) r)
  with_condition unknown_kind rule r = (none, add_warning (unknown_match rule.id) r)
  with_condition c rule r =
      let (target, r') = resolve_action s live strategy_of rule r in
      (conditioned c (bare_rule (rule_tag rule.id) target), r')

  module _ (net : NetText) (quote_meta : String → String) where
    -- `rule`
    unfoldable pub xray_rule : Rule → Rendering → Option XrayRule × Rendering
    unfolding condition_of
    xray_rule rule r =
        with_condition (condition_of net quote_meta rule.match_kind rule.match_value) rule r

    abbrev pub cons_rule : Option XrayRule → List XrayRule × Rendering → List XrayRule × Rendering
    cons_rule none rest = rest
    cons_rule (some x) (xs, r) = (x ∷ xs, r)

    -- the loop over the active rules
    unfoldable pub user_rules : List Rule → Rendering → List XrayRule × Rendering
    unfolding xray_rule
    user_rules [] r = ([], r)
    user_rules (rule ∷ rules) r =
        let (x, r') = xray_rule rule r in cons_rule x (user_rules rules r')

  module _ (net : NetText) (split_host_port : String → Option String) (show_nat : ℕ → String) where
    -- net.ParseIP accepts what netip.ParseAddr accepts, but for zones, which no upstream has
    abbrev pub upstream_rule : ℕ → String → Target → XrayRule
    upstream_rule i host target =
        let x = record (bare_rule (concat "sys-dns-upstream-" (show_nat i)) target) {
          inbound = some "socks_in";
        } in
        if is_none (net.parse_addr host)
        then record x { domain = some (concat "full:" host) }
        else record x { ip = host ∷ [] }

    abbrev pub upstream_target : Option String → Option String
    upstream_target none = none
    upstream_target (some norm) =
        let host = upstream_host split_host_port norm in
        if is_empty host || not (is_public_addr net host) then none else some host

    abbrev pub cons_upstream :
        Option String
        → ℕ
        → Rendering
        → (Rendering → List XrayRule × Rendering)
        → List XrayRule × Rendering
    cons_upstream none i r rest = rest r
    cons_upstream (some host) i r rest =
        let (target, r') = default_target s live r in
        let (xs, r'') = rest r' in (upstream_rule i host target ∷ xs, r'')

    -- the loop over the remote upstreams
    unfoldable pub upstream_rules : List String → ℕ → Rendering → List XrayRule × Rendering
    unfolding default_target normalize_upstream upstream_host is_public_addr
    upstream_rules [] i r = ([], r)
    upstream_rules (up ∷ ups) i r =
        cons_upstream (upstream_target (normalize_upstream up)) i r (upstream_rules ups (suc i))

abbrev pub api_rule : XrayRule
api_rule = record (bare_rule "sys-api" (to_outbound "api")) { inbound = some "api_inbound" }

abbrev pub dns_rules : Mode → List XrayRule
dns_rules mode_b =
    record (bare_rule "sys-dns" (to_outbound "dns-out")) { inbound = some "dns-in" } ∷ []
dns_rules _ = []

abbrev pub probe_none : XrayRule
probe_none = record (bare_rule "probe-none" (to_outbound tag_block)) { inbound = some "probe_in" }

abbrev pub catch_rule : Target → XrayRule
catch_rule target = record (bare_rule "default" target) { network = some "tcp,udp" }

-- `fmt`, encoding/json, regexp and net as far as the rules need them, and the nodes' outbounds.
pub record RenderDeps : Type 0 where
  pub net : NetText
  pub quote_meta : String → String
  pub split_host_port : String → Option String
  pub show_nat : ℕ → String
  pub strategy_of : String → Option String
  pub build : Node → Option String

module _ (deps : RenderDeps) (upstreams : List String) (s : Snapshot) where
  abbrev pub system_rules : List XrayRule
  system_rules =
      api_rule
      ∷ (dns_rules s.network.mode
          ++ (probe_rules_from deps.show_nat probe_slot_count 0 (probe_slots s.nodes)
              ++ probe_none ∷ []))

  abbrev pub no_rendering : Rendering
  no_rendering = record { balancers = []; warnings = [] }

  -- the `rules` of `renderXray`, with the balancers that they need; `live` are the tags of the
  -- outbounds of nodes
  unfoldable pub rules_with : List String → List XrayRule × Rendering
  unfolding upstream_rules user_rules catch_all probe_slots probe_rules_from active_rules
  rules_with live =
      let (ups, r) =
        upstream_rules s live deps.strategy_of deps.net deps.split_host_port deps.show_nat upstreams
          0 no_rendering in
      let (users, r') =
        user_rules s live deps.strategy_of deps.net deps.quote_meta (active_rules s) r in
      let (target, r'') = catch_all s live r' in
      (system_rules ++ (ups ++ (users ++ catch_rule target ∷ [])), r'')

  unfoldable pub xray_rules : List XrayRule × Rendering
  unfolding rules_with live_tags
  xray_rules = rules_with (live_tags deps.build s)
