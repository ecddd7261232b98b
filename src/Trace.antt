-- ===== src/Trace.antt =====
-- internal/trace/trace.go: which rule a target meets, and where it is sent. The geodata readers and
-- the regular expressions are parameters. Texts that are put together for the reader are
-- constructors.
pub mod Matching
pub mod Outbounds
pub mod Inbound
pub mod Agreement
use edge_route_gw.Prelude.{
  ℕ, zero, suc, String, Bool, true, false, not, ◌&&◌, ◌||◌, List, [], ◌∷◌, ◌++◌, Option, none, some,
  any, is_nil, is_some, str_eq, if◌then◌else◌,
}
use edge_route_gw.Text.{
  concat, to_lower, trim_space, trim_dot, cut, cut_prefix, has_suffix, is_empty,
}
use edge_route_gw.Net.{
  Addr, Prefix, unmap, contains, is_private, is_loopback, is_link_local_unicast,
}
use edge_route_gw.Net.Text.{NetText}
use edge_route_gw.Model.{
  Node, OutboundGroup, RuleSet, Rule, Mode, mode_a, MatchKind, match_domain, match_ip,
  match_geosite, match_geoip, ActionKind, direct, block, node, group,
}
use edge_route_gw.Desired.{Snapshot, active_rules, default_node, enabled_nodes, node_of, group_of}
use edge_route_gw.Rulespec.Domain.{Parsed, ok, err, parse_domain, matches}
use edge_route_gw.Rulespec.Tag.{trim_prefix}
use edge_route_gw.Routes.Compute.{
  IpSource, SiteSource, Answer, answer, refusal, Entry, EntryKind, plain, regex, root, exact,
}
use edge_route_gw.Render.{tag_direct, tag_block, tag_auto_proxy, node_tag, group_tag}

pub record Sources : Type 0 where
  pub site : Option SiteSource
  pub ip : Option IpSource

-- What the trace says of a rule that it could not evaluate, and of the mode.
pub data Note : Type 0 where
  no_geosite no_geoip : String → Note
  bad_geosite bad_geoip : String → String → Note
  depends_on_routes : Note

-- Why the traffic goes where it goes.
pub data Reason : Type 0 where
  by_direct by_block by_node by_default : Reason
  by_single_member by_group : OutboundGroup → Reason
  fallback_block fallback_default : Reason → Reason
  node_missing group_missing : Reason
  group_empty : OutboundGroup → Reason
  policy_proxy policy_direct : Reason

pub record Sent : Type 0 where
  pub outbound : String
  pub via : String
  pub reason : Reason

pub record TraceResult : Type 0 where
  pub target : String
  pub is_ip : Bool
  pub matched : Option Rule
  pub rule_set : String
  pub sent : Sent
  pub considered : ℕ
  pub notes : List Note

abbrev pub default_via : Option Node → Bool → String × String
default_via (some n) empty = (node_tag n.id, n.name)
default_via none true = (tag_direct, "")
default_via none false = (tag_auto_proxy, "leastPing over all enabled nodes")

-- `defaultOutbound`
unfoldable pub default_outbound : Snapshot → String × String
unfolding default_node enabled_nodes
default_outbound s = default_via (default_node s) (is_nil (enabled_nodes s))

abbrev pub sent_by_default : Reason → Snapshot → Sent
sent_by_default why s = record {
  outbound = (default_outbound s).0;
  via = (default_outbound s).1;
  reason = why;
}

-- `fallback`
unfoldable pub fallback : Snapshot → Reason → Sent
unfolding default_outbound
fallback s why =
    if str_eq s.network.node_failover_mode "strict"
    then record { outbound = tag_block; via = ""; reason = fallback_block why }
    else sent_by_default (fallback_default why) s

abbrev pub to_node : Option Node → Snapshot → Sent
to_node none s = fallback s node_missing
to_node (some n) s =
    if n.enabled
    then record { outbound = node_tag n.id; via = n.name; reason = by_node }
    else fallback s node_missing

abbrev pub cons_enabled : Option Node → List Node → List Node
cons_enabled none rest = rest
cons_enabled (some n) rest = if n.enabled then n ∷ rest else rest

-- the loop over the members of a group
unfoldable pub live_nodes : Snapshot → List String → List Node
unfolding node_of
live_nodes s [] = []
live_nodes s (id ∷ ids) = cons_enabled (node_of s id) (live_nodes s ids)

abbrev pub to_members : OutboundGroup → List Node → Snapshot → Sent
to_members g [] s = fallback s (group_empty g)
to_members g (n ∷ []) s = record {
  outbound = node_tag n.id;
  via = n.name;
  reason = by_single_member g;
}
to_members g (n ∷ m ∷ rest) s = record {
  outbound = group_tag g.id;
  via = g.name;
  reason = by_group g;
}

abbrev pub to_group : Option OutboundGroup → Snapshot → Sent
to_group none s = fallback s group_missing
to_group (some g) s = to_members g (live_nodes s g.member_ids) s

-- `resolve`
abbrev pub by_kind : ActionKind → Snapshot → String → Sent
by_kind direct s ref = record { outbound = tag_direct; via = ""; reason = by_direct }
by_kind block s ref = record { outbound = tag_block; via = ""; reason = by_block }
by_kind node s ref = to_node (node_of s ref) s
by_kind group s ref = to_group (group_of s ref) s
by_kind _ s ref = sent_by_default by_default s

unfoldable pub resolve : Snapshot → Rule → Sent
unfolding fallback default_outbound live_nodes node_of group_of
resolve s rule = by_kind rule.action_kind s rule.action_ref

-- the cases of `entryMatches`
abbrev pub entry_hit : (String → String → Bool) → EntryKind → String → String → Bool
entry_hit regex_matches exact value host = str_eq host value
entry_hit regex_matches root value host = str_eq host value || has_suffix host (concat "." value)
entry_hit regex_matches plain value host = is_some (cut value host)
entry_hit regex_matches regex value host = regex_matches value host

-- `entryMatches`
unfoldable pub entry_matches : (String → String → Bool) → Entry → String → Bool
unfolding cut has_suffix
entry_matches regex_matches e host = entry_hit regex_matches e.kind e.value host

-- `setNames[rule.SetID]`: a later set replaces an earlier one
unfoldable pub set_name : String → String → List RuleSet → String
set_name id found [] = found
set_name id found (rs ∷ rest) = set_name id (if str_eq rs.id id then rs.name else found) rest

abbrev pub without_rule : Snapshot → Sent
without_rule s =
    if str_eq s.network.lan_default_policy "proxy"
    then sent_by_default policy_proxy s
    else record { outbound = tag_direct; via = ""; reason = policy_direct }

abbrev pub mode_note : Mode → Bool → List Note → List Note
mode_note mode_a is_ip notes = notes
mode_note m true notes = notes
mode_note m false notes = notes ++ depends_on_routes ∷ []

abbrev pub conclude : Snapshot → String → Bool → Option Rule × ℕ × List Note → TraceResult
conclude s target is_ip (some rule, count, notes) = record {
  target = target;
  is_ip = is_ip;
  matched = some rule;
  rule_set = set_name rule.set_id "" s.rule_sets;
  sent = resolve s rule;
  considered = count;
  notes = notes;
}
conclude s target is_ip (none, count, notes) = record {
  target = target;
  is_ip = is_ip;
  matched = none;
  rule_set = "";
  sent = without_rule s;
  considered = count;
  notes = mode_note s.network.mode is_ip notes;
}

abbrev pub unmapped : Option Addr → Option Addr
unmapped none = none
unmapped (some a) = some (unmap a)

abbrev pub add_note : Option Note → List Note → List Note
add_note none notes = notes
add_note (some n) notes = notes ++ n ∷ []

module _ (net : NetText) (regex_matches : String → String → Bool) (src : Sources) where
  abbrev pub domain_hit : Parsed → String → Bool
  domain_hit (err why) host = false
  domain_hit (ok p) host = matches p host

  abbrev pub site_hit : Answer (List Entry) → String → String → Bool × Option Note
  site_hit (refusal why) tag host = (false, some (bad_geosite tag why))
  site_hit (answer entries) tag host = (any (λ e. entry_matches regex_matches e host) entries, none)

  abbrev pub geosite_hit : Option SiteSource → String → String → Bool × Option Note
  geosite_hit none tag host = (false, some (no_geosite tag))
  geosite_hit (some site) tag host = site_hit (site.entries tag) tag host

  abbrev pub prefix_hit : Option Prefix → Addr → Bool
  prefix_hit none a = false
  prefix_hit (some p) a = contains p a

  abbrev pub ip_hit : Answer (List Prefix) → String → Addr → Bool × Option Note
  ip_hit (refusal why) tag a = (false, some (bad_geoip tag why))
  ip_hit (answer cs) tag a =
      let within = any (λ c. contains c a) cs in
      (if is_some (cut_prefix "!" tag) then not within else within, none)

  abbrev pub tag_hit : Option IpSource → String → Addr → Bool × Option Note
  tag_hit none tag a = (false, some (no_geoip tag))
  tag_hit (some ip) tag a = ip_hit (ip.cidrs (trim_prefix "!" tag)) tag a

  abbrev pub geoip_hit : String → Addr → Bool × Option Note
  geoip_hit tag a =
      if str_eq tag "private"
      then (is_private a || (is_loopback a || is_link_local_unicast a), none)
      else tag_hit src.ip tag a

  -- the cases of `matches` for a name and for an address
  abbrev pub host_hit : MatchKind → String → String → Bool × Option Note
  host_hit match_domain value host = (domain_hit (parse_domain value) host, none)
  host_hit match_geosite value host = geosite_hit src.site value host
  host_hit _ value host = (false, none)

  abbrev pub addr_hit : MatchKind → String → Addr → Bool × Option Note
  addr_hit match_ip value a = (prefix_hit (net.parse_prefix value) a, none)
  addr_hit match_geoip value a = geoip_hit value a
  addr_hit _ value a = (false, none)

  -- `matches`
  unfoldable pub hit : Rule → String → Option Addr → Bool × Option Note
  unfolding matches entry_matches contains parse_domain
  hit rule host none = host_hit rule.match_kind rule.match_value host
  hit rule host (some a) = addr_hit rule.match_kind rule.match_value a

  -- The first rule that is hit, how many were considered, and the notes on the way.
  unfoldable pub walk :
      List Rule → String → Option Addr → ℕ → List Note → Option Rule × ℕ × List Note
  unfolding hit
  walk [] host ip count notes = (none, count, notes)
  walk (rule ∷ rules) host ip count notes =
      let (yes', note) = hit rule host ip in
      let seen = add_note note notes in
      let later = walk rules host ip (suc count) seen in
      if yes' then (some rule, suc count, seen) else later

  -- `Run` once the target is in its plain form
  abbrev pub run_at : Snapshot → String → Option Addr → TraceResult
  run_at s host ip = conclude s host (is_some ip) (walk (active_rules s) host ip 0 [])

  unfoldable pub run : Snapshot → String → TraceResult
  unfolding walk resolve set_name default_outbound active_rules to_lower trim_space trim_dot
  run s target =
      let host = to_lower (trim_space (trim_dot target)) in
      run_at s host (unmapped (net.parse_addr host))
