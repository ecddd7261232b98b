-- ===== src/Routes/Compute.antt =====
-- `Compute` of engine.go: the candidates of every active rule, the policy pass and the pruning.
-- The geodata readers are parameters, with the errors that they return.
pub mod Published
pub mod Candidates
pub mod Meaning
use Prim.Native.String
use Prim.Native.Nat.{compare, Ordering}
use text.Mathlib.Text.{starts_with}
use edge_route_gw.Prelude.{
  ℕ, suc, String, Bool, true, false, not, ◌&&◌, ◌||◌, List, [], ◌∷◌, ◌++◌, Option, none, some, any,
  leb, ltb, str_eq, if◌then◌else◌,
}
use edge_route_gw.Prelude.Sorting.{SortSlice}
use edge_route_gw.Net.{Addr, Prefix, is4, masked, host_route}
use edge_route_gw.Net.Text.{NetText}
use edge_route_gw.Model.{
  Mode, mode_a, mode_b, mode_c, MatchKind, match_domain, match_ip, match_geosite, match_geoip,
  ActionKind, proxy, node, group, Rule,
}
use edge_route_gw.Desired.{Snapshot, ResolvedEntry, active_rules}
use edge_route_gw.Rulespec.Domain.{DomainPattern, Parsed, ok, err, parse_domain}
use edge_route_gw.Rulespec.Address.{normalize_ip_or_cidr}
use edge_route_gw.Routes.{Route, Result, pending, max_geosite_domains}
use edge_route_gw.Routes.Policy.{concat, ipv4, policy, protected_prefixes, allowlist}
use edge_route_gw.Routes.Prune.{prune}

-- geo.Entry
pub data EntryKind : Type 0 where
  plain regex root exact : EntryKind

pub record Entry : Type 0 where
  pub kind : EntryKind
  pub value : String

-- `Resolvable` of geo.Entry
abbrev pub resolvable : Entry → Bool
resolvable e = elim e.kind [ root ↦ true | exact ↦ true | _ ↦ false ]

pub data Answer (A : Type 0) : Type 0 where
  answer : A → Answer A
  refusal : String → Answer A

-- IPSource and SiteSource; what `HasTag` returns next to its error is all that is read
pub record IpSource : Type 0 where
  pub has_tag : String → Bool
  pub cidrs : String → Answer (List Prefix)

pub record SiteSource : Type 0 where
  pub entries : String → Answer (List Entry)

pub record Sources : Type 0 where
  pub geo_ip : Option IpSource
  pub geo_site : Option SiteSource
  pub default_iface : String

-- The variables of `Compute`; the keys of `wantDomains` stand in the order of their insertion.
pub record Gathered : Type 0 where
  pub cands : List Route
  pub want : List String
  pub warnings : List String
  pub truncated : ℕ

abbrev warn : String → Gathered → Gathered
warn text g = record g { warnings = g.warnings ++ text ∷ [] }

abbrev want_name : String → Gathered → Gathered
want_name d g = if any (str_eq d) g.want then g else record g { want = g.want ++ d ∷ [] }

-- `add`; the state, which the code leaves empty, is set for every candidate by the policy
unfoldable pub add : Prefix → String → String → String → Gathered → Gathered
unfolding masked
add p source rule_id detail g =
    let r : Route = record {
      prefix = masked p;
      source = source;
      rule_id = rule_id;
      state = pending;
      detail = detail;
    } in
    record g { cands = g.cands ++ r ∷ [] }

-- `resolved[domain]`: a later row replaces an earlier one
unfoldable pub resolved_ips : String → List String → List ResolvedEntry → List String
resolved_ips d ips [] = ips
resolved_ips d ips (e ∷ es) = resolved_ips d (if str_eq e.domain d then e.ips else ips) es

abbrev proxy_action : ActionKind → Bool
proxy_action proxy = true
proxy_action node = true
proxy_action group = true
proxy_action _ = false

-- the loop over the prefixes of a tag
unfoldable pub add_cidrs : List Prefix → String → String → Gathered → Gathered
unfolding add
add_cidrs [] rule_id detail g = g
add_cidrs (c ∷ cs) rule_id detail g =
    add_cidrs cs rule_id detail (if is4 c.addr then add c "geo" rule_id detail g else g)

-- map keys, sorted: sort.Strings
unfoldable pub insert_name : String → List String → List String
insert_name d [] = d ∷ []
insert_name d (e ∷ es) =
    let rest = insert_name d es in
    elim (String.compare e d) [ Ordering.lt ↦ e ∷ rest | _ ↦ d ∷ e ∷ es ]

unfoldable pub sort_names : List String → List String
unfolding insert_name
sort_names [] = []
sort_names (d ∷ ds) = insert_name d (sort_names ds)

abbrev pub empty_result : Result
empty_result = record { publish = []; rejected = []; domains = []; warnings = []; truncated = 0 }

abbrev pub unless_mode_a : Mode → Result → Result
unless_mode_a mode_a r = empty_result
unless_mode_a _ r = r

abbrev warn_truncated : String → Gathered → Gathered
warn_truncated tag g =
    if ltb 0 g.truncated
    then warn
        (concat "geosite:" (
          concat tag
            " has more than 2000 resolvable domains; the rest are not tracked. Use a geoip rule for large sets."))
        g
    else g

-- The prefixes of the geoip tag of that name, if there is one that can be read.
abbrev same_named : Option IpSource → String → Option (List Prefix)
same_named none tag = none
same_named (some ip) tag =
    if ip.has_tag tag then elim (ip.cidrs tag) [ refusal _ ↦ none | answer cs ↦ some cs ] else none

abbrev is_mode_c : Mode → Bool
is_mode_c mode_c = true
is_mode_c _ = false

abbrev start : Gathered
start = record { cands = []; want = []; warnings = []; truncated = 0 }

module _ (net : NetText) where
  unfoldable pub add_answer : Option Addr → String → String → Gathered → Gathered
  unfolding add
  add_answer none rule_id detail g = g
  add_answer (some a) rule_id detail g = add (host_route a) "domain" rule_id detail g

  -- the loop over the cached answers for a name
  unfoldable pub add_ips : List String → String → String → Gathered → Gathered
  unfolding add_answer
  add_ips [] rule_id detail g = g
  add_ips (ip ∷ ips) rule_id detail g =
      add_ips ips rule_id detail (add_answer (ipv4 (net.parse_addr ip)) rule_id detail g)

  unfoldable pub add_parsed : Option Prefix → String → Gathered → Gathered
  unfolding add
  add_parsed none rule_id g = g
  add_parsed (some p) rule_id g = if is4 p.addr then add p "rule" rule_id "ip rule" g else g

  -- The prefix of an `ip` rule, if its value is one.
  unfoldable pub ip_prefix : String → Option Prefix
  unfolding normalize_ip_or_cidr
  ip_prefix value = elim (normalize_ip_or_cidr net value) [
    | none ↦ none
    | some v ↦ net.parse_prefix v
  ]

  unfoldable pub ip_rule : Rule → Gathered → Gathered
  unfolding add_parsed ip_prefix
  ip_rule r g = add_parsed (ip_prefix r.match_value) r.id g

  unfoldable pub geoip_answer : Answer (List Prefix) → Rule → Gathered → Gathered
  unfolding add_cidrs
  geoip_answer (refusal why) r g =
      warn (concat "geoip:" (concat r.match_value (concat " not published: " why))) g
  geoip_answer (answer cs) r g = add_cidrs cs r.id (concat "geoip:" r.match_value) g

  unfoldable pub geoip_tag : Option IpSource → Rule → Gathered → Gathered
  unfolding geoip_answer
  geoip_tag none r g =
      warn (concat "geoip:" (concat r.match_value " not published: no geodata installed")) g
  geoip_tag (some ip) r g =
      if starts_with r.match_value "!"
      then warn
          (concat "geoip:"
            (concat r.match_value ": negated tags cannot be expressed as routes; skipped"))
          g
      else geoip_answer (ip.cidrs r.match_value) r g

  unfoldable pub geoip_rule : Option IpSource → Rule → Gathered → Gathered
  unfolding geoip_tag
  geoip_rule src r g = if str_eq r.match_value "private" then g else geoip_tag src r g

  abbrev names_ips : Snapshot → String → List String
  names_ips s d = resolved_ips d [] s.resolved

  unfoldable pub domain_parsed : Parsed → Snapshot → Rule → Gathered → Gathered
  unfolding add_ips resolved_ips
  domain_parsed (err _) s r g = g
  domain_parsed (ok p) s r g =
      if p.wildcard then g else add_ips (names_ips s p.base) r.id p.base (want_name p.base g)

  unfoldable pub domain_rule : Snapshot → Rule → Gathered → Gathered
  unfolding domain_parsed
  domain_rule s r g = domain_parsed (parse_domain r.match_value) s r g

  -- the loop over the entries of a geosite tag, `n` of which are tracked
  unfoldable pub site_entries : Snapshot → Rule → ℕ → List Entry → Gathered → Gathered
  unfolding add_ips resolved_ips
  site_entries s r n [] g = g
  site_entries s r n (e ∷ es) g =
      let skip = site_entries s r n es g in
      let full = site_entries s r n es (record g { truncated = suc g.truncated }) in
      let track = site_entries s r (suc n) es (
        add_ips (names_ips s e.value) r.id
          (concat "geosite:" (concat r.match_value (concat " " e.value))) (want_name e.value g)) in
      if not (resolvable e) then skip else if leb max_geosite_domains n then full else track

  unfoldable pub site_answer : Answer (List Entry) → Snapshot → Rule → Gathered → Gathered
  unfolding site_entries
  site_answer (refusal why) s r g =
      warn (concat "geosite:" (concat r.match_value (concat " not published: " why))) g
  site_answer (answer es) s r g = warn_truncated r.match_value (site_entries s r 0 es g)

  unfoldable pub site_rule : Option SiteSource → Snapshot → Rule → Gathered → Gathered
  unfolding site_answer
  site_rule none s r g =
      warn (concat "geosite:" (concat r.match_value " not published: no geodata installed")) g
  site_rule (some site) s r g = site_answer (site.entries r.match_value) s r g

  unfoldable pub geosite_tag :
      Option (List Prefix) → Option SiteSource → Snapshot → Rule → Gathered → Gathered
  unfolding site_rule add_cidrs
  geosite_tag (some cs) src s r g =
      add_cidrs cs r.id
        (concat "geosite:" (concat r.match_value (concat " via geoip:" r.match_value))) g
  geosite_tag none src s r g = site_rule src s r g

  unfoldable pub geosite_rule : Snapshot → Sources → Rule → Gathered → Gathered
  unfolding geosite_tag
  geosite_rule s src r g = geosite_tag (same_named src.geo_ip r.match_value) src.geo_site s r g

  -- the `switch` on the kind of match
  abbrev by_kind : MatchKind → Snapshot → Sources → Rule → Gathered → Gathered
  by_kind match_ip s src r g = ip_rule r g
  by_kind match_geoip s src r g = geoip_rule src.geo_ip r g
  by_kind match_domain s src r g = if is_mode_c s.network.mode then domain_rule s r g else g
  by_kind match_geosite s src r g = if is_mode_c s.network.mode then geosite_rule s src r g else g
  by_kind _ s src r g = g

  unfoldable pub gather_rules : Snapshot → Sources → List Rule → Gathered → Gathered
  unfolding ip_rule geoip_rule domain_rule geosite_rule
  gather_rules s src [] g = g
  gather_rules s src (r ∷ rs) g =
      gather_rules s src rs
        (if proxy_action r.action_kind then by_kind r.match_kind s src r g else g)

  -- the Fake-IP pool of Mode B
  unfoldable pub add_pool : Option Prefix → Snapshot → Gathered → Gathered
  unfolding add
  add_pool (some p) s g = add p "fakeip" "" "Fake-IP pool" g
  add_pool none s g = warn (concat "invalid fakeip pool " s.network.fakeip_pool) g

  abbrev with_pool : Mode → Snapshot → Gathered
  with_pool mode_b s = add_pool (net.parse_prefix s.network.fakeip_pool) s start
  with_pool _ s = start

  unfoldable pub gather : Snapshot → Sources → Gathered
  unfolding add_pool gather_rules active_rules
  gather s src = gather_rules s src (active_rules s) (with_pool s.network.mode s)

  module _ (sorting : SortSlice Route) where
    unfoldable pub result_of : Snapshot → Gathered → Result
    unfolding policy protected_prefixes allowlist prune sort_names
    result_of s g =
        let (passed, rejected) =
          policy net (protected_prefixes net s) (allowlist net s.network.ospf_publish_allow)
            g.cands in
        record {
          publish = prune sorting passed;
          rejected = rejected;
          domains = sort_names g.want;
          warnings = g.warnings;
          truncated = g.truncated;
        }

    unfoldable pub compute : Snapshot → Sources → Result
    unfolding gather result_of
    compute s src = let r = result_of s (gather s src) in unless_mode_a s.network.mode r
