-- ===== src/Desired.antt =====
-- internal/desired/snapshot.go: the desired state that the renderer and the route engine read. The
-- DNS configuration, the device policies and the bypass list, which they do not read, are left
-- out. A node pointer is an `Option`.
pub mod Lookup
use edge_route_gw.Prelude.{
  ℕ, String, Bool, List, [], ◌∷◌, Option, none, some, ◌&&◌, any, keep, str_eq, if◌then◌else◌,
}
use edge_route_gw.Model.{Node, OutboundGroup, RuleSet, Rule, NetworkConfig}

-- store.ResolvedEntry: one row of the resolve cache
pub record ResolvedEntry : Type 0 where
  pub domain : String
  pub group : String
  pub ips : List String
  pub ttl : ℕ
  pub fail_count : ℕ
  pub last_error : String
  pub resolved_at : Option ℕ
  pub expires_at : ℕ

pub record Snapshot : Type 0 where
  pub generation : ℕ
  pub network : NetworkConfig
  pub nodes : List Node
  pub groups : List OutboundGroup
  pub rule_sets : List RuleSet
  pub rules : List Rule
  pub resolved : List ResolvedEntry
  pub protected_hosts : List String

-- the loop of `Node`
unfoldable pub find_node : String → List Node → Option Node
find_node id [] = none
find_node id (n ∷ ns) = if str_eq n.id id then some n else find_node id ns

unfoldable pub node_of : Snapshot → String → Option Node
unfolding find_node
node_of s id = find_node id s.nodes

unfoldable pub find_group : String → List OutboundGroup → Option OutboundGroup
find_group id [] = none
find_group id (g ∷ gs) = if str_eq g.id id then some g else find_group id gs

unfoldable pub group_of : Snapshot → String → Option OutboundGroup
unfolding find_group
group_of s id = find_group id s.groups

unfoldable pub enabled_nodes : Snapshot → List Node
enabled_nodes s = keep (λ n. n.enabled) s.nodes

-- the loop of `DefaultNode`
unfoldable pub flagged : List Node → Option Node
flagged [] = none
flagged (n ∷ ns) = if n.is_default then some n else flagged ns

abbrev pub only : List Node → Option Node
only (n ∷ []) = some n
only _ = none

abbrev pub or_else : Option Node → Option Node → Option Node
or_else (some n) m = some n
or_else none m = m

unfoldable pub default_node : Snapshot → Option Node
unfolding flagged enabled_nodes
default_node s = or_else (flagged (enabled_nodes s)) (only (enabled_nodes s))

-- `enabledSets[id]`: the map holds the ids of the enabled sets
unfoldable pub set_enabled : List RuleSet → String → Bool
set_enabled sets id = any (λ rs. rs.enabled && str_eq rs.id id) sets

unfoldable pub active_rules : Snapshot → List Rule
unfolding set_enabled
active_rules s = keep (λ r. r.enabled && set_enabled s.rule_sets r.set_id) s.rules
