-- ===== src/Render.antt =====
-- internal/render/xray.go: the routing rules that are rendered for Xray. JSON objects are records;
-- the outbound objects of nodes are left out, but for whether one can be built.
pub mod Targets
pub mod Probes
pub mod Rules
pub mod References
pub mod Complete
use edge_route_gw.Prelude.{ℕ, String, List, [], Option, none}
use edge_route_gw.Text.{concat}

abbrev pub tag_direct : String
tag_direct = "direct"

abbrev pub tag_block : String
tag_block = "block"

abbrev pub tag_auto_proxy : String
tag_auto_proxy = "proxy-auto"

-- `NodeTag`
abbrev pub node_tag : String → String
node_tag id = concat "node-" id

-- `GroupTag`
abbrev pub group_tag : String → String
group_tag id = concat "group-" id

-- `RuleTag`
abbrev pub rule_tag : String → String
rule_tag id = concat "rule-" id

pub data Target : Type 0 where
  to_outbound to_balancer : String → Target

-- the tag that `apply` writes
abbrev pub tag_of : Target → String
tag_of (to_outbound tag) = tag
tag_of (to_balancer tag) = tag

pub record Balancer : Type 0 where
  pub selector : List String
  pub strategy : Option String
  pub fallback : Option String

-- What a warning is about.
pub data Missing : Type 0 where
  missing_node missing_group : String → String → Missing
  empty_group : String → Missing

pub data RenderWarning : Type 0 where
  sent_to_block sent_to_default : Missing → RenderWarning
  one_member : String → RenderWarning
  members_ignored : String → ℕ → RenderWarning
  rule_skipped unknown_match : String → RenderWarning

-- What the renderer collects while it resolves the rules.
pub record Rendering : Type 0 where
  pub balancers : List (String × Balancer)
  pub warnings : List RenderWarning

-- One routing rule; a key that the object does not have is `none` or the empty list.
pub record XrayRule : Type 0 where
  pub tag : String
  pub inbound : Option String
  pub user : Option String
  pub domain : Option String
  pub ip : List String
  pub network : Option String
  pub target : Target

-- An object with a tag and a target alone.
abbrev pub bare_rule : String → Target → XrayRule
bare_rule tag target = record {
  tag = tag;
  inbound = none;
  user = none;
  domain = none;
  ip = [];
  network = none;
  target = target;
}
