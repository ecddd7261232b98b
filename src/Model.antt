-- ===== src/Model.antt =====
-- internal/model/model.go: the domain types that store, render and api share. Timestamps are left
-- out, and a string type with named constants is a data type with a constructor for each constant
-- and one for any other string.
use edge_route_gw.Prelude.{ℕ, String, Bool, List, Option}

pub data Mode : Type 0 where
  mode_a mode_b mode_c : Mode
  other_mode : String → Mode

pub data Component : Type 0 where
  xray mosdns nftables frr wireguard : Component

pub data ComponentStatus : Type 0 where
  unknown active degraded down disabled : ComponentStatus

pub record ComponentHealth : Type 0 where
  pub name : Component
  pub status : ComponentStatus
  pub last_error : String

pub record Node : Type 0 where
  pub id : String
  pub name : String
  pub protocol : String
  pub address : String
  pub port : ℕ
  pub params : String
  pub credential : String
  pub enabled : Bool
  pub is_default : Bool
  pub latency_ms : Option ℕ

pub data GroupKind : Type 0 where
  failover load_balance : GroupKind
  other_group : String → GroupKind

pub record OutboundGroup : Type 0 where
  pub id : String
  pub name : String
  pub kind : GroupKind
  pub member_ids : List String
  pub strategy : String

pub record RuleSet : Type 0 where
  pub id : String
  pub name : String
  pub position : ℕ
  pub enabled : Bool
  pub builtin : Bool

pub data MatchKind : Type 0 where
  match_domain match_ip match_geosite match_geoip : MatchKind
  other_match : String → MatchKind

pub data ActionKind : Type 0 where
  direct proxy block node group : ActionKind
  other_action : String → ActionKind

pub record Rule : Type 0 where
  pub id : String
  pub set_id : String
  pub position : ℕ
  pub match_kind : MatchKind
  pub match_value : String
  pub action_kind : ActionKind
  pub action_ref : String
  pub enabled : Bool
  pub remark : String

pub record NetworkConfig : Type 0 where
  pub mode : Mode
  pub management_iface : String
  pub service_iface : String
  pub fakeip_pool : String
  pub tproxy_port : ℕ
  pub lan_default_policy : String
  pub ospf_push_batch : ℕ
  pub ospf_push_interval_sec : ℕ
  pub ospf_resolve_workers : ℕ
  pub ospf_publish_allow : List String
  pub node_failover_mode : String
  pub sniff_override : Bool
