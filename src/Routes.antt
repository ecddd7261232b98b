-- ===== src/Routes.antt =====
-- internal/routes/engine.go: the prefixes that the gateway announces over OSPF.
pub mod Policy
pub mod Prune
pub mod Compute
pub mod Preflight
pub mod Rows
use edge_route_gw.Prelude.{ℕ, String, List, Bool, Option}
use edge_route_gw.Net.{Prefix}

pub data State : Type 0 where
  pending published failed protected : State

pub record Route : Type 0 where
  pub prefix : Prefix
  pub source : String
  pub rule_id : String
  pub state : State
  pub detail : String

pub record Result : Type 0 where
  pub publish : List Route
  pub rejected : List Route
  pub domains : List String
  pub warnings : List String
  pub truncated : ℕ

abbrev pub max_geosite_domains : ℕ
max_geosite_domains = 2000
