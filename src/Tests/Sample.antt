-- ===== src/Tests/Sample.antt =====
-- A small gateway: a text syntax for a few addresses, a snapshot and geodata.
use edge_route_gw.Prelude.{
  ℕ, ◌+◌, ◌*◌, String, true, false, List, [], ◌∷◌, Option, none, some, str_eq, if◌then◌else◌,
}
use edge_route_gw.Net.{Addr, v4, Prefix, prefix_eq}
use edge_route_gw.Net.Text.{NetText}
use edge_route_gw.Model.{
  Mode, Node, Rule, NetworkConfig, match_domain, match_ip, match_geoip, MatchKind, proxy,
  ActionKind,
}
use edge_route_gw.Desired.{Snapshot}
use edge_route_gw.Routes.Compute.{Sources}

abbrev pub ip : ℕ → ℕ → ℕ → ℕ → ℕ
ip a b c d = a * 16777216 + b * 65536 + c * 256 + d

abbrev pub cidr : ℕ → ℕ → Prefix
cidr a bits = record { addr = v4 a; bits = bits }

abbrev addrs : List (String × Addr)
addrs =
    ("203.0.113.7", v4 (ip 203 0 113 7))
    ∷ ("198.51.100.9", v4 (ip 198 51 100 9))
    ∷ ("192.0.2.1", v4 (ip 192 0 2 1))
    ∷ []

abbrev prefixes : List (String × Prefix)
prefixes =
    ("203.0.113.0/24", cidr (ip 203 0 113 0) 24)
    ∷ ("198.51.100.0/24", cidr (ip 198 51 100 0) 24)
    ∷ ("198.51.0.0/16", cidr (ip 198 51 0 0) 16)
    ∷ ("198.18.0.0/16", cidr (ip 198 18 0 0) 16)
    ∷ ("10.1.0.0/16", cidr (ip 10 1 0 0) 16)
    ∷ []

abbrev find_text {ℓ} : {A : Type ℓ} → String → List (String × A) → Option A
find_text s [] = none
find_text s ((t, a) ∷ rest) = if str_eq t s then some a else find_text s rest

abbrev shown : Prefix → List (String × Prefix) → String
shown p [] = "?"
shown p ((t, q) ∷ rest) = let later = shown p rest in if prefix_eq q p then t else later

abbrev pub sample_net : NetText
sample_net = record {
  parse_addr = λ s. find_text s addrs;
  parse_prefix = λ s. find_text s prefixes;
  show_addr = λ a. "address";
  show_prefix = λ p. shown p prefixes;
}

abbrev pub tokyo : Node
tokyo = record {
  id = "n1";
  name = "tokyo";
  protocol = "vless";
  address = "203.0.113.7";
  port = 443;
  params = "";
  credential = "key";
  enabled = true;
  is_default = false;
  latency_ms = none;
}

abbrev pub osaka : Node
osaka = record {
  id = "n2";
  name = "osaka";
  protocol = "vless";
  address = "osaka.example.com";
  port = 443;
  params = "";
  credential = "key";
  enabled = true;
  is_default = true;
  latency_ms = none;
}

abbrev pub rule : String → MatchKind → String → ActionKind → Rule
rule id kind value action = record {
  id = id;
  set_id = "s1";
  position = 0;
  match_kind = kind;
  match_value = value;
  action_kind = action;
  action_ref = "";
  enabled = true;
  remark = "";
}

abbrev pub network : Mode → NetworkConfig
network mode = record {
  mode = mode;
  management_iface = "";
  service_iface = "eth0";
  fakeip_pool = "198.18.0.0/16";
  tproxy_port = 12345;
  lan_default_policy = "direct";
  ospf_push_batch = 500;
  ospf_push_interval_sec = 2;
  ospf_resolve_workers = 8;
  ospf_publish_allow = [];
  node_failover_mode = "strict";
  sniff_override = false;
}

abbrev pub sample_rules : List Rule
sample_rules =
    rule "r1" match_ip "203.0.113.0/24" proxy
    ∷ rule "r2" match_ip "198.51.100.0/24" proxy
    ∷ rule "r3" match_ip "198.51.0.0/16" proxy
    ∷ rule "r4" match_ip "10.1.0.0/16" proxy
    ∷ rule "r5" match_domain "site.example.com" proxy
    ∷ rule "r6" match_geoip "jp" proxy
    ∷ []

abbrev pub sample : Mode → Snapshot
sample mode = record {
  generation = 7;
  network = network mode;
  nodes = tokyo ∷ osaka ∷ [];
  groups = [];
  rule_sets =
      record { id = "s1"; name = "main"; position = 0; enabled = true; builtin = false } ∷ [];
  rules = sample_rules;
  resolved =
      record {
        domain = "site.example.com";
        group = "local";
        ips = "192.0.2.1" ∷ [];
        ttl = 300;
        fail_count = 0;
        last_error = "";
        resolved_at = some 0;
        expires_at = 300;
      }
      ∷ record {
        domain = "osaka.example.com";
        group = "local";
        ips = "198.51.100.9" ∷ [];
        ttl = 300;
        fail_count = 0;
        last_error = "";
        resolved_at = some 0;
        expires_at = 300;
      }
      ∷ [];
  protected_hosts = [];
}

abbrev pub no_geodata : Sources
no_geodata = record { geo_ip = none; geo_site = none; default_iface = "" }
