-- ===== src/Routes/Compute/Candidates.antt =====
-- Where the candidates come from: what each rule, by its kind, would have announced.
use edge_route_gw.Prelude.{
  String, Bool, false, not, ◌&&◌, ◌||◌, List, [], ◌∷◌, Option, none, some, any, any-append,
  if◌then◌else◌, ◌≡◌, ap, ◌∙◌, arith,
}
use text.Mathlib.Text.{starts_with}
use edge_route_gw.Net.{Addr, Prefix, is4, contains, host_route}
use edge_route_gw.Net.Text.{NetText}
use edge_route_gw.Net.Prefixes.{contains-masked}
use edge_route_gw.Model.{Rule}
use edge_route_gw.Desired.{Snapshot}
use edge_route_gw.Rulespec.Domain.{Parsed, ok, err}
use edge_route_gw.Routes.Policy.{ipv4}
use edge_route_gw.Routes.Compute.{
  Answer, answer, refusal, IpSource, Gathered, want_name, add, add_cidrs, add_ips, add_parsed,
  add_answer, geoip_answer, geoip_tag, names_ips, domain_parsed,
}

-- Some candidate announces the address.
abbrev pub offers : Addr → Gathered → Bool
offers x g = any (λ r. contains r.prefix x) g.cands

pub offers-add :
    (x : Addr) (p : Prefix) (source id detail : String) (g : Gathered)
    → offers x (add p source id detail g) ≡ (offers x g || contains p x)
unfolding add
offers-add x p source id detail g =
    any-append (λ r. contains r.prefix x) g.cands _
    ∙ ap (λ b. offers x g || (b || false)) (contains-masked p x)
    ∙ ground arith

-- The address is in an IPv4 prefix of the list.
abbrev pub in_cidrs : Addr → List Prefix → Bool
in_cidrs x cs = any (λ c. is4 c.addr && contains c x) cs

pub offers-add_cidrs :
    (x : Addr) (cs : List Prefix) (id detail : String) (g : Gathered)
    → offers x (add_cidrs cs id detail g) ≡ (offers x g || in_cidrs x cs)
unfolding add_cidrs
offers-add_cidrs x [] id detail g = ground arith
offers-add_cidrs x (c ∷ cs) id detail g =
    offers-add_cidrs x cs id detail (if is4 c.addr then add c "geo" id detail g else g)
    ∙ ground (arith, offers-add x c "geo" id detail g)

pub offers-want_name :
    (x : Addr) (d : String) (g : Gathered) → offers x (want_name d g) ≡ offers x g
offers-want_name x d g = ground arith

module _ (net : NetText) (x : Addr) where
  -- The address is an IPv4 answer of the list, as a host route.
  abbrev pub at_addr : Option Addr → Bool
  at_addr none = false
  at_addr (some a) = contains (host_route a) x

  abbrev pub in_answers : List String → Bool
  in_answers ips = any (λ ip. at_addr (ipv4 (net.parse_addr ip))) ips

  pub offers-add_answer :
      (o : Option Addr) (id detail : String) (g : Gathered)
      → offers x (add_answer net o id detail g) ≡ (offers x g || at_addr o)
  unfolding add_answer
  offers-add_answer none id detail g = ground arith
  offers-add_answer (some a) id detail g = offers-add x (host_route a) "domain" id detail g

  pub offers-add_ips :
      (ips : List String) (id detail : String) (g : Gathered)
      → offers x (add_ips net ips id detail g) ≡ (offers x g || in_answers ips)
  unfolding add_ips
  offers-add_ips [] id detail g = ground arith
  offers-add_ips (ip ∷ ips) id detail g =
      let o = ipv4 (net.parse_addr ip) in
      offers-add_ips ips id detail (add_answer net o id detail g)
      ∙ ground (arith, offers-add_answer o id detail g)

  -- the address that an `ip` rule stands for
  abbrev pub in_prefix : Option Prefix → Bool
  in_prefix none = false
  in_prefix (some p) = is4 p.addr && contains p x

  pub offers-add_parsed :
      (o : Option Prefix) (id : String) (g : Gathered)
      → offers x (add_parsed net o id g) ≡ (offers x g || in_prefix o)
  unfolding add_parsed
  offers-add_parsed none id g = ground arith
  offers-add_parsed (some p) id g = ground (arith, offers-add x p "rule" id "ip rule" g)

  abbrev pub in_answer : Answer (List Prefix) → Bool
  in_answer (answer cs) = in_cidrs x cs
  in_answer (refusal _) = false

  pub offers-geoip_answer :
      (o : Answer (List Prefix)) (r : Rule) (g : Gathered)
      → offers x (geoip_answer net o r g) ≡ (offers x g || in_answer o)
  unfolding geoip_answer
  offers-geoip_answer (answer cs) r g = offers-add_cidrs x cs r.id _ g
  offers-geoip_answer (refusal why) r g = ground arith

  -- the addresses of a geoip tag
  abbrev pub in_geoip : Option IpSource → String → Bool
  in_geoip none tag = false
  in_geoip (some ip) tag = not (starts_with tag "!") && in_answer (ip.cidrs tag)

  pub offers-geoip_tag :
      (o : Option IpSource) (r : Rule) (g : Gathered)
      → offers x (geoip_tag net o r g) ≡ (offers x g || in_geoip o r.match_value)
  unfolding geoip_tag
  offers-geoip_tag none r g = ground arith
  offers-geoip_tag (some ip) r g = ground (arith, offers-geoip_answer (ip.cidrs r.match_value) r g)

  -- the cached answers for a domain rule that is no wildcard
  abbrev pub in_domain : Snapshot → Parsed → Bool
  in_domain s (err _) = false
  in_domain s (ok p) = not p.wildcard && in_answers (names_ips net s p.base)

  pub offers-domain_parsed :
      (o : Parsed) (s : Snapshot) (r : Rule) (g : Gathered)
      → offers x (domain_parsed net o s r g) ≡ (offers x g || in_domain s o)
  unfolding domain_parsed
  offers-domain_parsed (err _) s r g = ground arith
  offers-domain_parsed (ok p) s r g = ground (
    arith,
    offers-add_ips (names_ips net s p.base) r.id p.base (want_name p.base g),
    offers-want_name x p.base g,
  )
