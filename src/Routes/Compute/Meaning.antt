-- ===== src/Routes/Compute/Meaning.antt =====
-- The addresses that the rules, all together, would have announced.
use edge_route_gw.Prelude.{
  ℕ, zero, suc, String, Bool, false, not, ◌&&◌, ◌||◌, ◌+◌, List, [], ◌∷◌, Option, none, some, any,
  keep, take, take-nil, ltb, str_eq, if◌then◌else◌, ◌≡◌, refl, ap, ◌∙◌, arith, Bool-cases, inl, inr,
}
use edge_route_gw.Net.{Addr, Prefix, contains}
use edge_route_gw.Net.Text.{NetText}
use edge_route_gw.Model.{
  Mode, mode_b, MatchKind, match_domain, match_ip, match_geosite, match_geoip, other_match, Rule,
}
use edge_route_gw.Desired.{Snapshot, active_rules}
use edge_route_gw.Rulespec.Domain.{parse_domain}
use edge_route_gw.Routes.{max_geosite_domains}
use edge_route_gw.Routes.Policy.{concat}
use edge_route_gw.Routes.Compute.{
  Entry, resolvable, Answer, answer, refusal, SiteSource, Sources, Gathered, want_name, ip_prefix,
  proxy_action, add_ips, ip_rule, geoip_rule, names_ips, domain_rule, site_entries, site_answer,
  site_rule, same_named, geosite_tag, geosite_rule, is_mode_c, by_kind, gather_rules, add_pool,
  start, with_pool, gather,
}
use edge_route_gw.Routes.Compute.Candidates.{
  offers, in_cidrs, in_answers, in_prefix, in_geoip, in_domain, offers-add, offers-add_cidrs,
  offers-add_ips, offers-add_parsed, offers-geoip_tag, offers-domain_parsed, offers-want_name,
}

module _ (net : NetText) (x : Addr) where
  -- the cached answers for the names of the entries
  abbrev pub in_names : Snapshot → List Entry → Bool
  in_names s es = any (λ e. in_answers net x (names_ips net s e.value)) es

  -- The loop tracks the first `k` resolvable entries, if `k` more fit under the limit.
  offers-site_entries :
      (s : Snapshot) (r : Rule) (k n : ℕ) (es : List Entry) (g : Gathered)
      → n + k ≡ max_geosite_domains
      → offers x (site_entries net s r n es g)
        ≡ (offers x g || in_names s (take k (keep resolvable es)))
  unfolding site_entries
  offers-site_entries s r k n [] g h = rw (take-nil Entry k) (ground arith)
  offers-site_entries s r zero n (e ∷ es) g h = ground (
    arith,
    offers-site_entries s r zero n es g h,
    offers-site_entries s r zero n es (record g { truncated = suc g.truncated }) h,
  )
  offers-site_entries s r (suc k) n (e ∷ es) g h =
      let detail = concat "geosite:" (concat r.match_value (concat " " e.value)) in
      let g' = add_ips net (names_ips net s e.value) r.id detail (want_name e.value g) in
      ground (
        arith,
        offers-site_entries s r (suc k) n es g h,
        offers-site_entries s r k (suc n) es g' (omega arith),
        offers-add_ips net x (names_ips net s e.value) r.id detail (want_name e.value g),
        offers-want_name x e.value g,
      )

  abbrev pub in_site_answer : Snapshot → Answer (List Entry) → Bool
  in_site_answer s (refusal _) = false
  in_site_answer s (answer es) = in_names s (take max_geosite_domains (keep resolvable es))

  offers-site_answer :
      (o : Answer (List Entry)) (s : Snapshot) (r : Rule) (g : Gathered)
      → offers x (site_answer net o s r g) ≡ (offers x g || in_site_answer s o)
  unfolding site_answer
  offers-site_answer (refusal why) s r g = ground arith
  offers-site_answer (answer es) s r g =
      let seen = site_entries net s r 0 es g in
      elim (Bool-cases (ltb 0 seen.truncated)) [
        | inl e ↦ rw e (offers-site_entries s r max_geosite_domains 0 es g refl)
        | inr e ↦ rw e (offers-site_entries s r max_geosite_domains 0 es g refl)
      ]

  abbrev pub in_site : Snapshot → Option SiteSource → String → Bool
  in_site s none tag = false
  in_site s (some site) tag = in_site_answer s (site.entries tag)

  offers-site_rule :
      (o : Option SiteSource) (s : Snapshot) (r : Rule) (g : Gathered)
      → offers x (site_rule net o s r g) ≡ (offers x g || in_site s o r.match_value)
  unfolding site_rule
  offers-site_rule none s r g = ground arith
  offers-site_rule (some site) s r g = offers-site_answer (site.entries r.match_value) s r g

  -- The prefixes of the same-named geoip tag stand in for those of the geosite tag.
  abbrev pub in_geosite : Snapshot → Option (List Prefix) → Option SiteSource → String → Bool
  in_geosite s (some cs) src tag = in_cidrs x cs
  in_geosite s none src tag = in_site s src tag

  offers-geosite_tag :
      (o : Option (List Prefix)) (src : Option SiteSource) (s : Snapshot) (r : Rule) (g : Gathered)
      → offers x (geosite_tag net o src s r g) ≡ (offers x g || in_geosite s o src r.match_value)
  unfolding geosite_tag
  offers-geosite_tag (some cs) src s r g = offers-add_cidrs x cs r.id _ g
  offers-geosite_tag none src s r g = offers-site_rule src s r g

  -- The addresses that a rule with a proxy action asks to be announced, in a mode.
  abbrev pub in_kind : MatchKind → Snapshot → Sources → String → Bool
  in_kind match_ip s src value = in_prefix net x (ip_prefix net value)
  in_kind match_geoip s src value = not (str_eq value "private") && in_geoip net x src.geo_ip value
  in_kind match_domain s src value =
      is_mode_c s.network.mode && in_domain net x s (parse_domain value)
  in_kind match_geosite s src value =
      is_mode_c s.network.mode && in_geosite s (same_named src.geo_ip value) src.geo_site value
  in_kind _ s src value = false

  offers-by_kind :
      (k : MatchKind) (s : Snapshot) (src : Sources) (r : Rule) (g : Gathered)
      → offers x (by_kind net k s src r g) ≡ (offers x g || in_kind k s src r.match_value)
  unfolding ip_rule geoip_rule domain_rule geosite_rule
  offers-by_kind match_ip s src r g = offers-add_parsed net x (ip_prefix net r.match_value) r.id g
  offers-by_kind match_geoip s src r g = ground (arith, offers-geoip_tag net x src.geo_ip r g)
  offers-by_kind match_domain s src r g =
      ground (arith, offers-domain_parsed net x (parse_domain r.match_value) s r g)
  offers-by_kind match_geosite s src r g =
      let o = same_named src.geo_ip r.match_value in
      ground (arith, offers-geosite_tag o src.geo_site s r g)
  offers-by_kind (other_match _) s src r g = ground arith

  abbrev pub asks : Snapshot → Sources → Rule → Bool
  asks s src r = proxy_action r.action_kind && in_kind r.match_kind s src r.match_value

  offers-gather_rules :
      (s : Snapshot) (src : Sources) (rs : List Rule) (g : Gathered)
      → offers x (gather_rules net s src rs g) ≡ (offers x g || any (asks s src) rs)
  unfolding gather_rules
  offers-gather_rules s src [] g = ground arith
  offers-gather_rules s src (r ∷ rs) g =
      offers-gather_rules s src rs
        (if proxy_action r.action_kind then by_kind net r.match_kind s src r g else g)
      ∙ ground (arith, offers-by_kind r.match_kind s src r g)

  -- the Fake-IP pool of Mode B
  abbrev pub in_pool : Mode → Option Prefix → Bool
  in_pool mode_b (some p) = contains p x
  in_pool _ _ = false

  offers-add_pool :
      (o : Option Prefix) (s : Snapshot) → offers x (add_pool net o s start) ≡ in_pool mode_b o
  unfolding add_pool
  offers-add_pool (some p) s = offers-add x p "fakeip" "" "Fake-IP pool" start
  offers-add_pool none s = refl

  offers-with_pool :
      (m : Mode) (s : Snapshot)
      → offers x (with_pool net m s) ≡ in_pool m (net.parse_prefix s.network.fakeip_pool)
  offers-with_pool mode_b s = offers-add_pool (net.parse_prefix s.network.fakeip_pool) s
  offers-with_pool _ s = refl

  -- Some candidate announces an address exactly if the Fake-IP pool of Mode B does, or an active
  -- rule with a proxy action asks for it.
  pub offers-gather :
      (s : Snapshot) (src : Sources)
      → offers x (gather net s src) ≡ (
          in_pool s.network.mode (net.parse_prefix s.network.fakeip_pool)
          || any (asks s src) (active_rules s))
  unfolding gather
  offers-gather s src =
      offers-gather_rules s src (active_rules s) (with_pool net s.network.mode s)
      ∙ ap (λ b. b || any (asks s src) (active_rules s)) (offers-with_pool s.network.mode s)
