-- ===== src/Tests/Domains.antt =====
-- Domain patterns.
use edge_route_gw.Prelude.{true, false, all, length, ◌≡◌, ◌≢◌, refl, ◌≤◌}
use edge_route_gw.Text.{
  trim_space, trim_dot, to_lower, cut_prefix, cut_suffix, has_suffix, has_char, split,
}
use edge_route_gw.Rulespec.Domain.{
  parse_domain, matches, ok, err, DomainPattern, suffix, full, single_level, canonical,
  domain_label, wildcard_position, no_root_domain, empty_domain, invalid_label,
}
use edge_route_gw.Rulespec.Domain.Meaning.{IsMeant, parse_domain-matches}

parser : Unit {0}
unfolding parse_domain matches trim_space trim_dot to_lower cut_prefix cut_suffix has_suffix
    has_char split
parser = tt

abbrev google : DomainPattern
google = record { raw = "**.google.com"; kind = suffix; base = "google.com"; wildcard = true }

abbrev one_level : DomainPattern
one_level = record {
  raw = "*.google.com";
  kind = single_level;
  base = "google.com";
  wildcard = true;
}

abbrev apex : DomainPattern
apex = record { raw = "google.com"; kind = full; base = "google.com"; wildcard = false }

parse_tests :
    (parse_domain " **.Google.com. " ≡ ok google)
    × (parse_domain "*.google.com" ≡ ok one_level)
    × (parse_domain "google.com" ≡ ok apex)
    × (parse_domain "a.*.com" ≡ err wildcard_position)
    × (parse_domain "com" ≡ err no_root_domain)
    × (parse_domain " ." ≡ err empty_domain)
    × (parse_domain "-a.com" ≡ err (invalid_label "-a"))
unfolding parser
parse_tests = (refl, refl, refl, refl, refl, refl, refl)

match_tests :
    (matches google "a.b.GOOGLE.com." ≡ true)
    × (matches google "notgoogle.com" ≡ false)
    × (matches one_level "a.google.com" ≡ true)
    × (matches one_level "a.b.google.com" ≡ false)
    × (matches one_level "google.com" ≡ true)
    × (matches apex "www.google.com" ≡ false)
unfolding parser
match_tests = (refl, refl, refl, refl, refl, refl)

www-ne-nil : canonical "WWW.google.com" ≢ ""
unfolding parser
www-ne-nil e = cc

parse_domain-matches_example :
    (has_char b'*' "google.com" ≡ false)
    × (2 ≤ length (split b'.' "google.com"))
    × (all domain_label (split b'.' "google.com") ≡ true)
    × IsMeant
        (canonical " **.Google.com. ")
        "google.com"
        (matches google "WWW.google.com")
        (canonical "WWW.google.com")
parse_domain-matches_example =
    parse_domain-matches " **.Google.com. " google "WWW.google.com" parse_tests.0 www-ne-nil
