-- ===== src/Rulespec/Tag.antt =====
-- `NormalizeGeoTag` of internal/rulespec/values.go.
use Prim.Native.Char.{code}
use edge_route_gw.Prelude.{
  ℕ, String, Bool, true, ◌&&◌, ◌||◌, Option, none, some, leb, ◌==◌, if◌then◌else◌,
}
use edge_route_gw.Text.{trim_space, to_lower, cut_prefix}
use edge_route_gw.Rulespec.Domain.{is_alnum, first_alnum, size}

abbrev cut_or : Option String → String → String
cut_or none s = s
cut_or (some rest) s = rest

-- strings.TrimPrefix
abbrev pub trim_prefix : String → String → String
trim_prefix p s = cut_or (cut_prefix p s) s

-- [a-z0-9_@!.-]
abbrev is_tag_char : ℕ → Bool
is_tag_char c = is_alnum c || (c == b'_' || (c == b'@' || (c == b'!' || (c == b'.' || c == b'-'))))

unfoldable pub all_tag_chars : String → Bool
all_tag_chars String.[] = true
all_tag_chars (String.◌∷◌ c s) = is_tag_char (code c) && all_tag_chars s

-- the expression ^!?[a-z0-9][a-z0-9_@!.-]{0,63}$
unfoldable pub geo_tag : String → Bool
unfolding all_tag_chars size
geo_tag s = let t = trim_prefix "!" s in first_alnum t && (all_tag_chars t && leb (size t) 64)

-- `none` is the error
unfoldable pub normalize_geo_tag : String → Option String
unfolding geo_tag cut_prefix trim_space to_lower
normalize_geo_tag v =
    let t = trim_prefix "geoip:" (trim_prefix "geosite:" (to_lower (trim_space v))) in
    if geo_tag t then some t else none
