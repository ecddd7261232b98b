-- ===== src/Rulespec/Domain.antt =====
-- internal/rulespec/domain.go: domain patterns.
pub mod Meaning
use Prim.Native.Char.{code}
use Prim.Native.String.{String}
use Prim.Native.String
use edge_route_gw.Prelude.{
  ℕ, Bool, true, false, not, ◌&&◌, ◌||◌, List, [], ◌∷◌, Option, none, some, leb, ltb, ◌==◌, str_eq,
  if◌then◌else◌, length, all,
}
use edge_route_gw.Text.{
  trim_space, trim_dot, to_lower, cut_prefix, cut_suffix, has_suffix, has_char, split, is_empty,
}

pub data DomainKind : Type 0 where
  full suffix single_level : DomainKind

pub record DomainPattern : Type 0 where
  pub raw : String
  pub kind : DomainKind
  pub base : String
  pub wildcard : Bool

pub data DomainError : Type 0 where
  empty_domain wildcard_position no_root_domain : DomainError
  invalid_label : String → DomainError

pub data Parsed : Type 0 where
  ok : DomainPattern → Parsed
  err : DomainError → Parsed

abbrev pub is_alnum : ℕ → Bool
is_alnum c = (leb b'a' c && leb c b'z') || (leb b'0' c && leb c b'9')

-- `[a-z0-9-]` of each character but the last, and `[a-z0-9]` of the last
unfoldable pub label_rest : String → Bool
label_rest String.[] = true
label_rest (String.◌∷◌ c s) =
    (if is_empty s then is_alnum (code c) else is_alnum (code c) || code c == b'-') && label_rest s

abbrev pub first_alnum : String → Bool
first_alnum String.[] = false
first_alnum (String.◌∷◌ c s) = is_alnum (code c)

unfoldable pub size : String → ℕ
size String.[] = 0
size (String.◌∷◌ c s) = ℕ.suc (size s)

-- the expression ^[a-z0-9](?:[a-z0-9-]{0,61}[a-z0-9])?$
unfoldable pub domain_label : String → Bool
unfolding label_rest size
domain_label s = first_alnum s && (label_rest s && leb (size s) 63)

-- the loop over the labels
unfoldable pub check_labels : List String → DomainPattern → Parsed
unfolding domain_label
check_labels [] p = ok p
check_labels (part ∷ parts) p =
    if domain_label part then check_labels parts p else err (invalid_label part)

abbrev pub pattern_of : Option String → Option String → String → DomainPattern
pattern_of (some base) _ raw = record { raw = raw; kind = suffix; base = base; wildcard = true }
pattern_of none (some base) raw = record {
  raw = raw;
  kind = single_level;
  base = base;
  wildcard = true;
}
pattern_of none none raw = record { raw = raw; kind = full; base = raw; wildcard = false }

-- the `switch` on the prefix
unfoldable pub classify : String → DomainPattern
classify raw = pattern_of (cut_prefix "**." raw) (cut_prefix "*." raw) raw

unfoldable pub canonical : String → String
canonical input = to_lower (trim_dot (trim_space input))

-- the checks of the base
unfoldable pub check_base : DomainPattern → Parsed
unfolding check_labels
check_base p =
    let parts = split b'.' p.base in
    if has_char b'*' p.base
    then err wildcard_position
    else if ltb (length parts) 2
    then err no_root_domain
    else check_labels parts p

unfoldable pub parse_domain : String → Parsed
unfolding canonical classify check_base
parse_domain input =
    let raw = canonical input in
    if is_empty raw then err empty_domain else check_base (classify raw)

abbrev pub dotted : String → String
dotted base = String.◌++◌ "." base

abbrev pub is_one_label : Option String → Bool
is_one_label none = false
is_one_label (some rest) = not (is_empty rest) && not (has_char b'.' rest)

unfoldable pub matches_kind : DomainKind → String → String → Bool
matches_kind suffix base host = str_eq host base || has_suffix host (dotted base)
matches_kind single_level base host =
    if str_eq host base then true else is_one_label (cut_suffix host (dotted base))
matches_kind full base host = str_eq host base

-- Matches
unfoldable pub matches : DomainPattern → String → Bool
unfolding matches_kind canonical
matches p input =
    let host = canonical input in if is_empty host then false else matches_kind p.kind p.base host
