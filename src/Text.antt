-- ===== src/Text.antt =====
-- Go's strings package as far as the gateway uses it, over code points.
pub mod Suffix
use Prim.Native.Char.{Char, code}
use Prim.Native.String.{String, [], ◌∷◌}
pub use Prim.Native.String.{◌++◌ as concat}
use mathlib.Core.List
use mathlib.Core.List.{List}
use edge_route_gw.Prelude.{
  ℕ, Bool, true, false, ◌&&◌, ◌||◌, Option, none, some, leb, ◌==◌, str_eq, if◌then◌else◌,
}

-- unicode.IsSpace
abbrev pub is_space : ℕ → Bool
is_space c =
    (leb 9 c && leb c 13)
    || (c == 32
        || (c == 0x85
            || (c == 0xa0
                || (c == 0x1680
                    || ((leb 0x2000 c && leb c 0x200a)
                        || (c == 0x2028
                            || (c == 0x2029 || (c == 0x202f || (c == 0x205f || c == 0x3000)))))))))

abbrev pub is_empty : String → Bool
is_empty [] = true
is_empty (c ∷ s) = false

unfoldable pub trim_left : String → String
trim_left [] = []
trim_left (c ∷ s) = let rest = trim_left s in if is_space (code c) then rest else c ∷ s

unfoldable pub trim_right : String → String
trim_right [] = []
trim_right (c ∷ s) =
    let rest = trim_right s in if is_empty rest && is_space (code c) then [] else c ∷ rest

-- strings.TrimSpace
unfoldable pub trim_space : String → String
unfolding trim_left trim_right
trim_space s = trim_right (trim_left s)

-- strings.TrimSuffix(s, ".")
unfoldable pub trim_dot : String → String
trim_dot [] = []
trim_dot (c ∷ s) = if code c == b'.' && is_empty s then [] else c ∷ trim_dot s

-- strings.CutPrefix(s, p): what follows the prefix
unfoldable pub cut_prefix : String → String → Option String
cut_prefix [] s = some s
cut_prefix (d ∷ p) [] = none
cut_prefix (d ∷ p) (c ∷ s) = if code c == code d then cut_prefix p s else none

-- The letter of the second text that stands where `c` stands in the first, or else `c`.
unfoldable pub translate : String → String → Char → Char
translate (u ∷ us) (l ∷ ls) c =
    let later = translate us ls c in if code c == code u then l else later
translate _ _ c = c

-- unicode.ToLower, on the letters whose lower case is ASCII: the last two are the Kelvin sign and
-- the dotted capital I. Other letters are left as they are, where Go maps some of them to letters
-- that are not ASCII either.
unfoldable pub lower_char : Char → Char
unfolding translate
lower_char c = translate "ABCDEFGHIJKLMNOPQRSTUVWXYZKİ" "abcdefghijklmnopqrstuvwxyzki" c

-- strings.ToLower
unfoldable pub to_lower : String → String
unfolding lower_char
to_lower [] = []
to_lower (c ∷ s) = lower_char c ∷ to_lower s

-- strings.HasSuffix(s, t)
unfoldable pub has_suffix : String → String → Bool
has_suffix [] t = is_empty t
has_suffix (c ∷ s) t = str_eq (c ∷ s) t || has_suffix s t

abbrev pub push_front : Char → Option String → Option String
push_front c none = none
push_front c (some s) = some (c ∷ s)

-- strings.CutSuffix(s, t): what stands before the suffix
unfoldable pub cut_suffix : String → String → Option String
cut_suffix [] t = if is_empty t then some [] else none
cut_suffix (c ∷ s) t = if str_eq (c ∷ s) t then some [] else push_front c (cut_suffix s t)

-- strings.Contains(s, c) for one character
unfoldable pub has_char : ℕ → String → Bool
has_char d [] = false
has_char d (c ∷ s) = code c == d || has_char d s

abbrev pub add_char : Char → List String → List String
add_char c List.[] = List.◌∷◌ (c ∷ []) List.[]
add_char c (List.◌∷◌ p ps) = List.◌∷◌ (c ∷ p) ps

-- strings.Split(s, sep) for one character
unfoldable pub split : ℕ → String → List String
split sep [] = List.◌∷◌ [] List.[]
split sep (c ∷ s) =
    let rest = split sep s in if code c == sep then List.◌∷◌ [] rest else add_char c rest

abbrev found_later : Char → Option (String × String) → Option (String × String)
found_later c none = none
found_later c (some (before, after)) = some (c ∷ before, after)

abbrev found_here : Option String → Option (String × String) → Option (String × String)
found_here (some rest) later = some ([], rest)
found_here none later = later

-- strings.Cut, and strings.Index with the two slices: what stands before and after the first occurrence
unfoldable pub cut : String → String → Option (String × String)
unfolding cut_prefix
cut sep [] = found_here (cut_prefix sep []) none
cut sep (c ∷ s) = found_here (cut_prefix sep (c ∷ s)) (found_later c (cut sep s))
