-- ===== src/Geo/Sites.antt =====
-- internal/geo/geo.go and encode_test_helpers.go: geosite.dat, read and written. The map from tag to
-- entries that is written is a list, in the order in which `range` takes it.
pub mod Complete
pub mod RoundTrip
pub mod Lists
pub mod Entries
use edge_route_gw.Prelude.{
  ℕ, ◌+◌, ◌-◌, ◌^◌, String, Bool, true, false, ◌&&◌, List, [], ◌∷◌, ◌++◌, Option, none, some, ◌==◌,
  if◌then◌else◌,
}
use edge_route_gw.Prelude.Dict.{insert}
use edge_route_gw.Text.{to_lower, is_empty, concat}
use edge_route_gw.Geo.{
  Wire, WireType, varint_type, bytes_type, other_type, Decoded, ok, bad, stuck, Next, next, stop,
  Handler, ◌>>=◌, or_bad, loop, skip, take_bytes, take_varint,
}

pub data DomainKind : Type 0 where
  plain regex root full unknown : DomainKind

pub record Entry : Type 0 where
  pub kind : DomainKind
  pub value : String
  pub attrs : List String

abbrev pub kind_prefix : DomainKind → String
kind_prefix plain = "keyword:"
kind_prefix regex = "regexp:"
kind_prefix root = "domain:"
kind_prefix _ = "full:"

-- `MosdnsValue` and `XrayValue`
unfoldable pub mosdns_value : Entry → String
mosdns_value e = concat (kind_prefix e.kind) e.value

abbrev pub is_resolvable_kind : DomainKind → Bool
is_resolvable_kind root = true
is_resolvable_kind full = true
is_resolvable_kind _ = false

-- `Resolvable`
unfoldable pub is_resolvable : Entry → Bool
is_resolvable e = is_resolvable_kind e.kind

abbrev pub is_bytes : WireType → Bool
is_bytes bytes_type = true
is_bytes _ = false

abbrev pub is_varint : WireType → Bool
is_varint varint_type = true
is_varint _ = false

-- An entry while its fields are read; the kind is the 64 bits that were read.
pub record Draft : Type 0 where
  pub kind : ℕ
  pub value : String
  pub attrs : List String

abbrev pub empty_draft : Draft
empty_draft = record { kind = 0; value = ""; attrs = [] }

-- A kind from 0 to 3, as a signed number.
abbrev pub kind_of : ℕ → DomainKind
kind_of n =
    if n == 0
    then plain
    else if n == 1
    then regex
    else if n == 2
    then root
    else if n == 3
    then full
    else unknown

abbrev pub entry_of : Draft → Entry
entry_of d = record { kind = kind_of d.kind; value = d.value; attrs = d.attrs }

abbrev pub add_attr : Decoded String → List String → Decoded (List String)
add_attr (ok key) attrs = ok (if is_empty key then attrs else attrs ++ key ∷ [])
add_attr bad attrs = ok attrs
add_attr stuck attrs = stuck

abbrev pub set_kind : Draft → ℕ → Draft
set_kind d v = record d { kind = v }

module _ (w : Wire) where
  abbrev pub string_field : ℕ → Handler String
  string_field want num typ rest s =
      if num == want && is_bytes typ
      then (or_bad (w.consume_bytes rest) >>= λ r. ok (stop (w.text_of r.0)))
      else skip w num typ rest s

  -- `readStringField`
  unfoldable pub read_string_field : List ℕ → ℕ → Decoded String
  unfolding loop skip
  read_string_field msg want = loop w (string_field want) msg ""

  abbrev pub add_tag : List (String × List ℕ) → List ℕ → Decoded (List (String × List ℕ))
  add_tag out msg = read_string_field msg 1 >>= λ tag.
      ok (if is_empty tag then out else insert (to_lower tag) msg out)

  abbrev pub list_field : Handler (List (String × List ℕ))
  list_field num typ rest out =
      if num == 1 && is_bytes typ
      then take_bytes w add_tag num typ rest out
      else skip w num typ rest out

  -- `splitList`
  unfoldable pub split_list : List ℕ → Decoded (List (String × List ℕ))
  unfolding loop skip read_string_field insert to_lower
  split_list msg = loop w list_field msg []

  abbrev pub set_value : Draft → List ℕ → Decoded Draft
  set_value d v = ok (record d { value = to_lower (w.text_of v) })

  abbrev pub set_attr : Draft → List ℕ → Decoded Draft
  set_attr d v =
      add_attr (read_string_field v 1) d.attrs >>= λ attrs. ok (record d { attrs = attrs })

  abbrev pub domain_field : Handler Draft
  domain_field num typ rest d =
      if num == 1 && is_varint typ
      then take_varint w set_kind num typ rest d
      else if num == 2 && is_bytes typ
      then take_bytes w set_value num typ rest d
      else if num == 3 && is_bytes typ
      then take_bytes w set_attr num typ rest d
      else skip w num typ rest d

  -- `decodeDomain`
  unfoldable pub decode_domain : List ℕ → Decoded Entry
  unfolding loop skip read_string_field to_lower
  decode_domain msg = loop w domain_field msg empty_draft >>= λ d. ok (entry_of d)

  abbrev pub add_entry : List Entry → List ℕ → Decoded (List Entry)
  add_entry out v = decode_domain v >>= λ e. ok (if is_empty e.value then out else out ++ e ∷ [])

  abbrev pub site_field : Handler (List Entry)
  site_field num typ rest out =
      if num == 2 && is_bytes typ
      then take_bytes w add_entry num typ rest out
      else skip w num typ rest out

  -- `decodeGeoSite`
  unfoldable pub decode_geosite : List ℕ → Decoded (List Entry)
  unfolding loop skip decode_domain
  decode_geosite msg = loop w site_field msg []

-- uint64(kind): the unknown kind is -1
abbrev pub kind_number : DomainKind → ℕ
kind_number plain = 0
kind_number regex = 1
kind_number root = 2
kind_number full = 3
kind_number unknown = 2 ^ 64 - 1

module _ (w : Wire) where
  abbrev pub put_bytes : List ℕ → ℕ → List ℕ → List ℕ
  put_bytes dst num v = w.append_bytes (w.append_tag dst num bytes_type) v

  abbrev pub put_varint : List ℕ → ℕ → ℕ → List ℕ
  put_varint dst num v = w.append_varint (w.append_tag dst num varint_type) v

  -- the loop over the attributes
  unfoldable pub encode_attrs : List ℕ → List String → List ℕ
  encode_attrs dm [] = dm
  encode_attrs dm (a ∷ rest) = encode_attrs (put_bytes dm 3 (put_bytes [] 1 (w.bytes_of a))) rest

  unfoldable pub encode_domain : Entry → List ℕ
  unfolding encode_attrs
  encode_domain e =
      encode_attrs (put_bytes (put_varint [] 1 (kind_number e.kind)) 2 (w.bytes_of e.value)) e.attrs

  module _ {E : Type 0} (encode : E → List ℕ) where
    -- the loop over the entries of a tag
    unfoldable pub encode_items : List ℕ → List E → List ℕ
    encode_items site [] = site
    encode_items site (e ∷ rest) = encode_items (put_bytes site 2 (encode e)) rest

    -- one tag with its entries
    unfoldable pub encode_tag : String → List E → List ℕ
    unfolding encode_items
    encode_tag tag items = encode_items (put_bytes [] 1 (w.bytes_of tag)) items

    -- the loop over the tags
    unfoldable pub encode_list : List ℕ → List (String × List E) → List ℕ
    unfolding encode_tag
    encode_list out [] = out
    encode_list out ((tag, items) ∷ rest) =
        encode_list (put_bytes out 1 (encode_tag tag items)) rest

  -- `EncodeSiteList`
  unfoldable pub encode_site_list : List (String × List Entry) → List ℕ
  unfolding encode_list encode_domain
  encode_site_list sites = encode_list encode_domain [] sites
