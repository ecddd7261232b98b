-- ===== src/Geo/Reader/Encoded.antt =====
-- A file that was written as a list of tags is answered tag by tag.
use edge_route_gw.Prelude.{ℕ, String, List, [], Option, none, some, ◌≡◌, refl, ap, ◌∙◌}
use edge_route_gw.Geo.{Wire, IsWire, Decoded, ok}
use edge_route_gw.Geo.Sites.{
  Entry, encode_tag, encode_list, encode_domain, encode_site_list, decode_geosite,
}
use edge_route_gw.Geo.Sites.Lists.{
  index, split_list-encode_list, items_given, DecodesTo, tag_of_encoded,
}
use edge_route_gw.Geo.Sites.Entries.{read_entries, decode_geosite-encode_tag}
use edge_route_gw.Geo.Reader.{Answer, found, failed, no_tag}
use edge_route_gw.Geo.Reader.Cache.{answer_raw, answer_split, answer_decoded, fresh}
use edge_route_gw.Prelude.Dict.{lookup}

abbrev pub answer_given : {A : Type 0} → Option (List A) → Answer (List A)
answer_given none = failed no_tag
answer_given (some items) = found items

module _ {w : Wire} (wire : IsWire w) {E A : Type 0} (encode : E → List ℕ)
    (decode : List ℕ → Decoded (List A)) (read : List E → List A)
    (again : (tag : String) (items : List E)
      → decode (encode_tag w encode tag items) ≡ ok (read items)) where
  answer_given_lem :
      (msg : Option (List ℕ)) (items : Option (List A))
      → DecodesTo wire encode decode read again msg items
      → answer_raw w decode msg ≡ answer_given items
  answer_given_lem none none h = refl
  answer_given_lem none (some items) h = elim h [ ]
  answer_given_lem (some msg) none h = elim h [ ]
  answer_given_lem (some msg) (some items) h = ap (answer_decoded w decode) h

  pub fresh-encode_list :
      (key : String) (tags : List (String × List E))
      → fresh w decode key (encode_list w encode [] tags)
        ≡ answer_given (items_given read key tags none)
  fresh-encode_list key tags =
      ap (answer_split w decode key) (split_list-encode_list wire encode tags)
      ∙ answer_given_lem (lookup key (index wire encode tags [])) _
          (tag_of_encoded wire encode decode read again key tags)

-- In a file that EncodeSiteList has written, a tag that was not given is not found, and a tag that was
-- given, in any case of its letters, is answered with the entries given for it last: those with a
-- value, the values in lower case, without empty attributes.
pub fresh-encode_site_list :
    {w : Wire} (wire : IsWire w) (key : String) (sites : List (String × List Entry))
    → fresh w (decode_geosite w) key (encode_site_list w sites)
      ≡ answer_given (items_given (read_entries wire) key sites none)
unfolding encode_site_list
fresh-encode_site_list {w} wire key sites =
    fresh-encode_list wire (encode_domain w) (decode_geosite w) (read_entries wire)
      (decode_geosite-encode_tag wire) key sites
