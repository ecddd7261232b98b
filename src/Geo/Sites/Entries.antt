-- ===== src/Geo/Sites/Entries.antt =====
-- The entries of one tag that `EncodeSiteList` writes are read back.
use edge_route_gw.Prelude.{
  String, List, [], ◌∷◌, ◌++◌, ◌≡◌, ap, ◌∙◌, append-nil, append_assoc, refl, arith, if◌then◌else◌,
  Bool-cases, inl, inr,
}
use edge_route_gw.Text.{to_lower, is_empty}
use edge_route_gw.Geo.{Wire, IsWire, ok, loop}
use edge_route_gw.Geo.Loops.{loop-nil}
use edge_route_gw.Geo.Sites.{
  Entry, add_entry, site_field, decode_geosite, encode_domain, encode_tag,
}
use edge_route_gw.Geo.Sites.Complete.{site_field-IsHandler}
use edge_route_gw.Geo.Sites.RoundTrip.{loop_bytes, read_back, decode_domain-encode_domain}
use edge_route_gw.Geo.Sites.Lists.{items_bytes, loop_tag}

module _ {w : Wire} (wire : IsWire w) where
  -- The entries with a value, as they are read.
  abbrev pub read_entries : List Entry → List Entry
  read_entries [] = []
  read_entries (e ∷ rest) =
      let others = read_entries rest in
      if is_empty (to_lower e.value) then others else read_back wire e ∷ others

  added_entry :
      (e : Entry) (out rest : List Entry)
      → (if is_empty (to_lower e.value) then out else out ++ read_back wire e ∷ [])
          ++ read_entries rest
        ≡ out ++ read_entries (e ∷ rest)
  added_entry e out rest = elim (Bool-cases (is_empty (to_lower e.value))) [
    | inl h ↦ rw h
    | inr h ↦ rw h (append_assoc out (read_back wire e ∷ []) (read_entries rest))
  ]

  decode-entries :
      (entries out : List Entry)
      → loop w (site_field w) (items_bytes wire (encode_domain w) entries) out
        ≡ ok (out ++ read_entries entries)
  decode-entries [] out = loop-nil w (site_field w) out ∙ simp append-nil
  decode-entries (e ∷ rest) out =
      let out' : List Entry =
        if is_empty (to_lower e.value) then out else out ++ read_back wire e ∷ [] in
      loop_bytes wire (site_field-IsHandler wire) (add_entry w) 2 _
        (items_bytes wire (encode_domain w) rest) out out' (omega arith) (omega arith) (λ r. refl)
        (rw (decode_domain-encode_domain wire e))
      ∙ decode-entries rest out'
      ∙ ap ok (added_entry e out rest)

  -- The entries of one tag are read back; the tag is passed over.
  pub decode_geosite-encode_tag :
      (tag : String) (entries : List Entry)
      → decode_geosite w (encode_tag w (encode_domain w) tag entries) ≡ ok (read_entries entries)
  unfolding decode_geosite
  decode_geosite-encode_tag tag entries =
      loop_tag wire (encode_domain w) (site_field-IsHandler wire) tag entries [] (λ r. refl)
      ∙ decode-entries entries []
