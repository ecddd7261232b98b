-- ===== src/Geo/Sites/Lists.antt =====
-- A list of tags with their items is split into its tags again, whatever the items are.
use edge_route_gw.Prelude.{
  ℕ, String, not, ◌&&◌, List, [], ◌∷◌, ◌++◌, ◌≡◌, refl, sym, ap, ◌∙◌, Option, none, some,
  append-nil, arith, if◌then◌else◌, str_eq, Bool-cases, inl, inr,
}
use edge_route_gw.Prelude.Dict.{lookup, insert, lookup-insert}
use edge_route_gw.Text.{to_lower, is_empty}
use edge_route_gw.Geo.{Wire, IsWire, Decoded, ok, loop, bytes_type, skip, Handler}
use edge_route_gw.Geo.Loops.{loop-nil, loop_field, IsHandler}
use edge_route_gw.Geo.Sites.{
  put_bytes, read_string_field, add_tag, list_field, split_list, encode_items, encode_tag,
  encode_list,
}
use edge_route_gw.Geo.Sites.Complete.{list_field-IsHandler}
use edge_route_gw.Geo.Sites.RoundTrip.{bytes_field, put_bytes-append, read_string-first, loop_bytes}

module _ {w : Wire} (wire : IsWire w) {E : Type 0} (encode : E → List ℕ) where
  abbrev pub items_bytes : List E → List ℕ
  items_bytes [] = []
  items_bytes (e ∷ rest) = bytes_field wire 2 (encode e) (items_bytes rest)

  encode_items_lem :
      (site : List ℕ) (items : List E)
      → encode_items w encode site items ≡ site ++ items_bytes items
  unfolding encode_items
  encode_items_lem site [] = sym (append-nil site)
  encode_items_lem site (e ∷ rest) =
      encode_items_lem (put_bytes w site 2 (encode e)) rest
      ∙ put_bytes-append wire site 2 (encode e) (items_bytes rest)

  tag_bytes :
      (tag : String) (items : List E)
      → encode_tag w encode tag items ≡ put_bytes w [] 1 (w.bytes_of tag) ++ items_bytes items
  unfolding encode_tag
  tag_bytes tag items = encode_items_lem _ items

  read_tag :
      (tag : String) (items : List E)
      → read_string_field w (encode_tag w encode tag items) 1 ≡ ok tag
  read_tag tag items = rw (tag_bytes tag items) (read_string-first wire tag (items_bytes items))

  -- A loop that asks for the items passes over the tag.
  pub loop_tag {ℓ} :
      {S : Type ℓ} {handle : Handler S} (good : IsHandler handle) (tag : String) (items : List E)
      (s : S)
      → ((r : List ℕ) → handle 1 bytes_type r s ≡ skip w 1 bytes_type r s)
      → loop w handle (encode_tag w encode tag items) s ≡ loop w handle (items_bytes items) s
  unfolding skip
  loop_tag good tag items s skipped =
      rw (tag_bytes tag items, put_bytes-append wire [] 1 (w.bytes_of tag) (items_bytes items))
        (loop_field wire good s s 1 bytes_type (w.append_bytes [] (w.bytes_of tag))
          (items_bytes items) (omega arith) (omega arith) (skipped _ ∙ rw wire.value_again))

  abbrev tags_bytes : List (String × List E) → List ℕ
  tags_bytes [] = []
  tags_bytes ((tag, items) ∷ rest) =
      bytes_field wire 1 (encode_tag w encode tag items) (tags_bytes rest)

  encode_list_lem :
      (out : List ℕ) (tags : List (String × List E))
      → encode_list w encode out tags ≡ out ++ tags_bytes tags
  unfolding encode_list
  encode_list_lem out [] = sym (append-nil out)
  encode_list_lem out ((tag, items) ∷ rest) =
      encode_list_lem (put_bytes w out 1 (encode_tag w encode tag items)) rest
      ∙ put_bytes-append wire out 1 (encode_tag w encode tag items) (tags_bytes rest)

  abbrev pub index : List (String × List E) → List (String × List ℕ) → List (String × List ℕ)
  index [] out = out
  index ((tag, items) ∷ rest) out =
      index rest
        (if is_empty tag then out else insert (to_lower tag) (encode_tag w encode tag items) out)

  decode-tags :
      (tags : List (String × List E)) (out : List (String × List ℕ))
      → loop w (list_field w) (tags_bytes tags) out ≡ ok (index tags out)
  decode-tags [] out = loop-nil w (list_field w) out
  decode-tags ((tag, items) ∷ rest) out =
      let msg : List ℕ = encode_tag w encode tag items in
      let out' : List (String × List ℕ) =
        if is_empty tag then out else insert (to_lower tag) msg out in
      loop_bytes wire (list_field-IsHandler wire) (add_tag w) 1 msg (tags_bytes rest) out out'
        (omega arith) (omega arith) (λ r. refl) (rw (read_tag tag items))
      ∙ decode-tags rest out'

  -- The map that a file is split into.
  pub split_list-encode_list :
      (tags : List (String × List E))
      → split_list w (encode_list w encode [] tags) ≡ ok (index tags [])
  unfolding split_list
  split_list-encode_list tags = rw (encode_list_lem [] tags) (decode-tags tags [])

  abbrev message_given : String → List (String × List E) → Option (List ℕ) → Option (List ℕ)
  message_given key [] before = before
  message_given key ((tag, items) ∷ rest) before = message_given key rest (
      if not (is_empty tag) && str_eq (to_lower tag) key
      then some (encode_tag w encode tag items)
      else before)

  lookup_step :
      (key tag : String) (msg : List ℕ) (out : List (String × List ℕ))
      → lookup key (if is_empty tag then out else insert (to_lower tag) msg out)
        ≡ (if not (is_empty tag) && str_eq (to_lower tag) key then some msg else lookup key out)
  lookup_step key tag msg out = elim (Bool-cases (is_empty tag)) [
    | inl e ↦ rw e
    | inr e ↦ rw e (lookup-insert (to_lower tag) key msg out)
  ]

  lookup-index :
      (key : String) (tags : List (String × List E)) (out : List (String × List ℕ))
      → lookup key (index tags out) ≡ message_given key tags (lookup key out)
  lookup-index key [] out = refl
  lookup-index key ((tag, items) ∷ rest) out =
      lookup-index key rest _
      ∙ ap (message_given key rest) (lookup_step key tag (encode_tag w encode tag items) out)

module _ {E A : Type 0} (read : List E → List A) where
  -- The items that were given last for a tag, spelled in any case.
  abbrev pub items_given : String → List (String × List E) → Option (List A) → Option (List A)
  items_given key [] before = before
  items_given key ((tag, items) ∷ rest) before =
      items_given key rest
        (if not (is_empty tag) && str_eq (to_lower tag) key then some (read items) else before)

module _ {w : Wire} (wire : IsWire w) {E A : Type 0} (encode : E → List ℕ)
    (decode : List ℕ → Decoded (List A)) (read : List E → List A)
    (again : (tag : String) (items : List E)
      → decode (encode_tag w encode tag items) ≡ ok (read items)) where
  abbrev pub DecodesTo : Option (List ℕ) → Option (List A) → Type 0
  DecodesTo none none = Unit
  DecodesTo (some msg) (some items) = decode msg ≡ ok items
  DecodesTo _ _ = ⊥

  given_decodes :
      (key : String) (tags : List (String × List E)) (msg : Option (List ℕ))
      (items : Option (List A))
      → DecodesTo msg items
      → DecodesTo (message_given wire encode key tags msg) (items_given read key tags items)
  given_decodes key [] msg items h = h
  given_decodes key ((tag, these) ∷ rest) msg items h = given_decodes key rest _ _ step
    where
      step :
          DecodesTo
            (if not (is_empty tag) && str_eq (to_lower tag) key
              then some (encode_tag w encode tag these)
              else msg)
            (if not (is_empty tag) && str_eq (to_lower tag) key then some (read these) else items)
      step = elim (Bool-cases (not (is_empty tag) && str_eq (to_lower tag) key)) [
        | inl e ↦ rw e (again tag these)
        | inr e ↦ rw e h
      ]

  -- What reading a tag of an encoded file gives, with no reader's state.
  pub tag_of_encoded :
      (key : String) (tags : List (String × List E))
      → DecodesTo (lookup key (index wire encode tags [])) (items_given read key tags none)
  unfolding lookup
  tag_of_encoded key tags =
      rw (lookup-index wire encode key tags []) (given_decodes key tags none none tt)
