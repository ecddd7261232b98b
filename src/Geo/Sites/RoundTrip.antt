-- ===== src/Geo/Sites/RoundTrip.antt =====
-- What `EncodeSiteList` writes is read back.
use edge_route_gw.Prelude.{
  ℕ, ◌^◌, ◌≤◌, ◌<◌, String, not, List, [], ◌∷◌, ◌++◌, ◌≡◌, refl, sym, ap, ◌∙◌, keep, append-nil,
  append_assoc, arith, if◌then◌else◌, Bool-cases, inl, inr,
}
use edge_route_gw.Text.{to_lower, is_empty}
use edge_route_gw.Geo.{
  Wire, varint_type, bytes_type, IsWire, Decoded, ok, loop, Handler, take_bytes,
}
use edge_route_gw.Geo.Loops.{IsHandler, loop-nil, loop_field, loop_stop}
use edge_route_gw.Geo.Sites.{
  Entry, DomainKind, plain, regex, root, full, unknown, Draft, empty_draft, kind_of, kind_number,
  put_bytes, put_varint, read_string_field, set_kind, set_value, set_attr, domain_field,
  decode_domain, encode_attrs, encode_domain,
}
use edge_route_gw.Geo.Sites.Complete.{string_field-IsHandler, domain_field-IsHandler}

module _ {w : Wire} (wire : IsWire w) where
  -- One field of bytes, in front of what follows.
  abbrev pub bytes_field : ℕ → List ℕ → List ℕ → List ℕ
  bytes_field num v rest = w.append_tag [] num bytes_type ++ (w.append_bytes [] v ++ rest)

  abbrev pub varint_field : ℕ → ℕ → List ℕ → List ℕ
  varint_field num v rest = w.append_tag [] num varint_type ++ (w.append_varint [] v ++ rest)

  pub put_bytes-append :
      (dst : List ℕ) (num : ℕ) (v rest : List ℕ)
      → put_bytes w dst num v ++ rest ≡ dst ++ bytes_field num v rest
  put_bytes-append dst num v rest = rw (
    wire.bytes_behind (w.append_tag dst num bytes_type) v,
    wire.tag_behind dst num bytes_type,
    append_assoc,
    append_assoc,
  )

  pub put_varint-append :
      (dst : List ℕ) (num v : ℕ) (rest : List ℕ)
      → put_varint w dst num v ++ rest ≡ dst ++ varint_field num v rest
  put_varint-append dst num v rest = rw (
    wire.varint_behind (w.append_tag dst num varint_type) v,
    wire.tag_behind dst num varint_type,
    append_assoc,
    append_assoc,
  )

  pub read_string-first :
      (s : String) (rest : List ℕ)
      → read_string_field w (put_bytes w [] 1 (w.bytes_of s) ++ rest) 1 ≡ ok s
  unfolding read_string_field
  read_string-first s rest = rw put_bytes-append (
      loop_stop wire (string_field-IsHandler wire 1) _ "" s 1 bytes_type
        (w.append_bytes [] (w.bytes_of s) ++ rest)
        (wire.tag_again 1 bytes_type _ (omega arith) (omega arith))
        (rw (wire.bytes_again, wire.text_again)))

  pub loop_bytes {ℓ} :
      {S : Type ℓ} {handle : Handler S} (good : IsHandler handle) (f : S → List ℕ → Decoded S)
      (num : ℕ) (v rest : List ℕ) (s s' : S)
      → 1 ≤ num
      → num < 2 ^ 29
      → ((r : List ℕ) → handle num bytes_type r s ≡ take_bytes w f num bytes_type r s)
      → f s v ≡ ok s'
      → loop w handle (bytes_field num v rest) s ≡ loop w handle rest s'
  loop_bytes good f num v rest s s' h k same e =
      loop_field wire good s s' num bytes_type (w.append_bytes [] v) rest h k
        (same (w.append_bytes [] v ++ rest) ∙ rw (wire.bytes_again v rest, e))

  -- Attributes.
  abbrev attrs_bytes : List String → List ℕ
  attrs_bytes [] = []
  attrs_bytes (a ∷ rest) = bytes_field 3 (put_bytes w [] 1 (w.bytes_of a)) (attrs_bytes rest)

  encode_attrs_lem :
      (dm : List ℕ) (attrs : List String) → encode_attrs w dm attrs ≡ dm ++ attrs_bytes attrs
  unfolding encode_attrs
  encode_attrs_lem dm [] = sym (append-nil dm)
  encode_attrs_lem dm (a ∷ rest) =
      encode_attrs_lem (put_bytes w dm 3 (put_bytes w [] 1 (w.bytes_of a))) rest
      ∙ put_bytes-append dm 3 (put_bytes w [] 1 (w.bytes_of a)) (attrs_bytes rest)

  abbrev pub nonempty : List String → List String
  nonempty attrs = keep (λ a. not (is_empty a)) attrs

  read_attr : (a : String) → read_string_field w (put_bytes w [] 1 (w.bytes_of a)) 1 ≡ ok a
  read_attr a = rw append-nil at (read_string-first a [])

  added_attr :
      (a : String) (attrs rest : List String)
      → (if is_empty a then attrs else attrs ++ a ∷ []) ++ nonempty rest
        ≡ attrs ++ nonempty (a ∷ rest)
  added_attr a attrs rest = elim (Bool-cases (is_empty a)) [
    | inl e ↦ rw e
    | inr e ↦ rw e (append_assoc attrs (a ∷ []) (nonempty rest))
  ]

  decode-attrs :
      (attrs : List String) (d : Draft)
      → loop w (domain_field w) (attrs_bytes attrs) d
        ≡ ok (record d { attrs = d.attrs ++ nonempty attrs })
  decode-attrs [] d = loop-nil w (domain_field w) d ∙ simp append-nil
  decode-attrs (a ∷ rest) d =
      let d' : Draft = record d { attrs = if is_empty a then d.attrs else d.attrs ++ a ∷ [] } in
      loop_bytes (domain_field-IsHandler wire) (set_attr w) 3 _ (attrs_bytes rest) d d'
        (omega arith) (omega arith) (λ r. refl) (rw read_attr)
      ∙ decode-attrs rest d'
      ∙ ap (λ xs. ok (record d { attrs = xs })) (added_attr a d.attrs rest)

  -- What is read of an entry: its value in lower case, and its attributes that are not empty.
  abbrev pub read_back : Entry → Entry
  read_back e = record { kind = e.kind; value = to_lower e.value; attrs = nonempty e.attrs }

  kind_again : (k : DomainKind) → kind_of (kind_number k) ≡ k
  kind_again plain = refl
  kind_again regex = refl
  kind_again root = refl
  kind_again full = refl
  kind_again unknown = refl

  kind_small : (k : DomainKind) → kind_number k < 2 ^ 64
  kind_small plain = omega arith
  kind_small regex = omega arith
  kind_small root = omega arith
  kind_small full = omega arith
  kind_small unknown = omega arith

  -- The bytes of an entry, field by field.
  domain_bytes :
      (e : Entry)
      → encode_domain w e
        ≡ varint_field 1
            (kind_number e.kind)
            (bytes_field 2 (w.bytes_of e.value) (attrs_bytes e.attrs))
  unfolding encode_domain
  domain_bytes e =
      encode_attrs_lem _ e.attrs
      ∙ put_bytes-append (put_varint w [] 1 (kind_number e.kind)) 2 (w.bytes_of e.value)
          (attrs_bytes e.attrs)
      ∙ put_varint-append [] 1 (kind_number e.kind) _

  decode-varint :
      (v : ℕ) (rest : List ℕ) (d : Draft)
      → v < 2 ^ 64
      → loop w (domain_field w) (varint_field 1 v rest) d
        ≡ loop w (domain_field w) rest (set_kind d v)
  decode-varint v rest d h =
      loop_field wire (domain_field-IsHandler wire) d (set_kind d v) 1 varint_type
        (w.append_varint [] v) rest (omega arith) (omega arith) (rw (wire.varint_again v rest h))

  decode-value :
      (s : String) (rest : List ℕ) (d : Draft)
      → loop w (domain_field w) (bytes_field 2 (w.bytes_of s) rest) d
        ≡ loop w (domain_field w) rest (record d { value = to_lower s })
  decode-value s rest d =
      loop_bytes (domain_field-IsHandler wire) (set_value w) 2 (w.bytes_of s) rest d _ (omega arith)
        (omega arith) (λ r. refl) (rw wire.text_again)

  pub decode_domain-encode_domain :
      (e : Entry) → decode_domain w (encode_domain w e) ≡ ok (read_back e)
  unfolding decode_domain
  decode_domain-encode_domain e =
      rw
        (
          domain_bytes e,
          decode-varint (kind_number e.kind) _ empty_draft (kind_small e.kind),
          decode-value,
          decode-attrs,
        )
        (simp kind_again)
