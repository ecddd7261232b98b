-- ===== src/Geo/Sites/Complete.antt =====
-- The decoders of geosite.dat end on every input, well formed or not.
use edge_route_gw.Prelude.{
  ℕ, ◌≤◌, String, List, [], ◌≡◌, ◌≢◌, length, Option-cases, arith, ◌==◌, ◌&&◌,
}
use edge_route_gw.Geo.{Wire, WireType, IsWire, ok, stuck, next}
use edge_route_gw.Geo.Loops.{
  IsHandler, Decoded-cases, loop-ends, skip-IsHandler, take_bytes-IsHandler, take_varint-IsHandler,
  choose-IsHandler,
}
use edge_route_gw.Geo.Sites.{
  Draft, is_bytes, is_varint, string_field, read_string_field, add_tag, list_field, split_list,
  set_kind, set_value, set_attr, domain_field, decode_domain, add_entry, site_field, decode_geosite,
  empty_draft,
}

module _ {w : Wire} (wire : IsWire w) where
  string_taken-ends :
      (want num : ℕ) (typ : WireType) (rest : List ℕ) (s : String)
      → string_field w want num typ rest s ≢ stuck
  string_taken-ends want num typ rest s e = ground (
    arith,
    Option-cases (w.consume_bytes rest),
    (skip-IsHandler {S = String} wire).ends num typ rest s,
  )

  string_taken_shrinks :
      (want num : ℕ) (typ : WireType) (rest : List ℕ) (s : String) (s' : String) (rest' : List ℕ)
      → string_field w want num typ rest s ≡ ok (next s' rest')
      → length rest' ≤ length rest
  string_taken_shrinks want num typ rest s s' rest' e = ground (
    arith,
    Option-cases (w.consume_bytes rest),
    (skip-IsHandler {S = String} wire).shrinks num typ rest s s' rest',
  )

  pub string_field-IsHandler : (want : ℕ) → IsHandler (string_field w want)
  string_field-IsHandler want = record {
    ends = string_taken-ends want;
    shrinks = string_taken_shrinks want;
  }

  pub read_string_field-ends : (msg : List ℕ) (want : ℕ) → read_string_field w msg want ≢ stuck
  unfolding read_string_field
  read_string_field-ends msg want = loop-ends wire (string_field-IsHandler want) msg ""

  pub list_field-IsHandler : IsHandler (list_field w)
  list_field-IsHandler =
      choose-IsHandler (λ num typ. num == 1 && is_bytes typ)
        (take_bytes-IsHandler wire (add_tag w) (λ out msg e.
          ground (arith, read_string_field-ends msg 1, Decoded-cases (read_string_field w msg 1))))
        (skip-IsHandler wire)

  set_attr-ends : (d : Draft) (v : List ℕ) → set_attr w d v ≢ stuck
  set_attr-ends d v e =
      ground (arith, read_string_field-ends v 1, Decoded-cases (read_string_field w v 1))

  pub domain_field-IsHandler : IsHandler (domain_field w)
  domain_field-IsHandler =
      choose-IsHandler (λ num typ. num == 1 && is_varint typ) (take_varint-IsHandler wire set_kind)
        (choose-IsHandler (λ num typ. num == 2 && is_bytes typ)
          (take_bytes-IsHandler wire (set_value w) (λ d v e. cc))
          (choose-IsHandler (λ num typ. num == 3 && is_bytes typ)
            (take_bytes-IsHandler wire (set_attr w) set_attr-ends) (skip-IsHandler wire)))

  pub decode_domain-ends : (msg : List ℕ) → decode_domain w msg ≢ stuck
  unfolding decode_domain
  decode_domain-ends msg e = ground (arith, loop-ends wire domain_field-IsHandler msg empty_draft)

  pub site_field-IsHandler : IsHandler (site_field w)
  site_field-IsHandler =
      choose-IsHandler (λ num typ. num == 2 && is_bytes typ)
        (take_bytes-IsHandler wire (add_entry w) (λ out msg e.
          ground (arith, decode_domain-ends msg, Decoded-cases (decode_domain w msg))))
        (skip-IsHandler wire)

  -- Splitting a file into its tags ends on every file, well formed or not, and decoding the entries of
  -- one tag ends on every message.
  pub split_decode-ends :
      (file msg : List ℕ) → (split_list w file ≢ stuck) × (decode_geosite w msg ≢ stuck)
  unfolding split_list decode_geosite
  split_decode-ends file msg =
      (loop-ends wire list_field-IsHandler file [], loop-ends wire site_field-IsHandler msg [])
