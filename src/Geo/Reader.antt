-- ===== src/Geo/Reader.antt =====
-- internal/geo/geo.go: `Site` and `IP`, which read a file when first asked and again when its size or
-- its time has changed, and decode a tag when first asked for it. The two differ in how a tag is
-- decoded. What os.Stat and os.ReadFile answer is given to every call.
pub mod Cache
pub mod Encoded
use edge_route_gw.Prelude.{
  ℕ, String, Bool, true, false, ◌&&◌, ◌||◌, List, [], ◌∷◌, Option, none, some, map, is_some, ◌==◌,
  if◌then◌else◌,
}
use edge_route_gw.Prelude.Dict.{lookup, insert}
use edge_route_gw.Text.{to_lower}
use edge_route_gw.Routes.Compute.{sort_names}
use edge_route_gw.Geo.{Wire, Decoded, ok, bad, stuck}
use edge_route_gw.Geo.Sites.{split_list}

pub record FileId : Type 0 where
  pub size : ℕ
  pub mod_time : ℕ

abbrev pub id_eq : FileId → FileId → Bool
id_eq a b = a.size == b.size && a.mod_time == b.mod_time

-- What the calls of the os package answer.
pub record Disk : Type 0 where
  pub stat : Option FileId
  pub content : Option (List ℕ)

pub data ReadError : Type 0 where
  no_stat no_read no_parse no_tag no_decode : ReadError

-- An answer; `endless` is that of a decoder that does not end.
pub data Answer {ℓ} (A : Type ℓ) : Type ℓ where
  found : A → Answer A
  failed : ReadError → Answer A
  endless : Answer A

pub record Reader (A : Type 0) : Type 0 where
  pub id : FileId
  pub raw : Option (List (String × List ℕ))
  pub decoded : List (String × List A)

abbrev pub raw_of : Option (List (String × List ℕ)) → List (String × List ℕ)
raw_of none = []
raw_of (some raw) = raw

module _ {A : Type 0} where
  -- `OpenSite`, `OpenIP`
  abbrev pub open_reader : Reader A
  open_reader = record { id = record { size = 0; mod_time = 0 }; raw = none; decoded = [] }

  abbrev pub is_loaded : Reader A → FileId → Bool
  is_loaded s id = is_some s.raw && id_eq id s.id

  abbrev pub store_raw :
      FileId → Reader A → Decoded (List (String × List ℕ)) → Reader A × Answer (Unit {0})
  store_raw id s (ok raw) = (record { id = id; raw = some raw; decoded = [] }, found tt)
  store_raw id s bad = (s, failed no_parse)
  store_raw id s stuck = (s, endless)

  abbrev pub reload : Wire → FileId → Option (List ℕ) → Reader A → Reader A × Answer (Unit {0})
  reload w id none s = (s, failed no_read)
  reload w id (some bytes) s = store_raw id s (split_list w bytes)

  abbrev pub ensure_at : Wire → Disk → Option FileId → Reader A → Reader A × Answer (Unit {0})
  ensure_at w disk none s = (s, failed no_stat)
  ensure_at w disk (some id) s =
      if is_loaded s id then (s, found tt) else reload w id disk.content s

  -- `ensure`
  unfoldable pub ensure : Wire → Disk → Reader A → Reader A × Answer (Unit {0})
  unfolding split_list
  ensure w disk s = ensure_at w disk disk.stat s

  -- What follows `ensure`, if it worked.
  abbrev pub after {ℓ} :
      {B : Type ℓ}
      → (Reader A → Reader A × Answer B)
      → Reader A × Answer (Unit {0})
      → Reader A × Answer B
  after f (s, found _) = f s
  after f (s, failed e) = (s, failed e)
  after f (s, endless) = (s, endless)

  -- a map's keys, sorted
  abbrev pub tags : Wire → Disk → Reader A → Reader A × Answer (List String)
  tags w disk s =
      after (λ s'. (s', found (sort_names (map (λ e. e.0) (raw_of s'.raw))))) (ensure w disk s)

  -- `HasTag`
  abbrev pub has_tag : Wire → Disk → String → Reader A → Reader A × Answer Bool
  has_tag w disk tag s =
      after (λ s'. (s', found (is_some (lookup (to_lower tag) (raw_of s'.raw))))) (ensure w disk s)

  abbrev pub store_decoded : String → Reader A → Decoded (List A) → Reader A × Answer (List A)
  store_decoded key s (ok items) = (record s { decoded = insert key items s.decoded }, found items)
  store_decoded key s bad = (s, failed no_decode)
  store_decoded key s stuck = (s, endless)

  abbrev pub not_stored : Reader A → Decoded (List A) → Reader A × Answer (List A)
  not_stored s (ok items) = (s, found items)
  not_stored s bad = (s, failed no_decode)
  not_stored s stuck = (s, endless)

  module _ (decode : List ℕ → Decoded (List A)) where
    abbrev pub decode_raw : String → Reader A → Option (List ℕ) → Reader A × Answer (List A)
    decode_raw key s none = (s, failed no_tag)
    decode_raw key s (some msg) = store_decoded key s (decode msg)

    abbrev pub decode_uncached : Reader A → Option (List ℕ) → Reader A × Answer (List A)
    decode_uncached s none = (s, failed no_tag)
    decode_uncached s (some msg) = not_stored s (decode msg)

    abbrev pub unless_decoded :
        Reader A → Reader A × Answer (List A) → Option (List A) → Reader A × Answer (List A)
    unless_decoded s later (some items) = (s, found items)
    unless_decoded s later none = later

    abbrev pub take_tag : String → Reader A → Reader A × Answer (List A)
    take_tag key s =
        unless_decoded s (decode_raw key s (lookup key (raw_of s.raw))) (lookup key s.decoded)

    abbrev pub take_tag_uncached : String → Reader A → Reader A × Answer (List A)
    take_tag_uncached key s =
        unless_decoded s (decode_uncached s (lookup key (raw_of s.raw))) (lookup key s.decoded)

    -- `Entries` and `CIDRs`
    unfoldable pub items_of : Wire → Disk → String → Reader A → Reader A × Answer (List A)
    unfolding ensure to_lower lookup insert
    items_of w disk tag s = after (take_tag (to_lower tag)) (ensure w disk s)

    -- `EntriesUncached`
    unfoldable pub items_uncached : Wire → Disk → String → Reader A → Reader A × Answer (List A)
    unfolding ensure to_lower lookup
    items_uncached w disk tag s = after (take_tag_uncached (to_lower tag)) (ensure w disk s)
