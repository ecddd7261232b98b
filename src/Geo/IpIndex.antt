-- ===== src/Geo/IpIndex.antt =====
-- internal/geo/index.go: which tags of geoip.dat contain an address.
pub mod Lookup
use edge_route_gw.Prelude.{
  ℕ, String, Bool, true, false, ◌&&◌, List, [], ◌∷◌, Option, none, some, map, keep, any, take,
  is_some, if◌then◌else◌,
}
use edge_route_gw.Prelude.Dict.{insert}
use edge_route_gw.Prelude.Sorting.{SortSlice}
use edge_route_gw.Net.{Addr, Prefix, addr_less, contains, unmap}
use edge_route_gw.Routes.Compute.{sort_names}
use edge_route_gw.Geo.{Wire}
use edge_route_gw.Geo.Reader.{
  FileId, id_eq, Disk, ReadError, no_stat, Answer, found, failed, endless, Reader, tags, items_of,
}
use edge_route_gw.Geo.Addresses.{Slot, slot_addr_less, decode_geoip}

-- The index, with the version of the file that it was made of.
pub record IpIndex : Type 0 where
  pub version : FileId
  pub ranges : Option (List (String × List Slot))

-- The disk at each call of os.Stat and os.ReadFile: for the version, the tags, and each tag.
pub record Calls : Type 0 where
  pub version : Disk
  pub tags : Disk
  pub tag : String → Disk

-- The invalid prefix contains nothing.
abbrev pub slot_contains : Addr → Slot → Bool
slot_contains addr none = false
slot_contains addr (some p) = contains p addr

-- addr.Less(ps[i].Addr())
abbrev pub starts_after : Addr → Slot → Bool
starts_after addr none = false
starts_after addr (some p) = addr_less addr p.addr

-- The prefixes before the first one that starts after the address, the last of them first.
unfoldable pub started : Addr → List Slot → List Slot → List Slot
started addr seen [] = seen
started addr seen (p ∷ ps) =
    let rest = started addr (p ∷ seen) ps in if starts_after addr p then seen else rest

-- The search in the prefixes of one tag, which are sorted: the last prefix that does not start after
-- the address, and the fifteen before it.
unfoldable pub is_hit : Addr → List Slot → Bool
unfolding started
is_hit addr ps = any (slot_contains addr) (take 16 (started addr [] ps))

-- A tag that could not be read is left out.
abbrev pub add_ranges :
    SortSlice Slot
    → String
    → Answer (List Slot)
    → List (String × List Slot)
    → List (String × List Slot)
add_ranges sorter tag (found ps) idx = insert tag (sorter.sort slot_addr_less ps) idx
add_ranges sorter tag (failed e) idx = idx
add_ranges sorter tag endless idx = idx

module _ (w : Wire) (sorter : SortSlice Slot) where
  -- the loop over the tags
  unfoldable pub index_tags :
      Calls
      → List String
      → Reader Slot
      → List (String × List Slot)
      → Reader Slot × List (String × List Slot)
  unfolding items_of decode_geoip insert slot_addr_less
  index_tags calls [] src idx = (src, idx)
  index_tags calls (tag ∷ rest) src idx =
      let (src', ps) = items_of (decode_geoip w sorter) w (calls.tag tag) tag src in
      index_tags calls rest src' (add_ranges sorter tag ps idx)

  abbrev pub set_index :
      FileId
      → IpIndex
      → Reader Slot × List (String × List Slot)
      → Reader Slot × IpIndex × Answer (Unit {0})
  set_index ver x (src, idx) = (src, record { version = ver; ranges = some idx }, found tt)

  abbrev pub build :
      Calls
      → FileId
      → IpIndex
      → Reader Slot × Answer (List String)
      → Reader Slot × IpIndex × Answer (Unit {0})
  build calls ver x (src, found names) = set_index ver x (index_tags calls names src [])
  build calls ver x (src, failed e) = (src, x, failed e)
  build calls ver x (src, endless) = (src, x, endless)

  abbrev pub ensure_version :
      Calls → Option FileId → Reader Slot → IpIndex → Reader Slot × IpIndex × Answer (Unit {0})
  ensure_version calls none src x = (src, x, failed no_stat)
  ensure_version calls (some ver) src x =
      if is_some x.ranges && id_eq ver x.version
      then (src, x, found tt)
      else build calls ver x (tags w calls.tags src)

  -- `ensure` of the index; the text of a version tells as much as the size and the time in it
  unfoldable pub ensure_index :
      Calls → Reader Slot → IpIndex → Reader Slot × IpIndex × Answer (Unit {0})
  unfolding index_tags
  ensure_index calls src x = ensure_version calls calls.version.stat src x

abbrev pub ranges_of : IpIndex → List (String × List Slot)
ranges_of x = elim x.ranges [ none ↦ [] | some idx ↦ idx ]

-- The loop of `Lookup` over the tags.
unfoldable pub tags_with : Addr → List (String × List Slot) → List String
unfolding is_hit sort_names
tags_with addr idx = sort_names (map (λ e. e.0) (keep (λ e. is_hit (unmap addr) e.1) idx))

abbrev pub answer_tags :
    Addr → Reader Slot × IpIndex × Answer (Unit {0}) → Reader Slot × IpIndex × Answer (List String)
answer_tags addr (src, x, found _) = (src, x, found (tags_with addr (ranges_of x)))
answer_tags addr (src, x, failed e) = (src, x, failed e)
answer_tags addr (src, x, endless) = (src, x, endless)

-- `Lookup`
unfoldable pub lookup_ip :
    Wire
    → SortSlice Slot
    → Calls
    → Addr
    → Reader Slot
    → IpIndex
    → Reader Slot × IpIndex × Answer (List String)
unfolding ensure_index tags_with
lookup_ip w sorter calls addr src x = answer_tags addr (ensure_index w sorter calls src x)
