-- ===== src/Tests/Geodata.antt =====
-- Runs of the readers of geosite.dat and geoip.dat, and the theorems at concrete files.
use edge_route_gw.Prelude.{
  Option, ℕ, ◌+◌, ◌*◌, ◌^◌, String, Bool, true, false, List, [], ◌∷◌, none, some, ◌≡◌, ◌≢◌, refl,
  arith,
}
use edge_route_gw.Prelude.Sorting.{insertion, insertion_sort}
use edge_route_gw.Prelude.Dict.{lookup}
use edge_route_gw.Text.{to_lower}
use edge_route_gw.Net.{v4, Prefix, masked, contains}
use edge_route_gw.Geo.{stuck}
use edge_route_gw.Geo.Sites.{Entry, root, split_list, decode_geosite, encode_site_list}
use edge_route_gw.Geo.Sites.Complete.{split_decode-ends}
use edge_route_gw.Geo.Sites.Lists.{items_given}
use edge_route_gw.Geo.Sites.Entries.{read_entries}
use edge_route_gw.Geo.Reader.{FileId, Disk, open_reader, items_of, tags}
use edge_route_gw.Geo.Reader.Cache.{IsCurrent, IsDiskOf, expected, fresh, items_of-expected}
use edge_route_gw.Geo.Reader.Encoded.{answer_given, fresh-encode_site_list}
use edge_route_gw.Geo.Addresses.{CidrDraft, slot_addr_less, slot_less, decode_geoip, encode_ip_list}
use edge_route_gw.Geo.Addresses.RoundTrip.{slots_of, fresh-encode_ip_list}
use edge_route_gw.Geo.IpIndex.{Calls, is_hit}
use edge_route_gw.Geo.IpIndex.Lookup.{hit_complete}
use edge_route_gw.Geo.SiteIndex.{SiteIndex, ensure_sites, Refs, matching}
use edge_route_gw.Tests.Messages.{plain_wire, plain_wire-IsWire}

abbrev cn : Entry
cn = record { kind = root; value = "Example.CN"; attrs = "ads" ∷ "" ∷ [] }

abbrev sites : List (String × List Entry)
sites = ("CN", cn ∷ []) ∷ ("", []) ∷ []

abbrev site_file : FileId → List ℕ
site_file id = encode_site_list plain_wire sites

abbrev site_disk : Disk
site_disk = record {
  stat = some (record { size = 40; mod_time = 7 });
  content = some (encode_site_list plain_wire sites);
}

site_disk-IsDiskOf : IsDiskOf plain_wire (decode_geosite plain_wire) site_file site_disk
site_disk-IsDiskOf id bytes h k = cc

open_reader-IsCurrent : IsCurrent plain_wire (decode_geosite plain_wire) site_file open_reader
unfolding lookup
open_reader-IsCurrent = record {
  split_from = λ raw h. absurd (let g = h in cc);
  decoded_from = λ key items h. absurd (let g = h in cc);
}

items_of-expected_example :
    ((items_of (decode_geosite plain_wire) plain_wire site_disk "CN" open_reader).1
      ≡ expected plain_wire (decode_geosite plain_wire) site_file "cn" site_disk open_reader)
    × IsCurrent plain_wire
        (decode_geosite plain_wire)
        site_file
        (items_of (decode_geosite plain_wire) plain_wire site_disk "CN" open_reader).0
unfolding to_lower
items_of-expected_example =
    items_of-expected plain_wire (decode_geosite plain_wire) site_file site_disk "CN" open_reader
      site_disk-IsDiskOf open_reader-IsCurrent

fresh-encode_site_list_example :
    fresh plain_wire (decode_geosite plain_wire) "cn" (encode_site_list plain_wire sites)
    ≡ answer_given (items_given (read_entries plain_wire-IsWire) "cn" sites none)
fresh-encode_site_list_example = fresh-encode_site_list plain_wire-IsWire "cn" sites

abbrev sets : List (String × List CidrDraft)
sets =
    ("LAN", (record { ip = 10 ∷ 1 ∷ 2 ∷ 3 ∷ []; bits = 8 }) ∷ (record { ip = []; bits = 8 }) ∷ [])
    ∷ []

fresh-encode_ip_list_example :
    fresh plain_wire (decode_geoip plain_wire insertion) "lan" (encode_ip_list plain_wire sets)
    ≡ answer_given
        (items_given (λ entries. insertion_sort slot_less (slots_of entries)) "lan" sets none)
fresh-encode_ip_list_example = fresh-encode_ip_list plain_wire-IsWire insertion "lan" sets

-- A file that is cut short.
split_decode-ends_example :
    (split_list plain_wire (1 ∷ 2 ∷ 9 ∷ []) ≢ stuck) × (decode_geosite plain_wire (1 ∷ []) ≢ stuck)
split_decode-ends_example = split_decode-ends plain_wire-IsWire (1 ∷ 2 ∷ 9 ∷ []) (1 ∷ [])

abbrev ten : Prefix
ten = record { addr = v4 (10 * 2 ^ 24); bits = 8 }

abbrev ten_one : Prefix
ten_one = record { addr = v4 (10 * 2 ^ 24 + 2 ^ 16); bits = 16 }

hit_complete_example :
    is_hit (v4 (10 * 2 ^ 24 + 2 ^ 17)) (some (masked ten) ∷ some ten_one ∷ []) ≡ true
unfolding slot_addr_less contains masked
hit_complete_example =
    hit_complete (v4 (10 * 2 ^ 24 + 2 ^ 17)) [] (some ten_one ∷ []) ten (refl, tt) refl
      (omega arith)

abbrev no_pattern : String → String → Bool
no_pattern pattern host = false

abbrev refs : Refs
refs = record {
  full = [];
  root = (record { key = "cn"; tag = 1 }) ∷ (record { key = "example.com"; tag = 0 }) ∷ [];
  keyword = (record { key = "video"; tag = 2 }) ∷ [];
  regex = [];
}

abbrev no_index : SiteIndex
no_index = record {
  version = record { size = 0; mod_time = 0 };
  names = none;
  refs = record { full = []; root = []; keyword = []; regex = [] };
}

abbrev site_calls : Calls
site_calls = record { version = site_disk; tags = site_disk; tag = λ name. site_disk }

abbrev no_regex : String → Option (String → Bool)
no_regex pattern = none

-- The index after it was built from the file.
abbrev built : SiteIndex
built = (ensure_sites no_regex plain_wire insertion site_calls open_reader no_index).1

matching_run : matching refs "www.example.com" ≡ 0 ∷ []
unfolding matching
matching_run = refl
