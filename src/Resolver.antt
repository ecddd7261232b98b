-- ===== src/Resolver.antt =====
-- internal/resolver/resolver.go and loop.go with the rows of internal/store/resolve.go: the cache of
-- DNS answers. A time is a count of seconds, which is what the table keeps, and every step is
-- given the time that it reads; the zero time is `none`. The DNS library, the network and SQLite are
-- parameters: what a name server replied, and whether a read or a write of the table worked.
pub mod Retry
pub mod Freshness
pub mod Refreshed
pub mod Answers
use edge_route_gw.Prelude.{
  ℕ, zero, suc, ◌+◌, ◌-◌, ◌*◌, String, Bool, true, false, not, ◌&&◌, ◌||◌, List, [], ◌∷◌, ◌++◌,
  Option, none, some, any, keep, map, is_nil, length, ltb, leb, ◌==◌, min, max, str_eq,
  if◌then◌else◌,
}
use edge_route_gw.Text.{concat, trim_space, trim_dot, to_lower, is_empty}
use edge_route_gw.Net.{
  Addr, is4, is_private, is_loopback, is_unspecified, is_link_local_unicast, is_multicast,
}
use edge_route_gw.Net.Text.{NetText}
use edge_route_gw.Desired.{ResolvedEntry}
use edge_route_gw.Routes.Compute.{sort_names}

abbrev pub min_ttl : ℕ
min_ttl = 300

abbrev pub max_ttl : ℕ
max_ttl = 3600

abbrev pub stale_grace : ℕ
stale_grace = 24 * 3600

-- One record of an answer: an A record with its address and time to live, or another one.
pub data Record : Type 0 where
  a_record : Addr → ℕ → Record
  other_record : Record

-- What came of one exchange: an error, or the code, the truncation bit and the answers.
pub data Reply : Type 0 where
  no_reply : String → Reply
  reply : (success truncated : Bool) → String → List Record → Reply

pub data Looked : Type 0 where
  failed : String → Looked
  found : List Addr → ℕ → Looked

abbrev pub is_bogon : Addr → Bool
is_bogon ip =
    is_private ip
    || (is_loopback ip || (is_unspecified ip || (is_link_local_unicast ip || is_multicast ip)))

-- the loop over the answers
unfoldable pub collect : List Record → List Addr → ℕ → List Addr × ℕ
collect [] addrs least = (addrs, least)
collect (other_record ∷ rest) addrs least = collect rest addrs least
collect (a_record ip ttl ∷ rest) addrs least =
    let kept =
      collect rest (addrs ++ ip ∷ []) (if least == 0 || ltb ttl least then ttl else least) in
    let skipped = collect rest addrs least in if not (is4 ip) || is_bogon ip then skipped else kept

abbrev pub not_empty : List Addr × ℕ → Looked
not_empty ([], least) = failed "no A records"
not_empty (ip ∷ ips, least) = found (ip ∷ ips) least

abbrev pub read_reply : Reply → Looked
read_reply (no_reply why) = failed why
read_reply (reply false truncated code answers) = failed (concat "rcode " code)
read_reply (reply true truncated code answers) = not_empty (collect answers [] 0)

abbrev pub over_tcp : Reply → Reply → Reply
over_tcp (reply success true code answers) tcp = tcp
over_tcp udp tcp = udp

-- `DNSLookup`: the server is asked again over TCP if the reply was truncated
unfoldable pub dns_lookup : Reply → Reply → Looked
unfolding collect
dns_lookup udp tcp = read_reply (over_tcp udp tcp)

-- the loop of `FailRetry`: the first number is how many rounds are left
unfoldable pub doubled : ℕ → ℕ → ℕ
doubled zero d = d
doubled (suc k) d = let rest = doubled k (d * 2) in if ltb d min_ttl then rest else d

-- `FailRetry`
unfoldable pub fail_retry : ℕ → ℕ
unfolding doubled
fail_retry fails = min (doubled (fails - 1) 10) min_ttl

abbrev pub no_entry : ResolvedEntry
no_entry = record {
  domain = "";
  group = "";
  ips = [];
  ttl = 0;
  fail_count = 0;
  last_error = "";
  resolved_at = none;
  expires_at = 0;
}

-- the old answer was never given, or is too old
abbrev pub is_stale : ℕ → Option ℕ → Bool
is_stale now none = true
is_stale now (some at) = ltb stale_grace (now - at)

-- the row after a lookup that failed
unfoldable pub failed_entry : ℕ → String → String → String → ResolvedEntry → ResolvedEntry
unfolding fail_retry
failed_entry now domain group why old =
    let ips = if is_stale now old.resolved_at then [] else old.ips in
    let fails = old.fail_count + 1 in
    record old {
      domain = domain;
      group = group;
      fail_count = fails;
      last_error = why;
      ips = ips;
      expires_at = now + (if is_nil ips then fail_retry fails else min_ttl);
    }

-- the row after a lookup that succeeded
unfoldable pub found_entry : NetText → ℕ → String → String → List Addr → ℕ → ResolvedEntry
unfolding sort_names
found_entry net now domain group addrs ttl =
    let kept = min (max ttl min_ttl) max_ttl in
    record {
      domain = domain;
      group = group;
      ips = sort_names (map net.show_addr addrs);
      ttl = kept;
      fail_count = 0;
      last_error = "";
      resolved_at = some now;
      expires_at = now + kept;
    }

-- strings.Join(ips, ",")
unfoldable pub join_comma : List String → String
join_comma [] = ""
join_comma (s ∷ []) = s
join_comma (s ∷ t ∷ rest) = concat s (concat "," (join_comma (t ∷ rest)))

-- the row that `refreshOne` writes
unfoldable pub refreshed : NetText → ℕ → String → String → Looked → ResolvedEntry → ResolvedEntry
unfolding failed_entry found_entry
refreshed net now domain group (failed why) old = failed_entry now domain group why old
refreshed net now domain group (found addrs ttl) old = found_entry net now domain group addrs ttl

-- what `refreshOne` returns
unfoldable pub is_changed : Looked → ResolvedEntry → ResolvedEntry → Bool
unfolding join_comma
is_changed (failed why) old new = not (length new.ips == length old.ips)
is_changed (found addrs ttl) old new = not (str_eq (join_comma new.ips) (join_comma old.ips))

abbrev pub is_row : String → String → ResolvedEntry → Bool
is_row domain group e = str_eq e.domain domain && str_eq e.group group

-- `UpsertResolveCache`
unfoldable pub upsert : ResolvedEntry → List ResolvedEntry → List ResolvedEntry
upsert e [] = e ∷ []
upsert e (f ∷ rows) =
    let rest = upsert e rows in if is_row e.domain e.group f then e ∷ rows else f ∷ rest

-- `Expired`
abbrev pub is_expired : ℕ → ResolvedEntry → Bool
is_expired now e = leb e.expires_at now

-- `have[d]`: the last row of the group counts
unfoldable pub cached :
    String → String → List ResolvedEntry → Option ResolvedEntry → Option ResolvedEntry
cached group d [] last = last
cached group d (e ∷ rows) last = cached group d rows (if is_row d group e then some e else last)

abbrev pub or_zero : Option ResolvedEntry → ResolvedEntry
or_zero none = no_entry
or_zero (some e) = e

abbrev pub is_due : ℕ → Option ResolvedEntry → Bool
is_due now none = true
is_due now (some e) = is_expired now e

unfoldable pub plain_domain : String → String
unfolding to_lower trim_dot trim_space
plain_domain d = to_lower (trim_dot (trim_space d))

-- the loop over `want`
unfoldable pub due_domains :
    ℕ → String → List ResolvedEntry → List String → List String → List String
unfolding plain_domain cached
due_domains now group rows [] seen = []
due_domains now group rows (w ∷ want) seen =
    let d = plain_domain w in
    let skipped = due_domains now group rows want seen in
    let rest = due_domains now group rows want (d ∷ seen) in
    if is_empty d || any (str_eq d) seen
    then skipped
    else if is_due now (cached group d rows none)
    then d ∷ rest
    else rest

-- One lookup: its domain, the time that `refreshOne` reads, what was found, and whether the row
-- could be written.
pub record Job : Type 0 where
  pub domain : String
  pub now : ℕ
  pub looked : Looked
  pub written : Bool

-- `refreshOne` on the table, with `old` as it was read before
unfoldable pub refresh_one :
    NetText → String → ResolvedEntry → Job → List ResolvedEntry → List ResolvedEntry × Bool
unfolding refreshed is_changed upsert
refresh_one net group old job rows =
    let new = refreshed net job.now job.domain group job.looked old in
    (if job.written then upsert new rows else rows, is_changed job.looked old new)

abbrev pub count_changed : Bool → ℕ → ℕ
count_changed true n = suc n
count_changed false n = n

-- The workers: the rows that `Refresh` read first, and the jobs in the order in which they end.
unfoldable pub run_jobs :
    NetText → String → List ResolvedEntry → List Job → List ResolvedEntry → List ResolvedEntry × ℕ
unfolding refresh_one cached
run_jobs net group have [] rows = (rows, 0)
run_jobs net group have (job ∷ jobs) rows =
    let old = or_zero (cached group job.domain have none) in
    let (rows', changed) = refresh_one net group old job rows in
    let (rows'', n) = run_jobs net group have jobs rows' in (rows'', count_changed changed n)

abbrev pub sooner : ℕ → Option ℕ → Option ℕ
sooner d none = some d
sooner d (some next) = some (if ltb d next then d else next)

-- `NextDue`; none is the negative duration
unfoldable pub next_due : List ResolvedEntry → List String → ℕ → Option ℕ → Option ℕ
next_due [] want now next = next
next_due (e ∷ entries) want now next =
    next_due entries want now
      (if any (str_eq e.domain) want then sooner (e.expires_at - now) next else next)

abbrev pub min_interval : ℕ
min_interval = 10

abbrev pub max_interval : ℕ
max_interval = 300

abbrev pub bounded_wait : Option ℕ → ℕ
bounded_wait none = max_interval
bounded_wait (some next) = min (max next min_interval) max_interval

-- The ways in which `round` can go, with what it reads.
pub data Round : Type 0 where
  no_list no_domains no_refresh no_entries : Round
  refreshed_round : List ResolvedEntry → List String → ℕ → Round

-- the result of `round`
unfoldable pub round_wait : Round → ℕ
unfolding next_due
round_wait no_list = min_interval
round_wait no_domains = max_interval
round_wait no_refresh = min_interval
round_wait no_entries = min_interval
round_wait (refreshed_round entries want now) = bounded_wait (next_due entries want now none)
