-- ===== src/Resolver/Freshness.antt =====
-- How long internal/resolver keeps serving an answer: the rows that `refreshOne` writes, over any
-- sequence of refreshes.
use edge_route_gw.Prelude.{
  ℕ, ◌+◌, ◌*◌, ◌≤◌, Bool, true, false, String, List, [], ◌∷◌, Option, none, some, ◌≡◌, arith,
  is_nil, inl, inr, Bool-cases, if◌then◌else◌,
}
use edge_route_gw.Net.Text.{NetText}
use edge_route_gw.Desired.{ResolvedEntry}
use edge_route_gw.Resolver.{
  Looked, failed, found, is_stale, failed_entry, found_entry, refreshed, is_row, upsert, cached,
  or_zero, Job, refresh_one, run_jobs,
}

abbrev FreshAt : List String → Option ℕ → ℕ → Type 0
FreshAt [] at expires = Unit
FreshAt (ip ∷ ips) none expires = ⊥
FreshAt (ip ∷ ips) (some at) expires = expires ≤ at + (24 * 3600 + 300)

-- A row that serves addresses knows when they were found, and expires at most a day and five minutes
-- after that.
abbrev pub IsFresh : ResolvedEntry → Type 0
IsFresh e = FreshAt e.ips e.resolved_at e.expires_at

abbrev pub AllFresh : List ResolvedEntry → Type 0
AllFresh [] = Unit
AllFresh (e ∷ rows) = IsFresh e × AllFresh rows

FreshAt-later :
    (ips : List String) (now kept : ℕ) → kept ≤ 3600 → FreshAt ips (some now) (now + kept)
FreshAt-later [] now kept h = tt
FreshAt-later (ip ∷ ips) now kept h = omega arith

FreshAt-again :
    (ips : List String) (at : Option ℕ) (old now n : ℕ)
    → FreshAt ips at old
    → is_stale now at ≡ false
    → FreshAt ips at (now + (if is_nil ips then n else 300))
FreshAt-again [] at old now n h k = tt
FreshAt-again (ip ∷ ips) none old now n h k = elim h [ ]
FreshAt-again (ip ∷ ips) (some at) old now n h k = ground (arith, k)

failed_entry-IsFresh :
    (now : ℕ) (domain group why : String) (old : ResolvedEntry)
    → IsFresh old
    → IsFresh (failed_entry now domain group why old)
unfolding failed_entry
failed_entry-IsFresh now domain group why old h = elim (Bool-cases (is_stale now old.resolved_at)) [
  | inl stale ↦ rw stale tt
  | inr kept ↦ rw kept (FreshAt-again old.ips old.resolved_at old.expires_at now _ h kept)
]

refreshed-IsFresh :
    (net : NetText) (now : ℕ) (domain group : String) (looked : Looked) (old : ResolvedEntry)
    → IsFresh old
    → IsFresh (refreshed net now domain group looked old)
unfolding refreshed found_entry
refreshed-IsFresh net now domain group (failed why) old h =
    failed_entry-IsFresh now domain group why old h
refreshed-IsFresh net now domain group (found addrs ttl) old h = FreshAt-later _ now _ (omega arith)

upsert-AllFresh :
    (e : ResolvedEntry) (rows : List ResolvedEntry)
    → IsFresh e
    → AllFresh rows
    → AllFresh (upsert e rows)
unfolding upsert
upsert-AllFresh e [] h k = (h, tt)
upsert-AllFresh e (f ∷ rows) h (k, ks) = elim (Bool-cases (is_row e.domain e.group f)) [
  | inl same ↦ rw same (h, ks)
  | inr other ↦ rw other (k, upsert-AllFresh e rows h ks)
]

cached-IsFresh :
    (group d : String) (rows : List ResolvedEntry) (last : Option ResolvedEntry)
    → AllFresh rows
    → IsFresh (or_zero last)
    → IsFresh (or_zero (cached group d rows last))
unfolding cached
cached-IsFresh group d [] last h k = k
cached-IsFresh group d (e ∷ rows) last (h, hs) k = elim (Bool-cases (is_row d group e)) [
  | inl same ↦ rw same (cached-IsFresh group d rows (some e) hs h)
  | inr other ↦ rw other (cached-IsFresh group d rows last hs k)
]

written-AllFresh :
    (b : Bool) (e : ResolvedEntry) (rows : List ResolvedEntry)
    → IsFresh e
    → AllFresh rows
    → AllFresh (if b then upsert e rows else rows)
written-AllFresh true e rows h k = upsert-AllFresh e rows h k
written-AllFresh false e rows h k = k

-- Whatever the lookups find and whichever writes fail, a refresh of a table whose rows are all fresh
-- leaves all rows fresh: each row that has addresses says when they were found, and its end
-- lies at most a day and five minutes after that.
pub run_jobs-AllFresh :
    (net : NetText) (group : String) (have : List ResolvedEntry) (jobs : List Job)
    (rows : List ResolvedEntry)
    → AllFresh have
    → AllFresh rows
    → AllFresh (run_jobs net group have jobs rows).0
unfolding run_jobs refresh_one
run_jobs-AllFresh net group have [] rows h k = k
run_jobs-AllFresh net group have (job ∷ jobs) rows h k = run_jobs-AllFresh net group have jobs _ h (
    written-AllFresh job.written _ rows
      (refreshed-IsFresh net job.now job.domain group job.looked _
        (cached-IsFresh group job.domain have none h tt))
      k)
