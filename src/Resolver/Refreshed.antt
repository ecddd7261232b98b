-- ===== src/Resolver/Refreshed.antt =====
-- What `Refresh` of internal/resolver/resolver.go does to the table: which names are looked up, and
-- the row that each of them has afterwards, in whatever order the workers end.
use edge_route_gw.Prelude.{
  ℕ, Bool, true, false, not, ◌&&◌, String, List, [], ◌∷◌, ◌++◌, Option, none, some, ◌≡◌, refl, sym,
  ◌∙◌, arith, any, all, count_if, add_if, str_eq, eq_iff, eq_refl, inl, inr, Bool-cases,
  if◌then◌else◌,
}
use edge_route_gw.Text.{is_empty}
use edge_route_gw.Net.Text.{NetText}
use edge_route_gw.Desired.{ResolvedEntry}
use edge_route_gw.Resolver.{
  Looked, failed, found, failed_entry, found_entry, refreshed, is_row, upsert, cached, or_zero,
  is_due, plain_domain, due_domains, Job, refresh_one, run_jobs,
}

due_domains-count_seen :
    (now : ℕ) (group : String) (rows : List ResolvedEntry) (want seen : List String) (d : String)
    → count_if (str_eq d) (due_domains now group rows want seen)
      ≡ add_if
          (any (λ w. str_eq (plain_domain w) d) want
            && (not (is_empty d)
                && (not (any (str_eq d) seen) && is_due now (cached group d rows none))))
          0
unfolding due_domains
due_domains-count_seen now group rows [] seen d = refl
due_domains-count_seen now group rows (w ∷ want) seen d =
    elim (Bool-cases (str_eq (plain_domain w) d)) [
      | inl same ↦
          let e : plain_domain w ≡ d = (eq_iff _ _).0 same in
          rw e (
            ground (
              arith,
              same,
              eq_refl d,
              due_domains-count_seen now group rows want seen d,
              due_domains-count_seen now group rows want (d ∷ seen) d,
            ))
      | inr other ↦ ground (
        arith,
        eq_iff (plain_domain w) d,
        eq_iff d (plain_domain w),
        due_domains-count_seen now group rows want seen d,
        due_domains-count_seen now group rows want (plain_domain w ∷ seen) d,
      )
    ]

-- The key of each row of the table is its own.
abbrev pub HasUniqueKeys : List ResolvedEntry → Type 0
HasUniqueKeys [] = Unit
HasUniqueKeys (e ∷ rows) =
    (all (λ f. not (is_row e.domain e.group f)) rows ≡ true) × HasUniqueKeys rows

cached-absent :
    (group d : String) (rows : List ResolvedEntry) (last : Option ResolvedEntry)
    → all (λ f. not (is_row d group f)) rows ≡ true
    → cached group d rows last ≡ last
unfolding cached
cached-absent group d [] last h = refl
cached-absent group d (e ∷ rows) last h = ground (arith, cached-absent group d rows last)

upsert-absent :
    (group d : String) (e : ResolvedEntry) (rows : List ResolvedEntry)
    → is_row d group e ≡ false
    → all (λ f. not (is_row d group f)) rows ≡ true
    → all (λ f. not (is_row d group f)) (upsert e rows) ≡ true
unfolding upsert
upsert-absent group d e [] h k = rw h
upsert-absent group d e (f ∷ rows) h k = ground (arith, upsert-absent group d e rows)

same_key :
    (d group : String) (e f : ResolvedEntry)
    → is_row e.domain e.group f ≡ true
    → is_row d group f ≡ is_row d group e
same_key d group e f h =
    let a : f.domain ≡ e.domain = (eq_iff _ _).0 (ground arith) in
    let b : f.group ≡ e.group = (eq_iff _ _).0 (ground arith) in rw (a, b)

absent_of_row :
    (group d : String) (f : ResolvedEntry) (rows : List ResolvedEntry)
    → is_row d group f ≡ true
    → all (λ h. not (is_row f.domain f.group h)) rows ≡ true
    → all (λ h. not (is_row d group h)) rows ≡ true
absent_of_row group d f rows h u =
    let a : d ≡ f.domain = sym ((eq_iff _ _).0 (ground arith)) in
    let b : group ≡ f.group = sym ((eq_iff _ _).0 (ground arith)) in rw (a, b) u

replaced :
    (group d : String) (e f : ResolvedEntry) (rows : List ResolvedEntry)
    (last : Option ResolvedEntry)
    → all (λ h. not (is_row f.domain f.group h)) rows ≡ true
    → is_row e.domain e.group f ≡ true
    → cached group d rows (if is_row d group e then some e else last) ≡ (
        if is_row d group e
        then some e
        else cached group d rows (if is_row d group f then some f else last))
replaced group d e f rows last u same = elim (Bool-cases (is_row d group e)) [
  | inl mine ↦ rw mine (
      cached-absent group d rows (some e)
        (absent_of_row group d f rows (same_key d group e f same ∙ mine) u))
  | inr theirs ↦
      let no : is_row d group f ≡ false = same_key d group e f same ∙ theirs in rw (theirs, no)
]

upsert-cached :
    (group d : String) (e : ResolvedEntry) (rows : List ResolvedEntry) (last : Option ResolvedEntry)
    → HasUniqueKeys rows
    → cached group d (upsert e rows) last
      ≡ (if is_row d group e then some e else cached group d rows last)
unfolding upsert cached
upsert-cached group d e [] last u = refl
upsert-cached group d e (f ∷ rows) last (u, us) = elim (Bool-cases (is_row e.domain e.group f)) [
  | inl same ↦ rw same (replaced group d e f rows last u same)
  | inr other ↦ rw other (upsert-cached group d e rows _ us)
]

upsert-HasUniqueKeys :
    (e : ResolvedEntry) (rows : List ResolvedEntry)
    → HasUniqueKeys rows
    → HasUniqueKeys (upsert e rows)
unfolding upsert
upsert-HasUniqueKeys e [] u = (refl, tt)
upsert-HasUniqueKeys e (f ∷ rows) (u, us) = elim (Bool-cases (is_row e.domain e.group f)) [
  | inl same ↦ rw same (absent_of_row e.group e.domain f rows same u, us)
  | inr other ↦ rw other (
    upsert-absent f.group f.domain e rows
        (ground (
          arith,
          eq_iff e.domain f.domain,
          eq_iff f.domain e.domain,
          eq_iff e.group f.group,
          eq_iff f.group e.group,
        ))
        u,
    upsert-HasUniqueKeys e rows us,
  )
]

refreshed-is_row :
    (net : NetText) (now : ℕ) (domain group d : String) (looked : Looked) (old : ResolvedEntry)
    → is_row d group (refreshed net now domain group looked old) ≡ str_eq domain d
unfolding refreshed failed_entry found_entry
refreshed-is_row net now domain group d (failed why) old = ground (arith, eq_refl group)
refreshed-is_row net now domain group d (found addrs ttl) old = ground (arith, eq_refl group)

written-cached :
    (group d : String) (b c : Bool) (e : ResolvedEntry) (rows : List ResolvedEntry)
    → HasUniqueKeys rows
    → is_row d group e ≡ c
    → cached group d (if b then upsert e rows else rows) none
      ≡ (if b && c then some e else cached group d rows none)
written-cached group d true c e rows u h = rw (← h) (upsert-cached group d e rows none u)
written-cached group d false c e rows u h = refl

written-HasUniqueKeys :
    (b : Bool) (e : ResolvedEntry) (rows : List ResolvedEntry)
    → HasUniqueKeys rows
    → HasUniqueKeys (if b then upsert e rows else rows)
written-HasUniqueKeys true e rows u = upsert-HasUniqueKeys e rows u
written-HasUniqueKeys false e rows u = u

-- the row of a name after `refreshOne`
refresh_one-cached :
    (net : NetText) (group d : String) (old : ResolvedEntry) (job : Job) (rows : List ResolvedEntry)
    → HasUniqueKeys rows
    → cached group d (refresh_one net group old job rows).0 none ≡ (
        if job.written && str_eq job.domain d
        then some (refreshed net job.now job.domain group job.looked old)
        else cached group d rows none)
unfolding refresh_one
refresh_one-cached net group d old job rows u =
    written-cached group d job.written _ _ rows u
      (refreshed-is_row net job.now job.domain group d job.looked old)

refresh_one-HasUniqueKeys :
    (net : NetText) (group : String) (old : ResolvedEntry) (job : Job) (rows : List ResolvedEntry)
    → HasUniqueKeys rows
    → HasUniqueKeys (refresh_one net group old job rows).0
unfolding refresh_one
refresh_one-HasUniqueKeys net group old job rows u = written-HasUniqueKeys job.written _ rows u

not_taken : (b : Bool) (x y : Option ResolvedEntry) → (if b && false then x else y) ≡ y
not_taken true x y = refl
not_taken false x y = refl

taken :
    (b c : Bool) (x y : Option ResolvedEntry) → b ≡ true → c ≡ true → (if b && c then x else y) ≡ x
taken b c x y h k = rw (h, k)

module _ (net : NetText) (group : String) (have : List ResolvedEntry) (d : String) where
  -- A name without a job keeps its row.
  run_jobs-untouched :
      (jobs : List Job) (rows : List ResolvedEntry)
      → HasUniqueKeys rows
      → all (λ job. not (str_eq job.domain d)) jobs ≡ true
      → cached group d (run_jobs net group have jobs rows).0 none ≡ cached group d rows none
  unfolding run_jobs
  run_jobs-untouched [] rows u h = refl
  run_jobs-untouched (job ∷ jobs) rows u h =
      let old = or_zero (cached group job.domain have none) in
      let other : str_eq job.domain d ≡ false = ground arith in
      run_jobs-untouched jobs (refresh_one net group old job rows).0
        (refresh_one-HasUniqueKeys net group old job rows u) (ground arith)
      ∙ (refresh_one-cached net group d old job rows u ∙ rw other (not_taken job.written _ _))

-- If a job could write its row and no later one is for the same name, then the name has the
-- row that its lookup gives with the row that was read first, whatever the other jobs are and
-- wherever among them it ends.
pub run_jobs-cached :
    (net : NetText) (group : String) (have : List ResolvedEntry) (pre : List Job) (job : Job)
    (post : List Job) (rows : List ResolvedEntry)
    → HasUniqueKeys rows
    → job.written ≡ true
    → all (λ later. not (str_eq later.domain job.domain)) post ≡ true
    → cached group job.domain (run_jobs net group have (pre ++ job ∷ post) rows).0 none
      ≡ some (
          refreshed net job.now job.domain group job.looked
            (or_zero (cached group job.domain have none)))
unfolding run_jobs
run_jobs-cached net group have [] job post rows u w h =
    let old = or_zero (cached group job.domain have none) in
    run_jobs-untouched net group have job.domain post (refresh_one net group old job rows).0
      (refresh_one-HasUniqueKeys net group old job rows u) h
    ∙ (refresh_one-cached net group job.domain old job rows u
        ∙ taken job.written (str_eq job.domain job.domain) _ _ w (eq_refl job.domain))
run_jobs-cached net group have (first ∷ pre) job post rows u w h =
    run_jobs-cached net group have pre job post _
      (refresh_one-HasUniqueKeys net group (or_zero (cached group first.domain have none)) first
        rows u)
      w h

-- A name is looked up once if it is the plain form of a wanted name, not empty, and its row is missing
-- or expired, and else not at all.
pub due_domains-count :
    (now : ℕ) (group : String) (rows : List ResolvedEntry) (want : List String) (d : String)
    → count_if (str_eq d) (due_domains now group rows want [])
      ≡ add_if
          (any (λ w. str_eq (plain_domain w) d) want
            && (not (is_empty d) && is_due now (cached group d rows none)))
          0
due_domains-count now group rows want d = due_domains-count_seen now group rows want [] d
