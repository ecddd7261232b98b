-- ===== src/Tests/Resolving.antt =====
-- The resolver on a small table.
use mathlib.Core.List.{Memᴰ}
use edge_route_gw.Prelude.{
  all, is_nil, keep, ℕ, ◌+◌, ◌≤◌, max, String, true, false, List, [], ◌∷◌, arith, none, some, ◌≡◌,
  refl, count_if, str_eq,
}
use edge_route_gw.Text.{trim_space, trim_dot, to_lower}
use edge_route_gw.Net.{v4}
use edge_route_gw.Desired.{ResolvedEntry}
use edge_route_gw.Resolver.{
  Job, found, failed, fail_retry, cached, or_zero, due_domains, refreshed, run_jobs, round_wait,
  refreshed_round, dns_lookup, reply, a_record, other_record,
}
use edge_route_gw.Resolver.Answers.{is_usable, dns_lookup-found}
use edge_route_gw.Resolver.Retry.{round_wait-mem}
use edge_route_gw.Resolver.Freshness.{AllFresh, run_jobs-AllFresh}
use edge_route_gw.Resolver.Refreshed.{run_jobs-cached, due_domains-count}
use edge_route_gw.Tests.Sample.{ip, sample_net}

resolver : Unit {0}
unfolding cached due_domains refreshed run_jobs round_wait fail_retry dns_lookup
resolver = tt

abbrev entry : String → ℕ → ℕ → ResolvedEntry
entry domain at expires = record {
  domain = domain;
  group = "local";
  ips = "192.0.2.1" ∷ [];
  ttl = 300;
  fail_count = 0;
  last_error = "";
  resolved_at = some at;
  expires_at = expires;
}

abbrev table : List ResolvedEntry
table = entry "a.example.com" 1000 1300 ∷ entry "b.example.com" 1000 4600 ∷ []

abbrev answered : Job
answered = record {
  domain = "a.example.com";
  now = 1400;
  looked = found (v4 (ip 192 0 2 1) ∷ []) 60;
  written = true;
}

abbrev lost : Job
lost = record { domain = "c.example.com"; now = 1401; looked = failed "timeout"; written = true }

-- The delays of the first seven failures.
delays :
    (fail_retry 1 ≡ 10)
    × (fail_retry 2 ≡ 20)
    × (fail_retry 5 ≡ 160)
    × (fail_retry 6 ≡ 300)
    × (fail_retry 7 ≡ 300)
unfolding resolver
delays = (refl, refl, refl, refl, refl)

-- Private addresses are dropped, and the reply over TCP counts if the first was truncated.
looked_up :
    dns_lookup (reply true true "NOERROR" []) (
      reply true false "NOERROR"
        (a_record (v4 (ip 10 0 0 1)) 5 ∷ a_record (v4 (ip 192 0 2 1)) 60 ∷ other_record ∷ []))
    ≡ found (v4 (ip 192 0 2 1) ∷ []) 60
unfolding resolver
looked_up = refl

run_jobs-cached_example :
    cached "local" "a.example.com"
      (run_jobs sample_net "local" table (answered ∷ lost ∷ []) table).0
      none
    ≡ some (
        refreshed sample_net 1400 "a.example.com" "local" answered.looked
          (or_zero (cached "local" "a.example.com" table none)))
run_jobs-cached_example =
    run_jobs-cached sample_net "local" table [] answered (lost ∷ []) table (refl, (refl, tt)) refl
      refl

run_jobs-AllFresh_example :
    AllFresh (run_jobs sample_net "local" table (lost ∷ answered ∷ []) table).0
run_jobs-AllFresh_example =
    run_jobs-AllFresh sample_net "local" table (lost ∷ answered ∷ []) table
      (omega arith, (omega arith, tt)) (omega arith, (omega arith, tt))

due_domains-count_example :
    count_if
      (str_eq "a.example.com")
      (due_domains 1400 "local" table ("A.example.com" ∷ "a.example.com." ∷ []) [])
    ≡ 1
unfolding resolver trim_space trim_dot to_lower
due_domains-count_example =
    due_domains-count 1400 "local" table ("A.example.com" ∷ "a.example.com." ∷ []) "a.example.com"

round_wait-mem_example :
    1200 + round_wait (refreshed_round table ("a.example.com" ∷ []) 1200) ≤ max 1300 (1200 + 10)
round_wait-mem_example =
    round_wait-mem table ("a.example.com" ∷ []) 1200 (entry "a.example.com" 1000 1300)
      (Memᴰ.head refl) refl

dns_lookup-found_example :
    (v4 (ip 192 0 2 1) ∷ [] ≡ keep is_usable (v4 (ip 10 0 0 1) ∷ v4 (ip 192 0 2 1) ∷ []))
    × (all is_usable (v4 (ip 192 0 2 1) ∷ []) ≡ true)
    × (is_nil (v4 (ip 192 0 2 1) ∷ []) ≡ false)
dns_lookup-found_example =
    dns_lookup-found (reply true true "NOERROR" [])
      (reply true false "NOERROR"
        (a_record (v4 (ip 10 0 0 1)) 5 ∷ a_record (v4 (ip 192 0 2 1)) 60 ∷ other_record ∷ []))
      (v4 (ip 192 0 2 1) ∷ []) 60 looked_up
