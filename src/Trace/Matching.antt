-- ===== src/Trace/Matching.antt =====
-- Which rule `Run` of internal/trace/trace.go settles on.
use edge_route_gw.Prelude.{
  ℕ, suc, ◌+◌, ◌-◌, ◌≤◌, String, Bool, true, false, not, List, [], ◌∷◌, ◌++◌, Option, none, some,
  ◌≡◌, refl, ap, arith, all, length, inl, inr, Bool-cases, is_some,
}
use edge_route_gw.Net.{Addr}
use edge_route_gw.Net.Text.{NetText}
use edge_route_gw.Model.{Rule}
use edge_route_gw.Desired.{Snapshot, active_rules}
use edge_route_gw.Trace.{Sources, Note, hit, walk, conclude, resolve, run_at, without_rule}

module _ (net : NetText) (regex_matches : String → String → Bool) (src : Sources) (host : String)
    (ip : Option Addr) where
  -- The rule is the first of the list that is hit, and `count` rules were looked at.
  abbrev pub IsFirst : List Rule → Rule → ℕ → Type 0
  IsFirst rules rule count =
      (pre : List Rule) × (post : List Rule) × (rules ≡ pre ++ rule ∷ post)
      × (all (λ r. not (hit net regex_matches src r host ip).0) pre ≡ true)
      × ((hit net regex_matches src rule host ip).0 ≡ true)
      × (count ≡ suc (length pre))

  IsFirst-cons :
      (r : Rule) (rules : List Rule) (rule : Rule) (start count : ℕ)
      → (hit net regex_matches src r host ip).0 ≡ false
      → suc start ≤ count × IsFirst rules rule (count - suc start)
      → start ≤ count × IsFirst (r ∷ rules) rule (count - start)
  IsFirst-cons r rules rule start count h (le, (pre, post, e, k, y, c)) =
      (omega arith, (r ∷ pre, post, ap (λ l. r ∷ l) e, ground arith, y, omega arith))

  walk-some :
      (rules : List Rule) (start : ℕ) (notes : List Note) (rule : Rule)
      → (walk net regex_matches src rules host ip start notes).0 ≡ some rule
      → start ≤ (walk net regex_matches src rules host ip start notes).1
        × IsFirst rules rule ((walk net regex_matches src rules host ip start notes).1 - start)
  unfolding walk
  walk-some [] start notes rule h = ground arith
  walk-some (r ∷ rules) start notes rule h =
      elim (Bool-cases (hit net regex_matches src r host ip).0) [
        | inl yes' ↦
            let e : r ≡ rule = ground (arith, yes') in
            rw yes'
              (omega arith, ([], rules, ap (λ q. q ∷ rules) e, refl, rw (← e) yes', omega arith))
        | inr no' ↦ rw no' (
            IsFirst-cons r rules rule start _ no'
              (walk-some rules (suc start) _ rule (rw no' at h)))
      ]

  walk-none :
      (rules : List Rule) (start : ℕ) (notes : List Note)
      → (walk net regex_matches src rules host ip start notes).0 ≡ none
      → (all (λ r. not (hit net regex_matches src r host ip).0) rules ≡ true)
        × ((walk net regex_matches src rules host ip start notes).1 ≡ start + length rules)
  unfolding walk
  walk-none [] start notes h = (refl, omega arith)
  walk-none (r ∷ rules) start notes h = elim (Bool-cases (hit net regex_matches src r host ip).0) [
    | inl yes' ↦ ground (arith, yes')
    | inr no' ↦ let (k, c) = walk-none rules (suc start) _ (rw no' at h) in rw no' (k, omega arith)
  ]

  conclude-some :
      (s : Snapshot) (w : Option Rule × ℕ × List Note) (rule : Rule)
      → (conclude s host (is_some ip) w).matched ≡ some rule
      → (w.0 ≡ some rule)
        × ((conclude s host (is_some ip) w).considered ≡ w.1)
        × ((conclude s host (is_some ip) w).sent ≡ resolve s rule)
  conclude-some s (none, count, notes) rule h = absurd (cc)
  conclude-some s (some r, count, notes) rule h =
      (h, refl, (let e : r ≡ rule = cc in ap (resolve s) e))

  conclude-none :
      (s : Snapshot) (w : Option Rule × ℕ × List Note)
      → (conclude s host (is_some ip) w).matched ≡ none
      → (w.0 ≡ none)
        × ((conclude s host (is_some ip) w).considered ≡ w.1)
        × ((conclude s host (is_some ip) w).sent ≡ without_rule s)
  conclude-none s (none, count, notes) h = (refl, refl, refl)
  conclude-none s (some r, count, notes) h = absurd (cc)

  -- A rule that the trace settles on is the first active rule that is hit, the rules considered are
  -- those up to it, and the traffic goes where the rule sends it.
  pub run_at-some :
      (s : Snapshot) (rule : Rule)
      → (run_at net regex_matches src s host ip).matched ≡ some rule
      → IsFirst (active_rules s) rule (run_at net regex_matches src s host ip).considered
        × ((run_at net regex_matches src s host ip).sent ≡ resolve s rule)
  run_at-some s rule h =
      let w = walk net regex_matches src (active_rules s) host ip 0 [] in
      let (found, c, sent) = conclude-some s w rule h in
      let (le, (pre, post, e, k, y, n)) = walk-some (active_rules s) 0 [] rule found in
      ((pre, post, e, k, y, omega (arith, c, n)), sent)

  -- If the trace settles on no rule, all active rules were considered, none of them is hit, and the
  -- traffic goes where the policy for the LAN sends it.
  pub run_at-none :
      (s : Snapshot)
      → (run_at net regex_matches src s host ip).matched ≡ none
      → (all (λ r. not (hit net regex_matches src r host ip).0) (active_rules s) ≡ true)
        × ((run_at net regex_matches src s host ip).considered ≡ length (active_rules s))
        × ((run_at net regex_matches src s host ip).sent ≡ without_rule s)
  run_at-none s h =
      let w = walk net regex_matches src (active_rules s) host ip 0 [] in
      let (missed, c, sent) = conclude-none s w h in
      let (none', n) = walk-none (active_rules s) 0 [] missed in (none', omega (arith, c, n), sent)
