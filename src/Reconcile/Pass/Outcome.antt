-- ===== src/Reconcile/Pass/Outcome.antt =====
-- How a pass ends.
use edge_route_gw.Prelude.{
  ℕ, ◌+◌, String, false, List, [], ◌∷◌, Option, none, some, ◌≡◌, ◌≢◌, ◌⊎◌, inl, inr, refl, sym, ap,
  ◌∙◌, arith,
}
use mathlib.Core.List.{Memᴰ}
use edge_route_gw.Model.{Component}
use edge_route_gw.Desired.{Snapshot}
use edge_route_gw.Driver.{Driver, Plan}
use edge_route_gw.Reconcile.{
  PassError, cancelled, load_failed, render_failed, record_failed, drivers_failed, Loaded, loaded,
  load_error, Env, apply_started, Reconciler, publish, fail, next_backoff,
}
use edge_route_gw.Reconcile.Loop.{Loop, run_drivers}
use edge_route_gw.Reconcile.Loop.Rounds.{run_drivers-Keeps, run_drivers-IsGood}
use edge_route_gw.Reconcile.Pass.{
  report, event_if_changed, succeed, set_world, recorded, conclude, no_rounds, apply_all,
  after_render, after_load, begin, end_pass, pass,
}

module _ {W A S : Type 0} where
  -- What a failed pass leaves: the delay grows, the retry is due after it, and the applied
  -- generation is the old one.
  pub record IsFailed (top now : ℕ) (e : PassError) (r r' : Reconciler W A S) : Type 0 where
    pub delay : r'.backoff ≡ next_backoff top r.backoff
    pub due : r'.retry_at ≡ some (now + next_backoff top r.backoff)
    pub cause : r'.status.last_error ≡ some e
    pub generation : r'.status.applied_gen ≡ r.status.applied_gen
    pub success_at : r'.status.last_success_at ≡ r.status.last_success_at

  -- What a pass without an error leaves: the store has taken the generation as the applied one, and
  -- after that at most an event was written.
  pub record IsApplied (env : Env W A S) (gen now : ℕ) (r' : Reconciler W A S) : Type 0 where
    pub before : W
    pub plans : List (Plan S)
    pub taken : (env.set_last_applied before gen).1 ≡ none
    pub in_store : r'.world ≡ event_if_changed env plans gen (env.set_last_applied before gen).0
    pub generation : r'.status.applied_gen ≡ gen
    pub success_at : r'.status.last_success_at ≡ now
    pub cause : r'.status.last_error ≡ none
    pub delay : r'.backoff ≡ 0
    pub due : r'.retry_at ≡ none

  module _ (env : Env W A S) (top now : ℕ) where
    -- The two ways to end a pass.
    abbrev Ends : ℕ → Reconciler W A S → Reconciler W A S × Option PassError → Type 0
    Ends gen r (r', e) =
        ((e ≡ none) × IsApplied env gen now r')
        ⊎ ((why : PassError) × (e ≡ some why) × (why ≢ cancelled) × IsFailed top now why r r')

    -- What the end of a pass reads of its beginning.
    abbrev Same : Reconciler W A S → Reconciler W A S → Type 0
    Same r q =
        (q.backoff ≡ r.backoff)
        × (q.status.applied_gen ≡ r.status.applied_gen)
        × (q.status.last_success_at ≡ r.status.last_success_at)

    Ends-Same :
        (gen : ℕ) (r q : Reconciler W A S) (x : Reconciler W A S × Option PassError)
        → Same r q
        → Ends gen q x
        → Ends gen r x
    Ends-Same gen r q x same (inl done) = inl done
    Ends-Same gen r q (r', e) (b, g, t) (inr (why, eq, ne, f)) = inr (
      why,
      eq,
      ne,
      record {
        delay = f.delay ∙ ap (next_backoff top) b;
        due = f.due ∙ ap (λ n. some (now + next_backoff top n)) b;
        cause = f.cause;
        generation = f.generation ∙ g;
        success_at = f.success_at ∙ t;
      },
    )

    fail-IsFailed :
        (gen : ℕ) (e : PassError) (plans : Option (List (Plan S))) (r : Reconciler W A S)
        → IsFailed top now e r (fail env top now gen e plans r)
    unfolding fail
    fail-IsFailed gen e plans r = record {
      delay = refl;
      due = refl;
      cause = refl;
      generation = refl;
      success_at = refl;
    }

    recorded-Ends :
        (o : Option String) (gen : ℕ) (arts : A) (plans : List (Plan S)) (r : Reconciler W A S)
        (before : W)
        → env.set_last_applied before gen ≡ (r.world, o)
        → Ends gen r (recorded o env top now gen arts plans r)
    unfolding recorded succeed
    recorded-Ends none gen arts plans r before h = inl (
      refl,
      record {
        before = before;
        plans = plans;
        taken = ap (λ p. p.1) h;
        in_store = ap (λ p. event_if_changed env plans gen p.0) (sym h);
        generation = refl;
        success_at = refl;
        cause = refl;
        delay = refl;
        due = refl;
      },
    )
    recorded-Ends (some why) gen arts plans r before h =
        inr
          (record_failed why, refl, (λ p. cc), fail-IsFailed gen (record_failed why) (some plans) r)

    conclude-Ends :
        (gen : ℕ) (arts : A) (errs : List (Component × String)) (plans : List (Plan S))
        (r : Reconciler W A S)
        → Ends gen r (conclude env top now gen arts errs plans r)
    unfolding conclude
    conclude-Ends gen arts (e ∷ es) plans r = inr (
      drivers_failed (e ∷ es),
      refl,
      (λ p. cc),
      fail-IsFailed gen (drivers_failed (e ∷ es)) (some plans) r,
    )
    conclude-Ends gen arts [] plans r =
        let (w, o) = env.set_last_applied r.world gen in
        Ends-Same gen r (set_world w r) _ (refl, refl, refl)
          (recorded-Ends o gen arts plans (set_world w r) r.world refl)

    report-Same :
        (ds : List (Driver W A S)) (arts : A) (l : Loop W A S) (r : Reconciler W A S)
        → l.rec.backoff ≡ r.backoff
        → l.rec.status ≡ r.status
        → Same r (report env arts ds l)
    unfolding report
    report-Same ds arts l r b st = (b, ap (λ s. s.applied_gen) st, ap (λ s. s.last_success_at) st)

    apply_all-Ends :
        (ds : List (Driver W A S)) (gen : ℕ) (arts : A) (r : Reconciler W A S)
        → Ends gen r (apply_all env top now ds gen arts r)
    unfolding apply_all
    apply_all-Ends ds gen arts r =
        let l = no_rounds (publish (apply_started gen) r) in
        let l' = run_drivers env gen arts ds l in
        let (b, _, st, _) = run_drivers-Keeps env gen arts ds l in
        Ends-Same gen r (report env arts ds l') _ (report-Same ds arts l' r b st)
          (conclude-Ends gen arts l'.errs l'.plans (report env arts ds l'))

    conclude-good :
        (gen : ℕ) (arts : A) (errs : List (Component × String)) (plans : List (Plan S))
        (r : Reconciler W A S)
        → (conclude env top now gen arts errs plans r).1 ≡ none
        → (errs ≡ []) × ((conclude env top now gen arts errs plans r).0.last_good ≡ r.last_good)
    unfolding conclude recorded succeed fail
    conclude-good gen arts (e ∷ es) plans r h = absurd (cc)
    conclude-good gen arts [] plans r h = (refl, ground arith)

    apply_all-good :
        (ds : List (Driver W A S)) (gen : ℕ) (arts : A) (r : Reconciler W A S) (d : Driver W A S)
        → (apply_all env top now ds gen arts r).1 ≡ none
        → Memᴰ d ds
        → (apply_all env top now ds gen arts r).0.last_good d.component ≡ some arts
    unfolding apply_all report
    apply_all-good ds gen arts r d h m =
        let l = no_rounds (publish (apply_started gen) r) in
        let l' = run_drivers env gen arts ds l in
        let (none_failed, kept) =
          conclude-good gen arts l'.errs l'.plans (report env arts ds l') h in
        ap (λ good. good d.component) kept ∙ run_drivers-IsGood env gen arts ds l d m none_failed

    -- What a pass that reports no error has done.
    pub record IsSuccess (ds : List (Driver W A S)) (r r' : Reconciler W A S) : Type 0 where
      pub snap : Snapshot
      pub arts : A
      pub read : env.load r.world ≡ loaded snap
      pub drawn : env.render snap ≡ loaded arts
      pub applied : IsApplied env snap.generation now r'
      pub good : (d : Driver W A S) → Memᴰ d ds → r'.last_good d.component ≡ some arts
      pub idle : r'.status.applying ≡ false

    -- What a pass that reports an error leaves.
    pub record IsRetry (why : PassError) (r r' : Reconciler W A S) : Type 0 where
      pub failed : IsFailed top now why r r'
      pub idle : r'.status.applying ≡ false

    abbrev pub Finishes :
        List (Driver W A S) → Reconciler W A S → Reconciler W A S × Option PassError → Type 0
    Finishes ds r (r', e) =
        ((e ≡ none) × IsSuccess ds r r')
        ⊎ ((why : PassError) × (e ≡ some why) × (why ≢ cancelled) × IsRetry why r r')

    end_pass-failed :
        (ds : List (Driver W A S)) (start : ℕ) (r q : Reconciler W A S) (why : PassError)
        → why ≢ cancelled
        → IsFailed top now why (begin start r) q
        → Finishes ds r (end_pass (q, some why))
    end_pass-failed ds start r q why ne f = inr (
      why,
      refl,
      ne,
      record {
        failed = record {
          delay = f.delay;
          due = f.due;
          cause = f.cause;
          generation = f.generation;
          success_at = f.success_at;
        };
        idle = refl;
      },
    )

    after_apply :
        (ds : List (Driver W A S)) (start : ℕ) (r : Reconciler W A S) (snap : Snapshot) (arts : A)
        (x : Reconciler W A S × Option PassError)
        → env.load r.world ≡ loaded snap
        → env.render snap ≡ loaded arts
        → Ends snap.generation (begin start r) x
        → (x.1 ≡ none → (d : Driver W A S) → Memᴰ d ds → x.0.last_good d.component ≡ some arts)
        → Finishes ds r (end_pass x)
    after_apply ds start r snap arts (q, e) l d (inl (eq, a)) good = inl (
      eq,
      record {
        snap = snap;
        arts = arts;
        read = l;
        drawn = d;
        applied = record {
          before = a.before;
          plans = a.plans;
          taken = a.taken;
          in_store = a.in_store;
          generation = a.generation;
          success_at = a.success_at;
          cause = a.cause;
          delay = a.delay;
          due = a.due;
        };
        good = good eq;
        idle = refl;
      },
    )
    after_apply ds start r snap arts (q, e) l d (inr (why, eq, ne, f)) good =
        rw eq (end_pass-failed ds start r q why ne f)

    after_render-Finishes :
        (ds : List (Driver W A S)) (start : ℕ) (r : Reconciler W A S) (snap : Snapshot)
        (o : Loaded A)
        → env.load r.world ≡ loaded snap
        → env.render snap ≡ o
        → Finishes ds r (end_pass (after_render env top now ds snap.generation o (begin start r)))
    after_render-Finishes ds start r snap (loaded arts) l d =
        after_apply ds start r snap arts _ l d
          (apply_all-Ends ds snap.generation arts (begin start r))
          (λ h c m. apply_all-good ds snap.generation arts (begin start r) c h m)
    after_render-Finishes ds start r snap (load_error why) l d =
        end_pass-failed ds start r _ (render_failed why) (λ p. cc)
          (fail-IsFailed snap.generation (render_failed why) none (begin start r))

    after_load-Finishes :
        (ds : List (Driver W A S)) (start : ℕ) (r : Reconciler W A S) (o : Loaded Snapshot)
        → env.load r.world ≡ o
        → Finishes ds r (end_pass (after_load env top now ds o (begin start r)))
    after_load-Finishes ds start r (loaded snap) l =
        after_render-Finishes ds start r snap (env.render snap) l refl
    after_load-Finishes ds start r (load_error why) l =
        end_pass-failed ds start r _ (load_failed why) (λ p. cc)
          (fail-IsFailed 0 (load_failed why) none (begin start r))

    -- A pass that is not cancelled ends in one of two ways. Without an error it has loaded and
    -- rendered the desired state, every driver's component holds the artifacts as its last good
    -- ones, the store has taken the generation as the applied one without an error, nothing but an
    -- event was written after that, the status shows the generation, and no retry is due. With an
    -- error the status shows the old generation and the error, and a retry is due after the next
    -- delay.
    pub pass-Finishes :
        (ds : List (Driver W A S)) (start : ℕ) (r : Reconciler W A S)
        → Finishes ds r (pass env top ds start now false r)
    unfolding pass
    pass-Finishes ds start r = after_load-Finishes ds start r (env.load r.world) refl
