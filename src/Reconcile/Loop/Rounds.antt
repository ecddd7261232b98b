-- ===== src/Reconcile/Loop/Rounds.antt =====
-- What the loop over the drivers does to each of them.
use edge_route_gw.Prelude.{
  ℕ, ◌+◌, String, List, [], ◌∷◌, ◌++◌, Option, none, some, length, length-append, ◌≡◌, ◌≢◌, ◌⊎◌,
  inl, inr, Bool-cases, refl, sym, ◌∙◌, arith,
}
use mathlib.Core.List.{Memᴰ}
use edge_route_gw.Model.{Component}
use edge_route_gw.Driver.{Driver, Plan, Planned, planned, plan_error, changes}
use edge_route_gw.Reconcile.{Env, set_good}
use edge_route_gw.Reconcile.Loop.{
  Loop, failed_plan, run_apply, run_planned, run_driver, run_drivers,
}

module _ {W A S : Type 0} (env : Env W A S) (gen : ℕ) (arts : A) where
  -- What a round leaves as it was.
  abbrev Keeps : Loop W A S → Loop W A S → Type 0
  Keeps l l' =
      (l'.rec.backoff ≡ l.rec.backoff)
      × (l'.rec.retry_at ≡ l.rec.retry_at)
      × (l'.rec.status ≡ l.rec.status)
      × (l'.rec.bus ≡ l.rec.bus)

  run_planned-Keeps :
      (d : Driver W A S) (p : Planned S) (l : Loop W A S) → Keeps l (run_planned env gen arts d p l)
  unfolding run_planned run_apply
  run_planned-Keeps d (plan_error why) l = (refl, refl, refl, refl)
  run_planned-Keeps d (planned p) l = ground arith

  pub run_drivers-Keeps :
      (ds : List (Driver W A S)) (l : Loop W A S) → Keeps l (run_drivers env gen arts ds l)
  unfolding run_drivers run_driver
  run_drivers-Keeps [] l = (refl, refl, refl, refl)
  run_drivers-Keeps (d ∷ ds) l =
      let p = d.plan l.rec.world (l.rec.last_good d.component) arts in
      let l' = run_planned env gen arts d p l in
      let (a, b, c, e) = run_planned-Keeps d p l in
      let (a', b', c', e') = run_drivers-Keeps ds l' in (a' ∙ a, b' ∙ b, c' ∙ c, e' ∙ e)

  length-run_planned :
      (d : Driver W A S) (p : Planned S) (l : Loop W A S)
      → length (run_planned env gen arts d p l).plans ≡ length l.plans + 1
  unfolding run_planned run_apply
  length-run_planned d (plan_error why) l =
      ground (arith, length-append l.plans (failed_plan d.component why ∷ []))
  length-run_planned d (planned p) l = ground (arith, length-append l.plans (p ∷ []))

  -- Every driver is planned, whatever becomes of the others.
  pub length-run_drivers :
      (ds : List (Driver W A S)) (l : Loop W A S)
      → length (run_drivers env gen arts ds l).plans ≡ length l.plans + length ds
  unfolding run_drivers run_driver
  length-run_drivers [] l = omega arith
  length-run_drivers (d ∷ ds) l =
      let p = d.plan l.rec.world (l.rec.last_good d.component) arts in
      omega
        (arith, length-run_planned d p l, length-run_drivers ds (run_planned env gen arts d p l))

  -- The last good artifacts of a component are those of this pass.
  abbrev pub IsGood : Component → Loop W A S → Type 0
  IsGood c l = l.rec.last_good c ≡ some arts

  set_good_stays :
      (c d : Component) (good : Component → Option A)
      → good c ≡ some arts
      → set_good d arts good c ≡ some arts
  set_good_stays c d good h = ground arith

  run_planned-stays :
      (d : Driver W A S) (p : Planned S) (l : Loop W A S) (c : Component)
      → IsGood c l
      → IsGood c (run_planned env gen arts d p l)
  unfolding run_planned run_apply
  run_planned-stays d (plan_error why) l c h = h
  run_planned-stays d (planned p) l c h = ground arith

  run_drivers-stays :
      (ds : List (Driver W A S)) (l : Loop W A S) (c : Component)
      → IsGood c l
      → IsGood c (run_drivers env gen arts ds l)
  unfolding run_drivers run_driver
  run_drivers-stays [] l c h = h
  run_drivers-stays (d ∷ ds) l c h =
      let p = d.plan l.rec.world (l.rec.last_good d.component) arts in
      run_drivers-stays ds _ c (run_planned-stays d p l c h)

  -- A round succeeds, and its component is good, or it adds one error and changes no component.
  abbrev pub Round : Driver W A S → Loop W A S → Loop W A S → Type 0
  Round d l l' =
      ((l'.errs ≡ l.errs) × IsGood d.component l')
      ⊎ ((why : String) × (l'.errs ≡ l.errs ++ (d.component, why) ∷ [])
          × (l'.rec.last_good ≡ l.rec.last_good))

  set_good_self : (d : Component) (good : Component → Option A) → set_good d arts good d ≡ some arts
  set_good_self d good = ground arith

  run_apply-Round :
      (d : Driver W A S) (p : Plan S) (l : Loop W A S) (o : Option String)
      → (d.apply l.rec.world p arts).1 ≡ o
      → Round d l (run_apply env gen arts d p l)
  unfolding run_apply
  run_apply-Round d p l none e = inl (rw e refl, rw e (set_good_self d.component l.rec.last_good))
  run_apply-Round d p l (some why) e = inr (why, rw e refl, rw e refl)

  run_planned-Round :
      (d : Driver W A S) (p : Planned S) (l : Loop W A S)
      → Round d l (run_planned env gen arts d p l)
  unfolding run_planned
  run_planned-Round d (plan_error why) l = inr (why, refl, refl)
  run_planned-Round d (planned p) l = elim (Bool-cases (changes p)) [
    | inl e ↦ rw e (run_apply-Round d p l _ refl)
    | inr e ↦ rw e (inl (refl, set_good_self d.component l.rec.last_good))
  ]

  -- Each round either makes its component good and adds no error, or adds the one error of that
  -- component and leaves the last good artifacts of every component as they were.
  pub run_driver-Round :
      (d : Driver W A S) (l : Loop W A S) → Round d l (run_driver env gen arts d l)
  unfolding run_driver
  run_driver-Round d l =
      run_planned-Round d (d.plan l.rec.world (l.rec.last_good d.component) arts) l

  errs-nil_of_append : (xs : List (Component × String)) (y : Component × String) → xs ++ y ∷ [] ≢ []
  errs-nil_of_append [] y h = cc
  errs-nil_of_append (x ∷ xs) y h = cc

  errs_of_Round :
      (d : Driver W A S) (l l' : Loop W A S)
      → Round d l l'
      → l'.errs ≡ []
      → (l.errs ≡ []) × IsGood d.component l'
  errs_of_Round d l l' (inl (e, good)) h = (sym e ∙ h, good)
  errs_of_Round d l l' (inr (why, e, _)) h =
      absurd (errs-nil_of_append l.errs (d.component, why) (sym e ∙ h))

  run_drivers-errs :
      (ds : List (Driver W A S)) (l : Loop W A S)
      → (run_drivers env gen arts ds l).errs ≡ []
      → l.errs ≡ []
  unfolding run_drivers
  run_drivers-errs [] l h = h
  run_drivers-errs (d ∷ ds) l h =
      let l' = run_driver env gen arts d l in
      (errs_of_Round d l l' (run_driver-Round d l) (run_drivers-errs ds l' h)).0

  -- If the loop ends without an error, every driver's component is good.
  pub run_drivers-IsGood :
      (ds : List (Driver W A S)) (l : Loop W A S) (d : Driver W A S)
      → Memᴰ d ds
      → (run_drivers env gen arts ds l).errs ≡ []
      → IsGood d.component (run_drivers env gen arts ds l)
  unfolding run_drivers
  run_drivers-IsGood [] l d m h = elim m [ ]
  run_drivers-IsGood (c ∷ ds) l d (Memᴰ.head e) h =
      let l' = run_driver env gen arts c l in
      let (_, good) = errs_of_Round c l l' (run_driver-Round c l) (run_drivers-errs ds l' h) in
      rw e (run_drivers-stays ds l' c.component good)
  run_drivers-IsGood (c ∷ ds) l d (Memᴰ.tail m) h =
      run_drivers-IsGood ds (run_driver env gen arts c l) d m h
