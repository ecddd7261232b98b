-- ===== src/RuleStore/Results.antt =====
-- What a change that succeeded says of its parts.
use edge_route_gw.Prelude.{Bool, true, false, not, ◌&&◌, ◌≡◌, refl, if◌then◌else◌}
use edge_route_gw.RuleStore.{Tables, Result, StoreError, ok, err, ◌>>=◌, affected_one}

pub affected_one-ok : (b : Bool) (t u : Tables) → affected_one b t ≡ ok u → (b ≡ true) × (u ≡ t)
affected_one-ok true t u h = (refl, cc)
affected_one-ok false t u h = cc

-- Two steps, one after the other: where they end well, the first one did too.
pub two_steps-ok :
    (first : Result Tables) (next : Tables → Result Tables) (u : Tables)
    → (first >>= next) ≡ ok u
    → (between : Tables) × (first ≡ ok between) × (next between ≡ ok u)
two_steps-ok (err why) next u both = absurd (let e = both in cc)
two_steps-ok (ok between) next u both = (between, refl, both)

pub unless-ok :
    (b : Bool) (e : StoreError) (r : Result Tables) {u : Tables}
    → (if b then err e else r) ≡ ok u
    → (b ≡ false) × (r ≡ ok u)
unless-ok true e r h = cc
unless-ok false e r h = (refl, h)

pub not-false : (b : Bool) → not b ≡ false → b ≡ true
not-false true h = refl
not-false false h = cc

pub ok-eq : {a b : Tables} → ok a ≡ ok b → a ≡ b
ok-eq h = cc

pub and_not : (a b : Bool) → (a && not b) ≡ false → a ≡ true → b ≡ true
and_not true true h k = refl
and_not true false h k = cc
and_not false b h k = cc
