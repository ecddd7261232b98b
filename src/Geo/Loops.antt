-- ===== src/Geo/Loops.antt =====
-- The loop over the fields of a message ends, and takes the fields one by one.
use edge_route_gw.Prelude.{
  ℕ, zero, suc, ◌^◌, ◌≤◌, ◌<◌, ◌++◌, Bool, if◌then◌else◌, List, [], ◌∷◌, some, length, ◌≡◌, ◌≢◌,
  refl, inl, inr, Option-cases, arith,
}
use edge_route_gw.Geo.{
  Wire, WireType, IsWire, Decoded, ok, bad, stuck, next, stop, Handler, read_field, walk, loop,
  skip, take_bytes, take_varint,
}

pub data Outcome {ℓ} {A : Type ℓ} (d : Decoded A) : Type ℓ where
  is_ok : (a : A) → d ≡ ok a → Outcome d
  is_error : d ≡ bad → Outcome d
  is_stuck : d ≡ stuck → Outcome d

pub Decoded-cases {ℓ} : {A : Type ℓ} (d : Decoded A) → Outcome d
Decoded-cases (ok a) = is_ok a refl
Decoded-cases bad = is_error refl
Decoded-cases stuck = is_stuck refl

-- A handler ends, and leaves no more than it was given.
pub record IsHandler {ℓ} {S : Type ℓ} (handle : Handler S) : Type ℓ where
  pub ends : (num : ℕ) (typ : WireType) (rest : List ℕ) (s : S) → handle num typ rest s ≢ stuck
  pub shrinks :
      (num : ℕ) (typ : WireType) (rest : List ℕ) (s : S) (s' : S) (rest' : List ℕ)
      → handle num typ rest s ≡ ok (next s' rest')
      → length rest' ≤ length rest

module _ {ℓ} {S : Type ℓ} {w : Wire} (wire : IsWire w) {handle : Handler S}
    (good : IsHandler handle) where
  field-ends : (msg : List ℕ) (s : S) → read_field handle s (w.consume_tag msg) ≢ stuck
  field-ends msg s e = elim (Option-cases (w.consume_tag msg)) [
    | inl none_read ↦ cc
    | inr ((num, typ, rest), read) ↦ good.ends num typ rest s (rw read at e)
  ]

  field-shorter :
      (msg : List ℕ) (s s' : S) (rest' : List ℕ)
      → read_field handle s (w.consume_tag msg) ≡ ok (next s' rest')
      → length rest' < length msg
  field-shorter msg s s' rest' e = elim (Option-cases (w.consume_tag msg)) [
    | inl none_read ↦ absurd (let f = e in cc)
    | inr ((num, typ, rest), read) ↦ omega (
      arith,
      good.shrinks num typ rest s s' rest' (rw read at e),
      wire.tag_shorter msg num typ rest read,
    )
  ]

  walk-ends :
      (fuel : ℕ) (msg : List ℕ) (s : S) → length msg ≤ fuel → walk w handle fuel msg s ≢ stuck
  unfolding walk
  walk-ends fuel [] s h = λ e. cc
  walk-ends zero (b ∷ bs) s h = absurd (omega arith)
  walk-ends (suc fuel) (b ∷ bs) s h =
      elim (Decoded-cases (read_field handle s (w.consume_tag (b ∷ bs)))) [
        | is_ok (next s' rest') e ↦
            rw e (walk-ends fuel rest' s' (omega (arith, field-shorter (b ∷ bs) s s' rest' e)))
        | is_ok (stop s') e ↦ rw e (λ p. cc)
        | is_error e ↦ rw e (λ p. cc)
        | is_stuck e ↦ absurd (field-ends (b ∷ bs) s e)
      ]

  walk_enough :
      (f g : ℕ) (msg : List ℕ) (s : S)
      → length msg ≤ f
      → length msg ≤ g
      → walk w handle f msg s ≡ walk w handle g msg s
  unfolding walk
  walk_enough f g [] s h k = refl
  walk_enough zero g (b ∷ bs) s h k = absurd (omega arith)
  walk_enough (suc f) zero (b ∷ bs) s h k = absurd (omega arith)
  walk_enough (suc f) (suc g) (b ∷ bs) s h k =
      elim (Decoded-cases (read_field handle s (w.consume_tag (b ∷ bs)))) [
        | is_ok (next s' rest') e ↦
            let short = field-shorter (b ∷ bs) s s' rest' e in
            rw e (walk_enough f g rest' s' (omega arith) (omega arith))
        | is_ok (stop s') e ↦ rw e
        | is_error e ↦ rw e
        | is_stuck e ↦ rw e
      ]

  -- The loop ends on every message.
  pub loop-ends : (msg : List ℕ) (s : S) → loop w handle msg s ≢ stuck
  unfolding loop
  loop-ends msg s = walk-ends (length msg) msg s (omega arith)

  walk-next :
      (f : ℕ) (msg : List ℕ) (s s' : S) (rest : List ℕ)
      → length msg ≤ f
      → read_field handle s (w.consume_tag msg) ≡ ok (next s' rest)
      → walk w handle f msg s ≡ walk w handle (length rest) rest s'
  unfolding walk
  walk-next f [] s s' rest h e = absurd (omega (arith, field-shorter [] s s' rest e))
  walk-next zero (b ∷ bs) s s' rest h e = absurd (omega arith)
  walk-next (suc f) (b ∷ bs) s s' rest h e =
      let short = field-shorter (b ∷ bs) s s' rest e in
      rw e (walk_enough f (length rest) rest s' (omega arith) (omega arith))

  -- One field, and the loop over what follows.
  pub loop-next :
      (msg : List ℕ) (s s' : S) (rest : List ℕ)
      → read_field handle s (w.consume_tag msg) ≡ ok (next s' rest)
      → loop w handle msg s ≡ loop w handle rest s'
  unfolding loop
  loop-next msg s s' rest e = walk-next (length msg) msg s s' rest (omega arith) e

  walk_stop :
      (f : ℕ) (msg : List ℕ) (s s' : S)
      → length msg ≤ f
      → read_field handle s (w.consume_tag msg) ≡ ok (stop s')
      → 0 < length msg
      → walk w handle f msg s ≡ ok s'
  unfolding walk
  walk_stop f [] s s' h e k = absurd (omega arith)
  walk_stop zero (b ∷ bs) s s' h e k = absurd (omega arith)
  walk_stop (suc f) (b ∷ bs) s s' h e k = rw e

  -- One field that ends the loop.
  pub loop_stop :
      (msg : List ℕ) (s s' : S) (num : ℕ) (typ : WireType) (rest : List ℕ)
      → w.consume_tag msg ≡ some (num, typ, rest)
      → handle num typ rest s ≡ ok (stop s')
      → loop w handle msg s ≡ ok s'
  unfolding loop
  loop_stop msg s s' num typ rest t e =
      walk_stop (length msg) msg s s' (omega arith) (rw t e)
        (omega (arith, wire.tag_shorter msg num typ rest t))

  -- Two messages, one after the other: the tag in front is read, with what it heads.
  pub loop_field :
      (s s' : S) (num : ℕ) (typ : WireType) (payload rest : List ℕ)
      → 1 ≤ num
      → num < 2 ^ 29
      → handle num typ (payload ++ rest) s ≡ ok (next s' rest)
      → loop w handle (w.append_tag [] num typ ++ (payload ++ rest)) s ≡ loop w handle rest s'
  loop_field s s' num typ payload rest h k e =
      loop-next _ s s' rest (rw (wire.tag_again num typ (payload ++ rest) h k) e)

-- The handlers that the decoders are made of.
module _ {ℓ} {S : Type ℓ} {w : Wire} (wire : IsWire w) where
  skip-ends : (num : ℕ) (typ : WireType) (rest : List ℕ) (s : S) → skip w num typ rest s ≢ stuck
  unfolding skip
  skip-ends num typ rest s e = ground (arith, Option-cases (w.consume_field_value num typ rest))

  skip_shrinks :
      (num : ℕ) (typ : WireType) (rest : List ℕ) (s : S) (s' : S) (rest' : List ℕ)
      → skip w num typ rest s ≡ ok (next s' rest')
      → length rest' ≤ length rest
  unfolding skip
  skip_shrinks num typ rest s s' rest' e =
      elim (Option-cases (w.consume_field_value num typ rest)) [
        | inl none_read ↦ absurd (ground (arith, none_read))
        | inr (r, read) ↦ ground (arith, read, wire.value_shorter num typ rest r read)
      ]

  pub skip-IsHandler : IsHandler {S = S} (skip w)
  skip-IsHandler = record { ends = skip-ends; shrinks = skip_shrinks }

  take_bytes-IsHandler_ends :
      (f : S → List ℕ → Decoded S)
      → ((s : S) (v : List ℕ) → f s v ≢ stuck)
      → (num : ℕ) (typ : WireType) (rest : List ℕ) (s : S) → take_bytes w f num typ rest s ≢ stuck
  take_bytes-IsHandler_ends f good num typ rest s e = elim (Option-cases (w.consume_bytes rest)) [
    | inl none_read ↦ ground (arith, none_read)
    | inr (r, read) ↦ ground (arith, read, good s r.0, Decoded-cases (f s r.0))
  ]

  take_bytes_shrinks :
      (f : S → List ℕ → Decoded S) (num : ℕ) (typ : WireType) (rest : List ℕ) (s : S) (s' : S)
      (rest' : List ℕ)
      → take_bytes w f num typ rest s ≡ ok (next s' rest')
      → length rest' ≤ length rest
  take_bytes_shrinks f num typ rest s s' rest' e = elim (Option-cases (w.consume_bytes rest)) [
    | inl none_read ↦ absurd (ground (arith, none_read))
    | inr ((v, r), read) ↦
        ground (arith, read, wire.bytes_shorter rest v r read, Decoded-cases (f s v))
  ]

  pub take_bytes-IsHandler :
      (f : S → List ℕ → Decoded S)
      → ((s : S) (v : List ℕ) → f s v ≢ stuck)
      → IsHandler (take_bytes w f)
  take_bytes-IsHandler f good = record {
    ends = take_bytes-IsHandler_ends f good;
    shrinks = take_bytes_shrinks f;
  }

  take_varint-ends :
      (f : S → ℕ → S) (num : ℕ) (typ : WireType) (rest : List ℕ) (s : S)
      → take_varint w f num typ rest s ≢ stuck
  take_varint-ends f num typ rest s e = ground (arith, Option-cases (w.consume_varint rest))

  take_varint_shrinks :
      (f : S → ℕ → S) (num : ℕ) (typ : WireType) (rest : List ℕ) (s : S) (s' : S) (rest' : List ℕ)
      → take_varint w f num typ rest s ≡ ok (next s' rest')
      → length rest' ≤ length rest
  take_varint_shrinks f num typ rest s s' rest' e = elim (Option-cases (w.consume_varint rest)) [
    | inl none_read ↦ absurd (ground (arith, none_read))
    | inr ((v, r), read) ↦ ground (arith, read, wire.varint_shorter rest v r read)
  ]

  pub take_varint-IsHandler : (f : S → ℕ → S) → IsHandler (take_varint w f)
  take_varint-IsHandler f = record { ends = take_varint-ends f; shrinks = take_varint_shrinks f }

abbrev pub choose {ℓ} : {S : Type ℓ} → (ℕ → WireType → Bool) → Handler S → Handler S → Handler S
choose test h k num typ rest s = if test num typ then h num typ rest s else k num typ rest s

-- A field goes to one of two handlers.
pub choose-IsHandler {ℓ} :
    {S : Type ℓ} (test : ℕ → WireType → Bool) {h k : Handler S}
    → IsHandler h
    → IsHandler k
    → IsHandler (choose test h k)
choose-IsHandler {S} test {h} {k} good other = record { ends = ends; shrinks = shrinks }
  where
    ends :
        (num : ℕ) (typ : WireType) (rest : List ℕ) (s : S) → choose test h k num typ rest s ≢ stuck
    ends num typ rest s = ground (arith, good.ends num typ rest s, other.ends num typ rest s)

    shrinks :
        (num : ℕ) (typ : WireType) (rest : List ℕ) (s : S) (s' : S) (rest' : List ℕ)
        → choose test h k num typ rest s ≡ ok (next s' rest')
        → length rest' ≤ length rest
    shrinks num typ rest s s' rest' e =
        ground (arith, good.shrinks num typ rest s s' rest', other.shrinks num typ rest s s' rest')

pub loop-nil {ℓ} : {S : Type ℓ} (w : Wire) (handle : Handler S) (s : S) → loop w handle [] s ≡ ok s
unfolding loop
loop-nil w handle s = refl
