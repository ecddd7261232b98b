-- ===== src/Events/Delivery.antt =====
-- What a subscriber of internal/events/bus.go is promised.
use edge_route_gw.Prelude.{
  ℕ, suc, ◌+◌, ◌≤◌, ◌<◌, Bool, true, false, List, [], ◌∷◌, ◌++◌, Option, none, some, ◌≡◌, refl, sym,
  ap, ◌∙◌, arith, length, min, length-append, append_assoc, ltb, inl, inr, Bool-cases, ltb→lt,
  lt→ltb,
}
use edge_route_gw.Events.{
  Phase, offering, evicting, offering_again, Channel, put, take_from, evict, offered, offered_again,
  advance, finish, publish_alone, keep_phase, System, Step, publish, move, receive, Reach, here,
  next, subscribed,
}

module _ {Event : Type 0} (size : ℕ) where
  -- The channel is not overfull, and what came out with what is in it is what was put in, in order.
  abbrev IsOrderly : Channel Event → Type 0
  IsOrderly c = (length c.queue ≤ size) × (c.accepted ≡ c.taken ++ c.queue)

  put-IsOrderly :
      (e : Event) (c : Channel Event) → IsOrderly c → length c.queue < size → IsOrderly (put e c)
  put-IsOrderly e c (h, o) k = (
    omega (arith, length-append c.queue (e ∷ [])),
    ap (λ l. l ++ e ∷ []) o ∙ append_assoc c.taken c.queue (e ∷ []),
  )

  -- Taking out the oldest moves it from one list to the end of the other.
  pulled :
      (c : Channel Event) (x : Event) (rest : List Event)
      → c.queue ≡ x ∷ rest
      → IsOrderly c
      → (length rest ≤ size) × (c.accepted ≡ (c.taken ++ x ∷ []) ++ rest)
  pulled c x rest q (h, o) =
      let n : length c.queue ≡ suc (length rest) = ap length q in
      (omega arith, o ∙ ap (λ l. c.taken ++ l) q ∙ sym (append_assoc c.taken (x ∷ []) rest))

  take_from-IsOrderly :
      (q : List Event) (c : Channel Event) → c.queue ≡ q → IsOrderly c → IsOrderly (take_from q c)
  take_from-IsOrderly [] c e h = h
  take_from-IsOrderly (x ∷ rest) c e h = pulled c x rest e h

  evict-IsOrderly :
      (q : List Event) (c : Channel Event) → c.queue ≡ q → IsOrderly c → IsOrderly (evict q c)
  evict-IsOrderly [] c e h = h
  evict-IsOrderly (x ∷ rest) c e h = pulled c x rest e h

  advance-IsOrderly :
      (p : Phase Event) (c : Channel Event) → IsOrderly c → IsOrderly (advance size p c).0
  unfolding advance
  advance-IsOrderly (offering e) c h = elim (Bool-cases (ltb (length c.queue) size)) [
    | inl room ↦ rw room (put-IsOrderly e c h (ltb→lt _ _ room))
    | inr full ↦ rw full h
  ]
  advance-IsOrderly (evicting e) c h = evict-IsOrderly c.queue c refl h
  advance-IsOrderly (offering_again e) c h = elim (Bool-cases (ltb (length c.queue) size)) [
    | inl room ↦ rw room (put-IsOrderly e c h (ltb→lt _ _ room))
    | inr full ↦ rw full h
  ]

  abbrev underway : Option (Phase Event) → ℕ
  underway none = 0
  underway (some p) = 1

  advance-count :
      (p : Phase Event) (c : Channel Event)
      → length (advance size p c).0.accepted
          + length (advance size p c).0.given_up
          + underway (advance size p c).1
        ≡ length c.accepted + length c.given_up + 1
  unfolding advance
  advance-count (offering e) c = elim (Bool-cases (ltb (length c.queue) size)) [
    | inl room ↦ rw room (omega (arith, length-append c.accepted (e ∷ [])))
    | inr full ↦ rw full
  ]
  advance-count (evicting e) c = evicted c.queue
    where
      evicted :
          (q : List Event)
          → length (evict q c).accepted + length (evict q c).given_up + 1
            ≡ length c.accepted + length c.given_up + 1
      evicted [] = refl
      evicted (x ∷ rest) = refl
  advance-count (offering_again e) c = elim (Bool-cases (ltb (length c.queue) size)) [
    | inl room ↦ rw room (omega (arith, length-append c.accepted (e ∷ [])))
    | inr full ↦ rw full (omega (arith, length-append c.given_up (e ∷ [])))
  ]

  length-keep_phase :
      (o : Option (Phase Event)) (rest : List (Phase Event))
      → length (keep_phase o rest) ≡ underway o + length rest
  length-keep_phase none rest = omega arith
  length-keep_phase (some p) rest = omega arith

  take_from-count :
      (q : List Event) (c : Channel Event)
      → ((take_from q c).accepted ≡ c.accepted) × ((take_from q c).given_up ≡ c.given_up)
  take_from-count [] c = (refl, refl)
  take_from-count (x ∷ rest) c = (refl, refl)

  -- Every event that was published was put in, given up, or is still under way.
  abbrev IsAccounted : System Event → Type 0
  IsAccounted s =
      s.published ≡ length s.channel.accepted + length s.channel.given_up + length s.publishers

  Step-IsOrderly : {s t : System Event} → Step size s t → IsOrderly s.channel → IsOrderly t.channel
  Step-IsOrderly (publish s e) h = h
  Step-IsOrderly (move c pre post p n) h = advance-IsOrderly p c h
  Step-IsOrderly (receive s) h = take_from-IsOrderly s.channel.queue s.channel refl h

  Step-IsAccounted : {s t : System Event} → Step size s t → IsAccounted s → IsAccounted t
  Step-IsAccounted (publish s e) h = omega (arith, h)
  Step-IsAccounted (move c pre post p n) h = omega (
    arith,
    h,
    advance-count p c,
    length-append pre (p ∷ post),
    length-append pre (keep_phase (advance size p c).1 post),
    length-keep_phase (advance size p c).1 post,
  )
  Step-IsAccounted (receive s) h =
      let (a, g) = take_from-count s.channel.queue s.channel in rw (a, g) h

  -- In whatever order the operations of the publishers and the reader come, a channel never holds more
  -- than its size, what was taken out and what is in it is what was put in, in order, and every
  -- event that was published was put in, given up, or is under way.
  Reach-IsOrderly :
      (t : System Event) → Reach size subscribed t → IsOrderly t.channel × IsAccounted t
  Reach-IsOrderly t here = ((omega arith, refl), omega arith)
  Reach-IsOrderly t (next r step) =
      let (o, a) = Reach-IsOrderly _ r in (Step-IsOrderly step o, Step-IsAccounted step a)

  -- The publication has ended, the event is the last one in, and nothing is given up.
  abbrev pub IsPublished : Event → Channel Event → Channel Event × Option (Phase Event) → Type 0
  IsPublished e c out =
      (out.1 ≡ none)
      × (out.0.accepted ≡ c.accepted ++ e ∷ [])
      × (out.0.given_up ≡ c.given_up)
      × (length out.0.queue ≡ min (length c.queue + 1) size)

  resent :
      (e : Event) (c : Channel Event) (b : Bool)
      → b ≡ true
      → finish size 0 (offered_again b e c).1 (offered_again b e c).0 ≡ (put e c, none)
  unfolding finish
  resent e c true h = refl
  resent e c false h = absurd (cc)

  second_send :
      (e : Event) (c : Channel Event)
      → length c.queue < size
      → finish size 1 (some (offering_again e)) c ≡ (put e c, none)
  unfolding finish advance
  second_send e c h = resent e c _ (lt→ltb _ _ h)

  evicted-IsPublished :
      (e : Event) (c : Channel Event) (q : List Event)
      → length c.queue ≡ length q
      → length q ≡ size
      → 0 < size
      → IsPublished e c (finish size 1 (some (offering_again e)) (evict q c))
  evicted-IsPublished e c [] n m h = absurd (omega arith)
  evicted-IsPublished e c (x ∷ rest) n m h =
      let gone = evict (x ∷ rest) c in
      rw (second_send e gone (omega arith))
        (refl, refl, refl, omega (arith, length-append rest (e ∷ [])))

  first_send-IsPublished :
      (e : Event) (c : Channel Event) (b : Bool)
      → ltb (length c.queue) size ≡ b
      → 0 < size
      → length c.queue ≤ size
      → IsPublished e c (finish size 2 (offered b e c).1 (offered b e c).0)
  unfolding finish advance
  first_send-IsPublished e c true room h o =
      (refl, refl, refl, ground (arith, room, length-append c.queue (e ∷ [])))
  first_send-IsPublished e c false full h o =
      evicted-IsPublished e c c.queue refl (ground (arith, full)) h

  -- A publisher that nothing comes between always gets its event into a channel that has a size: the
  -- publication ends, the event is the last one in, nothing is given up, and the channel holds one
  -- event more, or is full as it was.
  pub publish_alone-IsPublished :
      (e : Event) (c : Channel Event)
      → 0 < size
      → IsOrderly c
      → IsPublished e c (publish_alone size e c)
  unfolding publish_alone finish advance
  publish_alone-IsPublished e c h (o, _) = first_send-IsPublished e c _ refl h o
