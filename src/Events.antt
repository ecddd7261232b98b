-- ===== src/Events.antt =====
-- internal/events/bus.go: the delivery of events to one subscriber, whose channel many publishers
-- and the reader share. Each operation on the channel is one step, and the steps of different
-- publishers mix in any order, since Publish holds the lock for reading only. The kind and the data of
-- an event are one value.
pub mod Delivery
use edge_route_gw.Prelude.{
  ℕ, zero, suc, ◌+◌, Bool, true, false, List, [], ◌∷◌, ◌++◌, Option, none, some, map, length, ltb,
  ◌==◌,
}

-- the size that `New` gives the channels
abbrev pub buffer_size : ℕ → ℕ
buffer_size zero = 64
buffer_size (suc n) = suc n

-- The place in `Publish` at which an event stands: before the first send, before the oldest event
-- is taken out, before the second send.
pub data Phase (Event : Type 0) : Type 0 where
  offering evicting offering_again : Event → Phase Event

-- A channel: what it holds, and what has been put in, taken out, and given up. The code keeps the
-- first and the count of the evicted only.
pub record Channel (Event : Type 0) : Type 0 where
  pub queue : List Event
  pub accepted : List Event
  pub taken : List Event
  pub given_up : List Event
  pub dropped : ℕ

-- The channel of a subscriber and the publishers that have an event for it under way.
pub record System (Event : Type 0) : Type 0 where
  pub channel : Channel Event
  pub publishers : List (Phase Event)
  pub published : ℕ

module _ {Event : Type 0} where
  abbrev pub put : Event → Channel Event → Channel Event
  put e c = record c { queue = c.queue ++ e ∷ []; accepted = c.accepted ++ e ∷ [] }

  abbrev pub take_from : List Event → Channel Event → Channel Event
  take_from [] c = c
  take_from (x ∷ rest) c = record c { queue = rest; taken = c.taken ++ x ∷ [] }

  abbrev pub evict : List Event → Channel Event → Channel Event
  evict [] c = c
  evict (x ∷ rest) c = record c { queue = rest; taken = c.taken ++ x ∷ []; dropped = c.dropped + 1 }

  -- a send that does not wait, with and without room
  abbrev pub offered : Bool → Event → Channel Event → Channel Event × Option (Phase Event)
  offered true e c = (put e c, none)
  offered false e c = (c, some (evicting e))

  abbrev pub offered_again : Bool → Event → Channel Event → Channel Event × Option (Phase Event)
  offered_again true e c = (put e c, none)
  offered_again false e c = (record c { given_up = c.given_up ++ e ∷ [] }, none)

  module _ (size : ℕ) where
    -- One operation of a publisher; none where it is done with the event.
    unfoldable pub advance : Phase Event → Channel Event → Channel Event × Option (Phase Event)
    advance (offering e) c = offered (ltb (length c.queue) size) e c
    advance (evicting e) c = (evict c.queue c, some (offering_again e))
    advance (offering_again e) c = offered_again (ltb (length c.queue) size) e c

    -- The rest of `Publish` for one subscriber if nothing comes between, within so many operations.
    unfoldable pub finish :
        ℕ → Option (Phase Event) → Channel Event → Channel Event × Option (Phase Event)
    unfolding advance
    finish n none c = (c, none)
    finish zero (some p) c = (c, some p)
    finish (suc n) (some p) c = let (c', p') = advance p c in finish n p' c'

    -- `Publish` for one subscriber, alone
    unfoldable pub publish_alone : Event → Channel Event → Channel Event × Option (Phase Event)
    unfolding finish
    publish_alone e c = finish 3 (some (offering e)) c

  abbrev pub keep_phase : Option (Phase Event) → List (Phase Event) → List (Phase Event)
  keep_phase none rest = rest
  keep_phase (some p) rest = p ∷ rest

  abbrev pub empty_channel : Channel Event
  empty_channel = record { queue = []; accepted = []; taken = []; given_up = []; dropped = 0 }

  -- `Subscribe`
  abbrev pub subscribed : System Event
  subscribed = record { channel = empty_channel; publishers = []; published = 0 }

-- What can happen next to a channel of a size.
pub data Step {Event : Type 0} (size : ℕ) : System Event → System Event → Type 0 where
  publish :
      (s : System Event) (e : Event)
      → Step size s
          (record s { publishers = offering e ∷ s.publishers; published = suc s.published })
  move :
      (c : Channel Event) (pre post : List (Phase Event)) (p : Phase Event) (n : ℕ)
      → Step size
          (record { channel = c; publishers = pre ++ p ∷ post; published = n })
          (record {
            channel = (advance size p c).0;
            publishers = pre ++ keep_phase (advance size p c).1 post;
            published = n;
          })
  receive :
      (s : System Event) → Step size s (record s { channel = take_from s.channel.queue s.channel })

pub data Reach {Event : Type 0} (size : ℕ) (s : System Event) : System Event → Type 0 where
  here : Reach size s s
  next : {t u : System Event} → Reach size s t → Step size t u → Reach size s u
