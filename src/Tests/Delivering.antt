-- ===== src/Tests/Delivering.antt =====
-- Events on a channel for two, and on one for one.
use edge_route_gw.Prelude.{ℕ, [], ◌∷◌, ◌≡◌, refl, arith}
use edge_route_gw.Events.{evicting, offering_again, Channel, advance, publish_alone}
use edge_route_gw.Events.Delivery.{IsPublished, publish_alone-IsPublished}

delivery : Unit {0}
unfolding advance publish_alone
delivery = tt

abbrev full : Channel ℕ
full = record { queue = 1 ∷ 2 ∷ []; accepted = 1 ∷ 2 ∷ []; taken = []; given_up = []; dropped = 0 }

oldest_goes : (publish_alone 2 3 full).0.queue ≡ 2 ∷ 3 ∷ []
unfolding delivery
oldest_goes = refl

abbrev single : Channel ℕ
single = record { queue = 1 ∷ []; accepted = 1 ∷ []; taken = []; given_up = []; dropped = 0 }

abbrev made_room : Channel ℕ
made_room = (advance 1 (evicting 2) single).0

-- A second publisher takes the place that the first has made, and the event of the first is lost.
newest_lost : (advance 1 (offering_again 2) (publish_alone 1 3 made_room).0).0.given_up ≡ 2 ∷ []
unfolding delivery
newest_lost = refl

publish_alone-IsPublished_example : IsPublished 2 3 full (publish_alone 2 3 full)
publish_alone-IsPublished_example =
    publish_alone-IsPublished 2 3 full (omega arith) (omega arith, refl)
