-- ===== src/EventBus/Tests.antt =====
-- The theorem on the event bus at a concrete bus.
use hootty.Base.{true, [], ◌∷◌, map, ◌≡◌, arith}
use hootty.EventBus.{Event, EventBus}
use hootty.EventBus.Buffers.{publish_all, first_events, publish_all-first_events}

abbrev state_event : Event
state_event = record { type = b's' ∷ []; payload = b'1' ∷ [] }

abbrev one_subscriber : EventBus
one_subscriber = record { id = 1; buffer = []; subscribed = true } ∷ []

publish_all-first_events_example :
    publish_all one_subscriber (state_event ∷ state_event ∷ [])
    ≡ map (first_events (state_event ∷ state_event ∷ [])) one_subscriber
publish_all-first_events_example =
    publish_all-first_events (state_event ∷ state_event ∷ []) one_subscriber (omega arith, tt)
