-- ===== src/EventBus.antt =====
-- eventbus.go: the events of a session and their subscribers. The bus is the list of the channels
-- that it made, in the order of one walk of the map; `subscribed` is membership of `subs`, and a
-- channel that leaves it is closed in the same step.
pub mod Buffers
mod Tests
use hootty.Base.{
  ℕ, Bool, true, false, List, [], ◌∷◌, ◌++◌, map, ltb, ◌==◌, ◌&&◌, if◌then◌else◌, length, Bytes,
}

pub record Event : Type 0 where
  pub type : Bytes
  pub payload : Bytes

pub record Channel : Type 0 where
  pub id : ℕ
  pub buffer : List Event
  pub subscribed : Bool

abbrev pub EventBus : Type 0
EventBus = List Channel

-- The capacity that Subscribe gives a channel.
abbrev pub capacity : ℕ
capacity = 16

abbrev pub new_event_bus : EventBus
new_event_bus = []

unfoldable pub subscribe : EventBus → ℕ → EventBus
subscribe b id = b ++ record { id = id; buffer = []; subscribed = true } ∷ []

abbrev pub unsubscribed : Channel → Channel
unsubscribed ch = record ch { subscribed = false }

-- The cancel function of the channel `id`.
unfoldable pub cancel : EventBus → ℕ → EventBus
cancel b id = map (λ ch. if ch.id == id then unsubscribed ch else ch) b

-- `select { case ch <- ev: default: }`
abbrev pub offer : Event → Channel → Channel
offer ev ch =
    if ch.subscribed && ltb (length ch.buffer) capacity
    then record ch { buffer = ch.buffer ++ ev ∷ [] }
    else ch

unfoldable pub publish : EventBus → Event → EventBus
publish b ev = map (offer ev) b

unfoldable pub close_all : EventBus → EventBus
close_all b = map unsubscribed b
