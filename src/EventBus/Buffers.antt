-- ===== src/EventBus/Buffers.antt =====
-- What a subscriber that does not read finds in its channel.
use hootty.Base.{
  ◌≤◌, List, [], ◌∷◌, ◌++◌, map, ◌≡◌, refl, sym, ap, ◌∙◌, arith, ltb, if◌then◌else◌, length, take,
  All, take-all, take-length-append, append-nil, append_assoc, length-append, Bool-cases, inl, inr,
}
use hootty.EventBus.{Event, Channel, EventBus, capacity, offer, publish}

unfoldable pub publish_all : EventBus → List Event → EventBus
unfolding publish
publish_all b [] = b
publish_all b (ev ∷ evs) = publish_all (publish b ev) evs

abbrev pub WithinCapacity : Channel → Type 0
WithinCapacity ch = length ch.buffer ≤ capacity

-- The first events up to the capacity.
abbrev pub first_events : List Event → Channel → Channel
first_events evs ch =
    if ch.subscribed then record ch { buffer = take capacity (ch.buffer ++ evs) } else ch

offer-WithinCapacity :
    (ev : Event) (ch : Channel) → WithinCapacity ch → WithinCapacity (offer ev ch)
offer-WithinCapacity ev ch h = ground (arith, length-append ch.buffer (ev ∷ []))

first_events-none : (ch : Channel) → WithinCapacity ch → first_events [] ch ≡ ch
first_events-none ch h = elim (Bool-cases ch.subscribed) [
  | inl e ↦
      let whole = ap (take capacity) (append-nil ch.buffer) ∙ take-all capacity ch.buffer h in
      ground (arith, whole)
  | inr e ↦ ground arith
]

full_stays : (xs ys : List Event) → length xs ≡ capacity → take capacity (xs ++ ys) ≡ xs
full_stays xs ys h = ap (λ n. take n (xs ++ ys)) (sym h) ∙ take-length-append xs ys

first_events-offer :
    (ev : Event) (evs : List Event) (ch : Channel)
    → WithinCapacity ch
    → first_events evs (offer ev ch) ≡ first_events (ev ∷ evs) ch
first_events-offer ev evs ch h = elim (Bool-cases (ltb (length ch.buffer) capacity)) [
  | inl e ↦ ground (arith, append_assoc ch.buffer (ev ∷ []) evs)
  | inr e ↦
      let at_capacity : length ch.buffer ≡ capacity = ground arith in
      ground
        (arith, full_stays ch.buffer evs at_capacity, full_stays ch.buffer (ev ∷ evs) at_capacity)
]

map-offer :
    (b : EventBus) (ev : Event) (evs : List Event)
    → All WithinCapacity b
    → map (first_events evs) (map (offer ev) b) ≡ map (first_events (ev ∷ evs)) b
map-offer [] ev evs h = refl
map-offer (ch ∷ b) ev evs h = rw (first_events-offer ev evs ch h.0, map-offer b ev evs h.1) refl

All-offer :
    (b : EventBus) (ev : Event) → All WithinCapacity b → All WithinCapacity (map (offer ev) b)
All-offer [] ev h = tt
All-offer (ch ∷ b) ev h = (offer-WithinCapacity ev ch h.0, All-offer b ev h.1)

map-none : (b : EventBus) → All WithinCapacity b → b ≡ map (first_events []) b
map-none [] h = refl
map-none (ch ∷ b) h = rw (first_events-none ch h.0, ← map-none b h.1) refl

-- Events published while nobody reads: every subscriber keeps the oldest ones up to the capacity
-- of 16 and loses the newest, and a channel that is not subscribed stays as it is.
pub publish_all-first_events :
    (evs : List Event) (b : EventBus)
    → All WithinCapacity b
    → publish_all b evs ≡ map (first_events evs) b
unfolding publish_all
publish_all-first_events [] b h = map-none b h
publish_all-first_events (ev ∷ evs) b h =
    publish_all-first_events evs (map (offer ev) b) (All-offer b ev h) ∙ map-offer b ev evs h
