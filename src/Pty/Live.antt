-- ===== src/Pty/Live.antt =====
-- What a subscriber reads, over any interleaving of the dispatcher's actions and its own reads.
use hootty.Base.{
  ℕ, zero, suc, Bool, true, false, not, ◌&&◌, Option, none, some, List, [], ◌∷◌, ◌++◌, map, ◌≡◌,
  ◌≢◌, refl, ap, arith, ltb, ◌==◌, if◌then◌else◌, length, Bytes,
}
use hootty.Pty.{
  Emulator, LibghosttyPty, Subscriber, cancel, subscribe, sub_at, update_at, read_chunk,
}

pub data Event : Type 0 where
  -- A chunk of the child's output, and the time.
  read : ℕ → Bytes → Event
  -- The holder of a channel receives from it.
  taken : ℕ → Event
  -- Another subscription, of a capacity; and the end of one.
  subscribed : ℕ → Event
  cancelled : ℕ → Event

abbrev pub concat : List Bytes → Bytes
concat [] = []
concat (bs ∷ bss) = bs ++ concat bss

abbrev pub tail : List Bytes → List Bytes
tail [] = []
tail (c ∷ cs) = cs

abbrev pub head : List Bytes → Bytes
head [] = []
head (c ∷ cs) = c

abbrev pub buffer_of : Option Subscriber → List Bytes
buffer_of none = []
buffer_of (some s) = s.buffer

abbrev pub has_room : Option Subscriber → Bool
has_room none = false
has_room (some s) = ltb (length s.buffer) s.capacity

-- A receive from a channel; from an empty one it waits.
abbrev pub take_one : Subscriber → Subscriber
take_one s = record s { buffer = tail s.buffer }

-- The output of the child that the events carry.
abbrev pub output : List Event → Bytes
output [] = []
output (read now chunk ∷ es) = chunk ++ output es
output (taken k ∷ es) = output es
output (subscribed c ∷ es) = output es
output (cancelled k ∷ es) = output es

module _ {T : Type 0} (E : Emulator T) where
  unfoldable pub step : LibghosttyPty T → Event → LibghosttyPty T
  unfolding read_chunk subscribe cancel
  step p (read now chunk) = read_chunk E p now chunk
  step p (taken k) = record p { subs = update_at k take_one p.subs }
  step p (subscribed capacity) = subscribe capacity p
  step p (cancelled k) = cancel k p

  unfoldable pub run : LibghosttyPty T → List Event → LibghosttyPty T
  unfolding step
  run p [] = p
  run p (e ∷ es) = run (step p e) es

  -- What channel `k` yields meanwhile.
  unfoldable pub received : ℕ → LibghosttyPty T → List Event → Bytes
  unfolding step
  received k p [] = []
  received k p (taken j ∷ es) =
      let rest = received k (step p (taken j)) es in
      if j == k then head (buffer_of (sub_at k p.subs)) ++ rest else rest
  received k p (e ∷ es) = received k (step p e) es

  -- Channel `k` is not cancelled and has room whenever output arrives.
  unfoldable pub keeps_up : ℕ → LibghosttyPty T → List Event → Bool
  unfolding step
  keeps_up k p [] = true
  keeps_up k p (read now chunk ∷ es) =
      has_room (sub_at k p.subs) && keeps_up k (step p (read now chunk)) es
  keeps_up k p (cancelled j ∷ es) = not (j == k) && keeps_up k (step p (cancelled j)) es
  keeps_up k p (e ∷ es) = keeps_up k (step p e) es

pub sub_at-map :
    (k : ℕ) (subs : List Subscriber) (f : Subscriber → Subscriber) (s : Subscriber)
    → sub_at k subs ≡ some s
    → sub_at k (map f subs) ≡ some (f s)
sub_at-map k [] f s h = grind (arith, h)
sub_at-map zero (x ∷ subs) f s h = grind (arith, h)
sub_at-map (suc k) (x ∷ subs) f s h = sub_at-map k subs f s h

pub sub_at-append :
    (k : ℕ) (subs more : List Subscriber) (s : Subscriber)
    → sub_at k subs ≡ some s
    → sub_at k (subs ++ more) ≡ some s
sub_at-append k [] more s h = grind (arith, h)
sub_at-append zero (x ∷ subs) more s h = h
sub_at-append (suc k) (x ∷ subs) more s h = sub_at-append k subs more s h

pub sub_at-update_same :
    (k : ℕ) (subs : List Subscriber) (f : Subscriber → Subscriber) (s : Subscriber)
    → sub_at k subs ≡ some s
    → sub_at k (update_at k f subs) ≡ some (f s)
sub_at-update_same k [] f s h = grind (arith, h)
sub_at-update_same zero (x ∷ subs) f s h = grind (arith, h)
sub_at-update_same (suc k) (x ∷ subs) f s h = sub_at-update_same k subs f s h

pub sub_at-update_other :
    (j k : ℕ) (subs : List Subscriber) (f : Subscriber → Subscriber)
    → j ≢ k
    → sub_at k (update_at j f subs) ≡ sub_at k subs
sub_at-update_other j k [] f h = refl
sub_at-update_other zero zero (x ∷ subs) f h = absurd (h refl)
sub_at-update_other zero (suc k) (x ∷ subs) f h = refl
sub_at-update_other (suc j) zero (x ∷ subs) f h = refl
sub_at-update_other (suc j) (suc k) (x ∷ subs) f h =
    sub_at-update_other j k subs f (λ e. h (ap suc e))
