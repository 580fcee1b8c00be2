-- ===== src/Pty.antt =====
-- pty_libghostty.go: the PTY of a session. One goroutine, the dispatcher, runs one action at a time
-- on the emulator, the recorder and the subscribers, so an action is one step of the model. The
-- emulator is libghostty's, a parameter; the kernel's side of the PTY is a file that is written.
pub mod Attach
pub mod Live
pub mod Paste
pub mod Requests
pub mod Routes
pub mod Sample
pub mod Split
pub mod Stream
pub mod Streaming
mod Tests
use hootty.Base.{
  ℕ, zero, suc, ◌+◌, Bool, true, false, not, ◌&&◌, Option, none, some, List, [], ◌∷◌, ◌++◌, map,
  ltb, ◌==◌, if◌then◌else◌, length, Bytes,
}
use hootty.Io.{File, write_file}
use hootty.Recorder as Rec
use hootty.Stripper as Query
use hootty.PrimaryFilter as Primary
use Split.{split_snapshot_rows}

pub data FormatterFormat : Type 0 where
  plain vt html : FormatterFormat

-- The options of libghostty.NewFormatter that the code gives: `extras` are the cursor, the style,
-- the modes and both keyboard states, all together.
pub record FormatterOptions : Type 0 where
  pub format : FormatterFormat
  pub trim : Bool
  pub extras : Bool

-- libghostty.Terminal; none is an error. VTWrite also returns what it hands to the callback of
-- WithWritePty.
pub record Emulator (T : Type 0) : Type 0 where
  pub vt_write : T → Bytes → T × Bytes
  pub resize : T → ℕ → ℕ → Option T
  pub mode_bracketed_paste : T → Option Bool
  pub is_alternate : T → Option Bool
  pub scrollback_rows : T → Option ℕ
  pub format : FormatterOptions → T → Option Bytes

-- A channel and its stripper. `subscribed` is its place in `subs`: a channel that has left the map
-- is closed, and what is in it can still be read.
pub record Subscriber : Type 0 where
  pub subscribed : Bool
  pub capacity : ℕ
  pub buffer : List Bytes
  pub stripper : Query.VtQueryStripper

-- `subs` keeps every channel ever made, its place being its identity; `done` is `p.done` closed.
pub record LibghosttyPty (T : Type 0) : Type 0 where
  pub master : File
  pub term : Option T
  pub primary_term : Option T
  pub primary_filter : Primary.VtPrimaryScreenFilter
  pub cols : ℕ
  pub rows : ℕ
  pub subs : List Subscriber
  pub rec : Option Rec.Recorder
  pub done : Bool

-- `do`: the action, or none where the PTY is closed.
abbrev pub do_action :
    {T A : Type 0}
    → LibghosttyPty T
    → (LibghosttyPty T → LibghosttyPty T × A)
    → LibghosttyPty T × Option A
do_action p fn = if p.done then (p, none) else (let (p, a) = fn p in (p, some a))

abbrev pub new_subscriber : ℕ → Subscriber
new_subscriber capacity = record {
  subscribed = true;
  capacity = capacity;
  buffer = [];
  stripper = Query.initial;
}

-- Where the channel is full the chunk is lost; the stripper has read it.
unfoldable pub deliver : Bytes → Subscriber → Subscriber
unfolding Query.filter
deliver chunk s =
    if not s.subscribed
    then s
    else (let (stripper, filtered) = Query.filter s.stripper chunk in
        let s = record s { stripper = stripper } in
        if length filtered == 0
        then s
        else if ltb (length s.buffer) s.capacity
        then record s { buffer = s.buffer ++ filtered ∷ [] }
        else s)

-- readLoop's action, one statement at a time. The recorder's error is dropped.
unfoldable pub tee_recorder : {T : Type 0} → LibghosttyPty T → ℕ → Bytes → LibghosttyPty T
unfolding Rec.write
tee_recorder p now chunk = elim p.rec [
  | none ↦ p
  | some r ↦ record p { rec = some (Rec.write r now chunk).0 }
]

unfoldable pub fan_out : {T : Type 0} → LibghosttyPty T → Bytes → LibghosttyPty T
unfolding deliver
fan_out p chunk = record p { subs = map (deliver chunk) p.subs }

-- Every option of the snapshots.
abbrev pub snapshot_options : FormatterOptions
snapshot_options = record { format = vt; trim = true; extras = true }

-- `if err != nil { return nil, err }`
infixl 5 ◌>>=◌
abbrev ◌>>=◌ : {A B : Type 0} → Option A → (A → Option B) → Option B
none >>= f = none
some a >>= f = f a

-- A channel by its place.
abbrev pub sub_at : ℕ → List Subscriber → Option Subscriber
sub_at k [] = none
sub_at zero (s ∷ subs) = some s
sub_at (suc k) (s ∷ subs) = sub_at k subs

abbrev pub update_at : ℕ → (Subscriber → Subscriber) → List Subscriber → List Subscriber
update_at k f [] = []
update_at zero f (s ∷ subs) = f s ∷ subs
update_at (suc k) f (s ∷ subs) = s ∷ update_at k f subs

-- `_, ok := p.subs[ch]`
abbrev pub is_subscribed : Option Subscriber → Bool
is_subscribed none = false
is_subscribed (some s) = s.subscribed

-- `delete(p.subs, ch)` and `close(ch)`
abbrev pub unsubscribed : Subscriber → Subscriber
unsubscribed s = record s { subscribed = false }

-- The function that every subscription returns with its channel.
unfoldable pub cancel : {T : Type 0} → ℕ → LibghosttyPty T → LibghosttyPty T
cancel k p =
    (do_action p λ p. (
      if is_subscribed (sub_at k p.subs)
          then record p { subs = update_at k unsubscribed p.subs }
          else p,
      tt,
    )).0

-- subscribe and SubscribeAtRecord, which differ in the capacity; the channel is the new last one.
unfoldable pub subscribe : {T : Type 0} → ℕ → LibghosttyPty T → LibghosttyPty T
subscribe capacity p =
    (do_action p λ p. (record p { subs = p.subs ++ new_subscriber capacity ∷ [] }, tt)).0

-- Close. With `room` for one more action it runs, and all subscribers, the terminals and the
-- recorder are closed; with a full queue the select takes its default.
unfoldable pub close : {T : Type 0} → Bool → Rec.Status → LibghosttyPty T → LibghosttyPty T
unfolding Rec.close
close room of_file p =
    if p.done
    then p
    else if room
    then record p {
      subs = map unsubscribed p.subs;
      term = none;
      primary_term = none;
      rec = elim p.rec [ none ↦ none | some r ↦ some (Rec.close r of_file).0 ];
      done = true;
    }
    else record p { done = true }

-- Write; false is an error.
unfoldable pub write : {T : Type 0} → LibghosttyPty T → Bytes → LibghosttyPty T × Bool
write p data_ = let (f, whole) = write_file p.master data_ in (record p { master = f }, whole)

module _ {T : Type 0} (E : Emulator T) where
  unfoldable pub feed_term : LibghosttyPty T → Bytes → LibghosttyPty T
  feed_term p chunk = elim p.term [
    | none ↦ p
    | some t ↦
        let (t, reply) = E.vt_write t chunk in
        record p { term = some t; master = (write_file p.master reply).0 }
  ]

  -- The mirror of the primary screen has no callback.
  unfoldable pub feed_primary : LibghosttyPty T → Bytes → LibghosttyPty T
  unfolding Primary.filter
  feed_primary p chunk = elim p.primary_term [
    | none ↦ p
    | some t ↦
        let (f, primary_chunk) = Primary.filter p.primary_filter chunk in
        let t = if ltb 0 (length primary_chunk) then (E.vt_write t primary_chunk).0 else t in
        record p { primary_filter = f; primary_term = some t }
  ]

  -- One round of readLoop: a chunk that the master yields, `now` milliseconds after the start.
  unfoldable pub read_chunk : LibghosttyPty T → ℕ → Bytes → LibghosttyPty T
  unfolding tee_recorder feed_term feed_primary fan_out
  read_chunk p now chunk =
      (do_action p λ p.
        (fan_out (feed_primary (feed_term (tee_recorder p now chunk) chunk) chunk) chunk, tt)).0

  unfoldable pub format_terminal_snapshot : T → Option Bytes
  format_terminal_snapshot t = E.format snapshot_options t

  unfoldable pub format_terminal_snapshot_parts : T → Option (Bytes × Bytes)
  unfolding format_terminal_snapshot split_snapshot_rows
  format_terminal_snapshot_parts t = do
    snap ← format_terminal_snapshot t
    rows ← E.scrollback_rows t
    some (split_snapshot_rows snap rows)

  -- The alternate screen behind the primary one.
  unfoldable pub both_screens : T → T → Option Bytes
  unfolding format_terminal_snapshot
  both_screens primary_term t = do
    primary ← format_terminal_snapshot primary_term
    alt ← format_terminal_snapshot t
    some (primary ++ alt)

  unfoldable pub snapshot_locked : LibghosttyPty T → Option Bytes
  unfolding both_screens
  snapshot_locked p = do
    t ← p.term
    alternate ← E.is_alternate t
    if not alternate then format_terminal_snapshot t else elim p.primary_term [
      | none ↦ format_terminal_snapshot t
      | some primary_term ↦ both_screens primary_term t
    ]

  unfoldable pub snapshot_parts_locked : LibghosttyPty T → Option (Bytes × Bytes)
  unfolding snapshot_locked format_terminal_snapshot_parts
  snapshot_parts_locked p = do
    t ← p.term
    alternate ← E.is_alternate t
    if alternate
        then snapshot_locked p >>= (λ snap. some ([], snap))
        else format_terminal_snapshot_parts t
