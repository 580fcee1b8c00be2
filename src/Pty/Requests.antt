-- ===== src/Pty/Requests.antt =====
-- pty_libghostty.go: the requests that run on the dispatcher and answer. An error is none, or a
-- value; of a request on a closed PTY `do` returns without running it, and the answer is the one
-- that its variables begin with.
use hootty.Base.{ℕ, Bool, true, false, not, Option, none, some, [], ◌∷◌, ◌++◌, if◌then◌else◌, Bytes}
use hootty.Recorder as Rec
use hootty.Pty.{
  FormatterFormat, plain, vt, FormatterOptions, Emulator, LibghosttyPty, do_action, new_subscriber,
  snapshot_locked, snapshot_parts_locked,
}

-- An action that has not run leaves `err` nil and the answer empty.
abbrev pub or_zero : {A : Type 0} → A → Option (Option A) → Option A
or_zero zero_value none = some zero_value
or_zero zero_value (some answer) = answer

-- An action that has not run is an error here.
abbrev pub or_closed : {A : Type 0} → Option (Option A) → Option A
or_closed none = none
or_closed (some answer) = answer

abbrev pub format_options : FormatterFormat → FormatterOptions
format_options f = record { format = f; trim = true; extras = false }

pub data Resized : Type 0 where
  resized setsize_failed term_failed : Resized

-- The capacity of the channel of an attach.
abbrev pub live_capacity : ℕ
live_capacity = 256

abbrev pub subscribed_with :
    {T A : Type 0} → LibghosttyPty T → Option A → LibghosttyPty T × Option A
subscribed_with p none = (p, none)
subscribed_with p (some snap) =
    (record p { subs = p.subs ++ new_subscriber live_capacity ∷ [] }, some snap)

-- RecordResize, its error dropped.
abbrev pub recorded : {T : Type 0} → LibghosttyPty T → ℕ → ℕ → ℕ → LibghosttyPty T
recorded p now cols rows = record p {
  rec = elim p.rec [ none ↦ none | some r ↦ some (Rec.record_resize r now cols rows).0 ];
}

module _ {T : Type 0} (E : Emulator T) where
  -- formatBytes
  unfoldable pub format_bytes : FormatterFormat → LibghosttyPty T → Option Bytes
  format_bytes f p =
      let (q, answer) =
        do_action p
          λ p. (p, elim p.term [ none ↦ none | some t ↦ E.format (format_options f) t ]) in
      or_zero [] answer

  -- Capture ignores the number of lines.
  unfoldable pub capture : ℕ → Bool → LibghosttyPty T → Option Bytes
  unfolding format_bytes
  capture lines with_escapes p = format_bytes (if with_escapes then vt else plain) p

  unfoldable pub snapshot : LibghosttyPty T → Option Bytes
  unfolding snapshot_locked
  snapshot p = or_zero [] (do_action p λ p. (p, snapshot_locked E p)).1

  unfoldable pub snapshot_parts : LibghosttyPty T → Option (Bytes × Bytes)
  unfolding snapshot_parts_locked
  snapshot_parts p = or_zero ([], []) (do_action p λ p. (p, snapshot_parts_locked E p)).1

  unfoldable pub bracketed_paste_active : LibghosttyPty T → Bool
  bracketed_paste_active p =
      let answer =
        (do_action p λ p. (p, elim p.term [ none ↦ none | some t ↦ E.mode_bracketed_paste t ])).1 in
      elim (or_closed answer) [ none ↦ false | some v ↦ v ]

  -- SubscribeWithSnapshot and SubscribeWithSnapshotParts. The channel is put in the map before the
  -- snapshot and taken out again where that fails; nobody has seen it then.
  unfoldable pub subscribe_with_snapshot : LibghosttyPty T → LibghosttyPty T × Option Bytes
  unfolding snapshot_locked
  subscribe_with_snapshot p =
      let (q, answer) = do_action p λ p. subscribed_with p (snapshot_locked E p) in
      (q, or_closed answer)

  unfoldable pub subscribe_with_snapshot_parts :
      LibghosttyPty T → LibghosttyPty T × Option (Bytes × Bytes)
  unfolding snapshot_parts_locked
  subscribe_with_snapshot_parts p =
      let (q, answer) = do_action p λ p. subscribed_with p (snapshot_parts_locked E p) in
      (q, or_closed answer)

  unfoldable pub resize_primary : LibghosttyPty T → ℕ → ℕ → ℕ → LibghosttyPty T × Bool
  unfolding Rec.record_resize
  resize_primary p now cols rows = elim p.primary_term [
    | none ↦ (recorded p now cols rows, true)
    | some t ↦ elim (E.resize t cols rows) [
      | none ↦ (p, false)
      | some t ↦ (recorded (record p { primary_term = some t }) now cols rows, true)
    ]
  ]

  -- The action of Resize; false is an error of a terminal, or a closed one.
  unfoldable pub resize_terms : LibghosttyPty T → ℕ → ℕ → ℕ → LibghosttyPty T × Bool
  unfolding resize_primary
  resize_terms p now cols rows = elim p.term [
    | none ↦ (p, false)
    | some t ↦ elim (E.resize t cols rows) [
      | none ↦ (p, false)
      | some t ↦ resize_primary (record p { term = some t }) now cols rows
    ]
  ]

  -- Resize; `setsize` is whether the kernel took the size.
  unfoldable pub resize : LibghosttyPty T → Bool → ℕ → ℕ → ℕ → LibghosttyPty T × Resized
  unfolding resize_terms
  resize p setsize now cols rows =
      let (q, answer) = do_action p λ p. resize_terms p now cols rows in
      let size_kept : LibghosttyPty T × Resized = (q, term_failed) in
      let size_set : LibghosttyPty T × Resized = (record q { cols = cols; rows = rows }, resized) in
      if not setsize
      then (p, setsize_failed)
      else elim answer [ none ↦ size_set | some ok ↦ if ok then size_set else size_kept ]
