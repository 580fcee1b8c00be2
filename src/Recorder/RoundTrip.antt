-- ===== src/Recorder/RoundTrip.antt =====
-- Recording and playing back: what FrameDecoder reads from the file that a recorder wrote.
use mathlib.Core.Path.{subst}
use hootty.Base.{
  ℕ, ◌+◌, ◌/◌, ◌<◌, true, none, List, [], ◌∷◌, ◌++◌, map, ◌≡◌, refl, sym, ap, ◌∙◌, arith, ◌==◌,
  if◌then◌else◌, drop, Bytes, append-nil, Bool-cases, inl, inr,
}
use hootty.Io.{read_full, File, closes, u16}
use hootty.Recorder.{Outcome, ok, output_type, resize_type, spacer_type}
use hootty.Recorder.Frames.{RawFrame, advance, clock, Item, byte, resize, frame_items, items}
use hootty.Recorder.Flush.{Matches}
use hootty.Recorder.Timeline.{Op, events_of, IsTimeline}
use hootty.Recorder.Decoder.{Frame, Result, at_ns, decode, next_frame, read_raw}
use hootty.Recorder.Decode.{frames, frame_at, IsTail, decode-frames}
use hootty.Recorder.Decoder
use hootty.Recorder.Whole.{duration_limit, or_default, record_all, record_all-Recorded}

-- What a decoded frame shows, at its time in milliseconds.
abbrev pub frame_shows : Frame → List Item
frame_shows f =
    if f.type == output_type
    then map (byte (f.at / 1000000)) f.payload
    else if f.type == resize_type
    then resize (f.at / 1000000) (u16 f.payload) (u16 (drop 2 f.payload)) ∷ []
    else []

abbrev pub shows_of : List Frame → List Item
shows_of [] = []
shows_of (f ∷ fs) = frame_shows f ++ shows_of fs

at_ns_ms : (cum : ℕ) → cum < duration_limit → at_ns cum / 1000000 ≡ cum
unfolding at_ns
at_ns_ms cum h = omega arith

spacer_items : (at : ℕ) (f : RawFrame) → (f.type == spacer_type) ≡ true → frame_items at f ≡ []
spacer_items at f s = ground arith

shows_of-frames :
    (fs : List RawFrame) (cum : ℕ)
    → cum + clock fs < duration_limit
    → shows_of (frames cum fs) ≡ items cum fs
shows_of-frames [] cum h = refl
shows_of-frames (f ∷ fs) cum h =
    let rest_shows = shows_of-frames fs at (omega arith) in
    elim (Bool-cases (f.type == spacer_type)) [
      | inl s ↦
          ap (λ b. shows_of (if b then rest else frame_at at f ∷ rest)) s
          ∙ rest_shows
          ∙ sym (ap (λ is. is ++ items at fs) (spacer_items at f s))
      | inr s ↦
          ap (λ b. shows_of (if b then rest else frame_at at f ∷ rest)) s
          ∙ ap (λ t. shown_at t ++ shows_of rest) (at_ns_ms at (omega arith))
          ∙ ap (◌++◌ (frame_items at f)) rest_shows
    ]
  where
    at : ℕ
    at = cum + advance f

    rest : List Frame
    rest = frames at fs

    shown_at : ℕ → List Item
    shown_at t = frame_items t f

nothing_left : (tail : Bytes) → tail ≡ [] → IsTail tail
unfolding next_frame read_raw read_full
nothing_left tail e fuel cum = rw e refl

-- The recording succeeds, FrameDecoder reads the file that it leaves to its end without an error,
-- and the frames show the events in their order.
pub record PlaysBack (events : List Item) (o : Outcome) : Type 0 where
  pub shown : List Frame
  pub succeeds : o.1 ≡ ok
  pub decoded : decode (record { bytes = o.0.file.content; ending = closes }) ≡ Decoder.ok shown
  pub shows : Matches events (shows_of shown)

-- NewRecorder on an empty file that takes every write, then writes and resizes whose clock does not
-- go back and stays below 2 ^ 63 ns, then Close: every call succeeds, and FrameDecoder reads the
-- file to its end without an error. What it reads shows the events in their order: the first size
-- (80 for no columns and 24 for no rows), every byte of output at a time at most 32 ms before the
-- time of its write, and every later size at the exact time of its resize.
pub record_all-PlaysBack :
    (f : File) (cols rows : ℕ) (ops : List Op)
    → f.content ≡ []
    → f.room ≡ none
    → cols < 65536
    → rows < 65536
    → IsTimeline duration_limit 0 ops
    → PlaysBack
        (resize 0 (or_default 80 cols) (or_default 24 rows) ∷ events_of ops)
        (record_all f cols rows ops)
record_all-PlaysBack f cols rows ops fresh room hc hr t =
    let all = record_all-Recorded f cols rows ops fresh room hc hr t in
    let events = resize 0 (or_default 80 cols) (or_default 24 rows) ∷ events_of ops in
    let decoded =
      decode-frames [] (nothing_left [] refl) all.fs all.well_formed (omega (arith, all.in_time)) in
    rw all.returns (record {
      shown = frames 0 all.fs;
      succeeds = refl;
      decoded = rw all.content (rw append-nil at decoded);
      shows =
          subst (Matches events) (sym (shows_of-frames all.fs 0 (omega (arith, all.in_time))))
            all.shows;
    })
