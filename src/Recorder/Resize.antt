-- ===== src/Recorder/Resize.antt =====
-- RecordResize under the invariant.
use hootty.Base.{
  All-append, ℕ, ◌+◌, ◌/◌, ◌%◌, ◌<◌, true, false, List, [], ◌∷◌, ◌++◌, ◌≡◌, refl, ap, ◌∙◌, arith,
  All, append_assoc, append-nil,
}
use hootty.Io.{put_u16}
use hootty.Io.Words.{u16-put_u16}
use hootty.Recorder.{u32_max, Recorder, ok, u64_mod, u16_mod, sub_u64, flush_pending, record_resize}
use hootty.Recorder.Frames.{
  encodes-append, clock-append, items-append, RawFrame, encode, encodes, clock, Item, resize, items,
  IsFrame,
}
use hootty.Recorder.Bridge.{emit, bridge_frames, bridge_idle-emit, items-spacers, spacers-IsFrame}
use hootty.Recorder.Flush.{
  resize_shown, Matches, Matches-append, Inv, Flushed, flush_pending-Flushed, emit-Inv, cleared,
  gap_to, rest_of, bridge_clock,
}
use hootty.Recorder.Timeline.{resize_frame, write_resize_frame-grown, Steps}

-- The pending time of an idle recorder does not matter.
Inv-uncleared :
    {now : ℕ} {events : List Item} (r : Recorder)
    → r.pending_has_bucket ≡ false
    → r.pending_buf ≡ []
    → Inv now events (cleared r)
    → Inv now events r
Inv-uncleared r idle nothing v = record {
  fs = v.fs;
  room = v.room;
  content = v.content;
  well_formed = v.well_formed;
  clock_is = v.clock_is;
  in_time = v.in_time;
  nothing_pending = λ _. nothing;
  after_last = λ e. cc;
  before_now = λ e. cc;
  in_bucket = λ e. cc;
  shows = rw nothing v.shows;
}

resize_frames : ℕ → ℕ → ℕ → List RawFrame
resize_frames gap cols rows = bridge_frames gap ++ resize_frame (rest_of gap) cols rows ∷ []

resize_frames-clock : (gap cols rows : ℕ) → clock (resize_frames gap cols rows) ≡ gap
unfolding resize_frames
resize_frames-clock gap cols rows = omega (
  arith,
  clock-append (bridge_frames gap) (resize_frame (rest_of gap) cols rows ∷ []),
  bridge_clock gap,
)

items-resize_frames :
    (now gap cols rows : ℕ)
    → cols < 65536
    → rows < 65536
    → items now (resize_frames gap cols rows) ≡ resize (now + gap) cols rows ∷ []
unfolding resize_frames
items-resize_frames now gap cols rows hc hr =
    let whole : (now + clock (bridge_frames gap)) + rest_of gap ≡ now + gap =
      omega (arith, bridge_clock gap) in
    items-append now (bridge_frames gap) (resize_frame (rest_of gap) cols rows ∷ [])
    ∙ rw (items-spacers (gap / u32_max + 2) gap now)
        (ground (arith, whole, u16-put_u16 cols (put_u16 rows) hc, u16-put_u16 rows [] hr))

resize_frames-IsFrame : (gap cols rows : ℕ) → All IsFrame (resize_frames gap cols rows)
unfolding resize_frames
resize_frames-IsFrame gap cols rows =
    All-append IsFrame (bridge_frames gap) (resize_frame (rest_of gap) cols rows ∷ [])
      (spacers-IsFrame (gap / u32_max + 2) gap) (ground (arith, bridge_clock gap))

record_resize-emit :
    (now : ℕ) (events : List Item) (r : Recorder) (cols rows : ℕ)
    → r.is_open ≡ true
    → now < u64_mod
    → (f : Flushed now events r (flush_pending r))
    → record_resize r now cols rows ≡ (emit f.r' (resize_frames (gap_to f.r' now) cols rows), ok)
unfolding record_resize resize_frames
record_resize-emit now events r cols rows o fits f = ground (
  arith,
  f.returns,
  bridge_idle-emit f.r' now f.inv.room f.inv.in_time fits,
  write_resize_frame-grown bridged (rest_of gap) cols rows refl,
  delta,
  append_assoc f.r'.file.content (encodes (bridge_frames gap))
      (encode (resize_frame (rest_of gap) cols rows)),
  encodes-append (bridge_frames gap) (resize_frame (rest_of gap) cols rows ∷ []),
  clock-append (bridge_frames gap) (resize_frame (rest_of gap) cols rows ∷ []),
  bridge_clock gap,
  f.inv.in_time,
)
  where
    gap : ℕ
    gap = gap_to f.r' now

    bridged : Recorder
    bridged = emit f.r' (bridge_frames gap)

    delta : sub_u64 now bridged.last_emitted_ms % u16_mod ≡ rest_of gap
    delta = omega (arith, bridge_clock gap, f.inv.in_time)

-- record_resize succeeds, flushes what is pending, and records the resize at its exact time.
pub record_resize-Steps :
    (now : ℕ) (events : List Item) (r : Recorder) (cols rows : ℕ)
    → r.is_open ≡ true
    → Inv now events r
    → now < u64_mod
    → cols < 65536
    → rows < 65536
    → Steps now (events ++ resize now cols rows ∷ []) r (record_resize r now cols rows)
record_resize-Steps now events r cols rows o v fits hc hr =
    let nothing = f.inv.nothing_pending f.empty in
    record {
      r' = emit f.r' more;
      returns = record_resize-emit now events r cols rows o fits f;
      inv = Inv-uncleared (emit f.r' more) f.empty nothing (
          emit-Inv now events f.r' more (resize now cols rows ∷ []) f.inv
            (resize_frames-IsFrame gap cols rows)
            (omega (arith, resize_frames-clock gap cols rows, f.inv.in_time)) matches);
      opened = f.opened;
    }
  where
    f : Flushed now events r (flush_pending r)
    f = flush_pending-Flushed now events r v fits

    gap : ℕ
    gap = gap_to f.r' now

    more : List RawFrame
    more = resize_frames gap cols rows

    at_now : f.r'.last_emitted_ms + gap ≡ now
    at_now = omega (arith, f.inv.in_time)

    shown : items f.r'.last_emitted_ms more ≡ resize now cols rows ∷ []
    shown =
        items-resize_frames f.r'.last_emitted_ms gap cols rows hc hr
        ∙ ap (λ t. resize t cols rows ∷ []) at_now

    before : Matches events (items 0 f.inv.fs)
    before = rw append-nil at (rw (f.inv.nothing_pending f.empty) at f.inv.shows)

    matches :
        Matches
          (events ++ resize now cols rows ∷ [])
          (items 0 f.inv.fs ++ items f.r'.last_emitted_ms more)
    matches =
        rw shown
          (Matches-append events _ (items 0 f.inv.fs) _ before (resize_shown now cols rows, tt))
