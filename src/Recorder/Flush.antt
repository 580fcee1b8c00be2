-- ===== src/Recorder/Flush.antt =====
-- The invariant that ties a recorder to the events that it was given, and the steps that flush
-- pending output and bridge idle time under it.
use hootty.Base.{
  ℕ, suc, ◌+◌, ◌-◌, ◌/◌, ◌%◌, ◌≤◌, ◌<◌, true, false, none, List, [], ◌∷◌, ◌++◌, map, ◌≡◌, refl, sym,
  ap, ◌∙◌, arith, length, Bytes, All, All-append, append_assoc, append-nil, Bool-cases, inl, inr,
}
use hootty.Recorder.{
  Recorder, ok, Outcome, recorder_preamble, u32_max, u64_mod, u16_mod, sub_u64, flush_pending,
  bucket_of,
}
use hootty.Recorder.Frames.{
  RawFrame, encodes, clock, Item, byte, resize, items, IsFrame, encodes-append, clock-append,
  items-append,
}
use hootty.Recorder.Bridge.{
  grown, emit, bridge_frames, bridge_idle-emit, spacers-clock, items-spacers, spacers-IsFrame,
}
use hootty.Recorder.Chunk.{chunks, chunk_loop-grown, chunks-clock, items-chunks, chunks-IsFrame}

-- A recorded item against the event that it stands for: a resize at its exact time, a byte at the
-- start of the bucket of 33 ms in which it was written.
pub data Shows : Item → Item → Type 0 where
  byte_shown : (t at b : ℕ) → at ≤ t → t < at + 33 → Shows (byte t b) (byte at b)
  resize_shown : (t cols rows : ℕ) → Shows (resize t cols rows) (resize t cols rows)

abbrev pub Matches : List Item → List Item → Type 0
Matches [] [] = Unit
Matches (e ∷ es) (i ∷ is) = Shows e i × Matches es is
Matches _ _ = ⊥

pub Matches-append :
    (es es' is is' : List Item) → Matches es is → Matches es' is' → Matches (es ++ es') (is ++ is')
Matches-append [] es' [] is' m m' = m'
Matches-append [] es' (i ∷ is) is' m m' = absurd m
Matches-append (e ∷ es) es' [] is' m m' = absurd m
Matches-append (e ∷ es) es' (i ∷ is) is' m m' = (m.0, Matches-append es es' is is' m.1 m')

-- What the pending buffer will show.
abbrev pub pending_items : Recorder → List Item
pending_items r = map (byte r.pending_bucket_ms) r.pending_buf

-- At time `now`, after `events`: the file holds whole frames, the clock of the frames is the time
-- of the last one, the bucket lies between that time and now, and the frames with the pending
-- buffer show the events.
pub record Inv (now : ℕ) (events : List Item) (r : Recorder) : Type 0 where
  pub fs : List RawFrame
  pub room : r.file.room ≡ none
  pub content : r.file.content ≡ recorder_preamble ++ encodes fs
  pub well_formed : All IsFrame fs
  pub clock_is : clock fs ≡ r.last_emitted_ms
  pub in_time : r.last_emitted_ms ≤ now
  pub nothing_pending : r.pending_has_bucket ≡ false → r.pending_buf ≡ []
  pub after_last : r.pending_has_bucket ≡ true → r.last_emitted_ms ≤ r.pending_bucket_ms
  pub before_now : r.pending_has_bucket ≡ true → r.pending_bucket_ms ≤ now
  pub in_bucket : r.pending_has_bucket ≡ true → r.pending_bucket_ms ≤ bucket_of r now
  pub shows : Matches events (items 0 fs ++ pending_items r)

-- A successful step: the recorder behind it, in which nothing is pending.
pub record Flushed (now : ℕ) (events : List Item) (r : Recorder) (o : Outcome) : Type 0 where
  pub r' : Recorder
  pub returns : o ≡ (r', ok)
  pub inv : Inv now events r'
  pub empty : r'.pending_has_bucket ≡ false
  pub opened : r'.is_open ≡ r.is_open
  pub grows : r.last_emitted_ms ≤ r'.last_emitted_ms
  pub not_late : r'.last_emitted_ms ≤ bucket_of r now

-- The bucket of a byte written now: not before the last frame, at most now, and less than 33 ms
-- before it.
pub bucket_lem :
    (r : Recorder) (now : ℕ)
    → r.last_emitted_ms ≤ now
    → (r.last_emitted_ms ≤ bucket_of r now) × (bucket_of r now ≤ now) × (now < bucket_of r now + 33)
unfolding bucket_of
bucket_lem r now h = ground arith

pub bucket_mono :
    (r r' : Recorder) (now later : ℕ)
    → r.last_emitted_ms ≤ r'.last_emitted_ms
    → now ≤ later
    → bucket_of r now ≤ bucket_of r' later
unfolding bucket_of
bucket_mono r r' now later h k = ground arith

abbrev pub cleared : Recorder → Recorder
cleared r = record r { pending_bucket_ms = 0; pending_has_bucket = false; pending_buf = [] }

-- The gap up to the bucket, what the spacers leave of it, and the frames of a flush.
abbrev pub gap_to : Recorder → ℕ → ℕ
gap_to r time = time - r.last_emitted_ms

abbrev pub rest_of : ℕ → ℕ
rest_of gap = gap - clock (bridge_frames gap)

abbrev flush_frames : ℕ → Bytes → List RawFrame
flush_frames gap buf = bridge_frames gap ++ chunks (length buf + 1) (rest_of gap) buf

pub bridge_clock : (gap : ℕ) → (clock (bridge_frames gap) ≤ gap) × (rest_of gap ≤ 65535)
bridge_clock gap =
    let two : gap / u32_max + 2 ≡ suc (gap / u32_max + 1) = omega arith in
    rw two (omega (arith, spacers-clock (gap / u32_max + 1) gap (omega arith)))

flush_frames-clock : (gap : ℕ) (buf : Bytes) → clock (flush_frames gap buf) ≡ gap
flush_frames-clock gap buf =
    let one : length buf + 1 ≡ suc (length buf) = omega arith in
    rw one (
      omega (
        arith,
        clock-append (bridge_frames gap) (chunks (suc (length buf)) (rest_of gap) buf),
        chunks-clock (length buf) (rest_of gap) buf,
        bridge_clock gap,
      ))

items-flush_frames :
    (now gap : ℕ) (buf : Bytes) → items now (flush_frames gap buf) ≡ map (byte (now + gap)) buf
items-flush_frames now gap buf =
    let whole : (now + clock (bridge_frames gap)) + rest_of gap ≡ now + gap =
      omega (arith, bridge_clock gap) in
    items-append now (bridge_frames gap) (chunks (length buf + 1) (rest_of gap) buf)
    ∙ rw (items-spacers (gap / u32_max + 2) gap now) (
        items-chunks (length buf + 1) (rest_of gap) (now + clock (bridge_frames gap)) buf
          (omega arith)
        ∙ ap (λ t. map (byte t) buf) whole)

flush_frames-IsFrame : (gap : ℕ) (buf : Bytes) → All IsFrame (flush_frames gap buf)
flush_frames-IsFrame gap buf =
    All-append IsFrame (bridge_frames gap) (chunks (length buf + 1) (rest_of gap) buf)
      (spacers-IsFrame (gap / u32_max + 2) gap)
      (chunks-IsFrame (length buf + 1) (rest_of gap) buf (omega (arith, bridge_clock gap)))

flush_pending-emit :
    (r : Recorder)
    → r.pending_has_bucket ≡ true
    → r.file.room ≡ none
    → r.last_emitted_ms ≤ r.pending_bucket_ms
    → r.pending_bucket_ms < u64_mod
    → flush_pending r
      ≡ (emit (cleared r) (flush_frames (gap_to r r.pending_bucket_ms) r.pending_buf), ok)
unfolding flush_pending
flush_pending-emit r has h past fits = rw has (
    rw (bridge_idle-emit (cleared r) r.pending_bucket_ms h past fits) (
      rw delta (
        rw
          (chunk_loop-grown (length r.pending_buf + 1) (rest_of gap) r.pending_buf bridged refl
            (omega arith))
          same_state)))
  where
    gap : ℕ
    gap = gap_to r r.pending_bucket_ms

    bridged : Recorder
    bridged = emit (cleared r) (bridge_frames gap)

    delta : sub_u64 r.pending_bucket_ms bridged.last_emitted_ms % u16_mod ≡ rest_of gap
    delta = omega (arith, bridge_clock gap)

    out : List RawFrame
    out = chunks (length r.pending_buf + 1) (rest_of gap) r.pending_buf

    same_state :
        ◌≡◌ {A = Outcome}
          (record (grown bridged (encodes out)) { last_emitted_ms = r.pending_bucket_ms }, ok)
          (emit (cleared r) (flush_frames gap r.pending_buf), ok)
    same_state = ground (
      arith,
      append_assoc r.file.content (encodes (bridge_frames gap)) (encodes out),
      encodes-append (bridge_frames gap) out,
      flush_frames-clock gap r.pending_buf,
    )

-- Emitting frames in place of the pending buffer keeps the invariant where they end by `now` and
-- show what was pending.
pub emit-Inv :
    (now : ℕ) (events : List Item) (r : Recorder) (more : List RawFrame) (new : List Item)
    → (v : Inv now events r) → All IsFrame more
    → r.last_emitted_ms + clock more ≤ now
    → Matches (events ++ new) (items 0 v.fs ++ items r.last_emitted_ms more)
    → Inv now (events ++ new) (emit (cleared r) more)
emit-Inv now events r more new v wf late m = record {
  fs = v.fs ++ more;
  room = refl;
  content =
      ap (λ c. c ++ encodes more) v.content
      ∙ append_assoc recorder_preamble (encodes v.fs) (encodes more)
      ∙ ap (◌++◌ recorder_preamble) (sym (encodes-append v.fs more));
  well_formed = All-append IsFrame v.fs more v.well_formed wf;
  clock_is = omega (arith, clock-append v.fs more, v.clock_is);
  in_time = late;
  nothing_pending = λ _. refl;
  after_last = λ e. cc;
  before_now = λ e. cc;
  in_bucket = λ e. cc;
  shows = rw append-nil (rw (items-append 0 v.fs more) (rw from_last m));
}
  where
    from_last : 0 + clock v.fs ≡ r.last_emitted_ms
    from_last = omega (arith, v.clock_is)

pub no_more : (es : List Item) → es ++ [] ≡ es
no_more es = append-nil es

-- flushPendingLocked leaves nothing pending, and keeps the invariant.
pub flush_pending-Flushed :
    (now : ℕ) (events : List Item) (r : Recorder)
    → Inv now events r
    → now < u64_mod
    → Flushed now events r (flush_pending r)
flush_pending-Flushed now events r v fits = elim (Bool-cases r.pending_has_bucket) [
  | inr idle ↦ record {
    r' = r;
    returns = unfold flush_pending in rw idle;
    inv = v;
    empty = idle;
    opened = refl;
    grows = omega arith;
    not_late = (bucket_lem r now v.in_time).0;
  }
  | inl busy ↦
      let gap = gap_to r r.pending_bucket_ms in
      let more = flush_frames gap r.pending_buf in
      let past = v.after_last busy in
      let recent = v.before_now busy in
      let at_bucket : r.last_emitted_ms + gap ≡ r.pending_bucket_ms = omega arith in
      let shown : items r.last_emitted_ms more ≡ pending_items r =
        items-flush_frames r.last_emitted_ms gap r.pending_buf
        ∙ ap (λ t. map (byte t) r.pending_buf) at_bucket in
      record {
        r' = emit (cleared r) more;
        returns = flush_pending-emit r busy v.room past (omega arith);
        inv = rw no_more at (
            emit-Inv now events r more [] v (flush_frames-IsFrame gap r.pending_buf)
              (omega (arith, flush_frames-clock gap r.pending_buf))
              (rw (no_more events) (rw shown v.shows)));
        empty = refl;
        opened = refl;
        grows = omega arith;
        not_late = omega (arith, flush_frames-clock gap r.pending_buf, v.in_bucket busy);
      }
]
