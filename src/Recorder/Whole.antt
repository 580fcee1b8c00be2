-- ===== src/Recorder/Whole.antt =====
-- A whole recording: NewRecorder, writes and resizes, Close, all of which succeed.
use mathlib.Core.Path.{subst}
use hootty.Base.{
  ℕ, ◌≤◌, ◌<◌, true, false, none, List, [], ◌∷◌, ◌++◌, ◌≡◌, refl, sym, ◌∙◌, arith, ◌==◌,
  if◌then◌else◌, All, append_assoc, append-nil,
}
use hootty.Io.{File, put_u16}
use hootty.Io.Words.{u16-put_u16}
use hootty.Recorder.{
  Recorder, ok, Outcome, ◌>>=◌, u64_mod, flush_pending, close, new_recorder, recorder_preamble,
}
use hootty.Recorder.Frames.{RawFrame, encode, encodes, clock, Item, resize, items, IsFrame}
use hootty.Recorder.Bridge.{grown, write_bytes-grown}
use hootty.Recorder.Flush.{resize_shown, Matches, Inv, flush_pending-Flushed}
use hootty.Recorder.Timeline.{
  Op, write_at, resize_at, step, run_ops, op_events, events_of, IsTimeline, Steps, Inv-later,
  write-Steps, resize_frame, write_resize_frame-grown,
}
use hootty.Recorder.Resize.{record_resize-Steps}

-- The milliseconds below 2 ^ 63 nanoseconds, which a time.Duration holds: 292 years.
abbrev pub duration_limit : ℕ
duration_limit = 9223372036854

-- A whole recording: NewRecorder, the operations, Close.
unfoldable pub record_all : File → ℕ → ℕ → List Op → Outcome
record_all f cols rows ops = new_recorder f cols rows >>= λ r. run_ops r ops >>= λ r. close r ok

abbrev pub or_default : ℕ → ℕ → ℕ
or_default default n = if n == 0 then default else n

pub record Started (f : File) (cols rows : ℕ) : Type 0 where
  pub r : Recorder
  pub returns : new_recorder f cols rows ≡ (r, ok)
  pub inv : Inv 0 (resize 0 (or_default 80 cols) (or_default 24 rows) ∷ []) r
  pub opened : r.is_open ≡ true

pub new_recorder-Started :
    (f : File) (cols rows : ℕ)
    → f.content ≡ []
    → f.room ≡ none
    → cols < 65536
    → rows < 65536
    → Started f cols rows
unfolding new_recorder
new_recorder-Started f cols rows fresh room hc hr = record {
  r = grown (grown start recorder_preamble) (encode first);
  returns = rw (write_bytes-grown start recorder_preamble room) (
      write_resize_frame-grown (grown start recorder_preamble) 0 (or_default 80 cols)
        (or_default 24 rows) refl);
  inv = record {
    fs = first ∷ [];
    room = refl;
    content = rw (fresh, append-nil) refl;
    well_formed = ground arith;
    clock_is = refl;
    in_time = omega arith;
    nothing_pending = λ _. refl;
    after_last = λ e. cc;
    before_now = λ e. cc;
    in_bucket = λ e. cc;
    shows =
        subst (Matches sized) (sym shown)
          (resize_shown 0 (or_default 80 cols) (or_default 24 rows), tt);
  };
  opened = refl;
}
  where
    start : Recorder
    start = record {
      file = f;
      is_open = true;
      last_emitted_ms = 0;
      pending_bucket_ms = 0;
      pending_has_bucket = false;
      pending_buf = [];
    }

    first : RawFrame
    first = resize_frame 0 (or_default 80 cols) (or_default 24 rows)

    small_cols : or_default 80 cols < 65536
    small_cols = ground arith

    small_rows : or_default 24 rows < 65536
    small_rows = ground arith

    sized : List Item
    sized = resize 0 (or_default 80 cols) (or_default 24 rows) ∷ []

    shown : items 0 (first ∷ []) ++ [] ≡ sized
    shown = ground (
      arith,
      u16-put_u16 (or_default 80 cols) (put_u16 (or_default 24 rows)) small_cols,
      u16-put_u16 (or_default 24 rows) [] small_rows,
    )

-- The operations succeed, and leave the invariant at the time of the last.
pub record Ran (limit : ℕ) (events : List Item) (r : Recorder) (ops : List Op) : Type 0 where
  pub later : ℕ
  pub within : later < limit
  pub steps : Steps later events r (run_ops r ops)

timeline_bound : (ops : List Op) (limit now : ℕ) → IsTimeline limit now ops → now < limit
timeline_bound [] limit now h = h
timeline_bound (write_at t bytes ∷ os) limit now (late, rest) =
    omega (arith, timeline_bound os limit t rest)
timeline_bound (resize_at t cols rows ∷ os) limit now (late, hc, hr, rest) =
    omega (arith, timeline_bound os limit t rest)

-- The rest of the operations behind a first one that succeeded.
first_op :
    (o : Op) (os : List Op) (limit t : ℕ) (events : List Item) (r : Recorder)
    → r.is_open ≡ true
    → Steps t (events ++ op_events o) r (step r o)
    → ((r' : Recorder)
        → r'.is_open ≡ true
        → Inv t (events ++ op_events o) r'
        → Ran limit ((events ++ op_events o) ++ events_of os) r' os)
    → Ran limit (events ++ events_of (o ∷ os)) r (o ∷ os)
unfolding run_ops
first_op o os limit t events r is_open s others =
    let ran = others s.r' (s.opened ∙ is_open) s.inv in
    record {
      later = ran.later;
      within = ran.within;
      steps = record {
        r' = ran.steps.r';
        returns = rw s.returns ran.steps.returns;
        inv = rw (sym (append_assoc events (op_events o) (events_of os))) ran.steps.inv;
        opened = ran.steps.opened ∙ s.opened;
      };
    }

pub run_ops-Ran :
    (ops : List Op) (limit now : ℕ) (events : List Item) (r : Recorder)
    → r.is_open ≡ true
    → Inv now events r
    → IsTimeline limit now ops
    → limit ≤ u64_mod
    → Ran limit (events ++ events_of ops) r ops
unfolding run_ops
run_ops-Ran [] limit now events r o v t h = record {
  later = now;
  within = t;
  steps = record { r' = r; returns = refl; inv = rw append-nil v; opened = refl };
}
run_ops-Ran (write_at t bytes ∷ os) limit now events r o v (late, rest) h =
    first_op (write_at t bytes) os limit t events r o
      (write-Steps t events r bytes o (Inv-later t late v)
        (omega (arith, timeline_bound os limit t rest)))
      (λ r' o' v'. run_ops-Ran os limit t _ r' o' v' rest h)
run_ops-Ran (resize_at t cols rows ∷ os) limit now events r o v (late, hc, hr, rest) h =
    first_op (resize_at t cols rows) os limit t events r o
      (record_resize-Steps t events r cols rows o (Inv-later t late v)
        (omega (arith, timeline_bound os limit t rest)) hc hr)
      (λ r' o' v'. run_ops-Ran os limit t _ r' o' v' rest h)

-- What a recorder that has flushed its buffer has written.
pub record Recorded (limit : ℕ) (events : List Item) (o : Outcome) : Type 0 where
  pub r : Recorder
  pub fs : List RawFrame
  pub returns : o ≡ (r, ok)
  pub content : r.file.content ≡ recorder_preamble ++ encodes fs
  pub well_formed : All IsFrame fs
  pub in_time : clock fs < limit
  pub shows : Matches events (items 0 fs)

close-flushed :
    (r r' : Recorder)
    → r.is_open ≡ true
    → flush_pending r ≡ (r', ok)
    → close r ok ≡ (record r' { is_open = false }, ok)
unfolding close
close-flushed r r' o flushed = ground (arith, o, flushed)

close-Recorded :
    (limit now : ℕ) (events : List Item) (r : Recorder)
    → r.is_open ≡ true
    → Inv now events r
    → now < limit
    → limit ≤ u64_mod
    → Recorded limit events (close r ok)
close-Recorded limit now events r o v early bound =
    let f = flush_pending-Flushed now events r v (omega arith) in
    record {
      r = record f.r' { is_open = false };
      fs = f.inv.fs;
      returns = close-flushed r f.r' o f.returns;
      content = f.inv.content;
      well_formed = f.inv.well_formed;
      in_time = omega (arith, f.inv.clock_is, f.inv.in_time);
      shows = rw append-nil at (rw (f.inv.nothing_pending f.empty) at f.inv.shows);
    }

pub record_all-Recorded :
    (f : File) (cols rows : ℕ) (ops : List Op)
    → f.content ≡ []
    → f.room ≡ none
    → cols < 65536
    → rows < 65536
    → IsTimeline duration_limit 0 ops
    → Recorded duration_limit
        (resize 0 (or_default 80 cols) (or_default 24 rows) ∷ events_of ops)
        (record_all f cols rows ops)
unfolding record_all
record_all-Recorded f cols rows ops fresh room hc hr t =
    let first = new_recorder-Started f cols rows fresh room hc hr in
    let ran = run_ops-Ran ops duration_limit 0 _ first.r first.opened first.inv t (omega arith) in
    let last =
      close-Recorded duration_limit ran.later _ ran.steps.r' (ran.steps.opened ∙ first.opened)
        ran.steps.inv ran.within (omega arith) in
    rw first.returns (rw ran.steps.returns last)
