-- ===== src/Recorder/Timeline.antt =====
-- A recorder over a history of writes and resizes: every operation succeeds on a file that takes
-- every write, and keeps the invariant.
use hootty.Base.{
  ℕ, ◌+◌, ◌≤◌, ◌<◌, true, false, not, ◌&&◌, none, List, [], ◌∷◌, ◌++◌, map, ◌≡◌, refl, sym, ap, ◌∙◌,
  arith, ◌==◌, Bytes, append_assoc, Bool-cases, inl, inr,
}
use mathlib.Core.List.{map-append}
use hootty.Io.{put_u16}
use hootty.Recorder.{
  Recorder, ok, Outcome, ◌>>=◌, u64_mod, resize_type, header, flush_pending, write_resize_frame,
  write, record_resize, bucket_of, append_pending,
}
use hootty.Recorder.Frames.{RawFrame, encode, Item, byte, resize, items}
use hootty.Recorder.Bridge.{grown, write_bytes-grown}
use hootty.Recorder.Flush.{
  byte_shown, Matches, Matches-append, Inv, Flushed, flush_pending-Flushed, no_more, pending_items,
  bucket_lem, bucket_mono,
}

-- An operation at the time that it reads.
pub data Op : Type 0 where
  write_at : ℕ → Bytes → Op
  resize_at : ℕ → ℕ → ℕ → Op

abbrev pub step : Recorder → Op → Outcome
step r (write_at now bytes) = write r now bytes
step r (resize_at now cols rows) = record_resize r now cols rows

unfoldable pub run_ops : Recorder → List Op → Outcome
run_ops r [] = (r, ok)
run_ops r (o ∷ os) = step r o >>= λ r. run_ops r os

-- The events that an operation records.
abbrev pub op_events : Op → List Item
op_events (write_at now bytes) = map (byte now) bytes
op_events (resize_at now cols rows) = resize now cols rows ∷ []

abbrev pub events_of : List Op → List Item
events_of [] = []
events_of (o ∷ os) = op_events o ++ events_of os

-- The clock does not go back and stays below `limit`, and sizes are uint16 values.
abbrev pub IsTimeline : ℕ → ℕ → List Op → Type 0
IsTimeline limit now [] = now < limit
IsTimeline limit now (write_at t bytes ∷ os) = (now ≤ t) × IsTimeline limit t os
IsTimeline limit now (resize_at t cols rows ∷ os) =
    (now ≤ t) × (cols < 65536) × (rows < 65536) × IsTimeline limit t os

abbrev pub resize_frame : ℕ → ℕ → ℕ → RawFrame
resize_frame delta cols rows = record {
  type = resize_type;
  delta = delta;
  payload = put_u16 cols ++ put_u16 rows;
}

pub write_resize_frame-grown :
    (r : Recorder) (delta cols rows : ℕ)
    → r.file.room ≡ none
    → write_resize_frame r delta cols rows ≡ (grown r (encode (resize_frame delta cols rows)), ok)
unfolding write_resize_frame
write_resize_frame-grown r delta cols rows h =
    let head = header resize_type delta 4 in
    let body = put_u16 cols ++ put_u16 rows in
    let first = write_bytes-grown r head h in
    let second = write_bytes-grown (grown r head) body refl in
    rw first (rw second (rw (append_assoc r.file.content head body)))

-- A later time keeps the invariant.
pub Inv-later :
    {now : ℕ} {events : List Item} {r : Recorder} (later : ℕ)
    → now ≤ later
    → Inv now events r
    → Inv later events r
Inv-later {now} {events} {r} later h v = record {
  fs = v.fs;
  room = v.room;
  content = v.content;
  well_formed = v.well_formed;
  clock_is = v.clock_is;
  in_time = omega (arith, v.in_time);
  nothing_pending = v.nothing_pending;
  after_last = v.after_last;
  before_now = λ e. omega (arith, v.before_now e);
  in_bucket = λ e. omega (arith, v.in_bucket e, bucket_mono r r now later (omega arith) h);
  shows = v.shows;
}

written :
    (now at : ℕ) (bytes : Bytes)
    → at ≤ now
    → now < at + 33
    → Matches (map (byte now) bytes) (map (byte at) bytes)
written now at [] lo hi = tt
written now at (b ∷ bs) lo hi = (byte_shown now at b lo hi, written now at bs lo hi)

-- An operation succeeded, and the invariant holds behind it.
pub record Steps (now : ℕ) (events : List Item) (r : Recorder) (o : Outcome) : Type 0 where
  pub r' : Recorder
  pub returns : o ≡ (r', ok)
  pub inv : Inv now events r'
  pub opened : r'.is_open ≡ r.is_open

-- Where nothing is pending or the same bucket is: the buffer grows, at the bucket.
append_pending-grows :
    (bucket : ℕ) (bytes : Bytes) (r : Recorder)
    → (r.pending_has_bucket && not (bucket == r.pending_bucket_ms)) ≡ false
    → append_pending bucket bytes r ≡ record r {
      pending_bucket_ms = bucket;
      pending_has_bucket = true;
      pending_buf = r.pending_buf ++ bytes;
    }
unfolding append_pending
append_pending-grows bucket bytes r same = ground arith

append_pending-Inv :
    (now bucket : ℕ) (events : List Item) (r : Recorder) (bytes : Bytes)
    → Inv now events r
    → (r.pending_has_bucket && not (bucket == r.pending_bucket_ms)) ≡ false
    → r.last_emitted_ms ≤ bucket
    → bucket ≤ now
    → now < bucket + 33
    → bucket ≤ bucket_of r now
    → Inv now (events ++ map (byte now) bytes) (append_pending bucket bytes r)
append_pending-Inv now bucket events r bytes v same past recent near early =
    rw (append_pending-grows bucket bytes r same) (record {
      fs = v.fs;
      room = v.room;
      content = v.content;
      well_formed = v.well_formed;
      clock_is = v.clock_is;
      in_time = v.in_time;
      nothing_pending = λ e. cc;
      after_last = λ _. past;
      before_now = λ _. recent;
      in_bucket =
          λ _. omega (arith, early, bucket_mono r grown_r now now (omega arith) (omega arith));
      shows = rw (map-append (byte bucket) r.pending_buf bytes) (
          rw
            (sym (
              append_assoc (items 0 v.fs) (map (byte bucket) r.pending_buf)
                (map (byte bucket) bytes)))
            (Matches-append events (map (byte now) bytes)
              (items 0 v.fs ++ map (byte bucket) r.pending_buf) (map (byte bucket) bytes)
              (rw old v.shows) (written now bucket bytes recent near)));
    })
  where
    grown_r : Recorder
    grown_r = record r {
      pending_bucket_ms = bucket;
      pending_has_bucket = true;
      pending_buf = r.pending_buf ++ bytes;
    }

    old : map (byte bucket) r.pending_buf ≡ pending_items r
    old = elim (Bool-cases r.pending_has_bucket) [
      | inl busy ↦
          let same_bucket : bucket ≡ r.pending_bucket_ms = ground arith in
          ap (λ t. map (byte t) r.pending_buf) same_bucket
      | inr idle ↦ rw (v.nothing_pending idle)
    ]

append_pending-opened :
    (bucket : ℕ) (bytes : Bytes) (r : Recorder)
    → (append_pending bucket bytes r).is_open ≡ r.is_open
unfolding append_pending
append_pending-opened bucket bytes r = ground arith

pub write-Steps :
    (now : ℕ) (events : List Item) (r : Recorder) (bytes : Bytes)
    → r.is_open ≡ true
    → Inv now events r
    → now < u64_mod
    → Steps now (events ++ map (byte now) bytes) r (write r now bytes)
unfolding write
write-Steps now events r [] o v fits = record {
  r' = r;
  returns = ground arith;
  inv = rw (no_more events) v;
  opened = refl;
}
write-Steps now events r (b ∷ bs) o v fits =
    elim (Bool-cases (r.pending_has_bucket && not (bucket == r.pending_bucket_ms))) [
      | inr same ↦ record {
        r' = append_pending bucket (b ∷ bs) r;
        returns = ground arith;
        inv =
            append_pending-Inv now bucket events r (b ∷ bs) v same near.0 near.1 near.2
              (omega arith);
        opened = append_pending-opened bucket (b ∷ bs) r;
      }
      | inl new ↦ record {
        r' = append_pending bucket (b ∷ bs) f.r';
        returns = ground (arith, f.returns);
        inv =
            append_pending-Inv now bucket events f.r' (b ∷ bs) f.inv (ground (arith, f.empty))
              f.not_late near.1 near.2 (bucket_mono r f.r' now now f.grows (omega arith));
        opened = append_pending-opened bucket (b ∷ bs) f.r' ∙ f.opened;
      }
    ]
  where
    bucket : ℕ
    bucket = bucket_of r now

    near : (r.last_emitted_ms ≤ bucket) × (bucket ≤ now) × (now < bucket + 33)
    near = bucket_lem r now v.in_time

    f : Flushed now events r (flush_pending r)
    f = flush_pending-Flushed now events r v fits
