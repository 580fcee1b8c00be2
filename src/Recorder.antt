-- ===== src/Recorder.antt =====
-- recorder.go, the writing half: `Recorder` batches output into buckets of 33 ms and writes
-- hootty.log v1 frames. Times are milliseconds since the recording began; each operation takes
-- the time that nowMsLocked reads as its argument `now`. The mutex makes an operation one step.
-- A nil receiver is not modelled: it answers as a closed recorder does.
pub mod Frames
pub mod Asciicast
pub mod Bridge
pub mod Chunk
pub mod Decoder
pub mod Decode
pub mod Export
pub mod Flush
pub mod Timeline
pub mod Resize
pub mod Torn
pub mod Whole
pub mod Window
pub mod RoundTrip
mod Tests
use hootty.Base.{
  ℕ, zero, suc, ◌+◌, ◌-◌, ◌*◌, ◌/◌, ◌%◌, Bool, true, false, not, ◌&&◌, [], ◌∷◌, ◌++◌, ltb, leb,
  ◌==◌, if◌then◌else◌, length, take, drop, Bytes,
}
use hootty.Io.{File, write_file, put_u16, put_u32}

-- A nil error, an error of the file, or a loop of the model out of fuel, which is no Go value.
pub data Status : Type 0 where
  ok failed stuck : Status

pub record Recorder : Type 0 where
  pub file : File
  -- `r.w != nil`
  pub is_open : Bool
  pub last_emitted_ms : ℕ
  pub pending_bucket_ms : ℕ
  pub pending_has_bucket : Bool
  pub pending_buf : Bytes

abbrev pub Outcome : Type 0
Outcome = Recorder × Status

-- `if err := ...; err != nil { return err }`
infixl 5 ◌>>=◌
abbrev pub ◌>>=◌ : Outcome → (Recorder → Outcome) → Outcome
(r, ok) >>= f = f r
(r, failed) >>= f = (r, failed)
(r, stuck) >>= f = (r, stuck)

abbrev pub u16_mod : ℕ
u16_mod = 65536

abbrev pub u64_mod : ℕ
u64_mod = 18446744073709551616

-- `^uint32(0)`
abbrev pub u32_max : ℕ
u32_max = 4294967295

-- `a - b` on uint64
abbrev pub sub_u64 : ℕ → ℕ → ℕ
sub_u64 a b = (a + u64_mod - b) % u64_mod

-- Frame types, and the layout of a frame's header.
abbrev pub output_type : ℕ
output_type = 1

abbrev pub resize_type : ℕ
resize_type = 2

abbrev pub spacer_type : ℕ
spacer_type = 3

abbrev pub frame_bucket_ms : ℕ
frame_bucket_ms = 33

-- FrameMaxPayload - 1
abbrev pub max_chunk : ℕ
max_chunk = 65535

abbrev pub header : ℕ → ℕ → ℕ → Bytes
header type delta len = type ∷ (put_u16 delta ++ put_u16 len)

-- `# hootty.log v1`
abbrev pub frame_magic : Bytes
frame_magic =
    b'#' ∷ b' ' ∷ b'h' ∷ b'o' ∷ b'o' ∷ b't' ∷ b't' ∷ b'y' ∷ b'.' ∷ b'l' ∷ b'o' ∷ b'g' ∷ b' ' ∷ b'v'
    ∷ b'1' ∷ []

abbrev pub recorder_preamble : Bytes
recorder_preamble = frame_magic ++ b'\n' ∷ b'\n' ∷ []

-- `r.w.Write(bs)`
unfoldable pub write_bytes : Recorder → Bytes → Outcome
write_bytes r bs =
    let (f, written) = write_file r.file bs in
    (record r { file = f }, if written then ok else failed)

unfoldable pub write_resize_frame : Recorder → ℕ → ℕ → ℕ → Outcome
write_resize_frame r delta cols rows = do
  r ← write_bytes r (header resize_type delta 4)
  write_bytes r (put_u16 cols ++ put_u16 rows)

-- The body of the loop of bridgeIdleLocked.
unfoldable pub write_spacer : Recorder → ℕ → Outcome
write_spacer r gap =
    let advance = if ltb u32_max gap then u32_max else gap in
    do
      r ← write_bytes r (header spacer_type 0 4)
      r ← write_bytes r (put_u32 advance)
      (record r { last_emitted_ms = (r.last_emitted_ms + advance) % u64_mod }, ok)

unfoldable pub bridge_loop : ℕ → ℕ → Recorder → Outcome
bridge_loop zero now r = (r, stuck)
bridge_loop (suc fuel) now r =
    let gap = sub_u64 now r.last_emitted_ms in
    let round : Outcome = write_spacer r gap >>= bridge_loop fuel now in
    if ltb 65535 gap then round else (r, ok)

-- A round takes `u32_max` off the gap or closes it.
unfoldable pub bridge_idle : Recorder → ℕ → Outcome
bridge_idle r now =
    if leb now r.last_emitted_ms
    then (r, ok)
    else bridge_loop ((now - r.last_emitted_ms) / u32_max + 2) now r

-- The body of the loop of flushPendingLocked, which ends when nothing is left of `buf`.
unfoldable pub write_chunk : Recorder → ℕ → Bytes → Outcome
write_chunk r delta chunk = do
  r ← write_bytes r (header output_type delta (length chunk))
  if ltb 0 (length chunk) then write_bytes r chunk else (r, ok)

unfoldable pub chunk_loop : ℕ → ℕ → Bytes → Recorder → Outcome
chunk_loop zero delta buf r = (r, stuck)
chunk_loop (suc fuel) delta buf r =
    let chunk_len = if ltb max_chunk (length buf) then max_chunk else length buf in
    let more = λ (r : Recorder). chunk_loop fuel 0 (drop chunk_len buf) r in
    write_chunk r delta (take chunk_len buf) >>= λ r.
    if length (drop chunk_len buf) == 0 then (r, ok) else more r

unfoldable pub flush_pending : Recorder → Outcome
flush_pending r =
    if not r.pending_has_bucket
    then (r, ok)
    else (let bucket = r.pending_bucket_ms in
        let buf = r.pending_buf in
        let r = record r { pending_bucket_ms = 0; pending_has_bucket = false; pending_buf = [] } in
        do
          r ← bridge_idle r bucket
          r ← chunk_loop (length buf + 1) (sub_u64 bucket r.last_emitted_ms % u16_mod) buf r
          (record r { last_emitted_ms = bucket }, ok))

-- NewRecorder on the file just created; an error of the file leaves no recorder.
unfoldable pub new_recorder : File → ℕ → ℕ → Outcome
new_recorder f cols rows =
    let cols = if cols == 0 then 80 else cols in
    let rows = if rows == 0 then 24 else rows in
    let fresh : Recorder = record {
      file = f;
      is_open = true;
      last_emitted_ms = 0;
      pending_bucket_ms = 0;
      pending_has_bucket = false;
      pending_buf = [];
    } in
    do r ← write_bytes fresh recorder_preamble; write_resize_frame r 0 cols rows

-- The bucket of a byte written now.
unfoldable pub bucket_of : Recorder → ℕ → ℕ
bucket_of r now =
    let bucket = now / frame_bucket_ms * frame_bucket_ms in
    if ltb bucket r.last_emitted_ms then r.last_emitted_ms else bucket

-- The end of Write: start a bucket where none is pending, and append.
unfoldable pub append_pending : ℕ → Bytes → Recorder → Recorder
append_pending bucket bytes r =
    let r =
      if not r.pending_has_bucket
      then record r { pending_bucket_ms = bucket; pending_has_bucket = true }
      else r in
    record r { pending_buf = r.pending_buf ++ bytes }

-- Write; the count that it returns is `len(data)` unless it fails.
unfoldable pub write : Recorder → ℕ → Bytes → Outcome
write r now bytes =
    if not r.is_open
    then (r, ok)
    else if length bytes == 0
    then (r, ok)
    else (let bucket = bucket_of r now in
        do
          r ←
              if r.pending_has_bucket && not (bucket == r.pending_bucket_ms)
              then flush_pending r
              else (r, ok)
          (append_pending bucket bytes r, ok))

unfoldable pub record_resize : Recorder → ℕ → ℕ → ℕ → Outcome
record_resize r now cols rows = if not r.is_open then (r, ok) else do
  r ← flush_pending r
  r ← bridge_idle r now
  r ← write_resize_frame r (sub_u64 now r.last_emitted_ms % u16_mod) cols rows
  (record r { last_emitted_ms = now }, ok)

-- The flush's error, else the result of the file's own Close.
abbrev close_status : Status → Status → Status
close_status ok of_file = of_file
close_status s of_file = s

-- Close; `of_file` is what the file's own Close returns.
unfoldable pub close : Recorder → Status → Outcome
close r of_file =
    if not r.is_open
    then (r, ok)
    else (let (r, flushed) = flush_pending r in
        (record r { is_open = false }, close_status flushed of_file))
