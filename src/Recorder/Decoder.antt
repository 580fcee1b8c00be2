-- ===== src/Recorder/Decoder.antt =====
-- recorder.go, the reading half: FrameDecoder, and the loop of its callers. `scratch` and `hdr`
-- hold what was just read and are not modelled: the payload that Next returns is a copy.
-- Frame.At is the bit pattern of the int64 of nanoseconds.
use hootty.Base.{
  ℕ, zero, suc, ◌+◌, ◌*◌, ◌%◌, Bool, true, false, not, ◌&&◌, List, [], ◌∷◌, ◌++◌, ltb, ◌==◌,
  if◌then◌else◌, length, take, drop, Bytes, same,
}
use hootty.Io.{
  Reader, Ending, closes, breaks, full, short, ReadError, eof, unexpected_eof, broken, read_full,
  u16, u32,
}
use hootty.Recorder.{spacer_type, frame_magic, u64_mod}

pub data DecodeError : Type 0 where
  end_of_file read_failed bad_magic stuck : DecodeError
  bad_spacer : ℕ → DecodeError

pub data Result (A : Type 0) : Type 0 where
  ok : A → Result A
  err : DecodeError → Result A

infixl 5 ◌>>=◌
abbrev pub ◌>>=◌ : {A B : Type 0} → Result A → (A → Result B) → Result B
ok a >>= f = f a
err e >>= f = err e

pub record FrameDecoder : Type 0 where
  pub r : Reader
  pub preamble_parsed : Bool
  pub cum_ms : ℕ

pub record Frame : Type 0 where
  pub type : ℕ
  pub at : ℕ
  pub payload : Bytes

abbrev pub new_frame_decoder : Reader → FrameDecoder
new_frame_decoder r = record { r = r; preamble_parsed = false; cum_ms = 0 }

-- A short read is the end of the file; any other error is passed on.
abbrev pub read_error : ReadError → DecodeError
read_error eof = end_of_file
read_error unexpected_eof = end_of_file
read_error broken = read_failed

abbrev pub read_n : ℕ → Reader → Result (Bytes × Reader)
read_n n r = elim (read_full n r) [ full bs r' ↦ ok (bs, r') | short e ↦ err (read_error e) ]

-- The loop of parsePreamble: `buf` up to the first blank line, and what follows it. The reader
-- hands out one byte at a time. `last` is the byte before.
abbrev pub ends_blank : Bytes → Bool
ends_blank [] = false
ends_blank (a ∷ []) = false
ends_blank (a ∷ b ∷ []) = a == b'\n' && b == b'\n'
ends_blank (a ∷ b ∷ c ∷ rest) = ends_blank (b ∷ c ∷ rest)

unfoldable pub read_preamble : Bytes → Bytes → Ending → Result (Bytes × Bytes)
read_preamble buf [] ending =
    if ltb 4096 (length buf)
    then err bad_magic
    else elim ending [ closes ↦ err bad_magic | breaks ↦ err read_failed ]
read_preamble buf (b ∷ bs) ending =
    let more = read_preamble (buf ++ b ∷ []) bs ending in
    if ltb 4096 (length buf)
    then err bad_magic
    else if ends_blank (buf ++ b ∷ [])
    then ok (buf ++ b ∷ [], bs)
    else more

-- The first line is exactly the magic.
unfoldable pub magic_ok : Bytes → Bool
magic_ok buf = same (take 16 buf) (frame_magic ++ b'\n' ∷ [])

unfoldable pub parse_preamble : Reader → Result Reader
unfolding read_preamble magic_ok
parse_preamble r = do
  (buf, rest) ← read_preamble [] r.bytes r.ending
  if magic_ok buf then ok (record r { bytes = rest }) else err bad_magic

unfoldable pub at_ns : ℕ → ℕ
at_ns cum = cum * 1000000 % u64_mod

-- A header and the payload that it announces, as Next reads them.
pub record RawRead : Type 0 where
  pub type : ℕ
  pub delta : ℕ
  pub len : ℕ
  pub payload : Bytes
  pub rest : Reader

abbrev pub first_byte : Bytes → ℕ
first_byte [] = 0
first_byte (b ∷ _) = b

unfoldable pub read_raw : Reader → Result RawRead
read_raw r = do
  (hdr, r) ← read_n 5 r
  let len = u16 (drop 3 hdr)
  (payload, r) ← read_n len r
  ok (record {
    type = first_byte hdr;
    delta = u16 (drop 1 hdr);
    len = len;
    payload = payload;
    rest = r;
  })

-- Next behind the preamble: each spacer is one more round, as it is one more call in the source.
unfoldable pub next_frame : ℕ → FrameDecoder → Result (Frame × FrameDecoder)
unfolding read_raw
next_frame zero d = err stuck
next_frame (suc fuel) d = do
  raw ← read_raw d.r
  let skip =
      next_frame fuel (record d { r = raw.rest; cum_ms = (d.cum_ms + u32 raw.payload) % u64_mod })
  let cum = (d.cum_ms + raw.delta) % u64_mod
  let frame : Frame = record { type = raw.type; at = at_ns cum; payload = raw.payload }
  let shown = record d { r = raw.rest; cum_ms = cum }
  let spaced = if not (raw.len == 4) then err (bad_spacer raw.len) else skip
  if raw.type == spacer_type then spaced else ok (frame, shown)

-- Every call of Next takes five bytes at least, so one round more than there are bytes is enough.
unfoldable pub next : FrameDecoder → Result (Frame × FrameDecoder)
unfolding parse_preamble next_frame
next d = if d.preamble_parsed then next_frame (length d.r.bytes + 1) d else do
  r ← parse_preamble d.r
  next_frame (length r.bytes + 1) (record d { r = r; preamble_parsed = true })

-- The loop of the callers of Next: all frames up to the end of the file, or the first error.
unfoldable pub all_frames : ℕ → FrameDecoder → Result (List Frame)
all_frames zero d = err stuck
all_frames (suc fuel) d = elim (next d) [
  | err end_of_file ↦ ok []
  | err e ↦ err e
  | ok (f, d') ↦ all_frames fuel d' >>= λ fs. ok (f ∷ fs)
]

unfoldable pub decode : Reader → Result (List Frame)
unfolding all_frames next
decode r = all_frames (length r.bytes + 1) (new_frame_decoder r)
