-- ===== src/Recorder/Export.antt =====
-- recorder.go, what is made of a recording: ReadOutputEvents and WriteAsciicastJSONL. The JSON of a
-- line is encoding/json's, a parameter; a time is the bit pattern of an int64 of nanoseconds.
use hootty.Base.{
  ℕ, zero, suc, ◌+◌, ◌%◌, Bool, not, ◌||◌, Option, none, some, List, [], ◌∷◌, ◌++◌, ltb, ◌==◌,
  if◌then◌else◌, length, drop, Bytes,
}
use hootty.Io.{File, write_file, Reader, u16}
use hootty.Recorder.{output_type, resize_type, u64_mod, sub_u64}
use hootty.Recorder.Decoder.{
  DecodeError, end_of_file, stuck, Result, ok, err, ◌>>=◌, FrameDecoder, Frame, new_frame_decoder,
  next, decode,
}

-- `a < b` on int64
abbrev pub signed_less : ℕ → ℕ → Bool
signed_less a b = ltb ((a + 9223372036854775808) % u64_mod) ((b + 9223372036854775808) % u64_mod)

-- AsciicastOutputEvent
pub record OutputEvent : Type 0 where
  pub at : ℕ
  pub data_ : Bytes

-- The loop over the frames: the events, and the latest time.
unfoldable pub collect : List OutputEvent → ℕ → List Frame → List OutputEvent × ℕ
collect events last [] = (events, last)
collect events last (fr ∷ frs) =
    let last = if signed_less last fr.at then fr.at else last in
    let more = collect (events ++ (record { at = fr.at; data_ = fr.payload }) ∷ []) last frs in
    let same = collect events last frs in if fr.type == output_type then more else same

-- The loop at the end.
unfoldable pub skip_before : ℕ → List OutputEvent → List OutputEvent
skip_before cutoff [] = []
skip_before cutoff (ev ∷ evs) =
    let rest = skip_before cutoff evs in if signed_less ev.at cutoff then rest else ev ∷ evs

unfoldable pub in_window : ℕ → List OutputEvent × ℕ → List OutputEvent
unfolding skip_before
in_window window (events, last) =
    let cutoff = sub_u64 last window in
    if not (signed_less 0 window) || length events == 0
    then events
    else if not (signed_less 0 cutoff)
    then events
    else skip_before cutoff events

-- ReadOutputEvents; none is a path that is empty or names no file.
unfoldable pub read_output_events : Option Reader → ℕ → Result (List OutputEvent)
unfolding decode collect in_window
read_output_events none window = ok []
read_output_events (some r) window = decode r >>= λ fs. ok (in_window window (collect [] 0 fs))

-- AsciicastHeader; an empty Command or Title and a zero Timestamp are left out by the encoder.
pub record AsciicastHeader : Type 0 where
  pub version : ℕ
  pub width : ℕ
  pub height : ℕ
  pub timestamp : ℕ
  pub command : Bytes
  pub title : Bytes

pub data Line : Type 0 where
  header_line : AsciicastHeader → Line
  output_line : ℕ → Bytes → Line
  resize_line : ℕ → ℕ → ℕ → Line

pub data ExportError : Type 0 where
  read_prelude read_frame : DecodeError → ExportError
  no_resize write_failed resize_payload : ExportError

-- A frame as a line: none where it has none, and an error.
pub data Transcoded : Type 0 where
  line : Line → Transcoded
  skipped : Transcoded
  failed : ExportError → Transcoded

unfoldable pub transcode_frame : Frame → Transcoded
transcode_frame fr =
    if fr.type == output_type
    then line (output_line fr.at fr.payload)
    else if fr.type == resize_type
    then (if length fr.payload == 4
        then line (resize_line fr.at (u16 fr.payload) (u16 (drop 2 fr.payload)))
        else failed resize_payload)
    else skipped

-- The header with the size that the prelude names.
abbrev pub sized_header : AsciicastHeader → Bytes → AsciicastHeader
sized_header h payload = record h {
  version = if h.version == 0 then 2 else h.version;
  width = u16 payload;
  height = u16 (drop 2 payload);
}

module _ (encode : Line → Bytes) where
  -- `enc.Encode`, which ends a line.
  abbrev pub put_line : Line → File → File × Bool
  put_line l f = write_file f (encode l)

  unfoldable pub transcode_loop : ℕ → FrameDecoder → File → File × Option ExportError
  unfolding next transcode_frame
  transcode_loop zero d f = (f, some (read_frame stuck))
  transcode_loop (suc fuel) d f = elim (next d) [
    | err end_of_file ↦ (f, none)
    | err e ↦ (f, some (read_frame e))
    | ok (fr, d) ↦ elim (transcode_frame fr) [
      | line l ↦
          let (f, whole) = put_line l f in
          let rest = transcode_loop fuel d f in if whole then rest else (f, some write_failed)
      | skipped ↦ transcode_loop fuel d f
      | failed e ↦ (f, some e)
    ]
  ]

  unfoldable pub write_asciicast : Reader → AsciicastHeader → File → File × Option ExportError
  unfolding transcode_loop
  write_asciicast r h f = elim (next (new_frame_decoder r)) [
    | err e ↦ (f, some (read_prelude e))
    | ok (first, d) ↦
        let (g, whole) = put_line (header_line (sized_header h first.payload)) f in
        let rest = transcode_loop (length r.bytes) d g in
        if not (first.type == resize_type) || not (length first.payload == 4)
        then (f, some no_resize)
        else if whole
        then rest
        else (g, some write_failed)
  ]
