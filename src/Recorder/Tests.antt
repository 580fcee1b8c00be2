-- ===== src/Recorder/Tests.antt =====
-- The recorder's theorems at a concrete recording.
use hootty.Base.{none, some, Bytes, List, [], ◌∷◌, ◌++◌, ◌≡◌, refl, arith, take}
use hootty.Io.{File, Reader, closes, u16}
use hootty.Recorder.{recorder_preamble}
use hootty.Recorder.Frames.{RawFrame, encode, encodes, resize}
use hootty.Recorder.Timeline.{Op, write_at, resize_at, events_of, resize_frame}
use hootty.Recorder.Whole.{record_all}
use hootty.Recorder.RoundTrip.{PlaysBack, record_all-PlaysBack}
use hootty.Recorder.Decoder.{decode}
use hootty.Recorder.Decode.{frames}
use hootty.Recorder.Torn.{decode-torn}
use hootty.Recorder.Decoder
use hootty.Recorder.Decoder.{at_ns}
use hootty.Recorder.Export.{
  Line, header_line, output_line, resize_line, AsciicastHeader, read_output_events, write_asciicast,
}
use hootty.Recorder.Window.{recent, read_output_events-recent}
use hootty.Recorder.Asciicast.{write_asciicast-transcript}

abbrev empty_file : File
empty_file = record { content = []; room = none }

-- Output, a resize inside the bucket, output again, and output after 70 s.
abbrev session : List Op
session =
    write_at 40 (b'h' ∷ b'i' ∷ [])
    ∷ resize_at 50 100 30
    ∷ write_at 55 (b'!' ∷ [])
    ∷ write_at 70000 (b'.' ∷ [])
    ∷ []

record_all-PlaysBack_example :
    PlaysBack (resize 0 80 24 ∷ events_of session) (record_all empty_file 0 24 session)
record_all-PlaysBack_example =
    record_all-PlaysBack empty_file 0 24 session refl refl (omega arith) (omega arith)
      (ground arith)

abbrev sized : RawFrame
sized = resize_frame 0 80 24

abbrev output : RawFrame
output = record { type = 1; delta = 33; payload = b'h' ∷ b'i' ∷ [] }

decode-torn_example :
    decode (record {
      bytes = recorder_preamble ++ (encodes (sized ∷ []) ++ take 6 (encode output));
      ending = closes;
    })
    ≡ Decoder.ok (frames 0 (sized ∷ []))
decode-torn_example =
    decode-torn (sized ∷ []) output 6 (ground arith) (ground arith) (omega arith) (omega arith)

abbrev late : RawFrame
late = record { type = 1; delta = 1000; payload = b'!' ∷ [] }

-- A recording whose last frame is cut.
abbrev cut_recording : Reader
cut_recording = record {
  bytes = recorder_preamble ++ (encodes (sized ∷ output ∷ late ∷ []) ++ take 6 (encode output));
  ending = closes;
}

cut_recording-decodes : decode cut_recording ≡ Decoder.ok (frames 0 (sized ∷ output ∷ late ∷ []))
cut_recording-decodes =
    decode-torn (sized ∷ output ∷ late ∷ []) output 6 (ground arith) (ground arith) (omega arith)
      (omega arith)

read_output_events-recent_example :
    read_output_events (some cut_recording) 500000000
    ≡ Decoder.ok (recent 500000000 1033000000 (frames 0 (sized ∷ output ∷ late ∷ [])))
unfolding at_ns
read_output_events-recent_example =
    read_output_events-recent cut_recording (frames 0 (sized ∷ output ∷ late ∷ [])) 500000000
      cut_recording-decodes
      (omega arith, omega arith, (omega arith, omega arith, (omega arith, omega arith, tt)))
      (omega arith) (omega arith)

-- One byte for each line.
abbrev initial_of : Line → Bytes
initial_of (header_line h) = b'h' ∷ []
initial_of (output_line t bs) = b'o' ∷ []
initial_of (resize_line t c r) = b'r' ∷ []

abbrev no_header : AsciicastHeader
no_header = record { version = 0; width = 0; height = 0; timestamp = 0; command = []; title = [] }

write_asciicast-transcript_example :
    write_asciicast initial_of cut_recording no_header empty_file
    ≡ (record { content = b'h' ∷ b'o' ∷ b'o' ∷ []; room = none }, none)
unfolding u16 at_ns
write_asciicast-transcript_example =
    write_asciicast-transcript initial_of cut_recording no_header empty_file
      (record { type = 2; at = 0; payload = 80 ∷ 0 ∷ 24 ∷ 0 ∷ [] }) (frames 0 (output ∷ late ∷ []))
      cut_recording-decodes refl refl refl refl
