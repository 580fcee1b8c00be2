-- ===== src/Wire/Tests.antt =====
-- The theorems on the wire at concrete messages and specs.
use hootty.Base.{none, some, [], ◌∷◌, ◌++◌, ◌≡◌, refl, arith, take}
use hootty.Io.{File, closes, eof}
use hootty.Wire.{read_failed, Written, Message, parse_prefix_key}
use hootty.Wire.Frames.{frame, write_all, stream, read_all}
use hootty.Wire.Cut.{write_all-read_all}
use hootty.Wire.PrefixKey.{IsControl, parse_prefix_key-IsControl}

abbrev connection : File
connection = record { content = []; room = none }

abbrev ping : Message
ping = record { typ = 6; payload = [] }

abbrev input : Message
input = record { typ = 1; payload = b'l' ∷ b's' ∷ [] }

-- Cut behind the header of the third message.
write_all-read_all_example :
    (write_all connection (input ∷ ping ∷ [])
      ≡ Written.ok (record connection { content = stream (input ∷ ping ∷ []) }))
    × (read_all 3
          (record { bytes = stream (input ∷ ping ∷ []) ++ take 5 (frame input); ending = closes })
        ≡ (input ∷ ping ∷ [], some (read_failed eof)))
write_all-read_all_example =
    write_all-read_all connection (input ∷ ping ∷ []) input 5 refl refl (ground arith) (omega arith)
      (omega arith)

caret : parse_prefix_key (b'C' ∷ b'-' ∷ b'^' ∷ []) ≡ some 0x1e
unfolding parse_prefix_key
caret = refl

parse_prefix_key-IsControl_example : IsControl 0x1e
parse_prefix_key-IsControl_example = parse_prefix_key-IsControl (b'C' ∷ b'-' ∷ b'^' ∷ []) 0x1e caret
