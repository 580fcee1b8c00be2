-- ===== src/Io.antt =====
-- What the code uses of Go's os, io and encoding/binary: a file that is written at its end, a
-- reader that yields bytes and then ends, io.ReadFull and the little-endian integers.
pub mod Words
use hootty.Base.{
  ℕ, ◌+◌, ◌-◌, ◌*◌, ◌/◌, ◌%◌, ◌^◌, Bool, true, false, Option, none, some, List, [], ◌∷◌, ◌++◌, leb,
  ◌==◌, if◌then◌else◌, length, take, drop, Bytes,
}

-- `room` is what the disk still takes before a write falls short and fails; none is no limit.
pub record File : Type 0 where
  pub content : Bytes
  pub room : Option ℕ

-- The file behind the write, and whether all bytes were written.
unfoldable pub write_file : File → Bytes → File × Bool
write_file f bs = elim f.room [
  | none ↦ (record f { content = f.content ++ bs }, true)
  | some r ↦
      if leb (length bs) r
      then (record { content = f.content ++ bs; room = some (r - length bs) }, true)
      else (record { content = f.content ++ take r bs; room = some 0 }, false)
]

-- How a reader ends behind its last byte: io.EOF, or any other error.
pub data Ending : Type 0 where
  closes breaks : Ending

pub record Reader : Type 0 where
  pub bytes : Bytes
  pub ending : Ending

pub data ReadError : Type 0 where
  eof unexpected_eof broken : ReadError

pub data Read : Type 0 where
  full : Bytes → Reader → Read
  short : ReadError → Read

-- The error of a read that stops after `got` bytes.
abbrev pub short_read : Ending → Bytes → ReadError
short_read closes [] = eof
short_read closes (b ∷ bs) = unexpected_eof
short_read breaks got = broken

-- io.ReadFull into a buffer of `n` bytes.
unfoldable pub read_full : ℕ → Reader → Read
read_full n r =
    if leb n (length r.bytes)
    then full (take n r.bytes) (record r { bytes = drop n r.bytes })
    else short (short_read r.ending r.bytes)

-- binary.LittleEndian: PutUint16, PutUint32, Uint16 and Uint32. The values put are in range.
abbrev pub put_u16 : ℕ → Bytes
put_u16 n = (n % 256) ∷ (n / 256 % 256) ∷ []

abbrev pub put_u32 : ℕ → Bytes
put_u32 n = (n % 256) ∷ (n / 256 % 256) ∷ (n / 65536 % 256) ∷ (n / 16777216 % 256) ∷ []

unfoldable pub u16 : Bytes → ℕ
u16 (a ∷ b ∷ _) = a + b * 256
u16 _ = 0

unfoldable pub u32 : Bytes → ℕ
u32 (a ∷ b ∷ c ∷ d ∷ _) = a + b * 256 + c * 65536 + d * 16777216
u32 _ = 0
