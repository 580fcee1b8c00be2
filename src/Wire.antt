-- ===== src/Wire.antt =====
-- internal/attachwire/wire.go: the frames that `hoot attach` and the session exchange, and the
-- parser of a prefix-key spec. The JSON form of Hello, Origin and PTYSize is not modelled.
pub mod Frames
pub mod Cut
pub mod PrefixKey
mod Tests
use hootty.Base.{
  ℕ, ◌+◌, ◌-◌, ◌*◌, Bool, true, false, ◌&&◌, ◌||◌, Option, none, some, [], ◌∷◌, ◌++◌, ltb, ◌==◌,
  if◌then◌else◌, within, length, drop, Bytes, ◌≡◌, refl, ◌⊎◌, inl, inr,
}
use hootty.Io.{File, write_file, Reader, ReadError, full, short, read_full, put_u32, u32}

-- Message type tags.
abbrev pub msg_hello : ℕ
msg_hello = 0

abbrev pub msg_input : ℕ
msg_input = 1

abbrev pub msg_output : ℕ
msg_output = 2

abbrev pub msg_size : ℕ
msg_size = 3

abbrev pub msg_snapshot_scrollback : ℕ
msg_snapshot_scrollback = 4

abbrev pub msg_snapshot_screen : ℕ
msg_snapshot_screen = 5

abbrev pub msg_ping : ℕ
msg_ping = 6

abbrev pub msg_pong : ℕ
msg_pong = 7

-- MaxPayload
abbrev pub max_payload : ℕ
max_payload = 16777216

pub data WireError : Type 0 where
  too_long write_failed : WireError
  read_failed : ReadError → WireError

pub data Written : Type 0 where
  ok : File → Written
  err : WireError → File → Written

pub record Message : Type 0 where
  pub typ : ℕ
  pub payload : Bytes

pub data Received : Type 0 where
  ok : Message → Reader → Received
  err : WireError → Received

abbrev pub header : Message → Bytes
header m = m.typ ∷ put_u32 (length m.payload)

pub Received-cases :
    (x : Received)
    → ((e : WireError) × (x ≡ Received.err e))
      ⊎ ((m : Message) × (r : Reader) × (x ≡ Received.ok m r))
Received-cases (Received.err e) = inl (e, refl)
Received-cases (Received.ok m r) = inr (m, r, refl)

-- One call of Write.
abbrev pub put : File → Bytes → (File → Written) → Written
put w bs next =
    let (w, whole) = write_file w bs in if whole then next w else Written.err write_failed w

unfoldable pub write_frame : File → Message → Written
write_frame w m =
    if ltb max_payload (length m.payload)
    then Written.err too_long w
    else put w (header m)
        λ w. if ltb 0 (length m.payload) then put w m.payload Written.ok else Written.ok w

unfoldable pub read_frame : Reader → Received
read_frame r = elim (read_full 5 r) [
  | short e ↦ Received.err (read_failed e)
  | full hdr r ↦
      let n = u32 (drop 1 hdr) in
      let typ = first hdr in
      let body : Received = elim (read_full n r) [
        | short e ↦ Received.err (read_failed e)
        | full payload r ↦ Received.ok (record { typ = typ; payload = payload }) r
      ] in
      if ltb max_payload n
      then Received.err too_long
      else if n == 0
      then Received.ok (record { typ = typ; payload = [] }) r
      else body
]
  where
    first : Bytes → ℕ
    first [] = 0
    first (b ∷ _) = b

-- The switch on the letter of `C-x` or `^x`.
unfoldable pub control_byte : ℕ → Option ℕ
control_byte letter =
    if within b'a' b'z' letter
    then some (letter - b'a' + 1)
    else if within b'A' b'Z' letter
    then some (letter - b'A' + 1)
    else if letter == b'\\'
    then some 0x1c
    else if letter == b']'
    then some 0x1d
    else if letter == b'^'
    then some 0x1e
    else if letter == b'_'
    then some 0x1f
    else if letter == b'@'
    then some 0x00
    else if letter == b'?'
    then some 0x7f
    else none

unfoldable pub hex_digit : ℕ → Option ℕ
hex_digit c =
    if within b'0' b'9' c
    then some (c - b'0')
    else if within b'a' b'f' c
    then some (c - b'a' + 10)
    else if within b'A' b'F' c
    then some (c - b'A' + 10)
    else none

-- The loop of strconv.ParseUint(s, 16, 8).
unfoldable pub hex_from : ℕ → Bytes → Option ℕ
unfolding hex_digit
hex_from n [] = some n
hex_from n (c ∷ cs) = elim (hex_digit c) [
  | none ↦ none
  | some d ↦ if ltb 255 (n * 16 + d) then none else hex_from (n * 16 + d) cs
]

unfoldable pub parse_hex_byte : Bytes → Option ℕ
unfolding hex_from
parse_hex_byte [] = none
parse_hex_byte (c ∷ cs) = hex_from 0 (c ∷ cs)

-- A printable byte is refused.
abbrev pub unprintable : ℕ → Option ℕ
unprintable b = if within 0x20 0x7e b then none else some b

-- The byte alone, any spec of one byte.
abbrev pub single : Bytes → Option ℕ
single (b ∷ []) = unprintable b
single _ = none

-- The hex form, and the forms behind it.
abbrev pub hex_or_single : Bytes → Option ℕ
hex_or_single (zero_digit ∷ x ∷ digits) =
    if zero_digit == b'0' && (x == b'x' || x == b'X')
    then elim (parse_hex_byte digits) [ none ↦ none | some n ↦ unprintable n ]
    else none
hex_or_single spec = single spec

-- The letter of `C-x`, `c-x` or `^x`.
abbrev pub control_letter : Bytes → Option ℕ
control_letter (a ∷ b ∷ []) = if a == b'^' then some b else none
control_letter (a ∷ b ∷ c ∷ []) = if (a == b'C' || a == b'c') && b == b'-' then some c else none
control_letter _ = none

-- ParsePrefixKey; none is an error.
unfoldable pub parse_prefix_key : Bytes → Option ℕ
unfolding control_byte parse_hex_byte
parse_prefix_key spec = elim (control_letter spec) [
  | some letter ↦ control_byte letter
  | none ↦ hex_or_single spec
]
