-- ===== src/Wire/Cut.antt =====
-- Connections that end early: what the reader gets of a stream of frames, and the error behind it.
use hootty.Base.{
  ◌∙◌, ℕ, zero, suc, ◌+◌, ◌<◌, ◌||◌, none, some, List, [], ◌∷◌, ◌++◌, ◌≡◌, refl, arith, ◌==◌,
  if◌then◌else◌, length, take, Bytes, All, length-take,
}
use hootty.Io.{File, closes, ReadError, eof, unexpected_eof, short_read, short, read_full}
use hootty.Io.Words.{u32-put_u32, read_full-append}
use hootty.Wire.{read_failed, Written, Message, Received, header, read_frame}
use hootty.Wire.Frames.{frame, Fits, write_all, stream, read_all, write_all-stream, read_all-stream}

-- The error of ReadFrame at a frame of which `n` bytes have come: io.EOF if none has, and also
-- between the header and its payload.
abbrev pub cut_error : ℕ → ReadError
cut_error n = if n == 0 || n == 5 then eof else unexpected_eof

read_full-short :
    (n : ℕ) (bs : Bytes)
    → length bs < n
    → read_full n (record { bytes = bs; ending = closes }) ≡ short (short_read closes bs)
unfolding read_full
read_full-short n bs h = ground arith

payload_cut :
    (m : Message) (k : ℕ)
    → Fits m
    → k < length m.payload
    → read_frame (record { bytes = header m ++ take k m.payload; ending = closes })
      ≡ Received.err (read_failed (short_read closes (take k m.payload)))
unfolding read_frame
payload_cut m k fits h = ground (
  arith,
  read_full-append (header m) (take k m.payload) closes 5 refl,
  u32-put_u32 (length m.payload) [] (omega arith),
  read_full-short (length m.payload) (take k m.payload) (omega (arith, length-take k m.payload)),
)

short_read-take :
    (k : ℕ) (bs : Bytes) → k < length bs → short_read closes (take k bs) ≡ cut_error (k + 5)
short_read-take zero bs h = refl
short_read-take (suc k) [] h = elim h [ ]
short_read-take (suc k) (b ∷ bs) h = ground arith

-- A frame of which only a part has come.
pub read_frame-cut :
    (m : Message) (n : ℕ)
    → Fits m
    → n < length (frame m)
    → read_frame (record { bytes = take n (frame m); ending = closes })
      ≡ Received.err (read_failed (cut_error n))
unfolding read_frame read_full
read_frame-cut m zero fits h = refl
read_frame-cut m (suc zero) fits h = refl
read_frame-cut m (suc (suc zero)) fits h = refl
read_frame-cut m (suc (suc (suc zero))) fits h = refl
read_frame-cut m (suc (suc (suc (suc zero)))) fits h = refl
read_frame-cut m (suc (suc (suc (suc (suc k))))) fits h =
    let inside : k < length m.payload = omega arith in
    rw (payload_cut m k fits inside, short_read-take k m.payload inside) (ground arith)

-- Messages of at most MaxPayload bytes each, written to a connection that takes every byte, are
-- all written; and where the connection closes `n` bytes into one more such frame, the reader gets
-- exactly the messages before it, in their order, and then the error of a cut frame: io.EOF for 0
-- and for 5 bytes, io.ErrUnexpectedEOF else.
pub write_all-read_all :
    (w : File) (ms : List Message) (m : Message) (n : ℕ)
    → w.content ≡ []
    → w.room ≡ none
    → All Fits ms
    → Fits m
    → n < length (frame m)
    → (write_all w ms ≡ Written.ok (record w { content = stream ms }))
      × (read_all
            (length ms + 1)
            (record { bytes = stream ms ++ take n (frame m); ending = closes })
          ≡ (ms, some (read_failed (cut_error n))))
write_all-read_all w ms m n fresh room fits fits_m h = (
  write_all-stream ms w room fits ∙ rw (fresh, room) refl,
  read_all-stream ms (length ms + 1) (take n (frame m)) closes (read_failed (cut_error n))
      (omega arith) fits (read_frame-cut m n fits_m h),
)
