-- ===== src/Wire/Frames.antt =====
-- Frames read back from what was written, whole, in a row, and cut short.
use hootty.Base.{
  Option, zero, suc, ℕ, ◌≤◌, ◌<◌, false, none, some, List, [], ◌∷◌, ◌++◌, ◌≡◌, refl, arith, ltb,
  length, Bytes, All, append_assoc, append-nil, Bool-cases, inl, inr,
}
use hootty.Io.{File, Reader, Ending, write_file}
use hootty.Io.Words.{u32-put_u32, read_full-append}
use hootty.Wire.{
  max_payload, WireError, Written, Message, Received, header, write_frame, read_frame,
}

abbrev pub frame : Message → Bytes
frame m = header m ++ m.payload

abbrev pub Fits : Message → Type 0
Fits m = length m.payload ≤ max_payload

nothing_behind : (bs : Bytes) → ltb 0 (length bs) ≡ false → bs ≡ []
nothing_behind [] h = refl
nothing_behind (b ∷ bs) h = ground arith

write_frame-frame :
    (w : File) (m : Message)
    → w.room ≡ none
    → Fits m
    → write_frame w m ≡ Written.ok (record w { content = w.content ++ frame m })
unfolding write_frame write_file
write_frame-frame w m room fits = elim (Bool-cases (ltb 0 (length m.payload))) [
  | inl e ↦ ground (arith, append_assoc w.content (header m) m.payload)
  | inr e ↦ ground (arith, nothing_behind m.payload e, append-nil (header m))
]

pub read_frame-frame :
    (m : Message) (rest : Bytes) (ending : Ending)
    → Fits m
    → read_frame (record { bytes = frame m ++ rest; ending = ending })
      ≡ Received.ok m (record { bytes = rest; ending = ending })
unfolding read_frame
read_frame-frame m rest ending fits = elim (Bool-cases (ltb 0 (length m.payload))) [
  | inl e ↦ ground (
    arith,
    append_assoc (header m) m.payload rest,
    read_full-append (header m) (m.payload ++ rest) ending 5 refl,
    read_full-append m.payload rest ending (length m.payload) refl,
    u32-put_u32 (length m.payload) [] (omega arith),
  )
  | inr e ↦ ground (
    arith,
    nothing_behind m.payload e,
    read_full-append (header m) rest ending 5 refl,
    u32-put_u32 (length m.payload) [] (omega arith),
  )
]

-- Messages written one after the other, up to the first error.
unfoldable pub write_all : File → List Message → Written
unfolding write_frame
write_all w [] = Written.ok w
write_all w (m ∷ ms) = elim (write_frame w m) [
  | Written.ok w ↦ write_all w ms
  | Written.err e w ↦ Written.err e w
]

abbrev pub stream : List Message → Bytes
stream [] = []
stream (m ∷ ms) = frame m ++ stream ms

-- What a reader gets before ReadFrame first fails, and that failure.
unfoldable pub read_all : ℕ → Reader → List Message × Option WireError
unfolding read_frame
read_all zero r = ([], none)
read_all (suc fuel) r = elim (read_frame r) [
  | Received.err e ↦ ([], some e)
  | Received.ok m r ↦ let (ms, e) = read_all fuel r in (m ∷ ms, e)
]

pub write_all-stream :
    (ms : List Message) (w : File)
    → w.room ≡ none
    → All Fits ms
    → write_all w ms ≡ Written.ok (record w { content = w.content ++ stream ms; room = none })
unfolding write_all
write_all-stream [] w room fits = rw append-nil (ground arith)
write_all-stream (m ∷ ms) w room fits = ground (
  arith,
  write_frame-frame w m room fits.0,
  write_all-stream ms (record w { content = w.content ++ frame m }) room fits.1,
  append_assoc w.content (frame m) (stream ms),
)

pub read_all-stream :
    (ms : List Message) (fuel : ℕ) (tail : Bytes) (ending : Ending) (e : WireError)
    → length ms < fuel
    → All Fits ms
    → read_frame (record { bytes = tail; ending = ending }) ≡ Received.err e
    → read_all fuel (record { bytes = stream ms ++ tail; ending = ending }) ≡ (ms, some e)
unfolding read_all
read_all-stream ms zero tail ending e enough fits h = elim enough [ ]
read_all-stream [] (suc fuel) tail ending e enough fits h = rw (h, read_all)
read_all-stream (m ∷ ms) (suc fuel) tail ending e enough fits h =
    rw (append_assoc (frame m) (stream ms) tail) (
      rw (read_frame-frame m (stream ms ++ tail) ending fits.0, read_all)
        (rw (read_all-stream ms fuel tail ending e (omega arith) fits.1 h) refl))
