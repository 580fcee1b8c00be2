-- ===== src/Recorder/Chunk.antt =====
-- The output frames of flushPendingLocked: a buffer cut into chunks of at most 65535 bytes.
use hootty.Base.{
  lt→ltb, ℕ, zero, suc, ◌+◌, ◌≤◌, ◌<◌, none, List, [], ◌∷◌, ◌++◌, map, ◌≡◌, refl, sym, ap, ◌∙◌,
  arith, ltb, ◌==◌, if◌then◌else◌, length, take, drop, Bytes, All, append_assoc, append-nil,
  length-drop, length-take, take-append-drop, Bool-cases, inl, inr,
}
use mathlib.Core.List.{map-append}
use hootty.Recorder.{Recorder, ok, output_type, header, max_chunk, write_chunk, chunk_loop}
use hootty.Recorder.Frames.{RawFrame, encode, encodes, clock, Item, byte, items, IsFrame}
use hootty.Recorder.Bridge.{grown, write_bytes-grown}

abbrev pub chunk_len : Bytes → ℕ
chunk_len buf = if ltb max_chunk (length buf) then max_chunk else length buf

abbrev pub output : ℕ → Bytes → RawFrame
output delta chunk = record { type = output_type; delta = delta; payload = chunk }

unfoldable pub chunks : ℕ → ℕ → Bytes → List RawFrame
chunks zero delta buf = []
chunks (suc fuel) delta buf =
    let rest = chunks fuel 0 (drop (chunk_len buf) buf) in
    output delta (take (chunk_len buf) buf)
    ∷ (if length (drop (chunk_len buf) buf) == 0 then [] else rest)

write_chunk-grown :
    (r : Recorder) (delta : ℕ) (chunk : Bytes)
    → r.file.room ≡ none
    → write_chunk r delta chunk ≡ (grown r (encode (output delta chunk)), ok)
unfolding write_chunk
write_chunk-grown r delta [] h = rw (write_bytes-grown r (header output_type delta 0) h)
write_chunk-grown r delta (c ∷ cs) h =
    let head = header output_type delta (length (c ∷ cs)) in
    let first = write_bytes-grown r head h in
    let second = write_bytes-grown (grown r head) (c ∷ cs) refl in
    let some_bytes = lt→ltb 0 (length (c ∷ cs)) (omega arith) in
    rw first (rw some_bytes (rw second (rw (append_assoc r.file.content head (c ∷ cs)))))

chunk_len_lem :
    (buf : Bytes)
    → (chunk_len buf ≤ length buf)
      × (chunk_len buf ≤ 65535)
      × (length (take (chunk_len buf) buf) ≡ chunk_len buf)
      × (length (drop (chunk_len buf) buf) + chunk_len buf ≡ length buf)
      × (chunk_len buf ≡ 0 → length buf ≡ 0)
chunk_len_lem buf = ground (arith, length-take (chunk_len buf) buf, length-drop (chunk_len buf) buf)

grown-append : (r : Recorder) (xs ys : Bytes) → grown (grown r xs) ys ≡ grown r (xs ++ ys)
grown-append r xs ys = rw (append_assoc r.file.content xs ys)

pub chunk_loop-grown :
    (fuel delta : ℕ) (buf : Bytes) (r : Recorder)
    → r.file.room ≡ none
    → length buf < fuel
    → chunk_loop fuel delta buf r ≡ (grown r (encodes (chunks fuel delta buf)), ok)
unfolding chunk_loop chunks
chunk_loop-grown zero delta buf r h enough = elim enough [ ]
chunk_loop-grown (suc fuel) delta buf r h enough =
    elim (Bool-cases (length (drop (chunk_len buf) buf) == 0)) [
      | inl last ↦
          rw (write_chunk-grown r delta (take (chunk_len buf) buf) h) (rw last (rw append-nil))
      | inr more ↦
          let frame = output delta (take (chunk_len buf) buf) in
          rw (write_chunk-grown r delta (take (chunk_len buf) buf) h) (
            rw more (
              chunk_loop-grown fuel 0 (drop (chunk_len buf) buf) (grown r (encode frame)) refl
                (ground (arith, chunk_len_lem buf))
              ∙ ap (λ x. (x, ok)) (grown-append r (encode frame) _)))
    ]

chunks-clock_zero : (fuel : ℕ) (buf : Bytes) → clock (chunks fuel 0 buf) ≡ 0
unfolding chunks
chunks-clock_zero zero buf = refl
chunks-clock_zero (suc fuel) buf = ground (arith, chunks-clock_zero fuel (drop (chunk_len buf) buf))

pub chunks-clock : (fuel delta : ℕ) (buf : Bytes) → clock (chunks (suc fuel) delta buf) ≡ delta
unfolding chunks
chunks-clock fuel delta buf = ground (arith, chunks-clock_zero fuel (drop (chunk_len buf) buf))

length_zero : (bs : Bytes) → length bs ≡ 0 → bs ≡ []
length_zero [] h = refl
length_zero (b ∷ bs) h = absurd (omega arith)

-- Together the chunks show the buffer, all at one time.
pub items-chunks :
    (fuel delta now : ℕ) (buf : Bytes)
    → length buf < fuel
    → items now (chunks fuel delta buf) ≡ map (byte (now + delta)) buf
unfolding chunks
items-chunks zero delta now buf h = elim h [ ]
items-chunks (suc fuel) delta now buf h =
    elim (Bool-cases (length (drop (chunk_len buf) buf) == 0)) [
      | inl last ↦ rw last (
          let none_left = length_zero (drop (chunk_len buf) buf) (ground arith) in
          rw append-nil (ap show (front_whole none_left)))
      | inr more ↦ rw more (
          let rest =
            items-chunks fuel 0 (now + delta) (drop (chunk_len buf) buf)
              (ground (arith, chunk_len_lem buf)) in
          let same_time : now + delta + 0 ≡ now + delta = omega arith in
          ap (◌++◌ (show front))
            (rest ∙ ap (λ n. map (byte n) (drop (chunk_len buf) buf)) same_time)
          ∙ sym (map-append (byte (now + delta)) front (drop (chunk_len buf) buf))
          ∙ ap show (take-append-drop (chunk_len buf) buf))
    ]
  where
    front : Bytes
    front = take (chunk_len buf) buf

    show : Bytes → List Item
    show = map (byte (now + delta))

    front_whole : drop (chunk_len buf) buf ≡ [] → front ≡ buf
    front_whole e =
        sym (append-nil front) ∙ ap (◌++◌ front) (sym e) ∙ take-append-drop (chunk_len buf) buf

pub chunks-IsFrame :
    (fuel delta : ℕ) (buf : Bytes) → delta < 65536 → All IsFrame (chunks fuel delta buf)
unfolding chunks
chunks-IsFrame zero delta buf h = tt
chunks-IsFrame (suc fuel) delta buf h =
    ground
      (arith, chunk_len_lem buf, chunks-IsFrame fuel 0 (drop (chunk_len buf) buf) (omega arith))
