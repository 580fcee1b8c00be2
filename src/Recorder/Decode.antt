-- ===== src/Recorder/Decode.antt =====
-- FrameDecoder on the bytes of well-formed frames, with a tail behind them that is no whole frame.
use hootty.Base.{
  ℕ, zero, suc, ◌+◌, ◌%◌, ◌≤◌, ◌<◌, true, List, [], ◌∷◌, ◌++◌, ◌≡◌, refl, sym, ap, ◌∙◌, arith, ◌==◌,
  if◌then◌else◌, length, Bytes, All, append_assoc, length-append, Bool-cases, inl, inr,
}
use hootty.Io.{closes, u32, put_u16}
use hootty.Io.Words.{u16-put_u16, read_full-append}
use hootty.Recorder.{spacer_type, header, u64_mod, recorder_preamble}
use hootty.Recorder.Frames.{RawFrame, encode, encodes, advance, clock, IsFrame}
use hootty.Recorder.Decoder.{
  new_frame_decoder, FrameDecoder, Frame, Result, ok, err, end_of_file, read_raw, next_frame, next,
  all_frames, decode, at_ns, parse_preamble,
}

-- The decoder at some bytes of a file, behind the preamble.
abbrev pub before : ℕ → Bytes → FrameDecoder
before cum bs = record {
  r = record { bytes = bs; ending = closes };
  preamble_parsed = true;
  cum_ms = cum;
}

-- What Next is to return for a frame.
abbrev pub frame_at : ℕ → RawFrame → Frame
frame_at cum f = record { type = f.type; at = at_ns cum; payload = f.payload }

-- What the callers of Next are to see.
abbrev pub frames : ℕ → List RawFrame → List Frame
frames cum [] = []
frames cum (f ∷ fs) =
    let rest = frames (cum + advance f) fs in
    if f.type == spacer_type then rest else frame_at (cum + advance f) f ∷ rest

-- A tail at which Next reports the end of the file.
abbrev pub IsTail : Bytes → Type 0
IsTail tail = (fuel cum : ℕ) → next_frame (suc fuel) (before cum tail) ≡ err end_of_file

read_raw-encode :
    (f : RawFrame) (more : Bytes)
    → IsFrame f
    → read_raw (record { bytes = encode f ++ more; ending = closes })
      ≡ ok (record {
        type = f.type;
        delta = f.delta;
        len = length f.payload;
        payload = f.payload;
        rest = record { bytes = more; ending = closes };
      })
unfolding read_raw
read_raw-encode f more v =
    let head = header f.type f.delta (length f.payload) in
    ground (
      arith,
      append_assoc head f.payload more,
      read_full-append head (f.payload ++ more) closes 5 refl,
      read_full-append f.payload more closes (length f.payload) refl,
      u16-put_u16 f.delta (put_u16 (length f.payload)) v.delta_fits,
      u16-put_u16 (length f.payload) [] v.length_fits,
    )

next_frame-encode :
    (fuel cum : ℕ) (f : RawFrame) (more : Bytes)
    → IsFrame f
    → cum + advance f < u64_mod
    → next_frame (suc fuel) (before cum (encode f ++ more)) ≡ (
        if f.type == spacer_type
        then next_frame fuel (before (cum + advance f) more)
        else ok (frame_at (cum + advance f) f, before (cum + advance f) more))
unfolding next_frame
next_frame-encode fuel cum f more v fits = elim (Bool-cases (f.type == spacer_type)) [
  | inl s ↦
      let four : (length f.payload == 4) ≡ true = ground arith in
      let moved : (cum + u32 f.payload) % u64_mod ≡ cum + u32 f.payload = ground arith in
      rw (read_raw-encode f more v)
        (rw s (rw four (ap (λ c. next_frame fuel (before c more)) moved)))
  | inr s ↦
      let moved : (cum + f.delta) % u64_mod ≡ cum + f.delta = ground arith in
      rw (read_raw-encode f more v) (rw s (rw moved))
]

module _ (tail : Bytes) (ends : IsTail tail) where
  -- The bytes of the frames and of the tail.
  abbrev remaining : List RawFrame → Bytes
  remaining fs = encodes fs ++ tail

  -- What one call of Next is to return: at a frame that is no spacer, and at any frames.
  abbrev shown_next : ℕ → RawFrame → List RawFrame → Result (Frame × FrameDecoder)
  shown_next cum f fs = ok (frame_at (cum + advance f) f, before (cum + advance f) (remaining fs))

  abbrev first_shown : ℕ → List RawFrame → Result (Frame × FrameDecoder)
  first_shown cum [] = err end_of_file
  first_shown cum (f ∷ fs) =
      let rest = first_shown (cum + advance f) fs in
      if f.type == spacer_type then rest else shown_next cum f fs

  next_frame-first_shown :
      (fs : List RawFrame) (fuel cum : ℕ)
      → All IsFrame fs
      → length fs < fuel
      → cum + clock fs < u64_mod
      → next_frame fuel (before cum (remaining fs)) ≡ first_shown cum fs
  next_frame-first_shown fs zero cum v enough fits = elim enough [ ]
  next_frame-first_shown [] (suc fuel) cum v enough fits = ends fuel cum
  next_frame-first_shown (f ∷ fs) (suc fuel) cum v enough fits =
      rw (append_assoc (encode f) (encodes fs) tail) (
        next_frame-encode fuel cum f (remaining fs) v.0 (omega arith)
        ∙ ap (λ r. if f.type == spacer_type then r else shown_next cum f fs)
            (next_frame-first_shown fs fuel (cum + advance f) v.1 (omega arith) (omega arith)))

  length-remaining : (fs : List RawFrame) → length fs ≤ length (remaining fs)
  length-remaining [] = omega arith
  length-remaining (f ∷ fs) = omega (
    arith,
    ap length (append_assoc (encode f) (encodes fs) tail),
    length-append (encode f) (remaining fs),
    length-remaining fs,
  )

  next-first_shown :
      (fs : List RawFrame) (cum : ℕ)
      → All IsFrame fs
      → cum + clock fs < u64_mod
      → next (before cum (remaining fs)) ≡ first_shown cum fs
  unfolding next
  next-first_shown fs cum v fits =
      next_frame-first_shown fs (length (remaining fs) + 1) cum v
        (omega (arith, length-remaining fs)) (omega arith)

  all_frames-next :
      (fuel : ℕ) (d d' : FrameDecoder) → next d ≡ next d' → all_frames fuel d ≡ all_frames fuel d'
  unfolding all_frames
  all_frames-next zero d d' e = refl
  all_frames-next (suc fuel) d d' e = rw (e, all_frames)

  skip_spacer :
      (f : RawFrame) (fs : List RawFrame) (cum : ℕ)
      → All IsFrame (f ∷ fs)
      → cum + clock (f ∷ fs) < u64_mod
      → (f.type == spacer_type) ≡ true
      → next (before cum (remaining (f ∷ fs))) ≡ next (before (cum + advance f) (remaining fs))
  skip_spacer f fs cum v fits s =
      next-first_shown (f ∷ fs) cum v fits
      ∙ ap (λ b. if b then first_shown (cum + advance f) fs else shown_next cum f fs) s
      ∙ sym (next-first_shown fs (cum + advance f) v.1 (omega arith))

  all_frames-shown :
      (fuel : ℕ) (d d' : FrameDecoder) (f : Frame) (fs : List Frame)
      → next d ≡ ok (f, d')
      → all_frames fuel d' ≡ ok fs
      → all_frames (suc fuel) d ≡ ok (f ∷ fs)
  unfolding all_frames
  all_frames-shown fuel d d' f fs e h = rw (e, all_frames) (rw h)

  all_frames-frames :
      (fs : List RawFrame) (fuel cum : ℕ)
      → All IsFrame fs
      → length fs < fuel
      → cum + clock fs < u64_mod
      → all_frames fuel (before cum (remaining fs)) ≡ ok (frames cum fs)
  unfolding all_frames
  all_frames-frames fs zero cum v enough fits = elim enough [ ]
  all_frames-frames [] (suc fuel) cum v enough fits =
      rw (next-first_shown [] cum v fits, all_frames)
  all_frames-frames (f ∷ fs) (suc fuel) cum v enough fits =
      elim (Bool-cases (f.type == spacer_type)) [
        | inl s ↦
            all_frames-next (suc fuel) (before cum (remaining (f ∷ fs)))
              (before (cum + advance f) (remaining fs)) (skip_spacer f fs cum v fits s)
            ∙ all_frames-frames fs (suc fuel) (cum + advance f) v.1 (omega arith) (omega arith)
            ∙ sym (ap (λ b. ok (if b then rest else frame_at (cum + advance f) f ∷ rest)) s)
        | inr s ↦
            let at_frame =
              next-first_shown (f ∷ fs) cum v fits
              ∙ ap (λ b. if b then first_shown (cum + advance f) fs else shown_next cum f fs) s in
            all_frames-shown fuel (before cum (remaining (f ∷ fs)))
              (before (cum + advance f) (remaining fs)) (frame_at (cum + advance f) f) rest at_frame
              (all_frames-frames fs fuel (cum + advance f) v.1 (omega arith) (omega arith))
            ∙ sym (ap (λ b. ok (if b then rest else frame_at (cum + advance f) f ∷ rest)) s)
      ]
    where
      rest : List Frame
      rest = frames (cum + advance f) fs

  preamble_read :
      (bs : Bytes)
      → parse_preamble (record { bytes = recorder_preamble ++ bs; ending = closes })
        ≡ ok (record { bytes = bs; ending = closes })
  unfolding parse_preamble
  preamble_read bs = refl

  next_first :
      (bs : Bytes)
      → next (new_frame_decoder (record { bytes = recorder_preamble ++ bs; ending = closes }))
        ≡ next (before 0 bs)
  unfolding next
  next_first bs = refl

  -- A file of whole frames, and a tail that is no whole frame, decodes to what the frames show.
  pub decode-frames :
      (fs : List RawFrame)
      → All IsFrame fs
      → clock fs < u64_mod
      → decode (record { bytes = recorder_preamble ++ remaining fs; ending = closes })
        ≡ ok (frames 0 fs)
  unfolding decode
  decode-frames fs v fits =
      let file = recorder_preamble ++ remaining fs in
      all_frames-next (length file + 1)
        (new_frame_decoder (record { bytes = file; ending = closes })) (before 0 (remaining fs))
        (next_first (remaining fs))
      ∙ all_frames-frames fs (length file + 1) 0 v
          (omega (arith, length-append recorder_preamble (remaining fs), length-remaining fs))
          (omega arith)
