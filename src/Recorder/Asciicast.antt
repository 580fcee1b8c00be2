-- ===== src/Recorder/Asciicast.antt =====
-- WriteAsciicastJSONL against the frames of the recording.
use mathlib.Core.Path.{subst}
use hootty.Base.{
  ℕ, zero, suc, ◌+◌, Bool, true, not, ◌||◌, Option, none, some, List, [], ◌∷◌, ◌++◌, ◌≡◌, refl, sym,
  ap, ◌∙◌, ◌⊎◌, inl, inr, arith, ◌==◌, if◌then◌else◌, length, drop, Bytes, all, append_assoc,
  append-nil, Bool-cases,
}
use hootty.Io.{File, write_file, Reader, u16}
use hootty.Recorder.{output_type, resize_type}
use hootty.Recorder.Decoder.{
  DecodeError, end_of_file, read_failed, bad_magic, stuck, bad_spacer, Result, ok, err, ◌>>=◌,
  FrameDecoder, Frame, new_frame_decoder, next, all_frames, decode,
}
use hootty.Recorder.Export.{
  Line, header_line, output_line, resize_line, AsciicastHeader, ExportError, write_failed,
  read_frame, line, skipped, failed, transcode_frame, transcode_loop, put_line, sized_header,
  write_asciicast,
}

-- A resize has a payload of four bytes.
abbrev pub well_formed : Frame → Bool
well_formed f = not (f.type == resize_type) || length f.payload == 4

-- The lines of the frames: one for an output and one for a resize.
abbrev pub line_of : Frame → List Line
line_of f =
    if f.type == output_type
    then output_line f.at f.payload ∷ []
    else if f.type == resize_type
    then resize_line f.at (u16 f.payload) (u16 (drop 2 f.payload)) ∷ []
    else []

no_frame :
    {first : Frame} {fs : List Frame} (e : DecodeError)
    → (elim e as (λ _. Result (List Frame)) [
      | end_of_file ↦ ok []
      | read_failed ↦ err read_failed
      | bad_magic ↦ err bad_magic
      | stuck ↦ err stuck
      | bad_spacer x ↦ err (bad_spacer x)
    ])
      ≡ ok (first ∷ fs)
    → ⊥
no_frame end_of_file h = grind (arith, h)
no_frame read_failed h = grind (arith, h)
no_frame bad_magic h = grind (arith, h)
no_frame stuck h = grind (arith, h)
no_frame (bad_spacer x) h = grind (arith, h)

unbind :
    (fr first : Frame) (fs : List Frame) (res : Result (List Frame))
    → (res >>= λ more. ok (fr ∷ more)) ≡ ok (first ∷ fs)
    → (res ≡ ok fs) × (fr ≡ first)
unbind fr first fs (err e) h = absurd (grind (arith, h))
unbind fr first fs (ok more) h = (grind (arith, h), grind (arith, h))

module _ (encode : Line → Bytes) where
  abbrev pub encoded : List Line → Bytes
  encoded [] = []
  encoded (l ∷ ls) = encode l ++ encoded ls

  abbrev pub transcript : List Frame → Bytes
  transcript [] = []
  transcript (f ∷ fs) = encoded (line_of f) ++ transcript fs

  abbrev written : File → Bytes → File
  written f bs = record { content = f.content ++ bs; room = none }

  abbrev finished : File → File × Option ExportError
  finished f = (f, none)

  -- The loop on a decoder that yields these frames.
  abbrev Transcodes : File → Result (List Frame) → File × Option ExportError → Type 0
  Transcodes f (err e) out = Unit {0}
  Transcodes f (ok fs) out = all well_formed fs ≡ true → out ≡ (written f (transcript fs), none)

  Result-cases :
      {A : Type 0} (x : Result A) → ((e : DecodeError) × (x ≡ err e)) ⊎ ((a : A) × (x ≡ ok a))
  Result-cases (err e) = inl (e, refl)
  Result-cases (ok a) = inr (a, refl)

  frame_step :
      (fuel : ℕ) (fr : Frame) (d : FrameDecoder) (f : File) (res : Result (List Frame))
      → f.room ≡ none
      → ((g : File) → g.room ≡ none → Transcodes g res (transcode_loop encode fuel d g))
      → Transcodes f
          (res >>= λ fs. ok (fr ∷ fs))
          (elim (transcode_frame fr) as (λ _. File × Option ExportError) [
            | line l ↦
                let (f, whole) = put_line encode l f in
                let rest = transcode_loop encode fuel d f in
                if whole then rest else (f, some write_failed)
            | skipped ↦ transcode_loop encode fuel d f
            | failed e ↦ (f, some e)
          ])
  unfolding transcode_frame write_file
  frame_step fuel fr d f (err e) room later = tt
  frame_step fuel fr d f (ok fs) room later = λ fine. elim (Bool-cases (fr.type == output_type)) [
    | inl o ↦ rw o (
        rw room
          (later (written f (encode (output_line fr.at fr.payload))) refl (rest fine) ∙ joined _))
    | inr o ↦ elim (Bool-cases (fr.type == resize_type)) [
      | inl z ↦
          let four : (length fr.payload == 4) ≡ true = sized fine z in
          rw o (
            rw z (
              rw four (
                rw room (
                  later
                    (written f
                      (encode (resize_line fr.at (u16 fr.payload) (u16 (drop 2 fr.payload)))))
                    refl (rest fine)
                  ∙ joined _))))
      | inr z ↦ rw o (rw z (later f room (rest fine)))
    ]
  ]
    where
      rest : all well_formed (fr ∷ fs) ≡ true → all well_formed fs ≡ true
      rest fine = ground (arith, fine)

      sized :
          all well_formed (fr ∷ fs) ≡ true
          → (fr.type == resize_type) ≡ true
          → (length fr.payload == 4) ≡ true
      sized fine z = ground (arith, fine, z)

      joined :
          (l : Bytes)
          → finished (written (written f l) (transcript fs))
            ≡ finished (written f ((l ++ []) ++ transcript fs))
      joined l =
          ap (λ bs. finished (record { content = bs; room = none }))
            (append_assoc f.content l (transcript fs)
              ∙ ap (λ bs. f.content ++ (bs ++ transcript fs)) (sym (append-nil l)))

  transcode_loop-Transcodes :
      (fuel : ℕ) (d : FrameDecoder) (f : File)
      → f.room ≡ none
      → Transcodes f (all_frames fuel d) (transcode_loop encode fuel d f)
  unfolding transcode_loop all_frames
  transcode_loop-Transcodes zero d f room = tt
  transcode_loop-Transcodes (suc fuel) d f room = elim (Result-cases (next d)) [
    | inl (e, h) ↦ rw (h, all_frames, transcode_loop) (ending e)
    | inr ((fr, d'), h) ↦
        rw (h, all_frames, transcode_loop)
          (frame_step fuel fr d' f (all_frames fuel d') room (transcode_loop-Transcodes fuel d'))
  ]
    where
      ending :
          (e : DecodeError)
          → Transcodes f
              (elim e as (λ _. Result (List Frame)) [
                | end_of_file ↦ ok []
                | read_failed ↦ err read_failed
                | bad_magic ↦ err bad_magic
                | stuck ↦ err stuck
                | bad_spacer x ↦ err (bad_spacer x)
              ])
              (elim e as (λ _. File × Option ExportError) [
                | end_of_file ↦ (f, none)
                | read_failed ↦ (f, some (read_frame read_failed))
                | bad_magic ↦ (f, some (read_frame bad_magic))
                | stuck ↦ (f, some (read_frame stuck))
                | bad_spacer x ↦ (f, some (read_frame (bad_spacer x)))
              ])
      ending end_of_file = λ fine. rw (append-nil f.content) (rw room refl)
      ending read_failed = tt
      ending bad_magic = tt
      ending stuck = tt
      ending (bad_spacer x) = tt

  -- A recording that decodes to a resize of four bytes and more frames, of which every resize has
  -- four bytes, is transcoded, into a writer that takes every byte, without an error to the header
  -- with the size of the first frame, and then one line for every output and every resize, in
  -- order, and none for any other frame.
  pub write_asciicast-transcript :
      (r : Reader) (h : AsciicastHeader) (f : File) (first : Frame) (fs : List Frame)
      → decode r ≡ ok (first ∷ fs)
      → first.type ≡ resize_type
      → length first.payload ≡ 4
      → all well_formed fs ≡ true
      → f.room ≡ none
      → write_asciicast encode r h f
        ≡ finished
            (written f (encode (header_line (sized_header h first.payload)) ++ transcript fs))
  unfolding write_asciicast decode write_file
  write_asciicast-transcript r h f first fs decodes is four fine room =
      let n = length r.bytes in
      let counted : n + 1 ≡ suc n = omega arith in
      let decoded : all_frames (suc n) (new_frame_decoder r) ≡ ok (first ∷ fs) =
        ap (λ k. all_frames k (new_frame_decoder r)) (sym counted) ∙ decodes in
      elim (Result-cases (next (new_frame_decoder r))) [
        | inl (e, x) ↦ absurd (no_frame e (rw (x, all_frames) at decoded))
        | inr ((fr, d), x) ↦
            let parts = unbind fr first fs (all_frames n d) (rw (x, all_frames) at decoded) in
            let header = encode (header_line (sized_header h first.payload)) in
            let loop =
              subst
                (λ res.
                  Transcodes (written f header) res (transcode_loop encode n d (written f header)))
                parts.0 (transcode_loop-Transcodes n d (written f header) refl) in
            rw (x, write_asciicast)
              (rw (parts.1) (
                rw (ap (λ k. k == resize_type) is) (
                  rw (ap (λ k. k == 4) four) (
                    rw room (
                      loop fine
                      ∙ ap (λ bs. finished (record { content = bs; room = none }))
                          (append_assoc f.content header (transcript fs)))))))
      ]
