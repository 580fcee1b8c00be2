-- ===== src/Recorder/Frames.antt =====
-- The hootty.log v1 format as data: a frame, its bytes, the time that it takes, and what a
-- recording shows, which is bytes and resizes at their times.
use hootty.Base.{
  ℕ, ◌+◌, ◌<◌, List, [], ◌∷◌, ◌++◌, map, ◌≡◌, refl, sym, ap, ◌∙◌, arith, ◌==◌, if◌then◌else◌,
  length, drop, Bytes, IsByte, append_assoc,
}
use hootty.Io.{u16, u32}
use hootty.Recorder.{output_type, resize_type, spacer_type, header}

pub record RawFrame : Type 0 where
  pub type : ℕ
  pub delta : ℕ
  pub payload : Bytes

abbrev pub encode : RawFrame → Bytes
encode f = header f.type f.delta (length f.payload) ++ f.payload

abbrev pub encodes : List RawFrame → Bytes
encodes [] = []
encodes (f ∷ fs) = encode f ++ encodes fs

-- The milliseconds by which a frame moves the clock.
abbrev pub advance : RawFrame → ℕ
advance f = if f.type == spacer_type then u32 f.payload else f.delta

abbrev pub clock : List RawFrame → ℕ
clock [] = 0
clock (f ∷ fs) = advance f + clock fs

pub data Item : Type 0 where
  byte : ℕ → ℕ → Item
  resize : ℕ → ℕ → ℕ → Item

-- What a frame shows at its time.
abbrev pub frame_items : ℕ → RawFrame → List Item
frame_items at f =
    if f.type == output_type
    then map (byte at) f.payload
    else if f.type == resize_type
    then resize at (u16 f.payload) (u16 (drop 2 f.payload)) ∷ []
    else []

abbrev pub items : ℕ → List RawFrame → List Item
items now [] = []
items now (f ∷ fs) = frame_items (now + advance f) f ++ items (now + advance f) fs

-- The header has room for its fields, and a spacer has four bytes of payload.
pub record IsFrame (f : RawFrame) : Type 0 where
  pub type_fits : IsByte f.type
  pub delta_fits : f.delta < 65536
  pub length_fits : length f.payload < 65536
  pub spacer_fits : f.type ≡ spacer_type → length f.payload ≡ 4

pub encodes-append : (fs gs : List RawFrame) → encodes (fs ++ gs) ≡ encodes fs ++ encodes gs
encodes-append [] gs = refl
encodes-append (f ∷ fs) gs =
    rw (encodes-append fs gs) (sym (append_assoc (encode f) (encodes fs) (encodes gs)))

pub clock-append : (fs gs : List RawFrame) → clock (fs ++ gs) ≡ clock fs + clock gs
clock-append [] gs = omega arith
clock-append (f ∷ fs) gs = omega (arith, clock-append fs gs)

pub items-append :
    (now : ℕ) (fs gs : List RawFrame)
    → items now (fs ++ gs) ≡ items now fs ++ items (now + clock fs) gs
items-append now [] gs = ap (λ n. items n gs) (omega arith)
items-append now (f ∷ fs) gs =
    let shift : (now + advance f) + clock fs ≡ now + (advance f + clock fs) = omega arith in
    ap (◌++◌ (frame_items (now + advance f) f)) (
      items-append (now + advance f) fs gs
      ∙ ap (λ n. items (now + advance f) fs ++ items n gs) shift)
    ∙ sym (append_assoc (frame_items (now + advance f) f) (items (now + advance f) fs) _)
