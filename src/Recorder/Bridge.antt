-- ===== src/Recorder/Bridge.antt =====
-- The frames that the recorder's loops write, on a file that takes every write: the spacers of
-- bridgeIdleLocked and the chunks of flushPendingLocked.
use hootty.Base.{
  ◌/◌, leb, All, ltb→lt, ℕ, zero, suc, ◌+◌, ◌-◌, ◌*◌, ◌≤◌, ◌<◌, none, List, [], ◌∷◌, ◌++◌, ◌≡◌,
  refl, ap, ◌∙◌, arith, ltb, if◌then◌else◌, Bytes, append_assoc, append-nil, Bool-cases, inl, inr,
  ◌⊎◌,
}
use hootty.Io.{write_file, put_u32}
use hootty.Io.Words.{u32-put_u32}
use hootty.Recorder.{
  Recorder, ok, spacer_type, header, u32_max, u64_mod, sub_u64, write_bytes, write_spacer,
  bridge_loop, bridge_idle,
}
use hootty.Recorder.Frames.{
  IsFrame, items, RawFrame, encodes, advance, clock, encodes-append, clock-append,
}

-- The recorder behind these bytes, and behind these frames.
abbrev pub grown : Recorder → Bytes → Recorder
grown r bs = record r { file = record { content = r.file.content ++ bs; room = none } }

abbrev pub emit : Recorder → List RawFrame → Recorder
emit r fs = record r {
  file = record { content = r.file.content ++ encodes fs; room = none };
  last_emitted_ms = r.last_emitted_ms + clock fs;
}

pub write_bytes-grown :
    (r : Recorder) (bs : Bytes) → r.file.room ≡ none → write_bytes r bs ≡ (grown r bs, ok)
unfolding write_bytes write_file
write_bytes-grown r bs h = ground arith

pub emit-append : (r : Recorder) (fs gs : List RawFrame) → emit (emit r fs) gs ≡ emit r (fs ++ gs)
emit-append r fs gs = ground (
  arith,
  encodes-append fs gs,
  clock-append fs gs,
  append_assoc r.file.content (encodes fs) (encodes gs),
)

abbrev pub spacer : ℕ → RawFrame
spacer ms = record { type = spacer_type; delta = 0; payload = put_u32 ms }

-- The part of a gap that one spacer bridges.
abbrev pub spacer_ms : ℕ → ℕ
spacer_ms gap = if ltb u32_max gap then u32_max else gap

unfoldable pub spacers : ℕ → ℕ → List RawFrame
spacers zero gap = []
spacers (suc fuel) gap =
    let rest = spacers fuel (gap - spacer_ms gap) in
    if ltb 65535 gap then spacer (spacer_ms gap) ∷ rest else []

write_spacer-emit :
    (r : Recorder) (gap : ℕ)
    → r.file.room ≡ none
    → r.last_emitted_ms + gap < u64_mod
    → write_spacer r gap ≡ (emit r (spacer (spacer_ms gap) ∷ []), ok)
unfolding write_spacer
write_spacer-emit r gap h fits =
    let head = header spacer_type 0 4 in
    let body = put_u32 (spacer_ms gap) in
    let first = write_bytes-grown r head h in
    let second = write_bytes-grown (grown r head) body refl in
    rw first (
      rw second
        (ground (arith, append_assoc r.file.content head body, u32-put_u32 (spacer_ms gap) [])))

emit-nil : (r : Recorder) → r.file.room ≡ none → r ≡ emit r []
emit-nil r h = ground (arith, append-nil r.file.content)

spacer_ms_lem :
    (gap : ℕ)
    → (spacer_ms gap ≤ gap)
      × (spacer_ms gap ≤ u32_max)
      × (gap ≤ spacer_ms gap ⊎ spacer_ms gap ≡ u32_max)
spacer_ms_lem gap = ground arith

advance-spacer : (gap : ℕ) → advance (spacer (spacer_ms gap)) ≡ spacer_ms gap
advance-spacer gap = u32-put_u32 (spacer_ms gap) [] (omega (arith, spacer_ms_lem gap))

pub bridge_loop-emit :
    (fuel : ℕ) (r : Recorder) (now : ℕ)
    → r.file.room ≡ none
    → r.last_emitted_ms ≤ now
    → now < u64_mod
    → now - r.last_emitted_ms ≤ fuel * u32_max
    → bridge_loop (suc fuel) now r ≡ (emit r (spacers (suc fuel) (now - r.last_emitted_ms)), ok)
unfolding bridge_loop spacers
bridge_loop-emit zero r now h past fits enough =
    let still : sub_u64 now r.last_emitted_ms ≡ 0 = omega arith in
    let none_left : now - r.last_emitted_ms ≡ 0 = omega arith in
    rw (still, none_left) (ap (λ x. (x, ok)) (emit-nil r h))
bridge_loop-emit (suc k) r now h past fits enough = elim (Bool-cases (ltb 65535 gap)) [
  | inr small ↦ rw (gap_eq, small) (ap (λ x. (x, ok)) (emit-nil r h))
  | inl large ↦
      rw (gap_eq, large, write_spacer-emit r gap h (omega arith))
        (rw moved at (
            bridge_loop-emit k r' now refl (omega (arith, advance-spacer gap, spacer_ms_lem gap))
              fits (omega (arith, advance-spacer gap, spacer_ms_lem gap)))
          ∙ ap (λ x. (x, ok))
              (emit-append r (spacer (spacer_ms gap) ∷ []) (spacers (suc k) (gap - spacer_ms gap))))
]
  where
    gap : ℕ
    gap = now - r.last_emitted_ms

    gap_eq : sub_u64 now r.last_emitted_ms ≡ gap
    gap_eq = omega arith

    r' : Recorder
    r' = emit r (spacer (spacer_ms gap) ∷ [])

    moved : now - r'.last_emitted_ms ≡ gap - spacer_ms gap
    moved = omega (arith, advance-spacer gap, spacer_ms_lem gap)

-- The spacers that bridgeIdleLocked writes over a gap.
abbrev pub bridge_frames : ℕ → List RawFrame
bridge_frames gap = spacers (gap / u32_max + 2) gap

pub bridge_idle-emit :
    (r : Recorder) (now : ℕ)
    → r.file.room ≡ none
    → r.last_emitted_ms ≤ now
    → now < u64_mod
    → bridge_idle r now ≡ (emit r (bridge_frames (now - r.last_emitted_ms)), ok)
unfolding bridge_idle
bridge_idle-emit r now h past fits = elim (Bool-cases (leb now r.last_emitted_ms)) [
  | inl same ↦
      let none_left : now - r.last_emitted_ms ≡ 0 = ground arith in
      rw (same, none_left) (unfold spacers in ap (λ x. (x, ok)) (emit-nil r h))
  | inr later ↦
      let rounds = (now - r.last_emitted_ms) / u32_max in
      let two : rounds + 2 ≡ suc (rounds + 1) = omega arith in
      rw (later, two) (bridge_loop-emit (rounds + 1) r now h past fits (omega arith))
]

-- After the spacers the gap fits a frame's delta.
pub spacers-clock :
    (fuel gap : ℕ)
    → gap ≤ fuel * u32_max
    → (clock (spacers (suc fuel) gap) ≤ gap) × (gap ≤ clock (spacers (suc fuel) gap) + 65535)
unfolding spacers
spacers-clock zero gap h = let none_left : gap ≡ 0 = omega arith in rw none_left (omega arith)
spacers-clock (suc k) gap h = elim (Bool-cases (ltb 65535 gap)) [
  | inr small ↦ rw small (ground arith)
  | inl large ↦ rw large (
      omega (
        arith,
        advance-spacer gap,
        spacer_ms_lem gap,
        ltb→lt 65535 gap large,
        spacers-clock k (gap - spacer_ms gap)
            (omega (arith, spacer_ms_lem gap, ltb→lt 65535 gap large)),
      ))
]

-- Spacers show nothing.
pub items-spacers : (fuel gap now : ℕ) → items now (spacers fuel gap) ≡ []
unfolding spacers
items-spacers zero gap now = refl
items-spacers (suc fuel) gap now =
    ground
      (arith, items-spacers fuel (gap - spacer_ms gap) (now + advance (spacer (spacer_ms gap))))

pub spacers-IsFrame : (fuel gap : ℕ) → All IsFrame (spacers fuel gap)
unfolding spacers
spacers-IsFrame zero gap = tt
spacers-IsFrame (suc fuel) gap = ground (arith, spacers-IsFrame fuel (gap - spacer_ms gap))

-- Over any gap that 64 bits hold, on a file that takes every write, bridgeIdleLocked ends without
-- an error, and what is left of the gap fits the 16 bits of the next frame's delta.
bridge_idle-closes :
    (r : Recorder) (now : ℕ)
    → r.file.room ≡ none
    → r.last_emitted_ms ≤ now
    → now < u64_mod
    → ((bridge_idle r now).1 ≡ ok)
      × ((bridge_idle r now).0.last_emitted_ms ≤ now)
      × (now ≤ (bridge_idle r now).0.last_emitted_ms + 65535)
bridge_idle-closes r now h past fits =
    let gap = now - r.last_emitted_ms in
    let (low, high) = spacers-clock (gap / u32_max + 1) gap (omega arith) in
    let two : gap / u32_max + 2 ≡ suc (gap / u32_max + 1) = omega arith in
    let taken = ap (λ n. clock (spacers n gap)) two in
    rw (bridge_idle-emit r now h past fits)
      (refl, omega (arith, taken, low), omega (arith, taken, low, high))
