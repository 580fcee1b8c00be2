-- ===== src/Recorder/Window.antt =====
-- ReadOutputEvents of a recording whose times rise.
use hootty.Base.{
  ℕ, ◌+◌, ◌-◌, ◌%◌, ◌≤◌, ◌<◌, true, not, ◌&&◌, some, List, [], ◌∷◌, ◌++◌, ◌≡◌, refl, sym, ap, ◌∙◌,
  arith, ltb, leb, ==_iff, leb→le, le→leb, lt→ltb, ◌==◌, if◌then◌else◌, length, append_assoc,
  append-nil, Bool-cases, inl, inr,
}
use hootty.Io.{Reader}
use hootty.Recorder.{output_type, u64_mod, sub_u64}
use hootty.Recorder.Decoder.{ok, Frame, decode}
use hootty.Recorder.Export.{
  signed_less, OutputEvent, collect, skip_before, in_window, read_output_events,
}

-- Times from `t` on that do not fall, within an int64.
abbrev pub RisesFrom : ℕ → List Frame → Type 0
RisesFrom t [] = Unit {0}
RisesFrom t (f ∷ fs) = (t ≤ f.at) × (f.at < 9223372036854775808) × RisesFrom f.at fs

abbrev pub last_time : ℕ → List Frame → ℕ
last_time t [] = t
last_time t (f ∷ fs) = last_time f.at fs

-- The output of the last `window` nanoseconds before `end`.
unfoldable pub recent : ℕ → ℕ → List Frame → List OutputEvent
recent window end [] = []
recent window end (f ∷ fs) =
    let rest = recent window end fs in
    if f.type == output_type && leb end (f.at + window)
    then (record { at = f.at; data_ = f.payload }) ∷ rest
    else rest

outputs : List Frame → List OutputEvent
outputs [] = []
outputs (f ∷ fs) =
    let rest = outputs fs in
    if f.type == output_type then (record { at = f.at; data_ = f.payload }) ∷ rest else rest

signed_less-small :
    (a b : ℕ) → a < 9223372036854775808 → b < 9223372036854775808 → signed_less a b ≡ ltb a b
signed_less-small a b ha hb =
    let left : (a + 9223372036854775808) % u64_mod ≡ a + 9223372036854775808 = omega arith in
    let right : (b + 9223372036854775808) % u64_mod ≡ b + 9223372036854775808 = omega arith in
    rw (left, right) (shifted a b 9223372036854775808)
  where
    shifted : (a b k : ℕ) → ltb (a + k) (b + k) ≡ ltb a b
    shifted a b k = ground arith

later_time : (t x : ℕ) → t ≤ x → x < 9223372036854775808 → (if signed_less t x then x else t) ≡ x
later_time t x h small = rw (signed_less-small t x (omega (arith, h, small)) small) (top t x h)
  where
    top : (t x : ℕ) → t ≤ x → (if ltb t x then x else t) ≡ x
    top t x h = ground arith

collect-outputs :
    (fs : List Frame) (evs : List OutputEvent) (t : ℕ)
    → RisesFrom t fs
    → t < 9223372036854775808
    → collect evs t fs ≡ (evs ++ outputs fs, last_time t fs)
unfolding collect outputs
collect-outputs [] evs t h small = ap (λ es. (es, t)) (sym (append-nil evs))
collect-outputs (f ∷ fs) evs t h small =
    rw (later_time t f.at h.0 h.1) (elim (Bool-cases (f.type == output_type)) [
      | inl e ↦
          let ev : OutputEvent = record { at = f.at; data_ = f.payload } in
          rw e (
            collect-outputs fs (evs ++ ev ∷ []) f.at h.2 h.1
            ∙ ap (λ es. (es, last_time f.at fs)) (append_assoc evs (ev ∷ []) (outputs fs)))
      | inr e ↦ rw e (collect-outputs fs evs f.at h.2 h.1)
    ])

abbrev event : Frame → OutputEvent
event f = record { at = f.at; data_ = f.payload }

all_recent :
    (fs : List Frame) (t window end : ℕ)
    → RisesFrom t fs
    → end ≤ t + window
    → outputs fs ≡ recent window end fs
unfolding outputs recent
all_recent [] t window end h w = refl
all_recent (f ∷ fs) t window end h w =
    let here : end ≤ f.at + window = omega (arith, h.0, w) in
    let later = all_recent fs f.at window end h.2 here in
    rw (le→leb end (f.at + window) here) (elim (Bool-cases (f.type == output_type)) [
      | inl e ↦ rw e (ap (◌∷◌ (event f)) later)
      | inr e ↦ rw e later
    ])

early :
    (at window end : ℕ)
    → at < 9223372036854775808
    → end < 9223372036854775808
    → window < end
    → signed_less at (sub_u64 end window) ≡ not (leb end (at + window))
early at window end ha he w =
    let cutoff : sub_u64 end window ≡ end - window = omega arith in
    rw (cutoff, signed_less-small at (end - window) ha (omega (arith, he))) (split at window end w)
  where
    split : (at window end : ℕ) → window < end → ltb at (end - window) ≡ not (leb end (at + window))
    split at window end w = ground arith

skip_before-recent :
    (fs : List Frame) (t window end : ℕ)
    → RisesFrom t fs
    → end < 9223372036854775808
    → window < end
    → skip_before (sub_u64 end window) (outputs fs) ≡ recent window end fs
unfolding skip_before outputs recent
skip_before-recent [] t window end h small w = refl
skip_before-recent (f ∷ fs) t window end h small w =
    let later = skip_before-recent fs f.at window end h.2 small w in
    elim (Bool-cases (f.type == output_type)) [
      | inl e ↦ rw e (
          rw (early f.at window end h.1 small w) (elim (Bool-cases (leb end (f.at + window))) [
            | inl k ↦ rw k (
                ap (◌∷◌ (event f))
                  (all_recent fs f.at window end h.2 (leb→le end (f.at + window) k)))
            | inr k ↦ rw k later
          ]))
      | inr e ↦ rw e later
    ]

last_time-small :
    (fs : List Frame) (t : ℕ)
    → RisesFrom t fs
    → t < 9223372036854775808
    → last_time t fs < 9223372036854775808
last_time-small [] t h small = small
last_time-small (f ∷ fs) t h small = last_time-small fs f.at h.2 h.1

windowed :
    (fs : List Frame) (window end : ℕ)
    → RisesFrom 0 fs
    → end < 9223372036854775808
    → 0 < window
    → window < end
    → in_window window (outputs fs, end) ≡ recent window end fs
unfolding in_window skip_before
windowed fs window end rises small some_time reaches =
    let cutoff : sub_u64 end window ≡ end - window = omega arith in
    let positive : signed_less 0 window ≡ true =
      signed_less-small 0 window (omega arith) (omega arith) ∙ lt→ltb 0 window some_time in
    let after : signed_less 0 (sub_u64 end window) ≡ true = rw cutoff (
      signed_less-small 0 (end - window) (omega arith) (omega arith)
      ∙ lt→ltb 0 (end - window) (omega arith)) in
    rw positive (
      rw after (elim (Bool-cases (length (outputs fs) == 0)) [
        | inl e ↦ rw e (
            skip_before-nothing (outputs fs) e
            ∙ skip_before-recent fs 0 window end rises small reaches)
        | inr e ↦ rw e (skip_before-recent fs 0 window end rises small reaches)
      ]))
  where
    skip_before-nothing :
        (evs : List OutputEvent)
        → (length evs == 0) ≡ true
        → evs ≡ skip_before (sub_u64 end window) evs
    skip_before-nothing [] e = refl
    skip_before-nothing (ev ∷ evs) e = absurd (omega (arith, (==_iff (length (ev ∷ evs)) 0).0 e))

-- ReadOutputEvents on a recording whose times do not fall yields, for a positive window that does
-- not reach back to the start, exactly the output frames no more than the window before the last
-- frame, in order.
pub read_output_events-recent :
    (r : Reader) (fs : List Frame) (window : ℕ)
    → decode r ≡ ok fs
    → RisesFrom 0 fs
    → 0 < window
    → window < last_time 0 fs
    → read_output_events (some r) window ≡ ok (recent window (last_time 0 fs) fs)
unfolding read_output_events in_window
read_output_events-recent r fs window h rises some_time reaches =
    let end = last_time 0 fs in
    let small : end < 9223372036854775808 = last_time-small fs 0 rises (omega arith) in
    let found : collect [] 0 fs ≡ (outputs fs, end) = collect-outputs fs [] 0 rises (omega arith) in
    rw (h, found, read_output_events) (ap ok (windowed fs window end rises small some_time reaches))
