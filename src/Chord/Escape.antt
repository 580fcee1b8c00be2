-- ===== src/Chord/Escape.antt =====
-- ESC as the prefix key, which ParsePrefixKey accepts as 0x1b.
use hootty.Base.{
  ℕ, zero, suc, ◌+◌, true, false, some, [], ◌∷◌, ◌++◌, ◌≡◌, refl, arith, length, Bytes, All,
  Bool-cases, Option-cases, inl, inr,
}
use hootty.Stripper.Query.{esc}
use hootty.Wire.{parse_prefix_key}
use hootty.Chord.{
  KeyEvent, csi_event, Action, forward_bytes, normal, after_pref, is_prefix_codepoint,
  is_prefix_key, read_csi, read_key_event, run_loop, run_chord_fsm,
}
use hootty.Chord.Run.{run_loop-step, fsm_step-forward}
use hootty.Chord.Prefix.{fsm_step-prefix}

csi_event-no_prefix :
    (a b c : ℕ) (raw params : Bytes) (f : ℕ)
    → is_prefix_key esc (csi_event (a ∷ b ∷ c ∷ raw) params f) ≡ false
unfolding is_prefix_key is_prefix_codepoint
csi_event-no_prefix a b c raw params f = ground arith

read_csi-no_prefix :
    (bs : Bytes) (a b : ℕ) (raw params : Bytes)
    → is_prefix_key esc (read_csi (a ∷ b ∷ raw) params bs).0 ≡ false
unfolding read_csi
read_csi-no_prefix [] a b raw params = unfold is_prefix_key in refl
read_csi-no_prefix (c ∷ bs) a b [] params = ground (
  arith,
  csi_event-no_prefix a b c [] params c,
  read_csi-no_prefix bs a b (c ∷ []) (params ++ c ∷ []),
)
read_csi-no_prefix (c ∷ bs) a b (d ∷ raw) params = ground (
  arith,
  csi_event-no_prefix a b d (raw ++ c ∷ []) params c,
  read_csi-no_prefix bs a b (d ∷ (raw ++ c ∷ [])) (params ++ c ∷ []),
)

-- The only key that ESC matches is an ESC at the very end of the input.
prefix_at_end :
    (input : Bytes) (ev : KeyEvent) (rest : Bytes)
    → read_key_event input ≡ some (ev, rest)
    → is_prefix_key esc ev ≡ true
    → rest ≡ []
unfolding read_key_event is_prefix_key
prefix_at_end [] ev rest h k = ground arith
prefix_at_end (b ∷ []) ev rest h k = ground arith
prefix_at_end (b ∷ b2 ∷ bs) ev rest h k = ground (arith, read_csi-no_prefix bs b b2 [] [])

abbrev pub IsForward : Action → Type 0
IsForward (forward_bytes bs) = Unit
IsForward _ = ⊥

at_end : (fuel : ℕ) → (run_loop fuel esc after_pref []).actions ≡ []
unfolding run_loop
at_end zero = refl
at_end (suc fuel) = refl

run_loop-IsForward :
    (fuel : ℕ) (input : Bytes) → All IsForward (run_loop fuel esc normal input).actions
unfolding run_loop
run_loop-IsForward zero input = tt
run_loop-IsForward (suc fuel) input = elim (Option-cases (read_key_event input)) [
  | inl e ↦ rw (e, run_loop) tt
  | inr ((ev, rest), e) ↦ elim (Bool-cases (is_prefix_key esc ev)) [
    | inl p ↦
        rw (run_loop-step fuel esc normal after_pref input rest ev [] e (fsm_step-prefix esc ev p))
          (rw (prefix_at_end input ev rest e p) (rw (at_end fuel) tt))
    | inr p ↦
        rw
          (run_loop-step fuel esc normal normal input rest ev (forward_bytes ev.raw ∷ []) e
            (fsm_step-forward esc ev p))
          (tt, run_loop-IsForward fuel rest)
  ]
]

-- `0x1b` is accepted as a prefix key, and then no input at all detaches, suspends, clones or sends
-- the literal prefix: every action of the loop forwards bytes.
pub run_chord_fsm-escape :
    (input : Bytes)
    → (parse_prefix_key (b'0' ∷ b'x' ∷ b'1' ∷ b'b' ∷ []) ≡ some esc)
      × All IsForward (run_chord_fsm esc input).actions
unfolding run_chord_fsm parse_prefix_key
run_chord_fsm-escape input = (refl, run_loop-IsForward (length input + 1) input)
