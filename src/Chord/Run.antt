-- ===== src/Chord/Run.antt =====
-- The chord loop over an input: what it forwards, and what a chord does.
use hootty.Base.{
  ℕ, zero, suc, ◌+◌, ◌<◌, false, none, some, List, [], ◌∷◌, ◌++◌, ◌≡◌, refl, sym, ap, ◌∙◌, arith,
  length, Bytes, All, Option-cases, inl, inr,
}
use hootty.Chord.{
  KeyEvent, Action, forward_bytes, FsmState, normal, is_prefix_key, read_key_event, fsm_step,
  run_loop, run_chord_fsm,
}
use hootty.Chord.Keys.{read_key_event-Taken, read_key_event-none}

-- The keys of an input, on fuel as the loop.
unfoldable pub keys : ℕ → Bytes → List KeyEvent
unfolding read_key_event
keys zero input = []
keys (suc fuel) input = elim (read_key_event input) [
  | none ↦ []
  | some (ev, rest) ↦ ev ∷ keys fuel rest
]

abbrev pub raws : List KeyEvent → Bytes
raws [] = []
raws (ev ∷ evs) = ev.raw ++ raws evs

abbrev pub forwards : List KeyEvent → List Action
forwards [] = []
forwards (ev ∷ evs) = forward_bytes ev.raw ∷ forwards evs

-- The keys are the whole input.
pub raws-keys : (fuel : ℕ) (input : Bytes) → length input < fuel → raws (keys fuel input) ≡ input
unfolding keys
raws-keys zero input enough = elim enough [ ]
raws-keys (suc fuel) input enough = elim (Option-cases (read_key_event input)) [
  | inl e ↦ rw (e, keys) (sym (read_key_event-none input e))
  | inr ((ev, rest), e) ↦
      let t = read_key_event-Taken input ev rest e in
      rw (e, keys)
        (ap (◌++◌ ev.raw) (raws-keys fuel rest (omega (arith, t.shorter))) ∙ sym t.splits)
]

abbrev pub NotPrefix : ℕ → KeyEvent → Type 0
NotPrefix prefix ev = is_prefix_key prefix ev ≡ false

-- One round of the loop, and a last one.
pub run_loop-step :
    (fuel prefix : ℕ) (st st' : FsmState) (input rest : Bytes) (ev : KeyEvent) (acts : List Action)
    → read_key_event input ≡ some (ev, rest)
    → fsm_step prefix st ev ≡ (acts, some st')
    → run_loop (suc fuel) prefix st input ≡ record (run_loop fuel prefix st' rest) {
      actions = acts ++ (run_loop fuel prefix st' rest).actions;
    }
unfolding run_loop
run_loop-step fuel prefix st st' input rest ev acts h k = ground (arith, h, k)

pub run_loop-stop :
    (fuel prefix : ℕ) (st : FsmState) (input rest : Bytes) (ev : KeyEvent) (acts : List Action)
    → read_key_event input ≡ some (ev, rest)
    → fsm_step prefix st ev ≡ (acts, none)
    → run_loop (suc fuel) prefix st input ≡ record { actions = acts; state = none; left = rest }
unfolding run_loop
run_loop-stop fuel prefix st input rest ev acts h k = ground (arith, h, k)

pub fsm_step-forward :
    (prefix : ℕ) (ev : KeyEvent)
    → NotPrefix prefix ev
    → fsm_step prefix normal ev ≡ (forward_bytes ev.raw ∷ [], some normal)
unfolding fsm_step
fsm_step-forward prefix ev h = rw h refl

run_loop-forwards :
    (prefix fuel : ℕ) (input : Bytes)
    → length input < fuel
    → All (NotPrefix prefix) (keys fuel input)
    → run_loop fuel prefix normal input
      ≡ record { actions = forwards (keys fuel input); state = some normal; left = [] }
unfolding run_loop keys fsm_step
run_loop-forwards prefix zero input enough h = elim enough [ ]
run_loop-forwards prefix (suc fuel) input enough h = elim (Option-cases (read_key_event input)) [
  | inl e ↦ rw (e, run_loop, keys) refl
  | inr ((ev, rest), e) ↦
      let t = read_key_event-Taken input ev rest e in
      let h' : All (NotPrefix prefix) (ev ∷ keys fuel rest) = rw (e, keys) at h in
      let next = run_loop-forwards prefix fuel rest (omega (arith, t.shorter)) h'.1 in
      run_loop-step fuel prefix normal normal input rest ev (forward_bytes ev.raw ∷ []) e
        (fsm_step-forward prefix ev h'.0)
      ∙ rw (e, keys) (rw next refl)
]

-- Input with no prefix key among its keys is forwarded whole, in its order and key by key, and
-- does nothing else: the loop runs to the end of the input.
pub run_chord_fsm-forwards :
    (prefix : ℕ) (input : Bytes)
    → All (NotPrefix prefix) (keys (length input + 1) input)
    → (run_chord_fsm prefix input ≡ record {
      actions = forwards (keys (length input + 1) input);
      state = some normal;
      left = [];
    })
      × (raws (keys (length input + 1) input) ≡ input)
unfolding run_chord_fsm
run_chord_fsm-forwards prefix input h = (
  run_loop-forwards prefix (length input + 1) input (omega arith) h,
  raws-keys (length input + 1) input (omega arith),
)
