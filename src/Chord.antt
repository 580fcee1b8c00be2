-- ===== src/Chord.antt =====
-- cmd/hoot/attach_fsm.go: the keys of an attached terminal and the chord that detaches. Input is
-- the list of bytes that `read` yields before it reports the end. A `uint` has 64 bits.
pub mod Keys
pub mod Params
pub mod Run
pub mod Prefix
pub mod Escape
mod Tests
use hootty.Base.{
  ℕ, zero, suc, ◌+◌, ◌-◌, ◌*◌, ◌%◌, Bool, true, false, not, ◌&&◌, ◌||◌, Option, none, some, List,
  [], ◌∷◌, ◌++◌, leb, ◌==◌, if◌then◌else◌, within, length, Bytes, bit_and,
}
use hootty.Stripper.Query.{esc, is_digit, is_final}

pub data ChordCmd : Type 0 where
  none_cmd detach_cmd literal_cmd suspend_cmd clone_cmd : ChordCmd

pub record KeyEvent : Type 0 where
  pub raw : Bytes
  pub csi_u : Bool
  pub cp : ℕ
  pub alt_cp : ℕ
  pub mod_param : ℕ
  pub event : ℕ

abbrev pub raw_event : Bytes → KeyEvent
raw_event raw = record { raw = raw; csi_u = false; cp = 0; alt_cp = 0; mod_param = 0; event = 0 }

abbrev pub uint_mod : ℕ
uint_mod = 18446744073709551616

-- splitByte: the first piece and the others.
abbrev pub split_byte : ℕ → Bytes → Bytes × List Bytes
split_byte sep [] = ([], [])
split_byte sep (c ∷ cs) =
    let (p, ps) = split_byte sep cs in if c == sep then ([], p ∷ ps) else (c ∷ p, ps)

-- The loop of parseUint, from `n`.
unfoldable pub parse_uint_from : ℕ → Bytes → ℕ
parse_uint_from n [] = n
parse_uint_from n (c ∷ cs) =
    let rest = parse_uint_from ((n * 10 + (c - b'0')) % uint_mod) cs in
    if is_digit c then rest else 0

abbrev pub parse_uint : Bytes → ℕ
parse_uint b = parse_uint_from 0 b

-- The number before the first `:` of a group, and the one behind it, 0 if there is none.
abbrev pub sub_params : Bytes → ℕ × ℕ
sub_params group =
    let (first, others) = split_byte b':' group in
    (parse_uint first, elim others [ [] ↦ 0 | second ∷ _ ↦ parse_uint second ])

-- parseCSIuParams: cp, altCp, mod, event.
unfoldable pub parse_csi_u_params : Bytes → ℕ × ℕ × ℕ × ℕ
parse_csi_u_params params =
    let (group, groups) = split_byte b';' params in
    let (cp, alt_cp) = sub_params group in
    elim groups [
      | [] ↦ (cp, alt_cp, 0, 0)
      | second ∷ _ ↦ (cp, alt_cp, (sub_params second).0, (sub_params second).1)
    ]

-- A CSI sequence that ends in its final byte.
abbrev pub csi_event : Bytes → Bytes → ℕ → KeyEvent
csi_event raw params final =
    if final == b'u'
    then (let (cp, alt_cp, mod_param, event) = parse_csi_u_params params in
        record {
          raw = raw;
          csi_u = true;
          cp = cp;
          alt_cp = alt_cp;
          mod_param = mod_param;
          event = event;
        })
    else raw_event raw

-- The loop of readKeyEvent behind `ESC [`.
unfoldable pub read_csi : Bytes → Bytes → Bytes → KeyEvent × Bytes
read_csi raw params [] = (raw_event raw, [])
read_csi raw params (b ∷ bs) =
    let more = read_csi (raw ++ b ∷ []) (params ++ b ∷ []) bs in
    if is_final b then (csi_event (raw ++ b ∷ []) params b, bs) else more

-- readKeyEvent: the key and the input behind it; none at the end of the input.
unfoldable pub read_key_event : Bytes → Option (KeyEvent × Bytes)
unfolding read_csi
read_key_event [] = none
read_key_event (b ∷ []) = some (raw_event (b ∷ []), [])
read_key_event (b ∷ b2 ∷ bs) =
    if not (b == esc)
    then some (raw_event (b ∷ []), b2 ∷ bs)
    else if not (b2 == b'[')
    then some (raw_event (b ∷ b2 ∷ []), bs)
    else some (read_csi (b ∷ b2 ∷ []) [] bs)

abbrev pub mod_bits : ℕ → ℕ
mod_bits m = if m == 0 then 0 else m - 1

-- `modBits(mod) & modCtrl != 0`
abbrev pub has_ctrl : ℕ → Bool
has_ctrl m = not (bit_and (mod_bits m) 4 == 0)

-- isCSIuPress
abbrev pub is_press : KeyEvent → Bool
is_press ev = not ev.csi_u || ev.event == 0 || ev.event == 1

-- isCSIuRepeatOrRelease
abbrev pub is_repeat_or_release : KeyEvent → Bool
is_repeat_or_release ev = ev.csi_u && (ev.event == 2 || ev.event == 3)

-- `prefixCodepoints(prefix)[cp]`
unfoldable pub is_prefix_codepoint : ℕ → ℕ → Bool
is_prefix_codepoint prefix cp =
    if within 0x01 0x1a prefix
    then (let ch = b'a' + (prefix - 1) in cp == ch || cp == ch - 32)
    else if prefix == 0x00
    then cp == b'@' || cp == b'2' || cp == b' '
    else if prefix == 0x1c
    then cp == b'\\'
    else if prefix == 0x1d
    then cp == b']'
    else if prefix == 0x1e
    then cp == b'^' || cp == b'6'
    else if prefix == 0x1f
    then cp == b'_' || cp == b'-'
    else false

-- `len(raw) == 1` and its byte.
abbrev pub only_byte : Bytes → Option ℕ
only_byte (b ∷ []) = some b
only_byte _ = none

unfoldable pub is_prefix_key : ℕ → KeyEvent → Bool
unfolding is_prefix_codepoint
is_prefix_key prefix ev =
    if not ev.csi_u
    then elim (only_byte ev.raw) [ none ↦ false | some b ↦ b == prefix ]
    else if not (is_press ev)
    then false
    else if not (has_ctrl ev.mod_param)
    then false
    else if is_prefix_codepoint prefix ev.cp
    then true
    else not (ev.alt_cp == 0) && is_prefix_codepoint prefix ev.alt_cp

-- `any(want...)` of matchChord, for one codepoint.
abbrev pub reports : KeyEvent → ℕ → Bool
reports ev w = ev.cp == w || (not (ev.alt_cp == 0) && ev.alt_cp == w)

unfoldable pub match_chord : KeyEvent → ChordCmd
match_chord ev =
    if not ev.csi_u
    then elim (only_byte ev.raw) [
      | none ↦ none_cmd
      | some b ↦
          if b == b'.'
          then detach_cmd
          else if b == b'^'
          then literal_cmd
          else if b == 0x1a
          then suspend_cmd
          else if b == b'c'
          then clone_cmd
          else none_cmd
    ]
    else if not (is_press ev)
    then none_cmd
    else if reports ev 46 && not (has_ctrl ev.mod_param)
    then detach_cmd
    else if (reports ev 94 || reports ev 54) && has_ctrl ev.mod_param
    then literal_cmd
    else if (reports ev 122 || reports ev 90) && has_ctrl ev.mod_param
    then suspend_cmd
    else if (reports ev 99 || reports ev 67) && not (has_ctrl ev.mod_param)
    then clone_cmd
    else none_cmd

-- A call of fsmActions. A failed clone only prints a message.
pub data Action : Type 0 where
  forward_bytes : Bytes → Action
  literal detach suspend clone : Action

pub data FsmState : Type 0 where
  normal after_pref : FsmState

-- What a chord does, and whether the loop returns.
abbrev pub chord_actions : ChordCmd → List Action
chord_actions none_cmd = []
chord_actions detach_cmd = detach ∷ []
chord_actions literal_cmd = literal ∷ []
chord_actions suspend_cmd = suspend ∷ []
chord_actions clone_cmd = clone ∷ []

abbrev pub returns : ChordCmd → Bool
returns detach_cmd = true
returns _ = false

-- One key: its actions, and the state behind it, none if the loop returns.
unfoldable pub fsm_step : ℕ → FsmState → KeyEvent → List Action × Option FsmState
unfolding is_prefix_key match_chord
fsm_step prefix normal ev =
    if is_prefix_key prefix ev
    then ([], some after_pref)
    else (forward_bytes ev.raw ∷ [], some normal)
fsm_step prefix after_pref ev =
    let cmd = match_chord ev in
    if is_repeat_or_release ev
    then ([], some after_pref)
    else (chord_actions cmd, if returns cmd then none else some normal)

-- The loop of runChordFSM on fuel: its actions, its state and the input left when it stops; every
-- key takes a byte at least.
pub record Stopped : Type 0 where
  pub actions : List Action
  pub state : Option FsmState
  pub left : Bytes

unfoldable pub run_loop : ℕ → ℕ → FsmState → Bytes → Stopped
unfolding read_key_event fsm_step
run_loop zero prefix st input = record { actions = []; state = some st; left = input }
run_loop (suc fuel) prefix st input = elim (read_key_event input) [
  | none ↦ record { actions = []; state = some st; left = [] }
  | some (ev, rest) ↦
      let (acts, next) = fsm_step prefix st ev in
      elim next [
        | none ↦ record { actions = acts; state = none; left = rest }
        | some st ↦
            let more = run_loop fuel prefix st rest in
            record more { actions = acts ++ more.actions }
      ]
]

unfoldable pub run_chord_fsm : ℕ → Bytes → Stopped
unfolding run_loop
run_chord_fsm prefix input = run_loop (length input + 1) prefix normal input
