-- ===== src/Chord/Tests.antt =====
-- The theorems on the chord loop at concrete input.
use hootty.Base.{none, some, [], ◌∷◌, ◌++◌, ◌≡◌, refl, arith, All, Bytes, inl, inr}
use hootty.Stripper.Query.{esc}
use hootty.Wire.{parse_prefix_key}
use hootty.Chord.{detach, normal, is_prefix_codepoint, is_prefix_key, read_key_event, run_chord_fsm}
use hootty.Chord.Params.{Group}
use hootty.Chord.Run.{keys, raws, forwards, run_chord_fsm-forwards}
use hootty.Chord.Prefix.{typed, PrefixKey, DotKey, run_chord_fsm-detach}
use hootty.Chord.Escape.{IsForward, run_chord_fsm-escape}

-- C-^ and `.` as Ghostty reports them under the kitty protocol, C-^ by the shifted codepoint.
abbrev kitty_prefix : Bytes
kitty_prefix = esc ∷ b'[' ∷ b'5' ∷ b'3' ∷ b':' ∷ b'9' ∷ b'4' ∷ b';' ∷ b'6' ∷ b':' ∷ b'1' ∷ b'u' ∷ []

abbrev kitty_dot : Bytes
kitty_dot = esc ∷ b'[' ∷ b'4' ∷ b'6' ∷ b'u' ∷ []

is_kitty_prefix : PrefixKey 0x1e kitty_prefix
unfolding is_prefix_codepoint
is_kitty_prefix =
    PrefixKey.kitty (b'5' ∷ b'3' ∷ b':' ∷ b'9' ∷ b'4' ∷ []) (b'6' ∷ b':' ∷ b'1' ∷ []) 53 94 6 1
      (Group.double (b'5' ∷ b'3' ∷ []) (b'9' ∷ b'4' ∷ []) (ground arith) (ground arith)
        (omega arith) (omega arith))
      (Group.double (b'6' ∷ []) (b'1' ∷ []) (ground arith) (ground arith) (omega arith)
        (omega arith))
      (inr (ground arith, refl)) refl (omega arith)

is_kitty_dot : DotKey kitty_dot
is_kitty_dot =
    DotKey.kitty (b'4' ∷ b'6' ∷ []) 46 0
      (Group.single (b'4' ∷ b'6' ∷ []) (ground arith) (omega arith)) (inl refl)

run_chord_fsm-detach_example :
    run_chord_fsm 0x1e ((b'l' ∷ b's' ∷ []) ++ (kitty_prefix ++ (kitty_dot ++ b'x' ∷ [])))
    ≡ record { actions = typed (b'l' ∷ b's' ∷ []) ++ detach ∷ []; state = none; left = b'x' ∷ [] }
run_chord_fsm-detach_example =
    run_chord_fsm-detach 0x1e (b'l' ∷ b's' ∷ []) kitty_prefix kitty_dot (b'x' ∷ []) (ground arith)
      is_kitty_prefix is_kitty_dot

-- An arrow key and a letter.
abbrev arrow : Bytes
arrow = esc ∷ b'[' ∷ b'A' ∷ b'x' ∷ []

run_chord_fsm-forwards_example :
    (run_chord_fsm 0x1e arrow
      ≡ record { actions = forwards (keys 5 arrow); state = some normal; left = [] })
    × (raws (keys 5 arrow) ≡ arrow)
unfolding keys is_prefix_key read_key_event
run_chord_fsm-forwards_example = run_chord_fsm-forwards 0x1e arrow (refl, (refl, tt))

run_chord_fsm-escape_example :
    (parse_prefix_key (b'0' ∷ b'x' ∷ b'1' ∷ b'b' ∷ []) ≡ some esc)
    × All IsForward (run_chord_fsm esc (esc ∷ b'.' ∷ [])).actions
run_chord_fsm-escape_example = run_chord_fsm-escape (esc ∷ b'.' ∷ [])
