-- ===== src/Restorer/Tests.antt =====
-- The restorer's theorems at concrete output.
use hootty.Base.{none, true, not, ◌==◌, ◌+◌, ◌-◌, List, [], ◌∷◌, ◌++◌, ◌≡◌, refl, arith}
use hootty.Io.{File}
use hootty.Restorer.Reset.{Terminal, plain, read, IsReset, cleanup-IsReset}
use hootty.Restorer.{HootRestorer, cleanup, fresh, observe, kitty_pop}
use hootty.Restorer.Bounds.{IsBounded, observe-IsBounded}
use hootty.Restorer.Pieces.{Piece, text, push, pop, pop_one, other, stream, piece_bytes, depth}
use hootty.Restorer.Balance.{observe-balanced, observe-pop_wraps}

-- Frames with and without flags, of which one stays open.
abbrev pieces : List Piece
pieces =
    push (b'1' ∷ [])
    ∷ text (b'h' ∷ b'i' ∷ [])
    ∷ push []
    ∷ other b'?' (b'2' ∷ b'5' ∷ []) b'l'
    ∷ push (b'3' ∷ b'1' ∷ [])
    ∷ pop 2
    ∷ pop_one
    ∷ push (b'1' ∷ [])
    ∷ []

observe-balanced_example :
    ((observe fresh (stream pieces)).kitty_pops ≡ depth 0 pieces)
    × ((observe fresh (stream pieces ++ kitty_pop (depth 0 pieces))).kitty_pops ≡ 0)
observe-balanced_example = observe-balanced pieces fresh (ground arith) refl (omega arith)

observe-pop_wraps_example :
    (observe fresh (piece_bytes (pop 4294967295))).kitty_pops ≡ 0 + (4294967296 - 4294967295)
observe-pop_wraps_example =
    observe-pop_wraps 4294967295 fresh refl (omega arith) (omega arith) (omega arith)

observe-IsBounded_example : IsBounded (observe fresh (stream pieces))
observe-IsBounded_example = observe-IsBounded (stream pieces) fresh (omega arith)

-- A program has left its frames open and every mode flipped.
abbrev restorer : HootRestorer
restorer = record { kitty_pops = 2; modify_other_keys = true; csi_buf = [] }

abbrev flipped : Terminal
flipped = record { reading = plain; private_modes = λ n. not (n == 25); modes = λ n. true }

abbrev fresh_file : File
fresh_file = record { content = []; room = none }

cleanup-IsReset_example :
    ((cleanup restorer fresh_file).1 ≡ true)
    × IsReset (read flipped (cleanup restorer fresh_file).0.content)
cleanup-IsReset_example = cleanup-IsReset restorer flipped refl
