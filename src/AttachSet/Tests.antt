-- ===== src/AttachSet/Tests.antt =====
-- The theorems on the attached clients at concrete sizes.
use hootty.Base.{[], ◌∷◌, refl}
use hootty.AttachSet.{AttachWinsize, zero_size, new_attach_set}
use hootty.AttachSet.World.{add_op, update_op, remove_op, World, run, Agreed, run-Agreed}

abbrev wide : AttachWinsize
wide = record { cols = 200; rows = 30 }

abbrev tall : AttachWinsize
tall = record { cols = 80; rows = 60 }

-- No client, and a PTY of some size.
abbrev start : World
start = record {
  set = new_attach_set;
  pty = record { cols = 80; rows = 24 };
  views = λ _. zero_size;
}

start-Agreed : Agreed start
start-Agreed = record {
  least = λ h. absurd (h refl);
  told = λ k h. cc;
  applied = λ h. absurd (h refl);
}

run-Agreed_example :
    Agreed (run start (add_op 1 wide ∷ add_op 2 tall ∷ update_op 2 wide ∷ remove_op 1 ∷ []))
run-Agreed_example =
    run-Agreed (add_op 1 wide ∷ add_op 2 tall ∷ update_op 2 wide ∷ remove_op 1 ∷ []) start
      start-Agreed
