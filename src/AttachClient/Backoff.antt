-- ===== src/AttachClient/Backoff.antt =====
-- cmd/hoot/attach.go, waitBackoff: the wait before the next dial. A wait is in whole seconds, since
-- every delay of the schedule is, and a sleep takes its time exactly.
use hootty.Base.{
  ℕ, zero, suc, ◌+◌, ◌%◌, Bool, true, false, Option, none, some, List, [], ◌∷◌, leb, if◌then◌else◌,
  length,
}
use hootty.AttachClient.{SharedSession, mark_switched}

abbrev pub backoff_schedule : List ℕ
backoff_schedule = 1 ∷ 2 ∷ 4 ∷ 8 ∷ 16 ∷ 30 ∷ []

-- An index out of range is a panic.
abbrev pub at_index : ℕ → List ℕ → Option ℕ
at_index n [] = none
at_index zero (x ∷ xs) = some x
at_index (suc n) (x ∷ xs) = at_index n xs

-- The delay of a tier, which is an int32 by its bit pattern; a negative one is a panic.
unfoldable pub backoff_delay : ℕ → Option ℕ
backoff_delay tier =
    if leb 2147483648 tier
    then none
    else if leb (length backoff_schedule) tier
    then at_index 5 backoff_schedule
    else at_index tier backoff_schedule

-- What ends a round of the wait: the second has passed, a key, a clone that switches the target,
-- or the context. Behind the end of a list of these, only seconds pass.
pub data Woken : Type 0 where
  timer key switch cancelled : Woken

-- The session behind the wait, the result, and the seconds slept.
pub record Waited : Type 0 where
  pub shared : SharedSession
  pub go_on : Bool
  pub slept : ℕ

abbrev pub second_more : Waited → Waited
second_more w = record w { slept = suc w.slept }

-- The loop, with the seconds that remain. A wake that is there already ends the wait at once.
unfoldable pub wait_loop : ℕ → List Woken → SharedSession → Waited
unfolding mark_switched
wait_loop zero wakes s = record { shared = s; go_on = true; slept = 0 }
wait_loop (suc remain) wakes s =
    let rest = wait_loop remain [] s in
    let woken : Waited = elim wakes [
      | [] ↦ second_more rest
      | w ∷ ws ↦
          let later = wait_loop remain ws s in
          elim w [
            | timer ↦ second_more later
            | key ↦ record { shared = s; go_on = true; slept = 0 }
            | switch ↦ record {
              shared = record (mark_switched s) { wake = false };
              go_on = true;
              slept = 0;
            }
            | cancelled ↦ record { shared = s; go_on = false; slept = 0 }
          ]
    ] in
    if s.wake then record { shared = record s { wake = false }; go_on = true; slept = 0 } else woken

-- waitBackoff; none is the panic.
unfoldable pub wait_backoff : List Woken → SharedSession → Option Waited
unfolding backoff_delay wait_loop
wait_backoff wakes s = elim (backoff_delay s.tier) [
  | none ↦ none
  | some d ↦ some (wait_loop d wakes (record s { tier = (s.tier + 1) % 4294967296 }))
]
