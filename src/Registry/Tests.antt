-- ===== src/Registry/Tests.antt =====
-- The registry's theorems at a concrete history.
use hootty.Base.{ℕ, ◌==◌, true, false, none, some, List, [], ◌∷◌, map, ◌≡◌, refl}
use hootty.AttachSet.{zero_size}
use hootty.Registry.{
  registered, Origin, AttachRegistry, AttachmentRecord, RegisteredAttach, records, snapshot,
  take_snapshot, update, locked_add, locked_remove,
}
use hootty.Registry.Sorted.{Rising, count, snapshot-Rising}
use hootty.Registry.Mirror.{
  Op, add_op, remove_op, close_op, update_op, run, Mirrored, run-Mirrored, run-stored,
}

abbrev nowhere : Origin
nowhere = record { host = []; term = []; term_program = []; term_program_version = []; user = [] }

abbrev new_attach_registry : AttachRegistry
new_attach_registry = record {
  has_writer = true;
  members = [];
  waiting = [];
  attachments = [];
  size = zero_size;
  stored = [];
  stored_size = zero_size;
  closed = [];
}

new_attach_registry-Mirrored : Mirrored new_attach_registry
unfolding snapshot
new_attach_registry-Mirrored = record { writer = refl; mirrors = refl }

-- Two attach, the first update cannot be written, and one leaves before the second.
abbrev history : List Op
history =
    add_op (some 7) 20 zero_size nowhere 1
    ∷ add_op (some 8) 10 zero_size nowhere 2
    ∷ update_op false
    ∷ close_op 7
    ∷ remove_op 7
    ∷ update_op true
    ∷ []

run-Mirrored_example : Mirrored (run new_attach_registry history)
run-Mirrored_example = run-Mirrored history new_attach_registry new_attach_registry-Mirrored

abbrev other_left : List AttachmentRecord
other_left = (registered 8 10 zero_size nowhere 2).attachment ∷ []

one_waits : (run new_attach_registry history).waiting ≡ other_left ∷ []
unfolding run locked_add locked_remove take_snapshot snapshot update
one_waits = refl

run-stored_example :
    (update 0 true (run new_attach_registry history)).stored
    ≡ snapshot (run new_attach_registry history)
run-stored_example =
    run-stored history new_attach_registry other_left new_attach_registry-Mirrored one_waits

-- Where the update of the second attach overtakes that of the first, state.json stays without it.
abbrev both_added : AttachRegistry
both_added =
    run new_attach_registry
      (add_op (some 7) 20 zero_size nowhere 1 ∷ add_op (some 8) 30 zero_size nowhere 2 ∷ [])

update-overtaken : map (λ a. a.id) (update 0 true (update 1 true both_added)).stored ≡ 7 ∷ []
unfolding run locked_add take_snapshot snapshot update
update-overtaken = refl

abbrev at_time : ℕ → RegisteredAttach
at_time t = record {
  attachment = record { id = t; started_at = t; size = zero_size; origin = none };
  close_func = t;
}

abbrev two_attached : AttachRegistry
two_attached = record new_attach_registry { members = at_time 20 ∷ at_time 10 ∷ [] }

snapshot-Rising_example :
    Rising (snapshot two_attached)
    × (count (λ a. a.id == 20) (snapshot two_attached)
        ≡ count (λ a. a.id == 20) (records two_attached.members))
snapshot-Rising_example = snapshot-Rising two_attached (λ a. a.id == 20)
