-- ===== src/Registry/Mirror.antt =====
-- The registry and its mirror in state.json over a history of operations, in which other goroutines
-- may come between the lock of an operation and its update.
use mathlib.Core.Path.{subst}
use hootty.Base.{
  ℕ, Bool, true, false, Option, none, some, List, [], ◌∷◌, ◌++◌, ◌≡◌, refl, sym, ap, ◌∙◌, arith,
  Bool-cases, Option-cases, inl, inr, if◌then◌else◌,
}
use hootty.AttachSet.{AttachWinsize}
use hootty.Registry.{
  Origin, AttachmentRecord, AttachRegistry, snapshot, take_snapshot, flush, update, has_id,
  put_member, delete_id, close_func_of, registered, locked_add, locked_remove, close, close_all,
  set_effective_size,
}

-- A step: the locked part of Add, with the id that was minted for it and the time that it reads, or
-- of Remove; Close, CloseAll and SetEffectiveSize; and the oldest update that waits. Whether the
-- file is written is part of the step.
pub data Op : Type 0 where
  add_op : Option ℕ → ℕ → AttachWinsize → Origin → ℕ → Op
  remove_op close_op : ℕ → Op
  close_all_op : Op
  size_op : AttachWinsize → Bool → Op
  update_op : Bool → Op

unfoldable pub step : AttachRegistry → Op → AttachRegistry
unfolding locked_add locked_remove close close_all set_effective_size update
step r (add_op id now size origin close_func) = (locked_add r id now size origin close_func).0
step r (remove_op id) = locked_remove r id
step r (close_op id) = (close r id).0
step r close_all_op = (close_all r).0
step r (size_op size saved) = set_effective_size r size saved
step r (update_op saved) = update 0 saved r

unfoldable pub run : AttachRegistry → List Op → AttachRegistry
unfolding step
run r [] = r
run r (o ∷ os) = run (step r o) os

-- The last of the snapshots that wait, or else the one that the writer has.
abbrev pub newest : List AttachmentRecord → List (List AttachmentRecord) → List AttachmentRecord
newest a [] = a
newest a (w ∷ ws) = newest w ws

-- With a writer, the newest snapshot is the one of the members.
pub record Mirrored (r : AttachRegistry) : Type 0 where
  pub writer : r.has_writer ≡ true
  pub mirrors : newest r.attachments r.waiting ≡ snapshot r

newest-append :
    (a s : List AttachmentRecord) (ws : List (List AttachmentRecord)) → newest a (ws ++ s ∷ []) ≡ s
newest-append a s [] = refl
newest-append a s (w ∷ ws) = newest-append w s ws

where_writer :
    (b : Bool) (r s : AttachRegistry) → b ≡ true → Mirrored r → Mirrored (if b then r else s)
where_writer true r s h v = v
where_writer false r s h v = ground arith

take_snapshot-Mirrored : (r : AttachRegistry) → r.has_writer ≡ true → Mirrored (take_snapshot r)
unfolding take_snapshot snapshot
take_snapshot-Mirrored r h =
    where_writer r.has_writer _ r h
      (record { writer = h; mirrors = newest-append r.attachments (snapshot r) r.waiting })

flush-Mirrored : (saved : Bool) (r : AttachRegistry) → Mirrored r → Mirrored (flush saved r)
unfolding snapshot
flush-Mirrored true r v = record { writer = v.writer; mirrors = v.mirrors }
flush-Mirrored false r v = v

update-Mirrored : (r : AttachRegistry) (saved : Bool) → Mirrored r → Mirrored (update 0 saved r)
unfolding update snapshot
update-Mirrored r saved v = oldest r.waiting v.mirrors
  where
    oldest :
        (ws : List (List AttachmentRecord))
        → newest r.attachments ws ≡ snapshot r
        → Mirrored (update 0 saved (record r { waiting = ws }))
    oldest [] h = record { writer = v.writer; mirrors = h }
    oldest (w ∷ ws) h =
        flush-Mirrored saved (record r { waiting = ws; attachments = w })
          (record { writer = v.writer; mirrors = h })

close-Mirrored : (r : AttachRegistry) (id : ℕ) → Mirrored r → Mirrored (close r id).0
unfolding close snapshot
close-Mirrored r id v = elim (Option-cases (close_func_of id r.members)) [
  | inl e ↦ rw (e, close) v
  | inr (c, e) ↦ rw (e, close) (record { writer = v.writer; mirrors = v.mirrors })
]

step-Mirrored : (r : AttachRegistry) (o : Op) → Mirrored r → Mirrored (step r o)
unfolding step snapshot
step-Mirrored r (add_op none now size origin close_func) v = v
step-Mirrored r (add_op (some id) now size origin close_func) v =
    let m = registered id now size origin close_func in
    take_snapshot-Mirrored (record r { members = put_member m r.members }) v.writer
step-Mirrored r (remove_op id) v = elim (Bool-cases (has_id id r.members)) [
  | inl e ↦ rw e (take_snapshot-Mirrored (record r { members = delete_id id r.members }) v.writer)
  | inr e ↦ rw e v
]
step-Mirrored r (close_op id) v = close-Mirrored r id v
step-Mirrored r close_all_op v = record { writer = v.writer; mirrors = v.mirrors }
step-Mirrored r (size_op size saved) v = where_writer r.has_writer _ r v.writer (
    flush-Mirrored saved (record r { size = size })
      (record { writer = v.writer; mirrors = v.mirrors }))
step-Mirrored r (update_op saved) v = update-Mirrored r saved v

-- A registry with a writer whose newest snapshot is the one of its members, as that of a new
-- session, and any history of the locked parts of Add (with any minted ids, or the minting
-- failing) and Remove, of Close, CloseAll and SetEffectiveSize, and of updates in the order of
-- their snapshots, of which any may fail to write the file: the newest snapshot, the last that waits
-- or else the one that the writer keeps, still is the one of the members.
pub run-Mirrored : (os : List Op) (r : AttachRegistry) → Mirrored r → Mirrored (run r os)
unfolding run
run-Mirrored [] r v = v
run-Mirrored (o ∷ os) r v = run-Mirrored os (step r o) (step-Mirrored r o v)

-- Such a history behind which one update waits: where it is written, state.json holds the snapshot
-- of the members, however many updates were not written before.
pub run-stored :
    (os : List Op) (r : AttachRegistry) (snap : List AttachmentRecord)
    → Mirrored r
    → (run r os).waiting ≡ snap ∷ []
    → (update 0 true (run r os)).stored ≡ snapshot (run r os)
unfolding update
run-stored os r snap v last =
    let s = run r os in
    let mirrors : newest s.attachments (snap ∷ []) ≡ snapshot s =
      ap (newest s.attachments) (sym last) ∙ (run-Mirrored os r v).mirrors in
    subst (λ ws. (update 0 true (record s { waiting = ws })).stored ≡ snapshot s) (sym last) mirrors
