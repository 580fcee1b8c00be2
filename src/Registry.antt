-- ===== src/Registry.antt =====
-- attach_registry.go: the attachments of a session and their mirror in state.json. An id, a time
-- and a closeFunc are numbers; `members` is the map in the order of one iteration. The id that
-- shortid.Generate mints is an argument of Add, none for its error. Add and Remove update state.json
-- behind their lock, so the updates of several goroutines may come in any order, and any may fail.
pub mod Sorted
pub mod Mirror
mod Tests
use hootty.Base.{
  ℕ, zero, suc, Bool, true, false, not, ◌&&◌, ◌||◌, Option, none, some, List, [], ◌∷◌, ◌++◌, map,
  ltb, ◌==◌, if◌then◌else◌, length, Bytes,
}
use hootty.AttachSet.{AttachWinsize}

-- attachwire.Origin
pub record Origin : Type 0 where
  pub host : Bytes
  pub term : Bytes
  pub term_program : Bytes
  pub term_program_version : Bytes
  pub user : Bytes

abbrev pub is_empty : Bytes → Bool
is_empty [] = true
is_empty (b ∷ bs) = false

-- Origin.IsZero
abbrev pub is_zero : Origin → Bool
is_zero o =
    is_empty o.host
    && is_empty o.term
    && is_empty o.term_program
    && is_empty o.term_program_version
    && is_empty o.user

pub record AttachmentRecord : Type 0 where
  pub id : ℕ
  pub started_at : ℕ
  pub size : AttachWinsize
  pub origin : Option Origin

pub record RegisteredAttach : Type 0 where
  pub attachment : AttachmentRecord
  pub close_func : ℕ

-- `has_writer` is `writer != nil`. `waiting` are the snapshots taken under the lock whose
-- writer.Update is still to come, the oldest first; `attachments` and `size` are the state that the
-- writer keeps, `stored` and `stored_size` what state.json holds; `closed` lists the closeFuncs
-- called so far.
pub record AttachRegistry : Type 0 where
  pub has_writer : Bool
  pub members : List RegisteredAttach
  pub waiting : List (List AttachmentRecord)
  pub attachments : List AttachmentRecord
  pub size : AttachWinsize
  pub stored : List AttachmentRecord
  pub stored_size : AttachWinsize
  pub closed : List ℕ

-- One round of the sort of snapshotLocked: the prefix is held from its end.
unfoldable pub sink : AttachmentRecord → List AttachmentRecord → List AttachmentRecord
sink x [] = x ∷ []
sink x (y ∷ ys) =
    let further = sink x ys in if ltb x.started_at y.started_at then y ∷ further else x ∷ y ∷ ys

unfoldable pub sort_onto : List AttachmentRecord → List AttachmentRecord → List AttachmentRecord
unfolding sink
sort_onto prefix [] = prefix
sort_onto prefix (x ∷ xs) = sort_onto (sink x prefix) xs

abbrev pub reversed : List AttachmentRecord → List AttachmentRecord → List AttachmentRecord
reversed out [] = out
reversed out (x ∷ xs) = reversed (x ∷ out) xs

abbrev pub records : List RegisteredAttach → List AttachmentRecord
records ms = map (λ m. m.attachment) ms

unfoldable pub snapshot : AttachRegistry → List AttachmentRecord
unfolding sort_onto
snapshot r = reversed [] (sort_onto [] (records r.members))

-- Under the lock: the snapshot for an update, where there is a writer.
unfoldable pub take_snapshot : AttachRegistry → AttachRegistry
unfolding snapshot
take_snapshot r = if r.has_writer then record r { waiting = r.waiting ++ snapshot r ∷ [] } else r

-- Writer.flush, which writes the whole state or fails; the callers drop its error.
abbrev pub flush : Bool → AttachRegistry → AttachRegistry
flush saved r = if saved then record r { stored = r.attachments; stored_size = r.size } else r

abbrev pub waiting_at : ℕ → List (List AttachmentRecord) → Option (List AttachmentRecord)
waiting_at k [] = none
waiting_at zero (w ∷ ws) = some w
waiting_at (suc k) (w ∷ ws) = waiting_at k ws

abbrev pub without : ℕ → List (List AttachmentRecord) → List (List AttachmentRecord)
without k [] = []
without zero (w ∷ ws) = ws
without (suc k) (w ∷ ws) = w ∷ without k ws

-- Behind the lock: `writer.Update` with the k-th snapshot that waits.
unfoldable pub update : ℕ → Bool → AttachRegistry → AttachRegistry
update k saved r = elim (waiting_at k r.waiting) [
  | none ↦ r
  | some snap ↦ flush saved (record r { waiting = without k r.waiting; attachments = snap })
]

abbrev pub has_id : ℕ → List RegisteredAttach → Bool
has_id id [] = false
has_id id (m ∷ ms) = m.attachment.id == id || has_id id ms

-- `r.members[id] = m`
abbrev pub put_member : RegisteredAttach → List RegisteredAttach → List RegisteredAttach
put_member m [] = m ∷ []
put_member m (k ∷ ms) =
    let others = put_member m ms in
    if k.attachment.id == m.attachment.id then m ∷ ms else k ∷ others

abbrev pub delete_id : ℕ → List RegisteredAttach → List RegisteredAttach
delete_id id [] = []
delete_id id (m ∷ ms) =
    let others = delete_id id ms in if m.attachment.id == id then others else m ∷ others

-- The entry of a new attachment; an origin with no field is not kept.
abbrev pub registered : ℕ → ℕ → AttachWinsize → Origin → ℕ → RegisteredAttach
registered id now size origin close_func = record {
  attachment = record {
    id = id;
    started_at = now;
    size = size;
    origin = if is_zero origin then none else some origin;
  };
  close_func = close_func;
}

-- Add up to the end of its lock.
unfoldable pub locked_add :
    AttachRegistry → Option ℕ → ℕ → AttachWinsize → Origin → ℕ → AttachRegistry × Option ℕ
unfolding take_snapshot
locked_add r none now size origin close_func = (r, none)
locked_add r (some id) now size origin close_func = (
  take_snapshot
      (record r { members = put_member (registered id now size origin close_func) r.members }),
  some id,
)

-- Add with its update right behind its lock.
unfoldable pub add :
    AttachRegistry → Option ℕ → ℕ → AttachWinsize → Origin → ℕ → Bool → AttachRegistry × Option ℕ
unfolding locked_add update
add r minted now size origin close_func saved =
    let (added, id) = locked_add r minted now size origin close_func in
    (update (length r.waiting) saved added, id)

-- Remove up to the end of its lock, and with its update right behind it.
unfoldable pub locked_remove : AttachRegistry → ℕ → AttachRegistry
unfolding take_snapshot
locked_remove r id =
    if has_id id r.members then take_snapshot (record r { members = delete_id id r.members }) else r

unfoldable pub remove : AttachRegistry → ℕ → Bool → AttachRegistry
unfolding locked_remove update
remove r id saved = update (length r.waiting) saved (locked_remove r id)

abbrev pub close_func_of : ℕ → List RegisteredAttach → Option ℕ
close_func_of id [] = none
close_func_of id (m ∷ ms) =
    let rest = close_func_of id ms in if m.attachment.id == id then some m.close_func else rest

unfoldable pub close : AttachRegistry → ℕ → AttachRegistry × Bool
close r id = elim (close_func_of id r.members) [
  | none ↦ (r, false)
  | some c ↦ (record r { closed = r.closed ++ c ∷ [] }, true)
]

unfoldable pub close_all : AttachRegistry → AttachRegistry × ℕ
close_all r =
    let closers = map (λ m. m.close_func) r.members in
    (record r { closed = r.closed ++ closers }, length closers)

unfoldable pub set_effective_size : AttachRegistry → AttachWinsize → Bool → AttachRegistry
set_effective_size r size saved = if r.has_writer then flush saved (record r { size = size }) else r
