-- ===== src/AttachSet.antt =====
-- attach.go: the attached clients of a session and the size that they share. A connection is a
-- number, its pointer's identity; `members` is the map in the order of one iteration. The calls of
-- sizeApplier and of sendSize are values that an operation returns.
pub mod Least
pub mod World
mod Tests
use hootty.Base.{
  ℕ, suc, ◌+◌, ◌%◌, Bool, true, false, not, ◌&&◌, ◌||◌, List, [], ◌∷◌, ltb, ◌==◌, if◌then◌else◌,
}

pub record AttachWinsize : Type 0 where
  pub cols : ℕ
  pub rows : ℕ

abbrev pub Members : Type 0
Members = List (ℕ × AttachWinsize)

pub record AttachSet : Type 0 where
  pub members : Members
  pub current : AttachWinsize
  pub next_id : ℕ

abbrev pub zero_size : AttachWinsize
zero_size = record { cols = 0; rows = 0 }

abbrev pub new_attach_set : AttachSet
new_attach_set = record { members = []; current = zero_size; next_id = 0 }

abbrev pub same_size : AttachWinsize → AttachWinsize → Bool
same_size a b = a.cols == b.cols && a.rows == b.rows

-- `_, ok := a.members[c]`
abbrev pub has : ℕ → Members → Bool
has c [] = false
has c ((k, ws) ∷ ms) = k == c || has c ms

-- `a.members[c] = ws`
abbrev pub insert : ℕ → AttachWinsize → Members → Members
insert c ws [] = (c, ws) ∷ []
insert c ws ((k, old) ∷ ms) =
    let others = insert c ws ms in if k == c then (c, ws) ∷ ms else (k, old) ∷ others

-- `delete(a.members, c)`; a map has a key once at most.
abbrev pub delete : ℕ → Members → Members
delete c [] = []
delete c ((k, ws) ∷ ms) = let others = delete c ms in if k == c then others else (k, ws) ∷ others

abbrev pub sizes : Members → List AttachWinsize
sizes [] = []
sizes ((k, ws) ∷ ms) = ws ∷ sizes ms

-- The loop of recomputeLocked behind the first member.
abbrev pub narrow : AttachWinsize → AttachWinsize → AttachWinsize
narrow eff ws = record {
  cols = if ltb ws.cols eff.cols then ws.cols else eff.cols;
  rows = if ltb ws.rows eff.rows then ws.rows else eff.rows;
}

abbrev pub narrow_all : AttachWinsize → List AttachWinsize → AttachWinsize
narrow_all eff [] = eff
narrow_all eff (ws ∷ wss) = narrow_all (narrow eff ws) wss

abbrev pub effective_of : AttachWinsize → List AttachWinsize → AttachWinsize
effective_of current [] = current
effective_of current (ws ∷ wss) = narrow_all ws wss

-- recomputeLocked: the new set, and whether the effective size changed; the size is `current` of
-- the new set.
unfoldable pub recompute : AttachSet → AttachSet × Bool
recompute a =
    let eff = effective_of a.current (sizes a.members) in
    if same_size eff a.current then (a, false) else (record a { current = eff }, true)

-- What an operation calls: sizeApplier or not, and sendSize of some connections.
pub record Calls : Type 0 where
  pub applied : Bool
  pub receivers : ℕ → Bool
  pub size : AttachWinsize

-- `for m := range a.members` with a change, else nobody.
abbrev pub calls_of : AttachSet → Bool → (ℕ → Bool) → Calls
calls_of a changed who = record {
  applied = changed;
  receivers = λ k. changed && (has k a.members && who k);
  size = a.current;
}

abbrev pub no_calls : AttachSet → Calls
no_calls a = record { applied = false; receivers = λ _. false; size = a.current }

unfoldable pub add : AttachSet → ℕ → AttachWinsize → AttachSet × Calls
unfolding recompute
add a c ws =
    let a = record a {
      members = insert c ws a.members;
      next_id = (a.next_id + 1) % 18446744073709551616;
    } in
    let (a, changed) = recompute a in (a, calls_of a changed (λ k. not (k == c)))

unfoldable pub update : AttachSet → ℕ → AttachWinsize → AttachSet × Calls
unfolding recompute
update a c ws =
    let (b, changed) = recompute (record a { members = insert c ws a.members }) in
    if has c a.members then (b, calls_of b changed (λ _. true)) else (a, no_calls a)

unfoldable pub remove : AttachSet → ℕ → AttachSet × Calls
unfolding recompute
remove a c =
    let (b, changed) = recompute (record a { members = delete c a.members }) in
    if has c a.members then (b, calls_of b changed (λ _. true)) else (a, no_calls a)
