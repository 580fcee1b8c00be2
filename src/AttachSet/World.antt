-- ===== src/AttachSet/World.antt =====
-- The attached clients and the PTY together: after every operation all of them agree on the size,
-- and it is the least of the declared ones.
use mathlib.Core.Path.{subst}
use hootty.Base.{
  ℕ, ◌+◌, ◌%◌, Bool, true, false, not, ◌||◌, List, [], ◌∷◌, ◌≡◌, ◌≢◌, refl, sym, ap, ◌∙◌, inl, inr,
  arith, ◌==◌, ==_iff, if◌then◌else◌, Bool-cases,
}
use hootty.AttachSet.{
  AttachWinsize, AttachSet, Calls, Members, zero_size, same_size, has, insert, delete, sizes,
  effective_of, recompute, calls_of, no_calls, add, update, remove,
}
use hootty.AttachSet.Least.{IsEffective, effective_of-IsEffective}

pub data Op : Type 0 where
  add_op update_op : ℕ → AttachWinsize → Op
  remove_op : ℕ → Op

-- The set, the size of the PTY, and the size that each connection was told last.
pub record World : Type 0 where
  pub set : AttachSet
  pub pty : AttachWinsize
  pub views : ℕ → AttachWinsize

-- The calls of an operation, carried out.
abbrev perform : World → AttachSet × Calls → World
perform w (a, calls) = record {
  set = a;
  pty = if calls.applied then calls.size else w.pty;
  views = λ k. if calls.receivers k then calls.size else w.views k;
}

-- The handler sends a new connection the size that Add returns.
unfoldable pub step : World → Op → World
unfolding add update remove
step w (add_op c ws) =
    let w = perform w (add w.set c ws) in
    record w { views = λ k. if k == c then w.set.current else w.views k }
step w (update_op c ws) = perform w (update w.set c ws)
step w (remove_op c) = perform w (remove w.set c)

unfoldable pub run : World → List Op → World
unfolding step
run w [] = w
run w (o ∷ os) = run (step w o) os

-- With clients attached the effective size is the least one, each of them was told it, and the PTY
-- has it, but for 0 by 0, which stands for no broadcast yet.
pub record Agreed (w : World) : Type 0 where
  pub least : w.set.members ≢ [] → IsEffective w.set.current (sizes w.set.members)
  pub told : (k : ℕ) → has k w.set.members ≡ true → w.views k ≡ w.set.current
  pub applied : w.set.current ≢ zero_size → w.pty ≡ w.set.current

same_size-≡ : (a b : AttachWinsize) → same_size a b ≡ true → a ≡ b
same_size-≡ a b h = ground arith

-- recompute leaves the members as they are; its size is the least; and with no change the size is
-- the one before.
record Recomputed (a : AttachSet) (r : AttachSet × Bool) : Type 0 where
  members : r.0.members ≡ a.members
  least : a.members ≢ [] → IsEffective r.0.current (sizes a.members)
  unchanged : r.1 ≡ false → r.0.current ≡ a.current

least_of :
    (ms : Members) (current : AttachWinsize)
    → ms ≢ []
    → IsEffective (effective_of current (sizes ms)) (sizes ms)
least_of [] current h = absurd (h refl)
least_of ((k, ws) ∷ ms) current h = effective_of-IsEffective current ws (sizes ms)

recompute-Recomputed : (a : AttachSet) → Recomputed a (recompute a)
unfolding recompute
recompute-Recomputed a = elim (Bool-cases (same_size eff a.current)) [
  | inl e ↦ rw e (record {
    members = refl;
    least = λ h.
        subst (λ s. IsEffective s (sizes a.members)) (same_size-≡ eff a.current e)
          (least_of a.members a.current h);
    unchanged = λ _. refl;
  })
  | inr e ↦ rw e (record {
    members = refl;
    least = least_of a.members a.current;
    unchanged = λ h. absurd (true_not_false h);
  })
]
  where
    eff : AttachWinsize
    eff = effective_of a.current (sizes a.members)

    true_not_false : true ≡ false → ⊥
    true_not_false h = cc

has-insert :
    (ms : Members) (c k : ℕ) (ws : AttachWinsize) → has k (insert c ws ms) ≡ (c == k || has k ms)
has-insert [] c k ws = refl
has-insert ((j, old) ∷ ms) c k ws = ground (arith, has-insert ms c k ws)

has-delete : (ms : Members) (c k : ℕ) → has k (delete c ms) ≡ true → has k ms ≡ true
has-delete [] c k h = h
has-delete ((j, ws) ∷ ms) c k h = ground (arith, has-delete ms c k)

has-same : (ms : Members) (c k : ℕ) → (c == k) ≡ true → has c ms ≡ has k ms
has-same ms c k h = ap (λ j. has j ms) ((==_iff c k).0 h)

has-present :
    (ms : Members) (c k : ℕ) (ws : AttachWinsize)
    → has c ms ≡ true
    → has k (insert c ws ms) ≡ true
    → has k ms ≡ true
has-present ms c k ws e h = elim (Bool-cases (c == k)) [
  | inl same ↦ sym (has-same ms c k same) ∙ e
  | inr other ↦ ground (arith, h, other, has-insert ms c k ws)
]

-- A change of the members, recomputed and broadcast.
module _ (w : World) (v : Agreed w) (a : AttachSet) (same : a.current ≡ w.set.current)
    (who : ℕ → Bool) where
  broadcast : World
  broadcast = perform w ((recompute a).0, calls_of (recompute a).0 (recompute a).1 who)

  broadcast-told :
      (k : ℕ)
      → has k a.members ≡ true
      → who k ≡ true
      → w.views k ≡ w.set.current
      → broadcast.views k ≡ broadcast.set.current
  unfolding broadcast
  broadcast-told k member chosen before =
      let r = recompute-Recomputed a in
      elim (Bool-cases (recompute a).1) [
        | inl e ↦
            let there : has k (recompute a).0.members ≡ true = ap (has k) r.members ∙ member in
            rw e (rw there (rw chosen refl))
        | inr e ↦ rw e (before ∙ sym same ∙ sym (r.unchanged e))
      ]

  broadcast-applied : broadcast.set.current ≢ zero_size → broadcast.pty ≡ broadcast.set.current
  unfolding broadcast
  broadcast-applied h =
      let r = recompute-Recomputed a in
      elim (Bool-cases (recompute a).1) [
        | inl e ↦ rw e refl
        | inr e ↦ let kept = r.unchanged e ∙ same in rw e (v.applied (λ z. h (kept ∙ z)) ∙ sym kept)
      ]

  broadcast-least :
      broadcast.set.members ≢ [] → IsEffective broadcast.set.current (sizes broadcast.set.members)
  unfolding broadcast
  broadcast-least h =
      let r = recompute-Recomputed a in
      subst (λ ms. IsEffective (recompute a).0.current (sizes ms)) (sym r.members)
        (r.least (λ z. h (r.members ∙ z)))

  -- Where every new member but the ones left out was a member before.
  broadcast-Agreed :
      ((k : ℕ) → has k a.members ≡ true → (who k ≡ true) × (has k w.set.members ≡ true))
      → Agreed broadcast
  unfolding broadcast
  broadcast-Agreed known = record {
    least = broadcast-least;
    told = λ k member.
        let there = ap (has k) (sym (recompute-Recomputed a).members) ∙ member in
        let (chosen, before) = known k there in broadcast-told k there chosen (v.told k before);
    applied = broadcast-applied;
  }

add-Agreed : (w : World) (c : ℕ) (ws : AttachWinsize) → Agreed w → Agreed (step w (add_op c ws))
unfolding step broadcast
add-Agreed w c ws v = record {
  least = broadcast-least w v a refl others;
  told = λ k member. elim (Bool-cases (k == c)) [
    | inl e ↦ rw e refl
    | inr e ↦
        let there : has k a.members ≡ true =
          ap (has k) (sym (recompute-Recomputed a).members) ∙ member in
        let before : has k w.set.members ≡ true =
          ground (arith, there, has-insert w.set.members c k ws) in
        ap (λ b. if b then sent.set.current else sent.views k) e
        ∙ broadcast-told w v a refl others k there (rw e refl) (v.told k before)
  ];
  applied = broadcast-applied w v a refl others;
}
  where
    a : AttachSet
    a = record w.set {
      members = insert c ws w.set.members;
      next_id = (w.set.next_id + 1) % 18446744073709551616;
    }

    others : ℕ → Bool
    others = λ k. not (k == c)

    sent : World
    sent = broadcast w v a refl others

everyone : ℕ → Bool
everyone = λ _. true

-- A connection that is not a member changes nothing.
update-absent :
    (a : AttachSet) (c : ℕ) (ws : AttachWinsize)
    → has c a.members ≡ false
    → update a c ws ≡ (a, no_calls a)
unfolding update
update-absent a c ws h = rw h refl

remove-absent : (a : AttachSet) (c : ℕ) → has c a.members ≡ false → remove a c ≡ (a, no_calls a)
unfolding remove
remove-absent a c h = rw h refl

update-Agreed :
    (w : World) (c : ℕ) (ws : AttachWinsize) → Agreed w → Agreed (step w (update_op c ws))
unfolding step broadcast update everyone
update-Agreed w c ws v = elim (Bool-cases (has c w.set.members)) [
  | inl e ↦
      rw e
        (broadcast-Agreed w v a refl everyone (λ k h. (refl, has-present w.set.members c k ws e h)))
  | inr e ↦
      subst (λ u. Agreed (perform w u)) (sym (update-absent w.set c ws e))
        (record { least = v.least; told = v.told; applied = v.applied })
]
  where
    a : AttachSet
    a = record w.set { members = insert c ws w.set.members }

remove-Agreed : (w : World) (c : ℕ) → Agreed w → Agreed (step w (remove_op c))
unfolding step broadcast remove everyone
remove-Agreed w c v = elim (Bool-cases (has c w.set.members)) [
  | inl e ↦
      rw e (broadcast-Agreed w v a refl everyone (λ k h. (refl, has-delete w.set.members c k h)))
  | inr e ↦
      subst (λ u. Agreed (perform w u)) (sym (remove-absent w.set c e))
        (record { least = v.least; told = v.told; applied = v.applied })
]
  where
    a : AttachSet
    a = record w.set { members = delete c w.set.members }

-- From a state in which all agree, such as the start with no clients, any sequence of Add, Update
-- and Remove ends in one: with clients attached the effective size is the least width and the least
-- height of the sizes that they declared, each of them was told it last, and the PTY was given it
-- last, but where it is 0 by 0.
pub run-Agreed : (os : List Op) (w : World) → Agreed w → Agreed (run w os)
unfolding run
run-Agreed [] w v = v
run-Agreed (add_op c ws ∷ os) w v = run-Agreed os _ (add-Agreed w c ws v)
run-Agreed (update_op c ws ∷ os) w v = run-Agreed os _ (update-Agreed w c ws v)
run-Agreed (remove_op c ∷ os) w v = run-Agreed os _ (remove-Agreed w c v)
