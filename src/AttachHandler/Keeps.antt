-- ===== src/AttachHandler/Keeps.antt =====
-- What serving a client keeps of the set and of the registry, whatever the client sends.
use hootty.Base.{
  ℕ, zero, suc, Bool, false, ◌||◌, Option, none, some, List, [], ◌∷◌, ◌++◌, ◌≡◌, refl, sym, ap, ◌∙◌,
  inl, inr, arith, ◌==◌, if◌then◌else◌, Bytes, Bool-cases, Option-cases, of_branches,
}
use hootty.Io.{Reader}
use hootty.Wire.{
  Received-cases, msg_input, msg_size, msg_ping, msg_hello, msg_output, msg_pong, Message,
  read_frame,
}
use hootty.AttachSet as Set
use hootty.AttachSet.{AttachWinsize, AttachSet, Calls, Members, has, insert, delete, recompute}
use hootty.Registry as Reg
use hootty.Pty.{Emulator, write}
use hootty.AttachHandler.{
  ServeError, Json, Environment, Serving, Handled, goes_on, returns, apply_size, perform,
  handle_size, handle_frame, client_read_loop, is_zero_size,
}

abbrev pub members_of : Option Reg.AttachRegistry → List Reg.RegisteredAttach
members_of none = []
members_of (some r) = r.members

delete-absent : (c : ℕ) (ms : Members) → has c ms ≡ false → delete c ms ≡ ms
delete-absent c [] h = refl
delete-absent c ((k, ws) ∷ ms) h = ground (arith, h, delete-absent c ms)

delete-insert :
    (c : ℕ) (ws : AttachWinsize) (ms : Members) → delete c (insert c ws ms) ≡ delete c ms
delete-insert c ws [] = ground arith
delete-insert c ws ((k, old) ∷ ms) = ground (arith, delete-insert c ws ms)

recompute-members : (a : AttachSet) → (recompute a).0.members ≡ a.members
unfolding recompute
recompute-members a = ground arith

-- Connection `c` apart, the members are `ms`.
abbrev pub Others : ℕ → Members → AttachSet → Type 0
Others c ms a = delete c a.members ≡ ms

pub add-Others :
    (a : AttachSet) (c : ℕ) (ws : AttachWinsize)
    → has c a.members ≡ false
    → Others c a.members (Set.add a c ws).0
unfolding Set.add
add-Others a c ws h =
    ap (delete c) (recompute-members _) ∙ delete-insert c ws a.members ∙ delete-absent c a.members h

update-Others :
    (a : AttachSet) (c : ℕ) (ws : AttachWinsize) (ms : Members)
    → Others c ms a
    → Others c ms (Set.update a c ws).0
unfolding Set.update
update-Others a c ws ms v = elim (Bool-cases (has c a.members)) [
  | inl e ↦ rw e (ap (delete c) (recompute-members _) ∙ delete-insert c ws a.members ∙ v)
  | inr e ↦ rw e v
]

pub remove-Others :
    (a : AttachSet) (c : ℕ) (ms : Members) → Others c ms a → (Set.remove a c).0.members ≡ ms
unfolding Set.remove
remove-Others a c ms v = elim (Bool-cases (has c a.members)) [
  | inl e ↦ rw e (recompute-members _ ∙ v)
  | inr e ↦ rw e (sym (delete-absent c a.members e) ∙ v)
]

-- What serving a client must keep: the others in the set, and those in the registry.
pub record Serves {T : Type 0} (c : ℕ) (ms : Members) (rs : List Reg.RegisteredAttach)
    (w : Serving T) : Type 0 where
  pub others : Others c ms w.set
  pub registered : members_of w.registry ≡ rs

module _ {T : Type 0} (E : Emulator T) (J : Json) (V : Environment) where
  set_effective_size-members :
      (r : Reg.AttachRegistry) (ws : AttachWinsize) (saved : Bool)
      → (Reg.set_effective_size r ws saved).members ≡ r.members
  unfolding Reg.set_effective_size
  set_effective_size-members r ws saved = ground arith

  apply_size-registry :
      (ws : AttachWinsize) (w : Serving T)
      → members_of (apply_size E J V ws w).registry ≡ members_of w.registry
  unfolding apply_size
  apply_size-registry ws w = elim (Option-cases w.registry) [
    | inl e ↦ rw e refl
    | inr (r, e) ↦ rw e (set_effective_size-members r ws (V.size_saved w.resizes))
  ]

  apply_size-set : (ws : AttachWinsize) (w : Serving T) → (apply_size E J V ws w).set ≡ w.set
  unfolding apply_size
  apply_size-set ws w = refl

  pub perform-set :
      (c : ℕ) (w : Serving T) (r : AttachSet × Calls) → (perform E J V c w r).set ≡ r.0
  unfolding perform apply_size
  perform-set c w r = ground arith

  -- Making the calls of an operation changes the set as the operation does, and nothing registered.
  pub perform-Serves :
      (c : ℕ) (ms : Members) (rs : List Reg.RegisteredAttach) (w : Serving T)
      (r : AttachSet × Calls)
      → Others c ms r.0
      → members_of w.registry ≡ rs
      → Serves c ms rs (perform E J V c w r)
  unfolding perform
  perform-Serves c ms rs w (set, calls) v h =
      let before : Serving T = record w { set = set; told = w.told ++ calls ∷ [] } in
      let told = apply_size-registry calls.size before ∙ h in
      elim (Bool-cases calls.applied) [
        | inl e ↦ elim (Bool-cases (calls.receivers c)) [
          | inl d ↦ rw (e, d) (record { others = v; registered = told })
          | inr d ↦ rw (e, d) (record { others = v; registered = told })
        ]
        | inr e ↦ elim (Bool-cases (calls.receivers c)) [
          | inl d ↦ rw (e, d) (record { others = v; registered = h })
          | inr d ↦ rw (e, d) (record { others = v; registered = h })
        ]
      ]

  abbrev After : (Serving T → Type 0) → Handled T → Type 0
  After P (goes_on w) = P w
  After P (returns e w) = P w

  handle_size-Serves :
      (c : ℕ) (ms : Members) (rs : List Reg.RegisteredAttach) (payload : Bytes) (w : Serving T)
      → Serves c ms rs w
      → After (Serves c ms rs) (handle_size E J V c payload w)
  unfolding handle_size
  handle_size-Serves c ms rs payload w v = elim (Option-cases (J.decode_size payload)) [
    | inl e ↦ rw (e, After) v
    | inr (ws, e) ↦
        rw (e, After)
          (of_branches (After (Serves c ms rs)) (is_zero_size ws) _ _ v (
            perform-Serves c ms rs w (Set.update w.set c ws) (update-Others w.set c ws ms v.others)
              v.registered))
  ]

  handle_frame-Serves :
      (c : ℕ) (ms : Members) (rs : List Reg.RegisteredAttach) (m : Message) (w : Serving T)
      → Serves c ms rs w
      → After (Serves c ms rs) (handle_frame E J V c m w)
  unfolding handle_frame
  handle_frame-Serves c ms rs m w v =
      let kept : Serves c ms rs (record w { pty = (write w.pty m.payload).0 }) = record {
        others = v.others;
        registered = v.registered;
      } in
      branch (m.typ == msg_input) _ _ (branch (write w.pty m.payload).1 _ _ kept kept) (
        branch (m.typ == msg_size) _ _ (handle_size-Serves c ms rs m.payload w v) (
          branch (m.typ == msg_ping) _ _ (record { others = v.others; registered = v.registered })
            (branch (m.typ == msg_hello) _ _ v
              (branch (m.typ == msg_output || m.typ == msg_pong) _ _ v v))))
    where
      branch :
          (b : Bool) (x y : Handled T)
          → After (Serves c ms rs) x
          → After (Serves c ms rs) y
          → After (Serves c ms rs) (if b then x else y)
      branch b x y = of_branches (After (Serves c ms rs)) b x y

  after_frame :
      (fuel c : ℕ) (r : Reader) (P : Serving T → Type 0) (h : Handled T)
      → After P h
      → ((w : Serving T) → P w → P (client_read_loop E J V fuel c r w).0)
      → P
          (elim h as (λ _. Serving T × Option ServeError) [
            | goes_on w ↦ client_read_loop E J V fuel c r w
            | returns e w ↦ (w, some e)
          ]).0
  after_frame fuel c r P (goes_on w) v later = later w v
  after_frame fuel c r P (returns e w) v later = v

  pub client_read_loop-Serves :
      (fuel c : ℕ) (ms : Members) (rs : List Reg.RegisteredAttach) (r : Reader) (w : Serving T)
      → Serves c ms rs w
      → Serves c ms rs (client_read_loop E J V fuel c r w).0
  unfolding client_read_loop
  client_read_loop-Serves zero c ms rs r w v = v
  client_read_loop-Serves (suc fuel) c ms rs r w v = elim (Received-cases (read_frame r)) [
    | inl (e, h) ↦ rw (h, client_read_loop) v
    | inr (m, more, h) ↦
        rw (h, client_read_loop)
          (after_frame fuel c more (Serves c ms rs) (handle_frame E J V c m w)
            (handle_frame-Serves c ms rs m w v) (client_read_loop-Serves fuel c ms rs more))
  ]
