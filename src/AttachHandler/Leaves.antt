-- ===== src/AttachHandler/Leaves.antt =====
-- An attach leaves no trace: however it ends, the set and the registry are as they were.
use mathlib.Core.Path.{subst}
use hootty.Base.{
  ℕ, ◌+◌, Bool, true, false, Option, none, some, List, [], ◌∷◌, ◌≡◌, refl, sym, ap, ◌∙◌, inl, inr,
  arith, ◌==◌, if◌then◌else◌, length, Bytes, Option-cases, of_branches,
}
use hootty.Io.{Reader}
use hootty.Wire.{
  msg_size, msg_hello, msg_snapshot_scrollback, msg_snapshot_screen, Message, Received-cases,
  read_frame,
}
use hootty.AttachSet as Set
use hootty.AttachSet.{AttachWinsize, Members, has, delete}
use hootty.Registry as Reg
use hootty.Pty.{Emulator}
use hootty.Pty.Requests.{subscribe_with_snapshot_parts}
use hootty.AttachHandler.{
  Hello, Json, Environment, Serving, ServeError, decode_hello_failed, hello_size, registry_add,
  message, send, perform, leave_set, leave_registry, serve_parts, serve_live, register, serve_hello,
  serve_one, is_zero_size,
}
use hootty.AttachHandler.Keeps.{
  perform-set, add-Others, remove-Others, members_of, Serves, perform-Serves,
  client_read_loop-Serves,
}

put_member-delete :
    (m : Reg.RegisteredAttach) (rs : List Reg.RegisteredAttach)
    → Reg.has_id m.attachment.id rs ≡ false
    → Reg.delete_id m.attachment.id (Reg.put_member m rs) ≡ rs
put_member-delete m [] h = ground arith
put_member-delete m (k ∷ rs) h = ground (arith, h, put_member-delete m rs)

put_member-has :
    (m : Reg.RegisteredAttach) (rs : List Reg.RegisteredAttach)
    → Reg.has_id m.attachment.id (Reg.put_member m rs) ≡ true
put_member-has m [] = ground arith
put_member-has m (k ∷ rs) = ground (arith, put_member-has m rs)

take_snapshot-members : (r : Reg.AttachRegistry) → (Reg.take_snapshot r).members ≡ r.members
unfolding Reg.take_snapshot
take_snapshot-members r = ground arith

flush-members : (saved : Bool) (r : Reg.AttachRegistry) → (Reg.flush saved r).members ≡ r.members
flush-members true r = refl
flush-members false r = refl

update-members :
    (k : ℕ) (saved : Bool) (r : Reg.AttachRegistry) → (Reg.update k saved r).members ≡ r.members
unfolding Reg.update
update-members k saved r = elim (Option-cases (Reg.waiting_at k r.waiting)) [
  | inl e ↦ rw (e, Reg.update) refl
  | inr (snap, e) ↦ rw (e, Reg.update) (flush-members saved _)
]

remove-members :
    (m : Reg.RegisteredAttach) (rs : List Reg.RegisteredAttach) (r : Reg.AttachRegistry)
    (saved : Bool)
    → Reg.has_id m.attachment.id rs ≡ false
    → r.members ≡ Reg.put_member m rs
    → (Reg.remove r m.attachment.id saved).members ≡ rs
unfolding Reg.remove Reg.locked_remove
remove-members m rs r saved h v =
    let there = ap (Reg.has_id m.attachment.id) v ∙ put_member-has m rs in
    rw there (
      update-members (length r.waiting) saved _
      ∙ take_snapshot-members _
      ∙ ap (Reg.delete_id m.attachment.id) v
      ∙ put_member-delete m rs h)

add-members :
    (r : Reg.AttachRegistry) (id now c : ℕ) (hello : Hello) (saved : Bool)
    → (Reg.add r (some id) now hello.size hello.origin c saved).0.members
      ≡ Reg.put_member (Reg.registered id now hello.size hello.origin c) r.members
unfolding Reg.add Reg.locked_add
add-members r id now c hello saved =
    update-members (length r.waiting) saved _ ∙ take_snapshot-members _

-- Where no id is minted, nothing is registered.
add-refused :
    (r : Reg.AttachRegistry) (now c : ℕ) (hello : Hello) (saved : Bool)
    → (Reg.add r none now hello.size hello.origin c saved).0.members ≡ r.members
unfolding Reg.add Reg.locked_add
add-refused r now c hello saved = update-members (length r.waiting) saved r

-- The members of the set and of the registry are those of `w`.
abbrev pub SameMembers : {T : Type 0} → Serving T → Serving T → Type 0
SameMembers w v = (v.set.members ≡ w.set.members) × (members_of v.registry ≡ members_of w.registry)

module _ {T : Type 0} (E : Emulator T) (J : Json) (V : Environment) where
  -- The two frames of the replay.
  abbrev replay : Bytes → Bytes → Serving T → Serving T
  replay scrollback screen w =
      send (message msg_snapshot_screen screen)
        (send (message msg_snapshot_scrollback (if w.no_history then [] else scrollback)) w)

  -- A client that can be told from those in the set, with an id that is new in the registry.
  pub record IsNew (c : ℕ) (w : Serving T) : Type 0 where
    pub connection : has c w.set.members ≡ false
    pub id : (i : ℕ) → V.minted ≡ some i → Reg.has_id i (members_of w.registry) ≡ false

  serve_parts-Serves :
      (k c : ℕ) (ms : Members) (rs : List Reg.RegisteredAttach) (r : Reader) (w : Serving T)
      (parts : Bytes × Bytes)
      → Serves c ms rs w
      → Serves c ms rs (serve_parts E J V k c r w parts).0
  unfolding serve_parts
  serve_parts-Serves k c ms rs r w (scrollback, screen) v =
      let replayed = replay scrollback screen w in
      let served =
        client_read_loop-Serves E J V (length r.bytes + 1) c ms rs r replayed
          (record { others = v.others; registered = v.registered }) in
      record { others = served.others; registered = served.registered }

  serve_live-Serves :
      (c : ℕ) (ms : Members) (rs : List Reg.RegisteredAttach) (r : Reader) (w : Serving T)
      → Serves c ms rs w
      → Serves c ms rs (serve_live E J V c r w).0
  unfolding serve_live
  serve_live-Serves c ms rs r w v = elim (Option-cases (subscribe_with_snapshot_parts E w.pty).1) [
    | inl e ↦ rw (e, serve_live) (record { others = v.others; registered = v.registered })
    | inr (parts, e) ↦
        rw (e, serve_live)
          (serve_parts-Serves (length w.pty.subs) c ms rs r
            (record w { pty = (subscribe_with_snapshot_parts E w.pty).0 }) parts
            (record { others = v.others; registered = v.registered }))
  ]

  leave_set-members :
      (c : ℕ) (ms : Members) (rs : List Reg.RegisteredAttach) (w : Serving T)
      → Serves c ms rs w
      → ((leave_set E J V c w).set.members ≡ ms) × (members_of (leave_set E J V c w).registry ≡ rs)
  unfolding leave_set
  leave_set-members c ms rs w v = (
    ap (λ a. a.members) (perform-set E J V c w (Set.remove w.set c))
        ∙ remove-Others w.set c ms v.others,
    (perform-Serves E J V c (delete c (Set.remove w.set c).0.members) rs w (Set.remove w.set c) refl
        v.registered).registered,
  )

  leave_registry-Serves :
      (c : ℕ) (ms : Members) (m : Reg.RegisteredAttach) (rs : List Reg.RegisteredAttach)
      (w : Serving T)
      → Serves c ms (Reg.put_member m rs) w
      → Reg.has_id m.attachment.id rs ≡ false
      → Serves c ms rs (leave_registry E J V (some m.attachment.id) w)
  unfolding leave_registry
  leave_registry-Serves c ms m rs w v fresh = elim (Option-cases w.registry) [
    | inl e ↦ absurd (no_member (ap members_of (sym e) ∙ v.registered))
    | inr (r, e) ↦ rw e (record {
      others = v.others;
      registered =
          remove-members m rs r V.remove_saved fresh (ap members_of (sym e) ∙ v.registered);
    })
  ]
    where
      no_member : [] ≡ Reg.put_member m rs → ⊥
      no_member h = grind (arith, ap (Reg.has_id m.attachment.id) h, put_member-has m rs)

  abbrev register_first : ℕ → Hello → Serving T → Serving T
  register_first c hello w =
      send
        (message msg_size
          (J.encode_size (perform E J V c w (Set.add w.set c hello.size)).set.current))
        (perform E J V c w (Set.add w.set c hello.size))

  -- The end of serve_hello behind a registration.
  abbrev leave : ℕ → Reader → Serving T × Option ℕ × Bool → Serving T × Option ServeError
  leave c r (w, id, registered) =
      let (served, e) = serve_live E J V c r w in
      if registered
      then (leave_set E J V c (leave_registry E J V id served), e)
      else (leave_set E J V c w, some registry_add)

  register-leave :
      (c : ℕ) (hello : Hello) (ms : Members) (rs : List Reg.RegisteredAttach) (r : Reader)
      (w : Serving T)
      → ((i : ℕ) → V.minted ≡ some i → Reg.has_id i rs ≡ false)
      → Serves c ms rs w
      → ((leave c r (register E J V c hello w)).0.set.members ≡ ms)
        × (members_of (leave c r (register E J V c hello w)).0.registry ≡ rs)
  unfolding register Reg.add Reg.locked_add leave_registry
  register-leave c hello ms rs r w fresh v = elim (Option-cases w.registry) [
    | inl e ↦
        let w_is : register E J V c hello w ≡ (w, none, true) = rw e refl in
        subst Left (sym w_is) (leave_set-members c ms rs _ (serve_live-Serves c ms rs r w v))
    | inr (g, e) ↦
        let before : g.members ≡ rs = ap members_of (sym e) ∙ v.registered in
        elim (Option-cases V.minted) [
          | inl m ↦
              let g' = (Reg.add g none V.now hello.size hello.origin c V.add_saved).0 in
              let w_is : register E J V c hello w ≡ (with_registry g', none, false) =
                rw e (rw m refl) in
              subst Left (sym w_is) (
                leave_set-members c ms rs (with_registry g') (record {
                  others = v.others;
                  registered = add-refused g V.now c hello V.add_saved ∙ before;
                }))
          | inr (i, m) ↦
              let g' = (Reg.add g (some i) V.now hello.size hello.origin c V.add_saved).0 in
              let w_is : register E J V c hello w ≡ (with_registry g', some i, true) =
                rw e (rw m refl) in
              let inside : g'.members ≡ Reg.put_member (entry i) rs =
                add-members g i V.now c hello V.add_saved ∙ ap (Reg.put_member (entry i)) before in
              let served =
                serve_live-Serves c ms (Reg.put_member (entry i) rs) r (with_registry g')
                  (record { others = v.others; registered = inside }) in
              subst Left (sym w_is) (
                leave_set-members c ms rs _
                  (leave_registry-Serves c ms (entry i) rs _ served (fresh i m)))
        ]
  ]
    where
      Left : Serving T × Option ℕ × Bool → Type 0
      Left x = ((leave c r x).0.set.members ≡ ms) × (members_of (leave c r x).0.registry ≡ rs)

      with_registry : Reg.AttachRegistry → Serving T
      with_registry g = record w { registry = some g }

      entry : ℕ → Reg.RegisteredAttach
      entry i = Reg.registered i V.now hello.size hello.origin c

  serve_hello-members :
      (c : ℕ) (hello : Hello) (r : Reader) (w : Serving T)
      → IsNew c w
      → SameMembers w (serve_hello E J V c hello r w).0
  unfolding serve_hello
  serve_hello-members c hello r w v =
      let added =
        perform-Serves E J V c w.set.members (members_of w.registry) w (Set.add w.set c hello.size)
          (add-Others w.set c hello.size v.connection) refl in
      register-leave c hello w.set.members (members_of w.registry) r (register_first c hello w) v.id
        (record { others = added.others; registered = added.registered })

  -- However it ends, an attach leaves the members of the set and of the registry as they were.
  pub serve_one-members :
      (c : ℕ) (r : Reader) (w : Serving T) → IsNew c w → SameMembers w (serve_one E J V c r w).0
  unfolding serve_one
  serve_one-members c r w v = elim (Received-cases (read_frame r)) [
    | inl (e, h) ↦ rw (h, serve_one) (refl, refl)
    | inr (m, more, h) ↦
        rw (h, serve_one)
          (of_branches (λ (x : Serving T × Option ServeError). SameMembers w x.0)
            (m.typ == msg_hello) _ _ (decoded m more) (refl, refl))
  ]
    where
      decoded :
          (m : Message) (more : Reader)
          → SameMembers w
              (elim (J.decode_hello m.payload) as (λ _. Serving T × Option ServeError) [
                | none ↦ (w, some decode_hello_failed)
                | some hello ↦
                    if is_zero_size hello.size
                    then (w, some hello_size)
                    else serve_hello E J V c hello more w
              ]).0
      decoded m more = elim (Option-cases (J.decode_hello m.payload)) [
        | inl e ↦ rw e (refl, refl)
        | inr (hello, e) ↦ rw e (
            of_branches (λ (x : Serving T × Option ServeError). SameMembers w x.0)
              (is_zero_size hello.size) _ _ (refl, refl) (serve_hello-members c hello more w v))
      ]
