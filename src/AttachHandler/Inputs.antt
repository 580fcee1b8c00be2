-- ===== src/AttachHandler/Inputs.antt =====
-- What the child's terminal receives of a client's frames.
use hootty.Base.{
  ℕ, zero, suc, ◌<◌, Bool, false, Option, none, some, List, [], ◌∷◌, ◌++◌, ◌≡◌, ◌≢◌, refl, ap, ◌∙◌,
  ◌⊎◌, inl, inr, arith, ◌==◌, if◌then◌else◌, length, Bytes, All, Bool-cases, Option-cases,
  append_assoc, append-nil,
}
use hootty.Io.{File, write_file, Ending}
use hootty.Wire.{WireError, msg_input, msg_size, msg_ping, msg_pong, Message, Received, read_frame}
use hootty.Wire.Frames.{frame, Fits, stream, read_frame-frame}
use hootty.AttachSet as Set
use hootty.AttachSet.{AttachWinsize, AttachSet, Calls}
use hootty.Pty.{Emulator, LibghosttyPty, write}
use hootty.Pty.Requests.{resize, resize_terms, resize_primary}
use hootty.AttachHandler.{
  Json, Environment, Serving, ServeError, read_frame_failed, Handled, goes_on, message, send,
  apply_size, perform, handle_size, handle_frame, client_read_loop, is_zero_size,
}

module _ {T : Type 0} (E : Emulator T) where
  resize_primary-master :
      (p : LibghosttyPty T) (now cols rows : ℕ)
      → (resize_primary E p now cols rows).0.master ≡ p.master
  unfolding resize_primary
  resize_primary-master p now cols rows = elim (Option-cases p.primary_term) [
    | inl e ↦ rw e refl
    | inr (t, e) ↦ elim (Option-cases (E.resize t cols rows)) [
      | inl h ↦ rw (e, h, resize_primary) refl
      | inr (u, h) ↦ rw (e, h, resize_primary) refl
    ]
  ]

  resize_terms-master :
      (p : LibghosttyPty T) (now cols rows : ℕ)
      → (resize_terms E p now cols rows).0.master ≡ p.master
  unfolding resize_terms
  resize_terms-master p now cols rows = elim (Option-cases p.term) [
    | inl e ↦ rw e refl
    | inr (t, e) ↦ elim (Option-cases (E.resize t cols rows)) [
      | inl h ↦ rw (e, h, resize_terms) refl
      | inr (u, h) ↦
          rw (e, h, resize_terms)
            ((resize_primary-master (record p { term = some u }) now cols rows))
    ]
  ]

  resize-master :
      (p : LibghosttyPty T) (setsize : Bool) (now cols rows : ℕ)
      → (resize E p setsize now cols rows).0.master ≡ p.master
  unfolding resize
  resize-master p setsize now cols rows = ground (arith, resize_terms-master p now cols rows)

-- What a client sends: input, a size or a ping.
abbrev pub IsClientFrame : Json → Message → Type 0
IsClientFrame J m =
    (m.typ ≡ msg_input)
    ⊎ (m.typ ≡ msg_ping)
    ⊎ ((m.typ ≡ msg_size) × (J.decode_size m.payload ≢ none))

-- The payloads of its input, in order.
abbrev pub inputs : List Message → Bytes
inputs [] = []
inputs (m ∷ ms) = let rest = inputs ms in if m.typ == msg_input then m.payload ++ rest else rest

inputs-append : (m : Message) (ms : List Message) → inputs (m ∷ []) ++ inputs ms ≡ inputs (m ∷ ms)
inputs-append m ms = elim (Bool-cases (m.typ == msg_input)) [
  | inl e ↦ rw e (ap (λ bs. bs ++ inputs ms) (append-nil m.payload))
  | inr e ↦ rw e refl
]

abbrev taken : Bytes → Bytes → File
taken before bs = record { content = before ++ bs; room = none }

module _ {T : Type 0} (E : Emulator T) (J : Json) (V : Environment) where
  -- The file of the master takes these bytes more.
  abbrev Typed : File → Bytes → Serving T → Type 0
  Typed f bs w = w.pty.master ≡ taken f.content bs

  perform-master :
      (c : ℕ) (w : Serving T) (r : AttachSet × Calls)
      → (perform E J V c w r).pty.master ≡ w.pty.master
  unfolding perform apply_size
  perform-master c w r = ground (
    arith,
    resize-master E w.pty (V.setsize r.1.size) (V.clock w.resizes) r.1.size.cols r.1.size.rows,
  )

  unchanged : (f g : File) → f.room ≡ none → g ≡ f → g ≡ taken f.content []
  unchanged f g room h = rw (append-nil f.content) (ground (arith, h, room))

  untyped :
      (m : Message) (w v : Serving T)
      → (m.typ == msg_input) ≡ false
      → w.pty.master.room ≡ none
      → v.pty.master ≡ w.pty.master
      → Typed w.pty.master (inputs (m ∷ [])) v
  untyped m w v other room h = rw other (unchanged w.pty.master v.pty.master room h)

  abbrev Took : ℕ → Message → Serving T → Type 0
  Took c m w =
      (v : Serving T) × (handle_frame E J V c m w ≡ goes_on v)
      × Typed w.pty.master (inputs (m ∷ [])) v

  handle_input :
      (c : ℕ) (m : Message) (w : Serving T)
      → m.typ ≡ msg_input
      → w.pty.master.room ≡ none
      → Took c m w
  unfolding handle_frame write write_file
  handle_input c m w is room = (
    record w { pty = (write w.pty m.payload).0 },
    rw (ap (λ t. t == msg_input) is) (rw room refl),
    rw (ap (λ t. t == msg_input) is) (rw room (rw (append-nil m.payload) refl)),
  )

  handle_ping :
      (c : ℕ) (m : Message) (w : Serving T)
      → m.typ ≡ msg_ping
      → w.pty.master.room ≡ none
      → Took c m w
  unfolding handle_frame
  handle_ping c m w is room = (
    send (message msg_pong []) w,
    rw (ap (λ t. t == msg_input) is)
        (rw (ap (λ t. t == msg_size) is) (rw (ap (λ t. t == msg_ping) is) refl)),
    rw (ap (λ t. t == msg_input) is) (rw room (rw (append-nil w.pty.master.content) refl)),
  )

  handle_resized :
      (c : ℕ) (m : Message) (w : Serving T)
      → m.typ ≡ msg_size
      → J.decode_size m.payload ≢ none
      → w.pty.master.room ≡ none
      → Took c m w
  unfolding handle_frame handle_size
  handle_resized c m w is decodes room = elim (Option-cases (J.decode_size m.payload)) [
    | inl e ↦ absurd (decodes e)
    | inr (ws, e) ↦ elim (Bool-cases (is_zero_size ws)) [
      | inl z ↦ (
        w,
        same (rw (e, z, handle_size) refl),
        untyped m w w (ap (λ t. t == msg_input) is) room refl,
      )
      | inr z ↦ (
        perform E J V c w (Set.update w.set c ws),
        same (rw (e, z, handle_size) refl),
        untyped m w (perform E J V c w (Set.update w.set c ws)) (ap (λ t. t == msg_input) is) room
            (perform-master c w (Set.update w.set c ws)),
      )
    ]
  ]
    where
      same : {h : Handled T} → handle_size E J V c m.payload w ≡ h → handle_frame E J V c m w ≡ h
      same k = rw (ap (λ t. t == msg_input) is) (rw (ap (λ t. t == msg_size) is) k)

  handle_frame-Took :
      (c : ℕ) (m : Message) (w : Serving T)
      → IsClientFrame J m
      → w.pty.master.room ≡ none
      → Took c m w
  handle_frame-Took c m w (inl is) room = handle_input c m w is room
  handle_frame-Took c m w (inr (inl is)) room = handle_ping c m w is room
  handle_frame-Took c m w (inr (inr (is, decodes))) room = handle_resized c m w is decodes room

  -- What the loop has done once the reader fails with `e`.
  pub record ReadsAll (ms : List Message) (e : WireError) (w : Serving T)
      (end : Serving T × Option ServeError) : Type 0 where
    pub written : Typed w.pty.master (inputs ms) end.0
    pub ended : end.1 ≡ some (read_frame_failed e)

  -- The frames of a client that sends input, sizes and pings, read up to the reader's error: the
  -- master has taken the payloads of the input, all of them, in order, and nothing else, and
  -- the loop ends with that error.
  pub client_read_loop-ReadsAll :
      (ms : List Message) (fuel c : ℕ) (tail : Bytes) (ending : Ending) (e : WireError)
      (w : Serving T)
      → length ms < fuel
      → All Fits ms
      → All (IsClientFrame J) ms
      → read_frame (record { bytes = tail; ending = ending }) ≡ Received.err e
      → w.pty.master.room ≡ none
      → ReadsAll ms e w
          (client_read_loop E J V fuel c (record { bytes = stream ms ++ tail; ending = ending }) w)
  unfolding client_read_loop
  client_read_loop-ReadsAll ms zero c tail ending e w enough fits is h room = elim enough [ ]
  client_read_loop-ReadsAll [] (suc fuel) c tail ending e w enough fits is h room =
      rw (h, client_read_loop)
        (record { written = unchanged w.pty.master w.pty.master room refl; ended = refl })
  client_read_loop-ReadsAll (m ∷ ms) (suc fuel) c tail ending e w enough fits is h room =
      let (v, on, typed) = handle_frame-Took c m w is.0 room in
      let later =
        client_read_loop-ReadsAll ms fuel c tail ending e v (omega arith) fits.1 is.1 h
          (ap (λ f. f.room) typed) in
      rw (append_assoc (frame m) (stream ms) tail) (
        rw (read_frame-frame m (stream ms ++ tail) ending fits.0, client_read_loop)
          (rw (on) (record {
            written =
                later.written
                ∙ ap (λ f. taken f.content (inputs ms)) typed
                ∙ ap (λ bs. record { content = bs; room = none })
                    (append_assoc w.pty.master.content (inputs (m ∷ [])) (inputs ms)
                      ∙ ap (w.pty.master.content ++◌) (inputs-append m ms));
            ended = later.ended;
          })))
