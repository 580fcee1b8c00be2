-- ===== src/AttachHandler.antt =====
-- attach_handler.go: one attached client, from its Hello to its end. serveOne runs on a reader of
-- the client's bytes; the frames that it queues for the client stand in `out`, in order. The live
-- output, which another goroutine queues, is not among them: Pty.Stream says what it is.
pub mod Inputs
pub mod Keeps
pub mod Leaves
mod Tests
use hootty.Base.{
  ℕ, zero, suc, ◌+◌, Bool, true, false, not, ◌&&◌, ◌||◌, Option, none, some, List, [], ◌∷◌, ◌++◌,
  ◌==◌, if◌then◌else◌, length, Bytes,
}
use hootty.Io.{Reader, ReadError, eof}
use hootty.Wire.{
  Message, WireError, read_failed, Received, read_frame, msg_hello, msg_input, msg_output, msg_size,
  msg_snapshot_scrollback, msg_snapshot_screen, msg_ping, msg_pong,
}
use hootty.AttachSet as Set
use hootty.AttachSet.{AttachWinsize, AttachSet, Calls}
use hootty.Registry as Reg
use hootty.Registry.{AttachRegistry, Origin}
use hootty.Pty.{Emulator, LibghosttyPty, write, cancel}
use hootty.Pty.Requests.{resize, subscribe_with_snapshot_parts}

pub record Hello : Type 0 where
  pub size : AttachWinsize
  pub origin : Origin

-- encoding/json on the two payloads; none is an error.
pub record Json : Type 0 where
  pub decode_hello : Bytes → Option Hello
  pub decode_size : Bytes → Option AttachWinsize
  pub encode_size : AttachWinsize → Bytes

pub data ServeError : Type 0 where
  read_hello : WireError → ServeError
  expected_hello : ℕ → ServeError
  decode_hello_failed hello_size registry_add snapshot_failed : ServeError
  read_frame_failed : WireError → ServeError
  master_write decode_size_failed unexpected_hello : ServeError
  unexpected_frame unknown_frame : ℕ → ServeError

-- What the operating system and the clock decide: whether the kernel takes a size, the time of the
-- n-th resize in ms, the id that shortid mints or none for its error, the time of the attach, and
-- whether state.json is written for the n-th size, for the attach and for its end.
pub record Environment : Type 0 where
  pub setsize : AttachWinsize → Bool
  pub clock : ℕ → ℕ
  pub minted : Option ℕ
  pub now : ℕ
  pub size_saved : ℕ → Bool
  pub add_saved : Bool
  pub remove_saved : Bool

-- The handler, and the frames for the client being served. `told` are the broadcasts of the
-- attach set, `resizes` counts the calls of Resize.
pub record Serving (T : Type 0) : Type 0 where
  pub pty : LibghosttyPty T
  pub set : AttachSet
  pub registry : Option AttachRegistry
  pub no_history : Bool
  pub out : List Message
  pub told : List Calls
  pub resizes : ℕ

abbrev pub is_zero_size : AttachWinsize → Bool
is_zero_size ws = ws.cols == 0 || ws.rows == 0

abbrev pub message : ℕ → Bytes → Message
message typ payload = record { typ = typ; payload = payload }

-- `send`
abbrev pub send : {T : Type 0} → Message → Serving T → Serving T
send m w = record w { out = w.out ++ m ∷ [] }

-- A frame is handled and the loop goes on, or it returns this error.
pub data Handled (T : Type 0) : Type 0 where
  goes_on : Serving T → Handled T
  returns : ServeError → Serving T → Handled T

-- `errors.Is(readErr, io.EOF)` is no error.
unfoldable pub serve_error : Option ServeError → Option ServeError
serve_error (some (read_frame_failed (read_failed eof))) = none
serve_error e = e

module _ {T : Type 0} (E : Emulator T) (J : Json) (V : Environment) where
  -- The sizeApplier that newAttachHandler gives the set.
  unfoldable pub apply_size : AttachWinsize → Serving T → Serving T
  unfolding resize Reg.set_effective_size
  apply_size ws w = record w {
    pty = (resize E w.pty (V.setsize ws) (V.clock w.resizes) ws.cols ws.rows).0;
    registry = elim w.registry [
      | none ↦ none
      | some r ↦ some (Reg.set_effective_size r ws (V.size_saved w.resizes))
    ];
    resizes = w.resizes + 1;
  }

  -- The calls of an operation of the set, made: the applier, then sendSize of the receivers, of
  -- which connection `c` is the one served.
  unfoldable pub perform : ℕ → Serving T → AttachSet × Calls → Serving T
  unfolding apply_size
  perform c w (set, calls) =
      let w = record w { set = set; told = w.told ++ calls ∷ [] } in
      let w = if calls.applied then apply_size calls.size w else w in
      if calls.receivers c then send (message msg_size (J.encode_size calls.size)) w else w

  unfoldable pub handle_size : ℕ → Bytes → Serving T → Handled T
  unfolding perform Set.update
  handle_size c payload w = elim (J.decode_size payload) [
    | none ↦ returns decode_size_failed w
    | some ws ↦ if is_zero_size ws then goes_on w else goes_on (perform c w (Set.update w.set c ws))
  ]

  -- The switch of clientReadLoop.
  unfoldable pub handle_frame : ℕ → Message → Serving T → Handled T
  unfolding handle_size write
  handle_frame c m w =
      let (p, ok) = write w.pty m.payload in
      let written = record w { pty = p } in
      if m.typ == msg_input
      then (if ok then goes_on written else returns master_write written)
      else if m.typ == msg_size
      then handle_size c m.payload w
      else if m.typ == msg_ping
      then goes_on (send (message msg_pong []) w)
      else if m.typ == msg_hello
      then returns unexpected_hello w
      else if m.typ == msg_output || m.typ == msg_pong
      then returns (unexpected_frame m.typ) w
      else returns (unknown_frame m.typ) w

  -- clientReadLoop. A frame takes five bytes at least, so a round per byte and one more is enough.
  unfoldable pub client_read_loop : ℕ → ℕ → Reader → Serving T → Serving T × Option ServeError
  unfolding read_frame handle_frame
  client_read_loop zero c r w = (w, none)
  client_read_loop (suc fuel) c r w = elim (read_frame r) [
    | Received.err e ↦ (w, some (read_frame_failed e))
    | Received.ok m r ↦ elim (handle_frame c m w) [
      | goes_on w ↦ client_read_loop fuel c r w
      | returns e w ↦ (w, some e)
    ]
  ]

  -- `defer h.set.Remove(ac)`
  unfoldable pub leave_set : ℕ → Serving T → Serving T
  unfolding perform Set.remove
  leave_set c w = perform c w (Set.remove w.set c)

  -- `defer h.registry.Remove(attachID)`, where there is a registry.
  unfoldable pub leave_registry : Option ℕ → Serving T → Serving T
  unfolding Reg.remove
  leave_registry none w = w
  leave_registry (some id) w = record w {
    registry = elim w.registry [ none ↦ none | some r ↦ some (Reg.remove r id V.remove_saved) ];
  }

  -- From the first snapshot frame on; `k` is the channel of the subscription.
  unfoldable pub serve_parts :
      ℕ → ℕ → Reader → Serving T → Bytes × Bytes → Serving T × Option ServeError
  unfolding client_read_loop serve_error cancel
  serve_parts k c r w (scrollback, screen) =
      let history = if w.no_history then [] else scrollback in
      let w = send (message msg_snapshot_scrollback history) w in
      let w = send (message msg_snapshot_screen screen) w in
      let (w, e) = client_read_loop (length r.bytes + 1) c r w in
      (record w { pty = cancel k w.pty }, serve_error e)

  -- From the subscription on.
  unfoldable pub serve_live : ℕ → Reader → Serving T → Serving T × Option ServeError
  unfolding subscribe_with_snapshot_parts serve_parts
  serve_live c r w =
      let (p, parts) = subscribe_with_snapshot_parts E w.pty in
      elim parts [
        | none ↦ (record w { pty = p }, some snapshot_failed)
        | some parts ↦ serve_parts (length w.pty.subs) c r (record w { pty = p }) parts
      ]

  -- The registration; its id is none where there is no registry. False is an error.
  unfoldable pub register : ℕ → Hello → Serving T → Serving T × Option ℕ × Bool
  unfolding Reg.add
  register c hello w = elim w.registry [
    | none ↦ (w, none, true)
    | some r ↦
        let (r, id) = Reg.add r V.minted V.now hello.size hello.origin c V.add_saved in
        (record w { registry = some r }, id, elim id [ none ↦ false | some i ↦ true ])
  ]

  -- From the entry into the set on.
  unfoldable pub serve_hello : ℕ → Hello → Reader → Serving T → Serving T × Option ServeError
  unfolding Set.add register serve_live leave_registry leave_set
  serve_hello c hello r w =
      let w = perform c w (Set.add w.set c hello.size) in
      let w = send (message msg_size (J.encode_size w.set.current)) w in
      let (w, id, registered) = register c hello w in
      let (served, e) = serve_live c r w in
      if registered
      then (leave_set c (leave_registry id served), e)
      else (leave_set c w, some registry_add)

  unfoldable pub serve_one : ℕ → Reader → Serving T → Serving T × Option ServeError
  unfolding serve_hello
  serve_one c r w = elim (read_frame r) [
    | Received.err e ↦ (w, some (read_hello e))
    | Received.ok m r ↦
        let typed : Serving T × Option ServeError = elim (J.decode_hello m.payload) [
          | none ↦ (w, some decode_hello_failed)
          | some hello ↦
              let served = serve_hello c hello r w in
              if is_zero_size hello.size then (w, some hello_size) else served
        ] in
        if m.typ == msg_hello then typed else (w, some (expected_hello m.typ))
  ]
