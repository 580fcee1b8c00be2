-- ===== src/AttachClient/ServerLoop.antt =====
-- cmd/hoot/attach.go, runServerLoop: what the server's frames do to the local terminal.
use hootty.Base.{
  ℕ, zero, suc, ◌+◌, Bool, true, ◌&&◌, ◌||◌, Option, none, some, List, [], ◌∷◌, ◌++◌, ltb, ◌==◌,
  if◌then◌else◌, length, Bytes,
}
use hootty.Io.{File, write_file, Reader}
use hootty.Wire.{
  Message, WireError, Received, read_frame, msg_hello, msg_input, msg_output, msg_size,
  msg_snapshot_scrollback, msg_snapshot_screen, msg_ping, msg_pong,
}
use hootty.AttachSet.{AttachWinsize}
use hootty.AttachHandler.{Json}
use hootty.Restorer as Hoot
use hootty.Restorer.{HootRestorer, decimal}
use hootty.Stripper.Query.{esc}

pub record AttachLabel : Type 0 where
  pub session : Bytes
  pub host : Bytes

-- What stands still during one connection: the label, the line of the HUD, the rows at its start,
-- and what localSize returns.
pub record Place : Type 0 where
  pub label : AttachLabel
  pub hud_line : Bytes
  pub local_rows : ℕ
  pub local_size : AttachWinsize

-- `notices` are the lines on stderr about a remote size that differs, with the remote size.
pub record Terminal : Type 0 where
  pub stdout : File
  pub restorer : HootRestorer
  pub attached : Bool
  pub notices : List AttachWinsize

pub data ServerError : Type 0 where
  read_failed : WireError → ServerError
  write_failed : ServerError
  unexpected_frame unknown_frame : ℕ → ServerError

pub data Shown : Type 0 where
  goes_on : Terminal → Shown
  returns : ServerError → Terminal → Shown

-- `[connected. S @ H]` where there is no HUD line.
unfoldable pub status_line : Place → Bytes
status_line l =
    if length l.hud_line == 0
    then b'['
      ∷ b'c'
      ∷ b'o'
      ∷ b'n'
      ∷ b'n'
      ∷ b'e'
      ∷ b'c'
      ∷ b't'
      ∷ b'e'
      ∷ b'd'
      ∷ b'.'
      ∷ b' '
      ∷ (l.label.session ++ b' ' ∷ b'@' ∷ b' ' ∷ (l.label.host ++ b']' ∷ []))
    else l.hud_line

-- The bytes of emitAttachStatus.
unfoldable pub attach_status : Place → Bytes
unfolding status_line decimal
attach_status l =
    let rows = if l.local_rows == 0 then 24 else l.local_rows in
    let digits = decimal (rows + 1) rows in
    esc
    ∷ b'['
    ∷ (digits
        ++ (b';'
            ∷ b'1'
            ∷ b'H'
            ∷ esc
            ∷ b'['
            ∷ b'2'
            ∷ b'K'
            ∷ esc
            ∷ b'['
            ∷ b'2'
            ∷ b'm'
            ∷ (status_line l
                ++ (esc
                    ∷ b'['
                    ∷ b'0'
                    ∷ b'm'
                    ∷ esc
                    ∷ b'['
                    ∷ (digits ++ b'S' ∷ esc ∷ b'[' ∷ b'H' ∷ [])))))

-- `if _, werr := stdout.Write(bs); werr != nil { return werr }`
abbrev pub put : Bytes → (Terminal → Shown) → Terminal → Shown
put bs next t =
    let (f, whole) = write_file t.stdout bs in
    let t = record t { stdout = f } in if whole then next t else returns write_failed t

-- The same for a payload, which is written where it is not empty and then observed.
unfoldable pub show_payload : Bytes → Terminal → Shown
unfolding Hoot.observe
show_payload payload t =
    let observed =
      λ (t : Terminal). goes_on (record t { restorer = Hoot.observe t.restorer payload }) in
    if ltb 0 (length payload) then put payload observed t else observed t

unfoldable pub show_screen : Place → Bytes → Terminal → Shown
unfolding attach_status show_payload
show_screen l payload t =
    put (attach_status l) (show_payload payload) (record t { attached = true })

unfoldable pub show_size : Json → Place → Bytes → Terminal → Shown
show_size J l payload t = elim (J.decode_size payload) [
  | none ↦ goes_on t
  | some ws ↦
      let same = ws.cols == l.local_size.cols && ws.rows == l.local_size.rows in
      if l.local_size.cols == 0 || same
      then goes_on t
      else goes_on (record t { notices = t.notices ++ ws ∷ [] })
]

-- The switch of runServerLoop. An empty Output is written too, which writes nothing.
unfoldable pub show_frame : Json → Place → Message → Terminal → Shown
unfolding show_payload show_screen show_size
show_frame J l m t =
    if m.typ == msg_snapshot_scrollback || m.typ == msg_output
    then show_payload m.payload t
    else if m.typ == msg_snapshot_screen
    then show_screen l m.payload t
    else if m.typ == msg_size
    then show_size J l m.payload t
    else if m.typ == msg_pong
    then goes_on t
    else if m.typ == msg_hello || m.typ == msg_input || m.typ == msg_ping
    then returns (unexpected_frame m.typ) t
    else returns (unknown_frame m.typ) t

-- runServerLoop; the number is that of the frames after which the context is done, and then the
-- error is nil.
unfoldable pub run_server_loop :
    Json → Place → ℕ → Reader → Terminal → Terminal × Option ServerError
unfolding read_frame show_frame
run_server_loop J l zero r t = (t, none)
run_server_loop J l (suc left) r t = elim (read_frame r) [
  | Received.err e ↦ (t, some (read_failed e))
  | Received.ok m r ↦ elim (show_frame J l m t) [
    | goes_on t ↦ run_server_loop J l left r t
    | returns e t ↦ (t, some e)
  ]
]
