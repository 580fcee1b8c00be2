-- ===== src/Pty/Streaming.antt =====
-- pty_libghostty_routes.go, handleStream: a snapshot, and then the live output. The handler asks
-- the dispatcher twice; `between` is what the PTY does between the two, `after` what it does until
-- the client goes or the channel is closed. The writer takes everything and can be flushed.
use hootty.Base.{none, some, List, ◌++◌, length}
use hootty.Pty.{Emulator, LibghosttyPty, subscribe, cancel}
use hootty.Pty.Requests.{snapshot}
use hootty.Pty.Live.{Event, run, received}
use hootty.Pty.Routes.{Response, reply}

module _ {T : Type 0} (E : Emulator T) where
  unfoldable pub handle_stream :
      LibghosttyPty T → List Event → List Event → LibghosttyPty T × Response
  unfolding subscribe cancel snapshot run received
  handle_stream p between after =
      let k = length p.subs in
      let p = run E (subscribe 64 p) between in
      let streamed = received E k p after in
      elim (snapshot E p) [
        | none ↦ (cancel k p, reply 500)
        | some snap ↦ (cancel k (run E p after), record { status = 200; body = snap ++ streamed })
      ]
