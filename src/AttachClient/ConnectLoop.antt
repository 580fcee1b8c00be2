-- ===== src/AttachClient/ConnectLoop.antt =====
-- cmd/hoot/attach.go, runConnectLoop: dial, run a session, wait, dial again. What the network, the
-- user and the server do in one round is a value; the loop runs on the list of these.
use hootty.Base.{Bool, true, false, not, none, some, List, [], ◌∷◌, if◌then◌else◌, ℕ}
use hootty.AttachClient.{
  SharedSession, set_send, clear_send, mark_switched, take_switched, reset_tier,
}
use hootty.AttachClient.Backoff.{Woken, wait_backoff}

-- `refused` is an httpErrExit2; `dial_cancelled` any failure once the context is done.
pub data Dialed : Type 0 where
  connected dial_cancelled refused dial_failed : Dialed

-- The error that runSession returns.
pub data SessionEnd : Type 0 where
  no_error eof closed failed : SessionEnd

-- One round: the dial, whether a clone switches the target while the session runs, how that ends,
-- whether the context is done then, and what happens in the wait.
pub record Attempt : Type 0 where
  pub dial : Dialed
  pub switches : Bool
  pub ended : SessionEnd
  pub cancelled : Bool
  pub wakes : List Woken

pub record ConnectState : Type 0 where
  pub got_connected_once : Bool
  pub shared : SharedSession

pub data LoopEnd : Type 0 where
  clean exit2 error panics : LoopEnd

pub data Round : Type 0 where
  again : ConnectState → Round
  ends : LoopEnd → Round

-- `if !waitBackoff(...) { return nil }`, and then the rest of the round.
unfoldable pub backed_off : List Woken → ConnectState → (SharedSession → SharedSession) → Round
unfolding wait_backoff
backed_off wakes st then_ = elim (wait_backoff wakes st.shared) [
  | none ↦ ends panics
  | some w ↦ if w.go_on then again (record st { shared = then_ w.shared }) else ends clean
]

-- The shared bus over one session.
unfoldable pub session_shared : Bool → SharedSession → SharedSession
unfolding set_send clear_send mark_switched reset_tier
session_shared switches s =
    let s = set_send (reset_tier s) in clear_send (if switches then mark_switched s else s)

-- The end of a session where there is no reconnect.
abbrev pub final_end : SessionEnd → LoopEnd
final_end failed = error
final_end e = clean

-- What follows a session.
unfoldable pub after_session : Bool → Attempt → ConnectState → Round
unfolding take_switched backed_off
after_session reconnect a st =
    let (s, switched) = take_switched st.shared in
    let dropped =
      backed_off a.wakes (record { got_connected_once = true; shared = s })
        λ s. record s { wake = false } in
    if a.cancelled
    then ends clean
    else if switched
    then again (record { got_connected_once = false; shared = s })
    else if not reconnect
    then ends (final_end a.ended)
    else dropped

unfoldable pub after_failed_dial : Bool → Attempt → ConnectState → Round
unfolding backed_off
after_failed_dial reconnect a st =
    let redial = backed_off a.wakes st λ s. s in
    if not st.got_connected_once then ends error else if not reconnect then ends error else redial

unfoldable pub connect_round : Bool → Attempt → ConnectState → Round
unfolding after_session after_failed_dial session_shared
connect_round reconnect a st = elim a.dial [
  | connected ↦
      after_session reconnect a (record st { shared = session_shared a.switches st.shared })
  | dial_cancelled ↦ ends clean
  | refused ↦ ends exit2
  | dial_failed ↦ after_failed_dial reconnect a st
]

-- The loop over what happens so far: a state is that of a loop that still runs.
unfoldable pub run_connect_loop : Bool → List Attempt → ConnectState → Round
unfolding connect_round
run_connect_loop reconnect [] st = again st
run_connect_loop reconnect (a ∷ more) st = elim (connect_round reconnect a st) [
  | again st ↦ run_connect_loop reconnect more st
  | ends e ↦ ends e
]

-- The exit code of runAttachLoop behind the loop.
unfoldable pub exit_code : Bool → LoopEnd → ℕ
exit_code signaled e =
    if signaled then 130 else elim e [ clean ↦ 0 | exit2 ↦ 2 | error ↦ 1 | panics ↦ 2 ]
