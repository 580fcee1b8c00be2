-- ===== src/AttachClient/Tests.antt =====
-- The theorems on the attach client at concrete terminals and networks.
use hootty.Base.{min, ◌^◌, true, false, none, some, List, [], ◌∷◌, ◌++◌, ◌≡◌, refl, arith, inl, inr}
use hootty.Io.{closes, eof, read_full}
use hootty.Wire.{WireError, Message, read_frame, msg_snapshot_screen, msg_output}
use hootty.Wire.Frames.{stream}
use hootty.AttachHandler.{Json}
use hootty.Restorer.{fresh}
use hootty.Pty.Sample.{unlimited}
use hootty.AttachClient.{SharedSession}
use hootty.AttachClient.Backoff.{timer, key, switch, wait_backoff}
use hootty.AttachClient.Waits.{ComesBack, wait_backoff-ComesBack}
use hootty.AttachClient.ConnectLoop.{
  Attempt, connected, dial_failed, eof, ConnectState, ends, error, run_connect_loop,
}
use hootty.AttachClient.Reconnects.{GoesOn, run_connect_loop-GoesOn}
use hootty.AttachClient.StaleSwitch.{DialsAfresh, run_connect_loop-stale_switch}
use hootty.AttachClient.ServerLoop as Loop
use hootty.AttachClient.ServerLoop.{Place, Terminal, run_server_loop}
use hootty.AttachClient.Shows.{Shows, shown_bytes, session_bytes, concat_map, run_server_loop-Shows}

abbrev json : Json
json = record { decode_hello = λ bs. none; decode_size = λ bs. none; encode_size = λ ws. [] }

abbrev small : Place
small = record {
  label = record { session = b's' ∷ []; host = b'h' ∷ [] };
  hud_line = [];
  local_rows = 24;
  local_size = record { cols = 80; rows = 24 };
}

abbrev blank : Terminal
blank = record { stdout = unlimited; restorer = fresh; attached = false; notices = [] }

abbrev replay : List Message
replay =
    (record { typ = msg_snapshot_screen; payload = b'$' ∷ [] })
    ∷ (record { typ = msg_output; payload = b'x' ∷ [] })
    ∷ []

run_server_loop-Shows_example :
    Shows blank
      (concat_map (shown_bytes small) replay)
      (concat_map session_bytes replay)
      (run_server_loop json small 3
        (record { bytes = stream replay ++ []; ending = closes })
        blank).0
    × ((run_server_loop json small 3
          (record { bytes = stream replay ++ []; ending = closes })
          blank).1
        ≡ some (Loop.read_failed (WireError.read_failed eof)))
unfolding read_frame read_full
run_server_loop-Shows_example =
    run_server_loop-Shows json small replay 3 [] closes (WireError.read_failed eof) blank
      (omega arith) (omega arith, (omega arith, tt)) (inr (inr (inl refl)), (inr (inl refl), tt))
      refl refl

abbrev disconnected : SharedSession
disconnected = record {
  connected = false;
  conn_open = false;
  switched = false;
  wake = false;
  tier = 3;
  sent = [];
}

wait_backoff-ComesBack_example :
    ComesBack
      (min (2 ^ 3) 30)
      (timer ∷ key ∷ [])
      disconnected
      (wait_backoff (timer ∷ key ∷ []) disconnected)
wait_backoff-ComesBack_example =
    wait_backoff-ComesBack (timer ∷ key ∷ []) disconnected (omega arith)
      (λ h. grind (arith, h), (λ h. grind (arith, h), tt))

abbrev round : Attempt
round = record {
  dial = connected;
  switches = false;
  ended = eof;
  cancelled = false;
  wakes = key ∷ [];
}

abbrev no_answer : Attempt
no_answer = record round { dial = dial_failed }

abbrev once_connected : ConnectState
once_connected = record { got_connected_once = true; shared = disconnected }

run_connect_loop-GoesOn_example :
    GoesOn 0 (run_connect_loop true (round ∷ no_answer ∷ []) once_connected)
run_connect_loop-GoesOn_example =
    run_connect_loop-GoesOn (round ∷ no_answer ∷ []) once_connected
      (record { once = refl; settled = refl; tier = omega arith })
      (
        record {
          dial = inl refl;
          stays = refl;
          live = refl;
          waits = ((λ h. grind (arith, h), λ h. grind (arith, h)), tt);
        },
        (
          record {
            dial = inr refl;
            stays = refl;
            live = refl;
            waits = ((λ h. grind (arith, h), λ h. grind (arith, h)), tt);
          },
          tt,
        ),
      )

abbrev cloned_in_wait : Attempt
cloned_in_wait = record no_answer { wakes = switch ∷ [] }

run_connect_loop-stale_switch_example :
    DialsAfresh (run_connect_loop true (cloned_in_wait ∷ round ∷ []) once_connected)
    × (run_connect_loop true (cloned_in_wait ∷ round ∷ no_answer ∷ []) once_connected ≡ ends error)
run_connect_loop-stale_switch_example =
    run_connect_loop-stale_switch cloned_in_wait round no_answer [] once_connected refl
      (omega arith) refl refl refl refl refl refl refl
