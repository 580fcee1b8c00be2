-- ===== src/AttachClient.antt =====
-- cmd/hoot/attach.go and title.go: `hoot attach` on the user's side. The parent has the sizes, the
-- title and the bus between the goroutines; the children have the loops.
pub mod Backoff
pub mod ConnectLoop
pub mod ServerLoop
pub mod StaleSwitch
pub mod Reconnects
pub mod Shows
pub mod Waits
mod Tests
use hootty.Base.{
  ℕ, ◌+◌, ◌*◌, ◌/◌, ◌%◌, Bool, true, false, not, ◌&&◌, ◌||◌, Option, none, some, List, [], ◌∷◌,
  ◌++◌, ltb, ◌==◌, if◌then◌else◌, length, Bytes,
}
use hootty.Io.{File, write_file}
use hootty.Wire.{Message, msg_input}
use hootty.AttachSet.{AttachWinsize}
use hootty.Stripper.Query.{esc}

-- packSize on two uint16: `|` of bits that do not meet is the sum.
unfoldable pub pack_size : AttachWinsize → ℕ
pack_size ws = ws.cols * 65536 + ws.rows

-- unpackSize
unfoldable pub unpack_size : ℕ → AttachWinsize
unpack_size v = record { cols = v / 65536 % 65536; rows = v % 65536 }

-- localOrDefaultSize of what localSize returns.
unfoldable pub local_or_default_size : AttachWinsize → AttachWinsize
local_or_default_size ws =
    if ws.cols == 0 || ws.rows == 0 then record { cols = 80; rows = 24 } else ws

-- sharedSession: `connected` is `sendFn != nil`, `sent` is what its calls send, `wake` the one
-- place of the channel, `conn_open` the connection that markSwitched closes.
pub record SharedSession : Type 0 where
  pub connected : Bool
  pub conn_open : Bool
  pub switched : Bool
  pub wake : Bool
  pub tier : ℕ
  pub sent : List Message

unfoldable pub set_send : SharedSession → SharedSession
set_send s = record s { connected = true; conn_open = true }

unfoldable pub clear_send : SharedSession → SharedSession
clear_send s = record s { connected = false; conn_open = false }

unfoldable pub mark_switched : SharedSession → SharedSession
mark_switched s = record s { switched = true; conn_open = false; wake = true }

unfoldable pub take_switched : SharedSession → SharedSession × Bool
take_switched s = (record s { switched = false }, s.switched)

unfoldable pub send_if_connected : Message → SharedSession → SharedSession
send_if_connected m s = if s.connected then record s { sent = s.sent ++ m ∷ [] } else s

unfoldable pub send_input_or_wake : ℕ → SharedSession → SharedSession
send_input_or_wake b s =
    if s.connected
    then record s { sent = s.sent ++ (record { typ = msg_input; payload = b ∷ [] }) ∷ [] }
    else record s { wake = true }

unfoldable pub reset_tier : SharedSession → SharedSession
reset_tier s = record s { tier = 0 }

-- sanitizeTitle on a valid UTF-8 text, whose control runes are single bytes.
unfoldable pub drop_controls : Bytes → Bytes
drop_controls [] = []
drop_controls (b ∷ bs) =
    let rest = drop_controls bs in if b == 0x7f || ltb b 0x20 then rest else b ∷ rest

unfoldable pub needs_sanitize : Bytes → Bool
needs_sanitize [] = false
needs_sanitize (b ∷ bs) = let rest = needs_sanitize bs in ltb b 0x20 || b == 0x7f || rest

unfoldable pub sanitize_title : Bytes → Bytes
unfolding drop_controls needs_sanitize
sanitize_title s = if needs_sanitize s then drop_controls s else s

-- hudTitleSetBytes, hudTitlePushBytes and hudTitlePopBytes.
unfoldable pub hud_title_set_bytes : Bytes → Bytes
unfolding sanitize_title
hud_title_set_bytes s = esc ∷ b']' ∷ b'2' ∷ b';' ∷ (sanitize_title s ++ 0x07 ∷ [])

abbrev pub hud_title_push_bytes : Bytes
hud_title_push_bytes = esc ∷ b'[' ∷ b'2' ∷ b'2' ∷ b';' ∷ b'2' ∷ b't' ∷ []

abbrev pub hud_title_pop_bytes : Bytes
hud_title_pop_bytes = esc ∷ b'[' ∷ b'2' ∷ b'3' ∷ b';' ∷ b'2' ∷ b't' ∷ []

-- hudState; a nil pointer answers as one that is no tty.
pub record HudState : Type 0 where
  pub line : Bytes
  pub is_tty : Bool
  pub pushed : Bool

unfoldable pub on_attach : HudState → File → HudState × File
unfolding hud_title_set_bytes
on_attach h w =
    let w' = if h.pushed then w else (write_file w hud_title_push_bytes).0 in
    if not h.is_tty || length h.line == 0
    then (h, w)
    else (record h { pushed = true }, (write_file w' (hud_title_set_bytes h.line)).0)

unfoldable pub on_detach : HudState → File → File
on_detach h w = if h.is_tty && h.pushed then (write_file w hud_title_pop_bytes).0 else w
