-- ===== src/Stripper.antt =====
-- vtquery_stripper.go: the streaming filter that drops terminal queries from what a session sends
-- to an attached terminal. `feed` and `filter` return the new state and the grown output.
pub mod Query
pub mod Grammar
pub mod OscGrammar
pub mod Strips
pub mod Conserve
pub mod Sequences
pub mod Verdicts
mod Tests
pub mod Chunks
use hootty.Base.{ℕ, ◌+◌, Bool, ◌||◌, List, [], ◌∷◌, ◌++◌, ltb, ◌==◌, if◌then◌else◌, length, Bytes}
use Query.{esc, is_final, is_csi_query, is_osc_query}

pub data StripState : Type 0 where
  normal in_esc in_csi in_osc osc_esc_seen : StripState

pub record VtQueryStripper : Type 0 where
  pub state : StripState
  pub pending : Bytes

abbrev pub Fed : Type 0
Fed = VtQueryStripper × Bytes

abbrev pub initial : VtQueryStripper
initial = record { state = normal; pending = [] }

-- `s.state = st; s.pending = append(s.pending[:0], b)`
abbrev pub start : StripState → ℕ → VtQueryStripper
start st b = record { state = st; pending = b ∷ [] }

-- `s.state = stNormal; out = append(out, s.pending...); s.pending = s.pending[:0]`
abbrev pub flush : Bytes → Bytes → Fed
flush pending out = (initial, out ++ pending)

-- A complete sequence: dropped if it is a query, else forwarded.
abbrev pub settle : Bool → Bytes → Bytes → Fed
settle drop pending out = if drop then (initial, out) else flush pending out

-- `case stNormal`
unfoldable pub feed_normal : Bytes → ℕ → Bytes → Fed
feed_normal pending b out =
    if b == 0x05
    then (record { state = normal; pending = pending }, out)
    else if b == esc
    then (start in_esc b, out)
    else if b == 0x9b
    then (start in_csi b, out)
    else if b == 0x9d
    then (start in_osc b, out)
    else (record { state = normal; pending = pending }, out ++ b ∷ [])

-- `case stEsc`
unfoldable pub feed_esc : Bytes → ℕ → Bytes → Fed
feed_esc pending b out =
    let pending' = pending ++ b ∷ [] in
    if b == b'['
    then (record { state = in_csi; pending = pending' }, out)
    else if b == b']'
    then (record { state = in_osc; pending = pending' }, out)
    else if b == 0x05
    then (initial, out ++ esc ∷ [])
    else flush pending' out

-- `case stCSI`
unfoldable pub feed_csi : Bytes → ℕ → Bytes → Fed
feed_csi pending b out =
    let pending' = pending ++ b ∷ [] in
    if is_final b
    then settle (is_csi_query pending') pending' out
    else if ltb 256 (length pending')
    then flush pending' out
    else (record { state = in_csi; pending = pending' }, out)

-- `case stOSC`
unfoldable pub feed_osc : Bytes → ℕ → Bytes → Fed
feed_osc pending b out =
    let pending' = pending ++ b ∷ [] in
    if b == 0x07
    then settle (is_osc_query pending') pending' out
    else if b == esc
    then (record { state = osc_esc_seen; pending = pending }, out)
    else if b == 0x9c
    then settle (is_osc_query pending') pending' out
    else if ltb 1024 (length pending')
    then flush pending' out
    else (record { state = in_osc; pending = pending' }, out)

-- `case stOSCEscSeen`. The two nested calls of `feed` run in stNormal on ESC and then in stEsc
-- on `b`: their arms are called here by name.
unfoldable pub feed_osc_esc : Bytes → ℕ → Bytes → Fed
unfolding feed_normal feed_esc
feed_osc_esc pending b out =
    if b == b'\\'
    then (let pending' = pending ++ esc ∷ b'\\' ∷ [] in settle (is_osc_query pending') pending' out)
    else (let (s, out') = feed_normal [] esc (out ++ pending) in feed_esc s.pending b out')

unfoldable pub feed_in : StripState → Bytes → ℕ → Bytes → Fed
unfolding feed_normal feed_esc feed_csi feed_osc feed_osc_esc
feed_in normal pending b out = feed_normal pending b out
feed_in in_esc pending b out = feed_esc pending b out
feed_in in_csi pending b out = feed_csi pending b out
feed_in in_osc pending b out = feed_osc pending b out
feed_in osc_esc_seen pending b out = feed_osc_esc pending b out

abbrev pub feed : VtQueryStripper → ℕ → Bytes → Fed
feed s b out = feed_in s.state s.pending b out

-- The loop of `Filter`.
unfoldable pub filter_onto : VtQueryStripper → Bytes → Bytes → Fed
filter_onto s [] out = (s, out)
filter_onto s (b ∷ bs) out = let (s', out') = feed s b out in filter_onto s' bs out'

unfoldable pub filter : VtQueryStripper → Bytes → Fed
unfolding filter_onto
filter s bs = filter_onto s bs []
