-- ===== src/PrimaryFilter.antt =====
-- vtprimary_filter.go: the filter in front of the mirror terminal, which must see only what the
-- program writes to the primary screen. `feed` and `filter` return the new state and the grown
-- output.
pub mod AltMode
pub mod Tokens
pub mod Chunks
mod Tests
use hootty.Base.{
  ℕ, ◌+◌, Bool, true, false, not, ◌&&◌, ◌||◌, Option, none, some, List, [], ◌∷◌, ◌++◌, ltb, ◌==◌,
  if◌then◌else◌, length, Bytes, split_last, one_of,
}
use hootty.Stripper.Query.{esc, is_final, strip_csi_introducer}

pub data PrimaryFilterState : Type 0 where
  normal in_esc in_csi : PrimaryFilterState

pub record VtPrimaryScreenFilter : Type 0 where
  pub in_alt : Bool
  pub state : PrimaryFilterState
  pub pending : Bytes

abbrev pub Fed : Type 0
Fed = VtPrimaryScreenFilter × Bytes

-- Nothing is pending.
abbrev pub idle : Bool → VtPrimaryScreenFilter
idle alt = record { in_alt = alt; state = normal; pending = [] }

-- What is written is shown unless the child is on the alternate screen.
abbrev pub shown : Bool → Bytes → Bytes → Bytes
shown alt bs out = if alt then out else out ++ bs

abbrev pub alt_modes : List Bytes
alt_modes =
    (b'4' ∷ b'7' ∷ []) ∷ (b'1' ∷ b'0' ∷ b'4' ∷ b'7' ∷ []) ∷ (b'1' ∷ b'0' ∷ b'4' ∷ b'9' ∷ []) ∷ []

-- The walk over the parameters of csiAltScreenMode; `seg` is what came since the last `;`.
unfoldable pub names_alt : Bytes → Bytes → Bool
names_alt seg [] = one_of seg alt_modes
names_alt seg (c ∷ cs) =
    let next = names_alt [] cs in
    let longer = names_alt (seg ++ c ∷ []) cs in
    if c == b';' then one_of seg alt_modes || next else longer

-- csiAltScreenMode: whether the sequence enters (true) or leaves (false) an alternate screen; none
-- for any other.
unfoldable pub csi_alt_screen_mode : Bytes → Option Bool
unfolding strip_csi_introducer names_alt
csi_alt_screen_mode buf =
    let body = strip_csi_introducer buf in
    if ltb (length body) 3 then none else elim (split_last body) [
      | none ↦ none
      | some ([], final) ↦ none
      | some (mark ∷ params, final) ↦
          if not (final == b'h' || final == b'l')
          then none
          else if not (mark == b'?')
          then none
          else if names_alt [] params
          then some (final == b'h')
          else none
    ]

-- `case primaryFilterNormal`
unfoldable pub feed_normal : Bool → Bytes → ℕ → Bytes → Fed
feed_normal alt pending b out =
    if b == esc
    then (record { in_alt = alt; state = in_esc; pending = b ∷ [] }, out)
    else if b == 0x9b
    then (record { in_alt = alt; state = in_csi; pending = b ∷ [] }, out)
    else (record { in_alt = alt; state = normal; pending = pending }, shown alt (b ∷ []) out)

-- `case primaryFilterEsc`
unfoldable pub feed_esc : Bool → Bytes → ℕ → Bytes → Fed
feed_esc alt pending b out =
    let pending' = pending ++ b ∷ [] in
    if b == b'['
    then (record { in_alt = alt; state = in_csi; pending = pending' }, out)
    else (idle alt, shown alt pending' out)

-- `case primaryFilterCSI`
unfoldable pub feed_csi : Bool → Bytes → ℕ → Bytes → Fed
feed_csi alt pending b out =
    let pending' = pending ++ b ∷ [] in
    let ended : Fed = elim (csi_alt_screen_mode pending') [
      | some enter ↦ (idle enter, out)
      | none ↦ (idle alt, shown alt pending' out)
    ] in
    if is_final b
    then ended
    else if ltb 256 (length pending')
    then (idle alt, shown alt pending' out)
    else (record { in_alt = alt; state = in_csi; pending = pending' }, out)

unfoldable pub feed_in : Bool → PrimaryFilterState → Bytes → ℕ → Bytes → Fed
unfolding feed_normal feed_esc feed_csi
feed_in alt normal pending b out = feed_normal alt pending b out
feed_in alt in_esc pending b out = feed_esc alt pending b out
feed_in alt in_csi pending b out = feed_csi alt pending b out

abbrev pub feed : VtPrimaryScreenFilter → ℕ → Bytes → Fed
feed f b out = feed_in f.in_alt f.state f.pending b out

-- The loop of `Filter`.
unfoldable pub filter_onto : VtPrimaryScreenFilter → Bytes → Bytes → Fed
filter_onto f [] out = (f, out)
filter_onto f (b ∷ bs) out = let (f', out') = feed f b out in filter_onto f' bs out'

unfoldable pub filter : VtPrimaryScreenFilter → Bytes → Fed
unfolding filter_onto
filter f bs = filter_onto f bs []
