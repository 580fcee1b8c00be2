-- ===== src/Stripper/Query.antt =====
-- The query recognisers of vtquery_stripper.go: which complete CSI and OSC sequences ask the
-- terminal for a reply. Slices are values: the recognisers only read them.
use hootty.Base.{
  ℕ, Bool, true, false, ◌&&◌, ◌||◌, Option, none, some, [], ◌∷◌, ◌++◌, ltb, ◌==◌, if◌then◌else◌,
  within, length, Bytes, split_last, all, one_of,
}

abbrev pub esc : ℕ
esc = 0x1b

-- `b < '0' || b > '9'` refuses a byte.
abbrev pub is_digit : ℕ → Bool
is_digit = within b'0' b'9'

-- A final byte of a CSI sequence.
abbrev pub is_final : ℕ → Bool
is_final = within 0x40 0x7e

unfoldable pub strip_csi_introducer : Bytes → Bytes
strip_csi_introducer [] = []
strip_csi_introducer (a ∷ []) = if a == 0x9b then [] else a ∷ []
strip_csi_introducer (a ∷ b ∷ rest) =
    if a == esc && b == b'[' then rest else if a == 0x9b then b ∷ rest else a ∷ b ∷ rest

unfoldable pub params_are_da : Bytes → Bool
params_are_da params =
    one_of params ([] ∷ (b'0' ∷ []) ∷ (b'?' ∷ []) ∷ (b'>' ∷ []) ∷ (b'=' ∷ []) ∷ [])

-- `len(params) >= 2 && params[0] == '?'` and digits behind it
unfoldable pub private_number : Bytes → Bool
private_number [] = false
private_number (a ∷ []) = false
private_number (a ∷ b ∷ rest) = a == b'?' && all is_digit (b ∷ rest)

unfoldable pub params_are_dsr : Bytes → Bool
unfolding private_number
params_are_dsr params =
    if one_of params ((b'5' ∷ []) ∷ (b'6' ∷ []) ∷ (b'?' ∷ b'5' ∷ []) ∷ (b'?' ∷ b'6' ∷ []) ∷ [])
    then true
    else private_number params

unfoldable pub params_are_size_query : Bytes → Bool
params_are_size_query params =
    one_of params
      ((b'1' ∷ b'4' ∷ []) ∷ (b'1' ∷ b'6' ∷ []) ∷ (b'1' ∷ b'8' ∷ []) ∷ (b'1' ∷ b'9' ∷ []) ∷ [])

-- `?`, digits, `$`, at least three bytes
unfoldable pub params_are_decrqm : Bytes → Bool
params_are_decrqm params = if ltb (length params) 3 then false else elim params [
  | [] ↦ false
  | a ∷ rest ↦ elim (split_last rest) [
    | none ↦ false
    | some (middle, last) ↦ a == b'?' && last == b'$' && all is_digit middle
  ]
]

-- The switch on the final byte.
unfoldable pub csi_final_query : Bytes → ℕ → Bool
csi_final_query params final =
    if final == b'c'
    then params_are_da params
    else if final == b'n'
    then params_are_dsr params
    else if final == b'q'
    then one_of params ((b'>' ∷ []) ∷ [])
    else if final == b't'
    then params_are_size_query params
    else if final == b'p'
    then params_are_decrqm params
    else if final == b'u'
    then one_of params ((b'?' ∷ []) ∷ [])
    else false

unfoldable pub is_csi_query : Bytes → Bool
unfolding strip_csi_introducer csi_final_query params_are_da params_are_dsr params_are_size_query
    params_are_decrqm
is_csi_query buf = elim (split_last (strip_csi_introducer buf)) [
  | none ↦ false
  | some (params, final) ↦ csi_final_query params final
]

unfoldable pub strip_osc_introducer : Bytes → Bytes
strip_osc_introducer [] = []
strip_osc_introducer (a ∷ []) = if a == 0x9d then [] else a ∷ []
strip_osc_introducer (a ∷ b ∷ rest) =
    if a == esc && b == b']' then rest else if a == 0x9d then b ∷ rest else a ∷ b ∷ rest

-- At the last two bytes of `buf`: drop a BEL, an 8-bit ST, or ESC and a backslash.
strip_st : Bytes → ℕ → Bytes
strip_st front last = if last == 0x07 || last == 0x9c then front else elim (split_last front) [
  | none ↦ front ++ last ∷ []
  | some (body, before) ↦ if before == esc && last == b'\\' then body else front ++ last ∷ []
]

unfoldable pub strip_osc_terminator : Bytes → Bytes
unfolding strip_st
strip_osc_terminator buf = elim (split_last buf) [
  | none ↦ buf
  | some (front, last) ↦ strip_st front last
]

-- The body cut at its first `;`, and none if it has none.
unfoldable pub cut_semi : Bytes → Option (Bytes × Bytes)
cut_semi [] = none
cut_semi (c ∷ cs) =
    let rest = cut_semi cs in
    if c == b';'
    then some ([], cs)
    else elim rest [ none ↦ none | some (ps, payload) ↦ some (c ∷ ps, payload) ]

-- The walk over the segments; `seg` is `payload[start:i]`.
unfoldable pub has_question : Bytes → Bytes → Bool
has_question seg [] = one_of seg ((b'?' ∷ []) ∷ [])
has_question seg (c ∷ cs) =
    let next = has_question [] cs in
    let longer = has_question (seg ++ c ∷ []) cs in
    if c == b';' then one_of seg ((b'?' ∷ []) ∷ []) || next else longer

unfoldable pub osc_payload_is_query : Bytes → Bool
unfolding has_question
osc_payload_is_query [] = false
osc_payload_is_query (c ∷ cs) = has_question [] (c ∷ cs)

unfoldable pub is_osc_query : Bytes → Bool
unfolding strip_osc_introducer strip_osc_terminator cut_semi osc_payload_is_query
is_osc_query buf = elim (cut_semi (strip_osc_terminator (strip_osc_introducer buf))) [
  | none ↦ false
  | some (ps, payload) ↦
      if one_of ps ((b'1' ∷ b'0' ∷ []) ∷ (b'1' ∷ b'1' ∷ []) ∷ (b'1' ∷ b'2' ∷ []) ∷ [])
      then osc_payload_is_query payload
      else if one_of ps ((b'4' ∷ []) ∷ [])
      then osc_payload_is_query payload
      else false
]
