-- ===== src/PrimaryFilter/Tokens.antt =====
-- The primary-screen filter against a terminal's reading of the stream: text, escapes and CSI
-- sequences, of which some switch screens.
use hootty.Base.{
  ℕ, ◌+◌, ◌≤◌, Bool, true, false, Option, none, some, List, [], ◌∷◌, ◌++◌, ◌≡◌, ◌≢◌, refl, ◌∙◌, inl,
  inr, arith, if◌then◌else◌, length, Bytes, All, length-append, append_assoc, append-nil,
}
use hootty.Stripper.Query.{esc, is_final}
use hootty.Stripper.Strips.{CsiIntroducer}
use hootty.PrimaryFilter.AltMode.{switch_of, csi_alt_screen_mode-switch_of}
use hootty.PrimaryFilter.{
  in_csi, VtPrimaryScreenFilter, idle, shown, csi_alt_screen_mode, feed_in, filter_onto, filter,
}

pub data Token : Type 0 where
  text : ℕ → Token
  escape : ℕ → Token
  csi : Bytes → Bytes → ℕ → Token

abbrev pub token_bytes : Token → Bytes
token_bytes (text b) = b ∷ []
token_bytes (escape b) = esc ∷ b ∷ []
token_bytes (csi i params f) = i ++ (params ++ f ∷ [])

abbrev pub bytes_of : List Token → Bytes
bytes_of [] = []
bytes_of (t ∷ ts) = token_bytes t ++ bytes_of ts

-- Text has no introducer, an escape does not begin a CSI sequence, and a CSI sequence has at most
-- 256 bytes before its final byte.
abbrev pub IsToken : Token → Type 0
IsToken (text b) = (b ≢ esc) × (b ≢ 0x9b)
IsToken (escape b) = b ≢ b'['
IsToken (csi i params f) =
    CsiIntroducer i
    × All (λ b. is_final b ≡ false) params
    × (is_final f ≡ true)
    × (length i + length params ≤ 256)

-- The screen that a token switches to: true for an alternate one.
abbrev pub switches : Token → Option Bool
switches (csi i params f) = switch_of params f
switches _ = none

-- What the primary screen gets of some tokens, from a screen on, and the screen behind them.
abbrev pub primary : Bool → List Token → Bytes
primary alt [] = []
primary alt (t ∷ ts) = elim (switches t) [
  | some enter ↦ primary enter ts
  | none ↦ (if alt then [] else token_bytes t) ++ primary alt ts
]

abbrev pub screen : Bool → List Token → Bool
screen alt [] = alt
screen alt (t ∷ ts) = elim (switches t) [ some enter ↦ screen enter ts | none ↦ screen alt ts ]

abbrev within_csi : Bool → Bytes → VtPrimaryScreenFilter
within_csi alt pending = record { in_alt = alt; state = in_csi; pending = pending }

filter_onto_params :
    (params pending rest out : Bytes) (alt : Bool)
    → All (λ b. is_final b ≡ false) params
    → length pending + length params ≤ 256
    → filter_onto (within_csi alt pending) (params ++ rest) out
      ≡ filter_onto (within_csi alt (pending ++ params)) rest out
unfolding filter_onto feed_in
filter_onto_params [] pending rest out alt h fits = rw append-nil
filter_onto_params (b ∷ params) pending rest out alt h fits = ground (
  arith,
  filter_onto_params params (pending ++ b ∷ []) rest out alt h.1,
  append_assoc pending (b ∷ []) params,
  length-append pending (b ∷ []),
)

filter_onto_introducer :
    (i rest out : Bytes) (alt : Bool)
    → CsiIntroducer i
    → filter_onto (idle alt) (i ++ rest) out ≡ filter_onto (within_csi alt i) rest out
unfolding filter_onto feed_in
filter_onto_introducer i rest out alt (inl e) = rw e
filter_onto_introducer i rest out alt (inr e) = rw e

-- The state and the output behind one token.
abbrev after : Bool → Token → Bytes → Bool × Bytes
after alt t out = elim (switches t) [
  | some enter ↦ (enter, out)
  | none ↦ (alt, shown alt (token_bytes t) out)
]

filter_onto_final :
    (pending : Bytes) (f : ℕ) (rest out : Bytes) (alt : Bool)
    → is_final f ≡ true
    → filter_onto (within_csi alt pending) (f ∷ rest) out
      ≡ elim (csi_alt_screen_mode (pending ++ f ∷ [])) [
        | some enter ↦ filter_onto (idle enter) rest out
        | none ↦ filter_onto (idle alt) rest (shown alt (pending ++ f ∷ []) out)
      ]
unfolding filter_onto feed_in
filter_onto_final pending f rest out alt h = ground arith

filter_onto-token :
    (t : Token) (alt : Bool) (rest out : Bytes)
    → IsToken t
    → filter_onto (idle alt) (token_bytes t ++ rest) out
      ≡ filter_onto (idle (after alt t out).0) rest (after alt t out).1
unfolding filter_onto feed_in
filter_onto-token (text b) alt rest out (h, k) = ground arith
filter_onto-token (escape b) alt rest out h = ground arith
filter_onto-token (csi i params f) alt rest out (hi, hp, hf, fits) =
    rw (append_assoc i (params ++ f ∷ []) rest) (
      rw (append_assoc params (f ∷ []) rest) (
        filter_onto_introducer i (params ++ f ∷ rest) out alt hi
        ∙ filter_onto_params params i (f ∷ rest) out alt hp fits
        ∙ filter_onto_final (i ++ params) f rest out alt hf
        ∙ rw (append_assoc i params (f ∷ []), csi_alt_screen_mode-switch_of i params f hi)
            (ground arith)))

filter_onto-tokens :
    (ts : List Token) (alt : Bool) (out : Bytes)
    → All IsToken ts
    → filter_onto (idle alt) (bytes_of ts) out ≡ (idle (screen alt ts), out ++ primary alt ts)
unfolding filter_onto
filter_onto-tokens [] alt out h = rw append-nil refl
filter_onto-tokens (t ∷ ts) alt out h =
    filter_onto-token t alt (bytes_of ts) out h.0
    ∙ filter_onto-tokens ts (after alt t out).0 (after alt t out).1 h.1
    ∙ ground (arith, append_assoc out (token_bytes t) (primary alt ts))

-- On a stream of whole tokens, from either screen: the mirror gets exactly what goes to the primary
-- screen of a terminal that takes ESC [ and the byte 0x9b for the introducer of a CSI sequence and
-- switches at modes 47, 1047 and 1049, and the filter ends on the screen that the last switch
-- names. Text holds no ESC and no 0x9b, so no character that has 0x9b among its bytes in UTF-8.
pub filter-primary :
    (ts : List Token) (alt : Bool)
    → All IsToken ts
    → filter (idle alt) (bytes_of ts) ≡ (idle (screen alt ts), primary alt ts)
unfolding filter
filter-primary ts alt h = filter_onto-tokens ts alt [] h
