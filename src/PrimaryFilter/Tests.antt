-- ===== src/PrimaryFilter/Tests.antt =====
-- The theorems on the primary-screen filter at a concrete stream.
use hootty.Base.{true, false, some, List, [], ◌∷◌, ◌++◌, ◌≡◌, ◌↔◌, refl, inl, arith}
use hootty.Stripper.Query.{esc}
use hootty.PrimaryFilter.{idle, csi_alt_screen_mode, filter}
use hootty.PrimaryFilter.AltMode.{Switches, csi_alt_screen_mode_iff}
use hootty.PrimaryFilter.Chunks.{primary_filter-append}
use hootty.PrimaryFilter.Tokens.{
  Token, text, escape, csi, bytes_of, primary, screen, filter-primary,
}

abbrev enter : Token
enter = csi (esc ∷ b'[' ∷ []) (b'?' ∷ b'1' ∷ b'0' ∷ b'4' ∷ b'9' ∷ []) b'h'

abbrev leave : Token
leave = csi (esc ∷ b'[' ∷ []) (b'?' ∷ b'1' ∷ b'0' ∷ b'4' ∷ b'9' ∷ []) b'l'

-- A prompt, an editor on the alternate screen, and the prompt again.
abbrev visit : List Token
visit = text b'$' ∷ enter ∷ text b'~' ∷ escape b'7' ∷ leave ∷ text b'$' ∷ []

filter-primary_example :
    filter (idle false) (bytes_of visit) ≡ (idle (screen false visit), primary false visit)
filter-primary_example = filter-primary visit false (ground arith)

primary_filter-append_example :
    filter (idle false) ((esc ∷ b'[' ∷ b'?' ∷ []) ++ b'4' ∷ b'7' ∷ b'h' ∷ []) ≡ (
      (filter (filter (idle false) (esc ∷ b'[' ∷ b'?' ∷ [])).0 (b'4' ∷ b'7' ∷ b'h' ∷ [])).0,
      (filter (idle false) (esc ∷ b'[' ∷ b'?' ∷ [])).1
          ++ (filter (filter (idle false) (esc ∷ b'[' ∷ b'?' ∷ [])).0 (b'4' ∷ b'7' ∷ b'h' ∷ [])).1,
    )
primary_filter-append_example =
    primary_filter-append (idle false) (esc ∷ b'[' ∷ b'?' ∷ []) (b'4' ∷ b'7' ∷ b'h' ∷ [])

csi_alt_screen_mode_iff_example :
    (csi_alt_screen_mode (esc ∷ b'[' ∷ b'?' ∷ b'4' ∷ b'7' ∷ b'h' ∷ []) ≡ some true)
    ↔ Switches (b'?' ∷ b'4' ∷ b'7' ∷ []) b'h' true
csi_alt_screen_mode_iff_example =
    csi_alt_screen_mode_iff (esc ∷ b'[' ∷ []) (b'?' ∷ b'4' ∷ b'7' ∷ []) b'h' true (inl refl)
