-- ===== src/Stripper/Tests.antt =====
-- The stripper's theorems at concrete streams.
use hootty.Base.{[], ◌∷◌, ◌++◌, ◌≡◌, ◌≤◌, refl, inl, arith, length, Bytes}
use hootty.Stripper.Query.{esc}
use hootty.Stripper.Grammar.{
  CsiAsks, attributes, status, private_status, version, size, mode, keyboard,
}
use hootty.Stripper.OscGrammar.{OscAsks}
use hootty.Stripper.Strips.{Decides, held}
use hootty.Stripper.Conserve.{filter-Decides, length-held}
use hootty.Stripper.Chunks.{filter-append}
use hootty.Stripper.Verdicts.{
  filter-CsiAsks, filter_csi_tells, filter-OscAsks, filter_c1_csi_in_text,
}
use hootty.Stripper.{filter, initial}

abbrev stream : Bytes
stream = b'a' ∷ esc ∷ b'[' ∷ b'c' ∷ b'b' ∷ esc ∷ b'[' ∷ b'1' ∷ []

filter-Decides_example : Decides (held initial ++ stream) (filter initial stream)
filter-Decides_example = filter-Decides stream initial refl

length-held_example : length (held (filter initial stream).0) ≤ 1025
length-held_example = length-held stream

filter-append_example : filter initial (stream ++ b'8' ∷ b't' ∷ b'c' ∷ []) ≡ (
  (filter (filter initial stream).0 (b'8' ∷ b't' ∷ b'c' ∷ [])).0,
  (filter initial stream).1 ++ (filter (filter initial stream).0 (b'8' ∷ b't' ∷ b'c' ∷ [])).1,
)
filter-append_example = filter-append initial stream (b'8' ∷ b't' ∷ b'c' ∷ [])

filter-CsiAsks_example :
    filter initial (esc ∷ b'[' ∷ b'1' ∷ b'8' ∷ b't' ∷ b'x' ∷ []) ≡ filter initial (b'x' ∷ [])
filter-CsiAsks_example =
    filter-CsiAsks (esc ∷ b'[' ∷ []) (b'1' ∷ b'8' ∷ []) b't' (b'x' ∷ []) (inl refl)
      (size refl (ground arith)) (omega arith)

-- `CSI 1 m` is no query.
not_asked : ¬ CsiAsks (b'1' ∷ []) b'm'
not_asked (attributes e p) = ground arith
not_asked (status e p) = ground arith
not_asked (private_status d ds e p h) = ground arith
not_asked (version e p) = ground arith
not_asked (size e p) = ground arith
not_asked (mode d ds e p h) = ground arith
not_asked (keyboard e p) = ground arith

filter_csi_tells_example : filter initial (esc ∷ b'[' ∷ b'1' ∷ b'm' ∷ b'x' ∷ []) ≡ (
  (filter initial (b'x' ∷ [])).0,
  (esc ∷ b'[' ∷ b'1' ∷ b'm' ∷ []) ++ (filter initial (b'x' ∷ [])).1,
)
filter_csi_tells_example =
    filter_csi_tells (esc ∷ b'[' ∷ []) (b'1' ∷ []) b'm' (b'x' ∷ []) (inl refl) (refl, tt) refl
      not_asked (omega arith)

-- `10;?` asks for the foreground colour, and `0;t` sets a title.
abbrev colour_query : Bytes
colour_query = b'1' ∷ b'0' ∷ b';' ∷ b'?' ∷ []

abbrev title : Bytes
title = b'0' ∷ b';' ∷ b't' ∷ []

colour_asked : OscAsks colour_query
colour_asked = record {
  ps = b'1' ∷ b'0' ∷ [];
  payload = b'?' ∷ [];
  splits = refl;
  colour = ground arith;
  asks = inl refl;
}

filter-OscAsks_example :
    filter initial (esc ∷ b']' ∷ (colour_query ++ 0x07 ∷ b'x' ∷ [])) ≡ filter initial (b'x' ∷ [])
filter-OscAsks_example =
    filter-OscAsks (esc ∷ b']' ∷ []) colour_query (0x07 ∷ []) (b'x' ∷ []) (inl refl) (ground arith)
      (inl refl) colour_asked (omega arith)

-- U+015B in UTF-8, and the word behind it.
filter_c1_csi_in_text_example :
    filter initial (0xc5 ∷ 0x9b ∷ b'c' ∷ b'i' ∷ [])
    ≡ ((filter initial (b'i' ∷ [])).0, 0xc5 ∷ (filter initial (b'i' ∷ [])).1)
filter_c1_csi_in_text_example =
    filter_c1_csi_in_text 0xc5 [] b'c' (b'i' ∷ []) (ground arith) (attributes refl (inl refl))
      (omega arith)

-- U+011D in UTF-8, and the word behind it.
