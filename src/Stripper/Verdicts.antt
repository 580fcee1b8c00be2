-- ===== src/Stripper/Verdicts.antt =====
-- The verdicts on whole sequences in the terms of the grammar, and what the 8-bit introducers do
-- to text in UTF-8, where the bytes 0x9b and 0x9d also end ordinary characters.
use hootty.Base.{
  ℕ, ◌≤◌, true, false, [], ◌∷◌, ◌++◌, ◌≡◌, refl, ◌∙◌, inl, inr, arith, length, Bytes, All,
  All-append, append-nil, Bool-cases,
}
use hootty.Stripper.Grammar.{
  IsDigit, CsiAsks, attributes, status, private_status, version, size, mode, keyboard,
}
use hootty.Stripper.OscGrammar.{OscIntroducer, OscTerminator, OscAsks, is_osc_query_iff}
use hootty.Stripper.Query.{is_final, is_csi_query}
use hootty.Stripper.Strips.{CsiIntroducer, is_csi_query_iff}
use hootty.Stripper.Sequences.{
  IsPlain, IsOscBody, at, filter_plain, filter_csi, filter_osc, filter_onto_osc_body,
  filter_onto-OscIntroducer,
}
use hootty.Stripper.{in_osc, filter, filter_onto, initial}

abbrev NotFinal : ℕ → Type 0
NotFinal b = is_final b ≡ false

digits-NotFinal : (ds : Bytes) → All IsDigit ds → All NotFinal ds
digits-NotFinal [] h = tt
digits-NotFinal (d ∷ ds) h = (ground arith, digits-NotFinal ds h.1)

CsiAsks-NotFinal : (params : Bytes) (f : ℕ) → CsiAsks params f → All NotFinal params
CsiAsks-NotFinal params f (attributes e p) = ground arith
CsiAsks-NotFinal params f (status e p) = ground arith
CsiAsks-NotFinal params f (private_status d ds e p h) = rw p (refl, digits-NotFinal (d ∷ ds) h)
CsiAsks-NotFinal params f (version e p) = rw p (refl, tt)
CsiAsks-NotFinal params f (size e p) = ground arith
CsiAsks-NotFinal params f (mode d ds e p h) =
    rw p (refl, All-append NotFinal (d ∷ ds) (b'$' ∷ []) (digits-NotFinal (d ∷ ds) h) (refl, tt))
CsiAsks-NotFinal params f (keyboard e p) = rw p (refl, tt)

CsiAsks-is_final : (params : Bytes) (f : ℕ) → CsiAsks params f → is_final f ≡ true
CsiAsks-is_final params f (attributes e p) = rw e
CsiAsks-is_final params f (status e p) = rw e
CsiAsks-is_final params f (private_status d ds e p h) = rw e
CsiAsks-is_final params f (version e p) = rw e
CsiAsks-is_final params f (size e p) = rw e
CsiAsks-is_final params f (mode d ds e p h) = rw e
CsiAsks-is_final params f (keyboard e p) = rw e

introducer_short : (i : Bytes) → CsiIntroducer i → length i ≤ 2
introducer_short i (inl e) = rw e (omega arith)
introducer_short i (inr e) = rw e (omega arith)

-- A CSI query with at most 254 bytes of parameters leaves no trace: the rest of the stream is
-- filtered as if the query had not been there.
pub filter-CsiAsks :
    (i params : Bytes) (f : ℕ) (rest : Bytes)
    → CsiIntroducer i
    → CsiAsks params f
    → length params ≤ 254
    → filter initial (i ++ (params ++ f ∷ rest)) ≡ filter initial rest
filter-CsiAsks i params f rest hi a fits =
    filter_csi i params f rest hi (CsiAsks-NotFinal params f a) (CsiAsks-is_final params f a)
      (omega (arith, introducer_short i hi))
    ∙ rw ((is_csi_query_iff i params f hi).1 a)

-- Any other CSI sequence with at most 254 bytes of parameters (a colour or cursor change, a mode
-- set, but also CSI > 0 c) is forwarded whole, and what follows is filtered from the initial
-- state.
pub filter_csi_tells :
    (i params : Bytes) (f : ℕ) (rest : Bytes)
    → CsiIntroducer i
    → All NotFinal params
    → is_final f ≡ true
    → ¬ CsiAsks params f
    → length params ≤ 254
    → filter initial (i ++ (params ++ f ∷ rest))
      ≡ ((filter initial rest).0, (i ++ (params ++ f ∷ [])) ++ (filter initial rest).1)
filter_csi_tells i params f rest hi hp hf na fits =
    filter_csi i params f rest hi hp hf (omega (arith, introducer_short i hi))
    ∙ elim (Bool-cases (is_csi_query (i ++ (params ++ f ∷ [])))) [
      | inl e ↦ absurd (na ((is_csi_query_iff i params f hi).0 e))
      | inr e ↦ rw e
    ]

OscIntroducer-short : (i : Bytes) → OscIntroducer i → length i ≤ 2
OscIntroducer-short i (inl e) = rw e (omega arith)
OscIntroducer-short i (inr e) = rw e (omega arith)

-- An OSC colour query with a body of at most 1022 bytes, none of them a BEL, an ESC or 0x9c, leaves
-- no trace, whatever its terminator.
pub filter-OscAsks :
    (i body t rest : Bytes)
    → OscIntroducer i
    → All IsOscBody body
    → OscTerminator t
    → OscAsks body
    → length body ≤ 1022
    → filter initial (i ++ (body ++ (t ++ rest))) ≡ filter initial rest
filter-OscAsks i body t rest hi hb ht a fits =
    filter_osc i body t rest hi hb ht (omega (arith, OscIntroducer-short i hi))
    ∙ rw ((is_osc_query_iff i body t hi ht).1 a)

-- Text is damaged: where a character ends in the byte 0x9b, that byte and the text behind it are
-- dropped if that text reads like the parameters and the final byte of a query. In UTF-8
-- such characters are ordinary letters (U+015B is 0xc5 0x9b).
pub filter_c1_csi_in_text :
    (lead : ℕ) (params : Bytes) (f : ℕ) (rest : Bytes)
    → IsPlain lead
    → CsiAsks params f
    → length params ≤ 254
    → filter initial (lead ∷ 0x9b ∷ (params ++ f ∷ rest))
      ≡ ((filter initial rest).0, lead ∷ (filter initial rest).1)
filter_c1_csi_in_text lead params f rest h a fits =
    filter_plain (lead ∷ []) (0x9b ∷ (params ++ f ∷ rest)) (h, tt)
    ∙ rw (filter-CsiAsks (0x9b ∷ []) params f rest (inr refl) a fits)

filter_osc_open :
    (text : Bytes)
    → All IsOscBody text
    → length text ≤ 1023
    → filter initial (0x9d ∷ text) ≡ (at in_osc (0x9d ∷ text), [])
unfolding filter filter_onto
filter_osc_open text k fits =
    filter_onto-OscIntroducer (0x9d ∷ []) text [] (inr refl)
    ∙ rw append-nil at (filter_onto_osc_body text (0x9d ∷ []) [] [] k (omega arith))

-- Text is held back: behind a character that ends in the byte 0x9d (U+011D is 0xc4 0x9d) up to
-- 1023 bytes with no BEL, ESC or 0x9c are not forwarded at all.
filter_c1_osc_in_text :
    (lead : ℕ) (text : Bytes)
    → IsPlain lead
    → All IsOscBody text
    → length text ≤ 1023
    → filter initial (lead ∷ 0x9d ∷ text) ≡ (at in_osc (0x9d ∷ text), lead ∷ [])
filter_c1_osc_in_text lead text h k fits =
    filter_plain (lead ∷ []) (0x9d ∷ text) (h, tt) ∙ rw (filter_osc_open text k fits)
