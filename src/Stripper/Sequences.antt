-- ===== src/Stripper/Sequences.antt =====
-- Whole sequences through the stripper: what becomes of plain text, of a CSI sequence and of an
-- OSC sequence that arrive while nothing is held.
use hootty.Base.{
  ℕ, ◌+◌, ◌≤◌, Bool, true, false, [], ◌∷◌, ◌++◌, ◌≡◌, ◌≢◌, ◌∙◌, inl, inr, arith, if◌then◌else◌,
  length, Bytes, All, length-append, append_assoc, append-nil,
}
use hootty.Stripper.OscGrammar.{OscIntroducer, OscTerminator}
use hootty.Stripper.Query.{esc, is_final, is_csi_query, is_osc_query}
use hootty.Stripper.Strips.{CsiIntroducer}
use hootty.Stripper.Chunks.{filter_onto-filter}
use hootty.Stripper.{
  StripState, in_csi, in_osc, VtQueryStripper, feed_in, filter_onto, filter, initial,
}

-- No escape, no ENQ, and neither of the two 8-bit introducers.
abbrev pub IsPlain : ℕ → Type 0
IsPlain b = (b ≢ 0x05) × (b ≢ esc) × (b ≢ 0x9b) × (b ≢ 0x9d)

pub filter_onto_plain :
    (bs rest out : Bytes)
    → All IsPlain bs
    → filter_onto initial (bs ++ rest) out ≡ filter_onto initial rest (out ++ bs)
unfolding filter_onto feed_in
filter_onto_plain [] rest out h = rw append-nil
filter_onto_plain (b ∷ bs) rest out h =
    ground (arith, filter_onto_plain bs rest (out ++ b ∷ []) h.1, append_assoc out (b ∷ []) bs)

abbrev pub at : StripState → Bytes → VtQueryStripper
at st pending = record { state = st; pending = pending }

-- Inside a CSI sequence.
filter_onto_params :
    (params pending rest out : Bytes)
    → All (λ b. is_final b ≡ false) params
    → length pending + length params ≤ 256
    → filter_onto (at in_csi pending) (params ++ rest) out
      ≡ filter_onto (at in_csi (pending ++ params)) rest out
unfolding filter_onto feed_in
filter_onto_params [] pending rest out h fits = rw append-nil
filter_onto_params (b ∷ params) pending rest out h fits = ground (
  arith,
  filter_onto_params params (pending ++ b ∷ []) rest out h.1,
  append_assoc pending (b ∷ []) params,
  length-append pending (b ∷ []),
)

abbrev pub IsOscBody : ℕ → Type 0
IsOscBody b = (b ≢ 0x07) × (b ≢ esc) × (b ≢ 0x9c)

-- Inside an OSC sequence.
pub filter_onto_osc_body :
    (body pending rest out : Bytes)
    → All IsOscBody body
    → length pending + length body ≤ 1024
    → filter_onto (at in_osc pending) (body ++ rest) out
      ≡ filter_onto (at in_osc (pending ++ body)) rest out
unfolding filter_onto feed_in
filter_onto_osc_body [] pending rest out h fits = rw append-nil
filter_onto_osc_body (b ∷ body) pending rest out h fits = ground (
  arith,
  filter_onto_osc_body body (pending ++ b ∷ []) rest out h.1,
  append_assoc pending (b ∷ []) body,
  length-append pending (b ∷ []),
)

filter_onto-CsiIntroducer :
    (i rest out : Bytes)
    → CsiIntroducer i
    → filter_onto initial (i ++ rest) out ≡ filter_onto (at in_csi i) rest out
unfolding filter_onto feed_in
filter_onto-CsiIntroducer i rest out (inl e) = rw e
filter_onto-CsiIntroducer i rest out (inr e) = rw e

pub filter_onto-OscIntroducer :
    (i rest out : Bytes)
    → OscIntroducer i
    → filter_onto initial (i ++ rest) out ≡ filter_onto (at in_osc i) rest out
unfolding filter_onto feed_in
filter_onto-OscIntroducer i rest out (inl e) = rw e
filter_onto-OscIntroducer i rest out (inr e) = rw e

-- What is left of a sequence `q` that the recogniser `drop` has judged.
abbrev pub kept : Bool → Bytes → Bytes
kept drop q = if drop then [] else q

filter_onto_final :
    (pending : Bytes) (f : ℕ) (rest out : Bytes)
    → is_final f ≡ true
    → filter_onto (at in_csi pending) (f ∷ rest) out
      ≡ filter_onto initial rest
          (out ++ kept (is_csi_query (pending ++ f ∷ [])) (pending ++ f ∷ []))
unfolding filter_onto feed_in
filter_onto_final pending f rest out h = ground (arith, append-nil out)

filter_onto_terminator :
    (pending t rest out : Bytes)
    → OscTerminator t
    → filter_onto (at in_osc pending) (t ++ rest) out
      ≡ filter_onto initial rest (out ++ kept (is_osc_query (pending ++ t)) (pending ++ t))
unfolding filter_onto feed_in
filter_onto_terminator pending t rest out (inl e) = rw e (ground (arith, append-nil out))
filter_onto_terminator pending t rest out (inr (inl e)) = rw e (ground (arith, append-nil out))
filter_onto_terminator pending t rest out (inr (inr e)) = rw e (ground (arith, append-nil out))

-- Plain text is forwarded as it is, and nothing of it is held.
pub filter_plain :
    (text rest : Bytes)
    → All IsPlain text
    → filter initial (text ++ rest) ≡ ((filter initial rest).0, text ++ (filter initial rest).1)
unfolding filter
filter_plain text rest h = filter_onto_plain text rest [] h ∙ filter_onto-filter initial rest text

-- A CSI sequence of at most 256 bytes before its final byte is dropped if the recogniser takes it
-- for a query, and is forwarded whole if not; what follows is filtered from the initial state.
pub filter_csi :
    (i params : Bytes) (f : ℕ) (rest : Bytes)
    → CsiIntroducer i
    → All (λ b. is_final b ≡ false) params
    → is_final f ≡ true
    → length i + length params ≤ 256
    → filter initial (i ++ (params ++ f ∷ rest)) ≡ (
      (filter initial rest).0,
      kept (is_csi_query (i ++ (params ++ f ∷ []))) (i ++ (params ++ f ∷ []))
          ++ (filter initial rest).1,
    )
unfolding filter
filter_csi i params f rest hi hp hf fits =
    filter_onto-CsiIntroducer i (params ++ f ∷ rest) [] hi
    ∙ filter_onto_params params i (f ∷ rest) [] hp fits
    ∙ filter_onto_final (i ++ params) f rest [] hf
    ∙ filter_onto-filter initial rest _
    ∙ rw (append_assoc i params (f ∷ []))

pub filter_osc :
    (i body t rest : Bytes)
    → OscIntroducer i
    → All IsOscBody body
    → OscTerminator t
    → length i + length body ≤ 1024
    → filter initial (i ++ (body ++ (t ++ rest))) ≡ (
      (filter initial rest).0,
      kept (is_osc_query (i ++ (body ++ t))) (i ++ (body ++ t)) ++ (filter initial rest).1,
    )
unfolding filter
filter_osc i body t rest hi hb ht fits =
    filter_onto-OscIntroducer i (body ++ (t ++ rest)) [] hi
    ∙ filter_onto_osc_body body i (t ++ rest) [] hb fits
    ∙ filter_onto_terminator (i ++ body) t rest [] ht
    ∙ filter_onto-filter initial rest _
    ∙ rw (append_assoc i body t)
