-- ===== src/Stripper/OscGrammar.antt =====
-- OSC colour queries: the payload walk against splitting at `;`, and the whole sequence.
use hootty.Base.{
  Bool, true, false, ◌||◌, Option, none, some, List, [], ◌∷◌, ◌++◌, ◌≡◌, refl, sym, ap, ◌∙◌, ◌⊎◌,
  inl, inr, ◌↔◌, arith, ◌==◌, if◌then◌else◌, Bytes, split_last-append, same, same_iff, one_of,
  append_assoc, append-nil,
}
use hootty.Stripper.Grammar.{OneOf, one_of_iff}
use hootty.Stripper.Query.{
  esc, cut_semi, has_question, osc_payload_is_query, strip_osc_introducer, strip_osc_terminator,
  is_osc_query,
}

-- The list split at `;`, as strings.Split has it: the first segment and the others.
abbrev pub segments : Bytes → Bytes × List Bytes
segments [] = ([], [])
segments (c ∷ cs) = let (s, ss) = segments cs in if c == b';' then ([], s ∷ ss) else (c ∷ s, ss)

abbrev question : Bytes
question = b'?' ∷ []

-- Some segment is exactly `?`.
abbrev SomeQuestion : List Bytes → Type 0
SomeQuestion [] = ⊥
SomeQuestion (s ∷ ss) = (s ≡ question) ⊎ SomeQuestion ss

abbrev some_question : List Bytes → Bool
some_question [] = false
some_question (s ∷ ss) = same s question || some_question ss

abbrev pub HasQuestion : Bytes → Type 0
HasQuestion payload = SomeQuestion ((segments payload).0 ∷ (segments payload).1)

some_question_iff : (ss : List Bytes) → (some_question ss ≡ true) ↔ SomeQuestion ss
some_question_iff [] = (λ h. cc, λ h. absurd h)
some_question_iff (s ∷ ss) = ground (arith, same_iff s question, some_question_iff ss)

has_question-segments :
    (cs seg : Bytes)
    → has_question seg cs
      ≡ (same (seg ++ (segments cs).0) question || some_question (segments cs).1)
unfolding has_question
has_question-segments [] seg = ground (arith, append-nil seg)
has_question-segments (c ∷ cs) seg = ground (
  arith,
  append-nil seg,
  has_question-segments cs [],
  has_question-segments cs (seg ++ c ∷ []),
  append_assoc seg (c ∷ []) (segments cs).0,
)

-- The walk of oscPayloadIsQuery finds a question mark exactly when some segment is one.
pub osc_payload_iff :
    (payload : Bytes) → (osc_payload_is_query payload ≡ true) ↔ HasQuestion payload
unfolding osc_payload_is_query
osc_payload_iff [] = ground (arith, same_iff [] question)
osc_payload_iff (c ∷ cs) =
    rw (has_question-segments (c ∷ cs) [])
      (some_question_iff ((segments (c ∷ cs)).0 ∷ (segments (c ∷ cs)).1))

abbrev pub colour_numbers : List Bytes
colour_numbers = (b'1' ∷ b'0' ∷ []) ∷ (b'1' ∷ b'1' ∷ []) ∷ (b'1' ∷ b'2' ∷ []) ∷ (b'4' ∷ []) ∷ []

-- The body of an OSC colour query.
pub record OscAsks (body : Bytes) : Type 0 where
  pub ps : Bytes
  pub payload : Bytes
  pub splits : body ≡ ps ++ b';' ∷ payload
  pub colour : OneOf ps colour_numbers
  pub asks : HasQuestion payload

abbrev pub OscIntroducer : Bytes → Type 0
OscIntroducer i = (i ≡ esc ∷ b']' ∷ []) ⊎ (i ≡ 0x9d ∷ [])

abbrev pub OscTerminator : Bytes → Type 0
OscTerminator t = (t ≡ 0x07 ∷ []) ⊎ (t ≡ 0x9c ∷ []) ⊎ (t ≡ esc ∷ b'\\' ∷ [])

strip_osc_introducer_lem :
    (i rest : Bytes) → OscIntroducer i → strip_osc_introducer (i ++ rest) ≡ rest
unfolding strip_osc_introducer
strip_osc_introducer_lem i rest (inl e) = rw e
strip_osc_introducer_lem i [] (inr e) = rw e
strip_osc_introducer_lem i (c ∷ cs) (inr e) = rw e

strip_osc_terminator_lem :
    (body t : Bytes) → OscTerminator t → strip_osc_terminator (body ++ t) ≡ body
unfolding strip_osc_terminator
strip_osc_terminator_lem body t (inl e) = ground (arith, split_last-append body 0x07)
strip_osc_terminator_lem body t (inr (inl e)) = ground (arith, split_last-append body 0x9c)
strip_osc_terminator_lem body t (inr (inr e)) = ground (
  arith,
  append_assoc body (esc ∷ []) (b'\\' ∷ []),
  split_last-append (body ++ esc ∷ []) b'\\',
  split_last-append body esc,
)

-- What `cut_semi` returns.
abbrev CutsTo : Bytes → Option (Bytes × Bytes) → Type 0
CutsTo body none = Unit
CutsTo body (some (ps, payload)) = body ≡ ps ++ b';' ∷ payload

cut_semi-CutsTo : (body : Bytes) → CutsTo body (cut_semi body)
unfolding cut_semi
cut_semi-CutsTo [] = tt
cut_semi-CutsTo (c ∷ cs) = go (c == b';') refl (cut_semi cs) (cut_semi-CutsTo cs)
  where
    go :
        (semi : Bool)
        → (c == b';') ≡ semi
        → (o : Option (Bytes × Bytes)) → CutsTo cs o
        → CutsTo (c ∷ cs) (
            if semi
            then some ([], cs)
            else elim o [ none ↦ none | some (ps, payload) ↦ some (c ∷ ps, payload) ])
    go true e o h = ground arith
    go false e none h = tt
    go false e (some (ps, payload)) h = ap (◌∷◌ c) h

cut_semi_colour :
    (ps payload : Bytes)
    → OneOf ps colour_numbers
    → cut_semi (ps ++ b';' ∷ payload) ≡ some (ps, payload)
unfolding cut_semi
cut_semi_colour ps payload h = ground arith

abbrev osc_body_query : Option (Bytes × Bytes) → Bool
osc_body_query none = false
osc_body_query (some (ps, payload)) =
    if one_of ps ((b'1' ∷ b'0' ∷ []) ∷ (b'1' ∷ b'1' ∷ []) ∷ (b'1' ∷ b'2' ∷ []) ∷ [])
    then osc_payload_is_query payload
    else if one_of ps ((b'4' ∷ []) ∷ [])
    then osc_payload_is_query payload
    else false

osc_body_query-OscAsks :
    (body : Bytes) (o : Option (Bytes × Bytes))
    → CutsTo body o
    → osc_body_query o ≡ true
    → OscAsks body
osc_body_query-OscAsks body none k h = cc
osc_body_query-OscAsks body (some (ps, payload)) k h = record {
  ps = ps;
  payload = payload;
  splits = k;
  colour = (one_of_iff ps colour_numbers).0 (ground arith);
  asks = (osc_payload_iff payload).0 (ground arith);
}

is_osc_query-body :
    (i body t : Bytes)
    → OscIntroducer i
    → OscTerminator t
    → is_osc_query (i ++ (body ++ t)) ≡ osc_body_query (cut_semi body)
unfolding is_osc_query
is_osc_query-body i body t hi ht =
    ground (arith, strip_osc_introducer_lem i (body ++ t) hi, strip_osc_terminator_lem body t ht)

-- A complete OSC sequence is dropped exactly when its body is a colour query.
pub is_osc_query_iff :
    (i body t : Bytes)
    → OscIntroducer i
    → OscTerminator t
    → (is_osc_query (i ++ (body ++ t)) ≡ true) ↔ OscAsks body
is_osc_query_iff i body t hi ht = (
  λ h.
      osc_body_query-OscAsks body (cut_semi body) (cut_semi-CutsTo body)
        (sym (is_osc_query-body i body t hi ht) ∙ h),
  λ a.
      is_osc_query-body i body t hi ht
      ∙ rw (a.splits, cut_semi_colour a.ps a.payload a.colour)
          (ground (
            arith,
            (one_of_iff a.ps colour_numbers).1 a.colour,
            (osc_payload_iff a.payload).1 a.asks,
          )),
)
