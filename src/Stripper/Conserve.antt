-- ===== src/Stripper/Conserve.antt =====
-- The stripper forwards its input in order, but for whole query sequences.
use hootty.Base.{
  ℕ, ◌≤◌, true, [], ◌∷◌, ◌++◌, ◌≡◌, refl, sym, ap, inl, inr, arith, ltb, ◌==◌, length, Bytes,
  length-append, append_assoc, append-nil, Bool-cases,
}
use hootty.Stripper.OscGrammar.{OscIntroducer, OscTerminator, is_osc_query_iff}
use hootty.Stripper.Query.{esc, is_final, is_csi_query, is_osc_query}
use hootty.Stripper.Strips.{
  CsiIntroducer, is_csi_query_iff, Query, enquiry, csi, osc, keep, Strips-Query, Strips-append,
  Strips-refl, held, Begun, PendingInv, Inv, Decides, Decides-hold, Decides-flush, Decides-drop,
  Decides-settle,
}
use hootty.Stripper.Chunks.{filter-cons}
use hootty.Stripper.{
  StripState, normal, in_esc, in_csi, in_osc, osc_esc_seen, VtQueryStripper, Fed, feed_in,
  feed_normal, feed_esc, feed_csi, feed_osc, feed_osc_esc, feed, filter, initial,
}

Begun-more :
    {I : Bytes → Type 0} {pending : Bytes} (more : Bytes)
    → Begun I pending
    → Begun I (pending ++ more)
Begun-more more g = record {
  i = g.i;
  body = g.body ++ more;
  introduced = g.introduced;
  splits = rw g.splits (append_assoc g.i g.body more);
}

csi-Query :
    (pending : Bytes) (b : ℕ)
    → Begun CsiIntroducer pending
    → is_csi_query (pending ++ b ∷ []) ≡ true
    → Query (pending ++ b ∷ [])
unfolding Begun-more
csi-Query pending b g h =
    let whole = (Begun-more (b ∷ []) g).splits in
    csi g.i g.body b g.introduced ((is_csi_query_iff g.i g.body b g.introduced).0 (rw whole at h))
      whole

osc-Query :
    (pending t : Bytes)
    → OscTerminator t
    → Begun OscIntroducer pending
    → is_osc_query (pending ++ t) ≡ true
    → Query (pending ++ t)
unfolding Begun-more
osc-Query pending t ht g h =
    let whole = (Begun-more t g).splits in
    osc g.i g.body t g.introduced
      ((is_osc_query_iff g.i g.body t g.introduced ht).0 (rw whole at h)) ht whole

Begun-here : {I : Bytes → Type 0} (i : Bytes) → I i → Begun I i
Begun-here i h = record { i = i; body = []; introduced = h; splits = sym (append-nil i) }

feed_normal-Decides : (b : ℕ) → Decides (b ∷ []) (feed_normal [] b [])
unfolding feed_normal
feed_normal-Decides b = elim (Bool-cases (b == 0x05)) [
  | inl e ↦ rw e (Decides-drop (b ∷ []) (enquiry (ground arith)))
  | inr e ↦ rw e (elim (Bool-cases (b == esc)) [
    | inl e ↦ rw e (Decides-hold _ _ refl (ground arith))
    | inr e ↦ rw e (elim (Bool-cases (b == 0x9b)) [
      | inl e ↦ rw e (Decides-hold _ _ refl (Begun-here (b ∷ []) (inr (ground arith)), omega arith))
      | inr e ↦ rw e (elim (Bool-cases (b == 0x9d)) [
        | inl e ↦
            rw e (Decides-hold _ _ refl (Begun-here (b ∷ []) (inr (ground arith)), omega arith))
        | inr e ↦ rw e (Decides-flush (b ∷ []))
      ])
    ])
  ])
]

feed_esc-Decides : (b : ℕ) → Decides (esc ∷ b ∷ []) (feed_esc (esc ∷ []) b [])
unfolding feed_esc
feed_esc-Decides b = elim (Bool-cases (b == b'[')) [
  | inl e ↦
      rw e (Decides-hold _ _ refl (Begun-here (esc ∷ b ∷ []) (inl (ground arith)), omega arith))
  | inr e ↦ rw e (elim (Bool-cases (b == b']')) [
    | inl e ↦
        rw e (Decides-hold _ _ refl (Begun-here (esc ∷ b ∷ []) (inl (ground arith)), omega arith))
    | inr e ↦ rw e (elim (Bool-cases (b == 0x05)) [
      | inl e ↦ rw e (esc_enquiry b (ground arith))
      | inr e ↦ rw e (Decides-flush (esc ∷ b ∷ []))
    ])
  ])
]
  where
    esc_enquiry : (b : ℕ) → b ≡ 0x05 → Decides (esc ∷ b ∷ []) (initial, esc ∷ [])
    esc_enquiry b e = record {
      decided = esc ∷ b ∷ [];
      splits = refl;
      strips = keep esc (Strips-Query (b ∷ []) (enquiry (ap (λ x. x ∷ []) e)));
      inv = refl;
    }

feed_csi-Decides :
    (pending : Bytes) (b : ℕ)
    → PendingInv in_csi pending
    → Decides (pending ++ b ∷ []) (feed_csi pending b [])
unfolding feed_csi
feed_csi-Decides pending b (g, short) = elim (Bool-cases (is_final b)) [
  | inl e ↦ rw e (Decides-settle _ (pending ++ b ∷ []) (csi-Query pending b g))
  | inr e ↦ rw e (elim (Bool-cases (ltb 256 (length (pending ++ b ∷ [])))) [
    | inl long ↦ rw long (Decides-flush (pending ++ b ∷ []))
    | inr fits ↦ rw fits (Decides-hold _ _ refl (Begun-more (b ∷ []) g, ground arith))
  ])
]

feed_osc-Decides :
    (pending : Bytes) (b : ℕ)
    → PendingInv in_osc pending
    → Decides (pending ++ b ∷ []) (feed_osc pending b [])
unfolding feed_osc
feed_osc-Decides pending b (g, short) = elim (Bool-cases (b == 0x07)) [
  | inl e ↦
      rw e
        (Decides-settle _ (pending ++ b ∷ []) (osc-Query pending (b ∷ []) (inl (ground arith)) g))
  | inr e ↦ rw e (elim (Bool-cases (b == esc)) [
    | inl e ↦ rw e (Decides-hold _ _ (ground arith) (g, short))
    | inr e ↦ rw e (elim (Bool-cases (b == 0x9c)) [
      | inl e ↦ rw e (
          Decides-settle _ (pending ++ b ∷ [])
            (osc-Query pending (b ∷ []) (inr (inl (ground arith))) g))
      | inr e ↦ rw e (elim (Bool-cases (ltb 1024 (length (pending ++ b ∷ [])))) [
        | inl long ↦ rw long (Decides-flush (pending ++ b ∷ []))
        | inr fits ↦ rw fits (Decides-hold _ _ refl (Begun-more (b ∷ []) g, ground arith))
      ])
    ])
  ])
]

Decides-behind :
    (pre before : Bytes) (s : VtQueryStripper) (out : Bytes)
    → Decides before (s, out)
    → Decides (pre ++ before) (s, pre ++ out)
Decides-behind pre before s out d = record {
  decided = pre ++ d.decided;
  splits = rw append_assoc (ap (◌++◌ pre) d.splits);
  strips = Strips-append d.decided out (Strips-refl pre) d.strips;
  inv = d.inv;
}

feed_esc-behind :
    (pending : Bytes) (b : ℕ) (pre : Bytes)
    → feed_esc pending b pre ≡ ((feed_esc pending b []).0, pre ++ (feed_esc pending b []).1)
unfolding feed_esc
feed_esc-behind pending b pre = ground (arith, append-nil pre)

feed_osc_esc-Decides :
    (pending : Bytes) (b : ℕ)
    → PendingInv osc_esc_seen pending
    → Decides ((pending ++ esc ∷ []) ++ b ∷ []) (feed_osc_esc pending b [])
unfolding feed_osc_esc
feed_osc_esc-Decides pending b (g, short) = elim (Bool-cases (b == b'\\')) [
  | inl e ↦ rw e (
      let st : b ≡ b'\\' = ground arith in
      rw (append_assoc, st)
        (Decides-settle _ (pending ++ esc ∷ b'\\' ∷ [])
          (osc-Query pending (esc ∷ b'\\' ∷ []) (inr (inr refl)) g)))
  | inr e ↦ rw e (
      rw (append_assoc, feed_esc-behind (esc ∷ []) b pending)
        (Decides-behind pending (esc ∷ b ∷ []) _ _ (feed_esc-Decides b)))
]

feed_in-Decides :
    (st : StripState) (pending : Bytes) (b : ℕ)
    → PendingInv st pending
    → Decides (held (record { state = st; pending = pending }) ++ b ∷ []) (feed_in st pending b [])
unfolding feed_in
feed_in-Decides normal pending b v = rw v (feed_normal-Decides b)
feed_in-Decides in_esc pending b v = rw v (feed_esc-Decides b)
feed_in-Decides in_csi pending b v = feed_csi-Decides pending b v
feed_in-Decides in_osc pending b v = feed_osc-Decides pending b v
feed_in-Decides osc_esc_seen pending b v = feed_osc_esc-Decides pending b v

Decides-then :
    (before more out : Bytes) (s : VtQueryStripper) (r : Fed)
    → Decides before (s, out)
    → Decides (held s ++ more) r
    → Decides (before ++ more) (r.0, out ++ r.1)
Decides-then before more out s r d e = record {
  decided = d.decided ++ e.decided;
  splits =
      rw
        (
          d.splits,
          append_assoc d.decided (held s) more,
          append_assoc d.decided e.decided (held r.0),
        )
        (ap (◌++◌ d.decided) e.splits);
  strips = Strips-append e.decided r.1 d.strips e.strips;
  inv = e.inv;
}

length-held_of_Inv : (s : VtQueryStripper) → Inv s → length (held s) ≤ 1025
length-held_of_Inv s v = go s.state s.pending v
  where
    go :
        (st : StripState) (pending : Bytes)
        → PendingInv st pending
        → length (held (record { state = st; pending = pending })) ≤ 1025
    go normal pending v = rw v (omega arith)
    go in_esc pending v = rw v (omega arith)
    go in_csi pending v = omega (arith, v.1)
    go in_osc pending v = omega (arith, v.1)
    go osc_esc_seen pending v = rw length-append (omega (arith, v.1))

-- From any state that keeps the invariant: what was held and what comes in split into a decided
-- part, whose bytes are forwarded in order but for whole query sequences, and a part still held;
-- and the invariant is kept.
pub filter-Decides :
    (bs : Bytes) (s : VtQueryStripper) → Inv s → Decides (held s ++ bs) (filter s bs)
filter-Decides [] s v = unfold filter in Decides-hold _ s (append-nil (held s)) v
filter-Decides (b ∷ bs) s v =
    let d = feed_in-Decides s.state s.pending b v in
    let (s', out) = feed s b [] in
    rw (filter-cons s b bs, ← append_assoc (held s) (b ∷ []) bs)
      (Decides-then (held s ++ b ∷ []) bs out s' (filter s' bs) d (filter-Decides bs s' d.inv))

-- Whatever comes in, the stripper never holds back more than 1025 bytes.
pub length-held : (input : Bytes) → length (held (filter initial input).0) ≤ 1025
length-held input =
    length-held_of_Inv (filter initial input).0 (filter-Decides input initial refl).inv
