-- ===== src/Stripper/Strips.antt =====
-- What the stripper may do to a stream: every byte is forwarded in order, but for whole query
-- sequences. The invariant of the state machine, and one step of it.
use hootty.Base.{
  ℕ, ◌≤◌, Bool, true, false, [], ◌∷◌, ◌++◌, ◌≡◌, refl, sym, ◌∙◌, ◌⊎◌, inl, inr, ◌↔◌, arith, length,
  Bytes, split_last-append, append_assoc, append-nil,
}
use hootty.Stripper.Grammar.{CsiAsks, csi_final_query-CsiAsks, CsiAsks-csi_final_query}
use hootty.Stripper.OscGrammar.{OscAsks, OscIntroducer, OscTerminator}
use hootty.Stripper.Query.{esc, strip_csi_introducer, csi_final_query, is_csi_query}
use hootty.Stripper.{
  StripState, normal, in_esc, in_csi, in_osc, osc_esc_seen, VtQueryStripper, Fed, settle, initial,
}

abbrev pub CsiIntroducer : Bytes → Type 0
CsiIntroducer i = (i ≡ esc ∷ b'[' ∷ []) ⊎ (i ≡ 0x9b ∷ [])

pub strip_csi_introducer_lem :
    (i rest : Bytes) → CsiIntroducer i → strip_csi_introducer (i ++ rest) ≡ rest
unfolding strip_csi_introducer
strip_csi_introducer_lem i rest (inl e) = rw e
strip_csi_introducer_lem i [] (inr e) = rw e
strip_csi_introducer_lem i (c ∷ cs) (inr e) = rw e

is_csi_query-final :
    (i params : Bytes) (f : ℕ)
    → CsiIntroducer i
    → is_csi_query (i ++ (params ++ f ∷ [])) ≡ csi_final_query params f
unfolding is_csi_query
is_csi_query-final i params f hi =
    ground (arith, strip_csi_introducer_lem i (params ++ f ∷ []) hi, split_last-append params f)

-- A complete CSI sequence is dropped exactly when it asks.
pub is_csi_query_iff :
    (i params : Bytes) (f : ℕ)
    → CsiIntroducer i
    → (is_csi_query (i ++ (params ++ f ∷ [])) ≡ true) ↔ CsiAsks params f
is_csi_query_iff i params f hi = (
  λ h. csi_final_query-CsiAsks params f (sym (is_csi_query-final i params f hi) ∙ h),
  λ a. is_csi_query-final i params f hi ∙ CsiAsks-csi_final_query params f a,
)

-- A query sequence, whole.
pub data Query (q : Bytes) : Type 0 where
  enquiry : q ≡ 0x05 ∷ [] → Query q
  csi :
      (i params : Bytes) (f : ℕ)
      → CsiIntroducer i
      → CsiAsks params f
      → q ≡ i ++ (params ++ f ∷ [])
      → Query q
  osc :
      (i body t : Bytes)
      → OscIntroducer i
      → OscAsks body
      → OscTerminator t
      → q ≡ i ++ (body ++ t)
      → Query q

-- `out` is `input` less some whole query sequences.
pub data Strips : Bytes → Bytes → Type 0 where
  done : Strips [] []
  keep : {input out : Bytes} (b : ℕ) → Strips input out → Strips (b ∷ input) (b ∷ out)
  omit :
      {input out whole : Bytes} (q : Bytes)
      → Query q
      → whole ≡ q ++ input
      → Strips input out
      → Strips whole out

pub Strips-refl : (bs : Bytes) → Strips bs bs
Strips-refl [] = done
Strips-refl (b ∷ bs) = keep b (Strips-refl bs)

pub Strips-append :
    {xs ys : Bytes} (xs' ys' : Bytes)
    → Strips xs ys
    → Strips xs' ys'
    → Strips (xs ++ xs') (ys ++ ys')
Strips-append xs' ys' done t = t
Strips-append xs' ys' (keep b s) t = keep b (Strips-append xs' ys' s t)
Strips-append xs' ys' (omit {input} q h e s) t =
    omit q h (rw (e, append_assoc q input xs')) (Strips-append xs' ys' s t)

pub Strips-Query : (q : Bytes) → Query q → Strips q []
Strips-Query q h = omit q h (sym (append-nil q)) done

-- The bytes read and neither forwarded nor dropped yet.
abbrev pub held : VtQueryStripper → Bytes
held s = elim s.state [ osc_esc_seen ↦ s.pending ++ esc ∷ [] | _ ↦ s.pending ]

-- A sequence begun: its introducer and what has come of its body.
pub record Begun (Introducer : Bytes → Type 0) (pending : Bytes) : Type 0 where
  pub i : Bytes
  pub body : Bytes
  pub introduced : Introducer i
  pub splits : pending ≡ i ++ body

-- What each state knows of `pending`: the sequence that it began, and a bound on its length.
abbrev pub PendingInv : StripState → Bytes → Type 0
PendingInv normal pending = pending ≡ []
PendingInv in_esc pending = pending ≡ esc ∷ []
PendingInv in_csi pending = Begun CsiIntroducer pending × (length pending ≤ 256)
PendingInv in_osc pending = Begun OscIntroducer pending × (length pending ≤ 1024)
PendingInv osc_esc_seen pending = Begun OscIntroducer pending × (length pending ≤ 1024)

abbrev pub Inv : VtQueryStripper → Type 0
Inv s = PendingInv s.state s.pending

-- One byte `b` on top of `held` bytes: some prefix of them all is decided, and the rest is held.
pub record Decides (before : Bytes) (r : Fed) : Type 0 where
  pub decided : Bytes
  pub splits : before ≡ decided ++ held r.0
  pub strips : Strips decided r.1
  pub inv : Inv r.0

-- The three ways to decide: hold it all, forward it all, drop it all.
pub Decides-hold :
    (before : Bytes) (s : VtQueryStripper) → before ≡ held s → Inv s → Decides before (s, [])
Decides-hold before s e v = record { decided = []; splits = e; strips = done; inv = v }

pub Decides-flush : (before : Bytes) → Decides before (initial, before)
Decides-flush before = record {
  decided = before;
  splits = sym (append-nil before);
  strips = Strips-refl before;
  inv = refl;
}

pub Decides-drop : (before : Bytes) → Query before → Decides before (initial, [])
Decides-drop before q = record {
  decided = before;
  splits = sym (append-nil before);
  strips = Strips-Query before q;
  inv = refl;
}

pub Decides-settle :
    (drop : Bool) (before : Bytes)
    → (drop ≡ true → Query before)
    → Decides before (settle drop before [])
Decides-settle true before q = Decides-drop before (q refl)
Decides-settle false before q = Decides-flush before
