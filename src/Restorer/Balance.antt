-- ===== src/Restorer/Balance.antt =====
-- The pushes of the kitty keyboard stack that are still open, against what Cleanup pops.
use mathlib.Core.Path.{subst}
use hootty.Base.{
  ==_iff, ℕ, ◌+◌, ◌-◌, ◌≤◌, ◌<◌, List, [], ◌∷◌, ◌++◌, ◌≡◌, refl, sym, ap, ◌∙◌, arith, ◌==◌, length,
  Bytes, All, Bool-cases, inl, inr, append-nil, append_assoc,
}
use hootty.Restorer.{
  HootRestorer, parse_csi_param_default, remove_kitty_kbd_pop, observe_private, observe_byte,
  observe_csi, observe, decimal, kitty_pop,
}
use hootty.Restorer.Decimal.{decimal-digits, decimal-short}
use hootty.Restorer.Observe.{Between, observe-text, observe-csi}
use hootty.Restorer.Pieces.{
  Piece, text, push, pop, pop_one, other, piece_bytes, stream, IsPiece, depth, after,
  parse_csi_param_default-decimal, digits-params, observe-pop, observe-push, observe-pop_one,
  observe_private-other,
}

-- A pop of `n` frames, 2 ^ 31 <= n < 2 ^ 32, is taken for a negative int32: the count does not fall
-- but grows by 2 ^ 32 - n, where that fits.
pub observe-pop_wraps :
    (n : ℕ) (r : HootRestorer)
    → Between r
    → 2147483648 ≤ n
    → n < 4294967296
    → r.kitty_pops + (4294967296 - n) < 2147483648
    → (observe r (piece_bytes (pop n))).kitty_pops ≡ r.kitty_pops + (4294967296 - n)
unfolding observe observe_private remove_kitty_kbd_pop
observe-pop_wraps n r e lo hi small =
    let short : length (decimal (n + 1) n) ≤ 11 = decimal-short (n + 1) n 10 (omega arith) in
    ap (λ r. r.kitty_pops)
      (observe-csi r b'<' (decimal (n + 1) n) [] b'u' e refl
        (digits-params (decimal (n + 1) n) (decimal-digits (n + 1) n)) refl (omega (arith, short)))
    ∙ ground (arith, parse_csi_param_default-decimal n (omega arith) hi)

abbrev Counts : HootRestorer → ℕ → Type 0
Counts r n = (r.kitty_pops ≡ n) × (r.csi_buf ≡ [])

observe-stream :
    (ps : List Piece) (r : HootRestorer)
    → All IsPiece ps
    → Between r
    → r.kitty_pops + length ps < 2147483648
    → Counts (observe r (stream ps)) (depth r.kitty_pops ps)
unfolding observe
observe-stream [] r h e small = (refl, e)
observe-stream (text bs ∷ ps) r h e small =
    rw (observe-text bs (stream ps) r h.0 e) (observe-stream ps r h.1 e (omega arith))
observe-stream (push flags ∷ ps) r h e small =
    rw (observe-push flags r (stream ps) e h.0.0 h.0.1 (omega arith))
      (observe-stream ps (after r (r.kitty_pops + 1)) h.1 refl (omega arith))
observe-stream (pop n ∷ ps) r h e small =
    rw (observe-pop n r (stream ps) e h.0.0 h.0.1 (omega arith))
      (observe-stream ps (after r (r.kitty_pops - n)) h.1 refl (omega arith))
observe-stream (pop_one ∷ ps) r h e small =
    rw (observe-pop_one r (stream ps) e (omega arith))
      (observe-stream ps (after r (r.kitty_pops - 1)) h.1 refl (omega arith))
observe-stream (other p params f ∷ ps) r h e small =
    let (hp, hps, hf, short, plain) = h.0 in
    let next = observe_private (record r { csi_buf = [] }) p params f in
    let kept = observe_private-other (record r { csi_buf = [] }) p params f plain in
    let rest = observe-stream ps next h.1 kept.1 (omega (arith, kept.0)) in
    rw (append_assoc params (f ∷ []) (stream ps)) (
      subst (λ s. Counts s (depth r.kitty_pops ps))
        (sym (observe-csi r p params (stream ps) f e hp hps hf short))
        (subst (λ n. Counts (observe next (stream ps)) (depth n ps)) kept.0 rest))

same_count : (r : HootRestorer) (n : ℕ) → Counts r n → r ≡ after r n
same_count r n h =
    ap (λ m. record r { kitty_pops = m }) h.0
    ∙ ap (λ buf. record r { kitty_pops = n; csi_buf = buf }) h.1

depth_le : (ps : List Piece) (d : ℕ) → depth d ps ≤ d + length ps
depth_le [] d = omega arith
depth_le (text bs ∷ ps) d = omega (arith, depth_le ps d)
depth_le (push flags ∷ ps) d = omega (arith, depth_le ps (d + 1))
depth_le (pop n ∷ ps) d = omega (arith, depth_le ps (d - n))
depth_le (pop_one ∷ ps) d = omega (arith, depth_le ps (d - 1))
depth_le (other p params f ∷ ps) d = omega (arith, depth_le ps d)

kitty_pop-many : (n : ℕ) → 1 < n → n < 2147483648 → kitty_pop n ≡ piece_bytes (pop n)
unfolding kitty_pop
kitty_pop-many n h k = ground arith

ClosesAll : HootRestorer → ℕ → Type 0
ClosesAll r n = (observe (after r n) (kitty_pop n)).kitty_pops ≡ 0

kitty_pop-few : (r : HootRestorer) → ClosesAll r 0 × ClosesAll r 1
unfolding ClosesAll observe kitty_pop observe_byte observe_csi observe_private remove_kitty_kbd_pop
    parse_csi_param_default
kitty_pop-few r = (refl, refl)

observe-kitty_pop :
    (r : HootRestorer) (n : ℕ) → n < 2147483648 → (observe (after r n) (kitty_pop n)).kitty_pops ≡ 0
unfolding observe ClosesAll
observe-kitty_pop r n small = elim (Bool-cases (n == 0)) [
  | inl e ↦ subst (ClosesAll r) (sym ((==_iff n 0).0 e)) (kitty_pop-few r).0
  | inr e ↦ elim (Bool-cases (n == 1)) [
    | inl one ↦ subst (ClosesAll r) (sym ((==_iff n 1).0 one)) (kitty_pop-few r).1
    | inr many ↦
        let two : 1 < n = ground arith in
        ap (λ bs. (observe (after r n) bs).kitty_pops)
          (kitty_pop-many n two small ∙ sym (append-nil (piece_bytes (pop n))))
        ∙ ap (λ r. r.kitty_pops) (observe-pop n (after r n) [] refl (omega arith) small small)
        ∙ omega arith
  ]
]

observe-append :
    (xs ys : Bytes) (r : HootRestorer) → observe r (xs ++ ys) ≡ observe (observe r xs) ys
unfolding observe observe_byte
observe-append [] ys r = refl
observe-append (x ∷ xs) ys r = observe-append xs ys (observe_byte r x)

-- Fewer than 2 ^ 31 pieces, observed from a state between sequences: text without an ESC, pushes
-- with any flags of at most 28 digits, pops with a positive int32 or with no number, and any other
-- CSI sequences of at most 32 bytes that are introduced by ESC [ and have a byte before the final
-- one. The count that is kept is the number of stack frames that are open, and what Cleanup
-- writes for that count, observed behind them, leaves no frame open.
pub observe-balanced :
    (ps : List Piece) (r : HootRestorer)
    → All IsPiece ps
    → Between r
    → r.kitty_pops + length ps < 2147483648
    → ((observe r (stream ps)).kitty_pops ≡ depth r.kitty_pops ps)
      × ((observe r (stream ps ++ kitty_pop (depth r.kitty_pops ps))).kitty_pops ≡ 0)
observe-balanced ps r h e small =
    let seen = observe-stream ps r h e small in
    let open_frames = depth r.kitty_pops ps in
    (
      seen.0,
      ap (λ r. r.kitty_pops) (observe-append (stream ps) (kitty_pop open_frames) r)
          ∙ ap (λ r. (observe r (kitty_pop open_frames)).kitty_pops)
              (same_count (observe r (stream ps)) open_frames seen)
          ∙ observe-kitty_pop (observe r (stream ps)) open_frames
              (omega (arith, depth_le ps r.kitty_pops)),
    )
