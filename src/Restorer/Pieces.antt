-- ===== src/Restorer/Pieces.antt =====
-- The pieces of an observed stream that matter to the kitty keyboard stack, and what each one does
-- to the count.
use hootty.Base.{
  ℕ, ◌+◌, ◌-◌, ◌%◌, ◌≤◌, ◌<◌, true, false, some, List, [], ◌∷◌, ◌++◌, ◌≡◌, ◌≢◌, refl, ap, ◌∙◌,
  arith, length, Bytes, All, all, inl, inr, ◌⊎◌, append_assoc,
}
use hootty.Stripper.Query.{esc, is_digit, is_final}
use hootty.Restorer.{
  HootRestorer, number_from, positive_int, parse_csi_param_default, remove_kitty_kbd_pop,
  observe_private, observe_modify_other_keys, observe, decimal, u32_mod,
}
use hootty.Restorer.Decimal.{decimal-number, decimal-digits, decimal-short}
use hootty.Restorer.Observe.{Between, observe-csi}

positive_int-digits :
    (ds : Bytes)
    → all is_digit ds ≡ true
    → 0 < number_from 0 ds
    → number_from 0 ds < 9223372036854775808
    → positive_int ds ≡ some (number_from 0 ds)
positive_int-digits [] h lo hi = elim lo [ ]
positive_int-digits (d ∷ ds) h lo hi = ground arith

pub parse_csi_param_default-decimal :
    (n : ℕ) → 0 < n → n < 4294967296 → parse_csi_param_default (decimal (n + 1) n) 1 ≡ n
unfolding parse_csi_param_default
parse_csi_param_default-decimal n lo hi =
    let whole = decimal-number (n + 1) n (omega arith) in
    ground (
      arith,
      whole,
      positive_int-digits (decimal (n + 1) n) (decimal-digits (n + 1) n) (omega (arith, whole))
          (omega (arith, whole)),
    )

pub digits-params : (ds : Bytes) → all is_digit ds ≡ true → All (λ c. is_final c ≡ false) ds
digits-params [] h = tt
digits-params (d ∷ ds) h = (ground arith, digits-params ds (ground arith))

-- An observed stream, as far as the stack is concerned: text, a push with the flags that it writes,
-- a pop of `n`, a pop that names no number, and any other CSI sequence.
pub data Piece : Type 0 where
  text : Bytes → Piece
  push : Bytes → Piece
  pop : ℕ → Piece
  pop_one : Piece
  other : ℕ → Bytes → ℕ → Piece

abbrev pub piece_bytes : Piece → Bytes
piece_bytes (text bs) = bs
piece_bytes (push flags) = esc ∷ b'[' ∷ b'>' ∷ (flags ++ b'u' ∷ [])
piece_bytes (pop n) = esc ∷ b'[' ∷ b'<' ∷ (decimal (n + 1) n ++ b'u' ∷ [])
piece_bytes pop_one = esc ∷ b'[' ∷ b'<' ∷ b'u' ∷ []
piece_bytes (other p params f) = esc ∷ b'[' ∷ p ∷ (params ++ f ∷ [])

abbrev pub stream : List Piece → Bytes
stream [] = []
stream (p ∷ ps) = piece_bytes p ++ stream ps

-- Text has no escape; flags are at most 28 digits; a pop has a positive int32; another sequence has
-- a first byte, at most 28 more before its final byte, and is no push and no pop.
abbrev pub IsPiece : Piece → Type 0
IsPiece (text bs) = All (λ b. b ≢ esc) bs
IsPiece (push flags) = (all is_digit flags ≡ true) × (length flags ≤ 28)
IsPiece (pop n) = (0 < n) × (n < 2147483648)
IsPiece pop_one = Unit
IsPiece (other p params f) =
    (is_final p ≡ false)
    × All (λ c. is_final c ≡ false) params
    × (is_final f ≡ true)
    × (length params ≤ 28)
    × ((f ≢ b'u') ⊎ ((p ≢ b'<') × (p ≢ b'>')))

-- The frames of the stack that are open, from `d` on; a pop of more than there are takes them all.
abbrev pub depth : ℕ → List Piece → ℕ
depth d [] = d
depth d (text bs ∷ ps) = depth d ps
depth d (push flags ∷ ps) = depth (d + 1) ps
depth d (pop n ∷ ps) = depth (d - n) ps
depth d (pop_one ∷ ps) = depth (d - 1) ps
depth d (other p params f ∷ ps) = depth d ps

abbrev pub after : HootRestorer → ℕ → HootRestorer
after r n = record r { kitty_pops = n; csi_buf = [] }

pub observe-pop :
    (n : ℕ) (r : HootRestorer) (rest : Bytes)
    → Between r
    → 0 < n
    → n < 2147483648
    → r.kitty_pops < 2147483648
    → observe r (piece_bytes (pop n) ++ rest)
      ≡ observe (record r { kitty_pops = r.kitty_pops - n; csi_buf = [] }) rest
unfolding observe_private remove_kitty_kbd_pop
observe-pop n r rest e lo hi small =
    let short : length (decimal (n + 1) n) ≤ 11 = decimal-short (n + 1) n 10 (omega arith) in
    rw (append_assoc (decimal (n + 1) n) (b'u' ∷ []) rest) (
      observe-csi r b'<' (decimal (n + 1) n) rest b'u' e refl
        (digits-params (decimal (n + 1) n) (decimal-digits (n + 1) n)) refl (omega (arith, short))
      ∙ ground (arith, parse_csi_param_default-decimal n lo (omega arith)))

pub observe-push :
    (flags : Bytes) (r : HootRestorer) (rest : Bytes)
    → Between r
    → all is_digit flags ≡ true
    → length flags ≤ 28
    → r.kitty_pops + 1 < 2147483648
    → observe r (piece_bytes (push flags) ++ rest)
      ≡ observe (record r { kitty_pops = r.kitty_pops + 1; csi_buf = [] }) rest
unfolding observe_private
observe-push flags r rest e digits short small =
    let counted : (r.kitty_pops + 1) % u32_mod ≡ r.kitty_pops + 1 = omega arith in
    rw (append_assoc flags (b'u' ∷ []) rest) (
      observe-csi r b'>' flags rest b'u' e refl (digits-params flags digits) refl short
      ∙ ap (λ n. observe (record r { kitty_pops = n; csi_buf = [] }) rest) counted)

pub observe-pop_one :
    (r : HootRestorer) (rest : Bytes)
    → Between r
    → r.kitty_pops < 2147483648
    → observe r (piece_bytes pop_one ++ rest)
      ≡ observe (record r { kitty_pops = r.kitty_pops - 1; csi_buf = [] }) rest
unfolding observe_private remove_kitty_kbd_pop parse_csi_param_default
observe-pop_one r rest e small =
    observe-csi r b'<' [] rest b'u' e refl tt refl (omega arith) ∙ ground arith

observe_modify_other_keys-keeps :
    (r : HootRestorer) (params : Bytes)
    → ((observe_modify_other_keys r params).kitty_pops ≡ r.kitty_pops)
      × ((observe_modify_other_keys r params).csi_buf ≡ r.csi_buf)
unfolding observe_modify_other_keys
observe_modify_other_keys-keeps r [] = (refl, refl)
observe_modify_other_keys-keeps r (c ∷ cs) = ground arith

-- What any other sequence does: at most it sets modifyOtherKeys.
pub observe_private-other :
    (r : HootRestorer) (p : ℕ) (params : Bytes) (f : ℕ)
    → (f ≢ b'u') ⊎ ((p ≢ b'<') × (p ≢ b'>'))
    → (observe_private r p params f).kitty_pops ≡ r.kitty_pops
      × (observe_private r p params f).csi_buf ≡ r.csi_buf
unfolding observe_private
observe_private-other r p params f (inl h) =
    let kept = observe_modify_other_keys-keeps r params in
    (ground (arith, kept), ground (arith, kept))
observe_private-other r p params f (inr h) = (ground (arith, h), ground (arith, h))
