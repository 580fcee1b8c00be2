-- ===== src/Restorer/Observe.antt =====
-- What the restorer makes of text and of whole CSI sequences.
use hootty.Base.{
  ℕ, ◌+◌, ◌≤◌, true, false, [], ◌∷◌, ◌++◌, ◌≡◌, ◌≢◌, refl, ◌∙◌, arith, length, Bytes, All,
  length-append, append_assoc, append-nil, split_last-append,
}
use hootty.Stripper.Query.{esc, is_final}
use hootty.Restorer.{HootRestorer, observe_private, observe_csi, observe_byte, observe}

-- Between sequences.
abbrev pub Between : HootRestorer → Type 0
Between r = r.csi_buf ≡ []

pub observe-text :
    (text rest : Bytes) (r : HootRestorer)
    → All (λ b. b ≢ esc) text
    → Between r
    → observe r (text ++ rest) ≡ observe r rest
unfolding observe observe_byte
observe-text [] rest r h e = refl
observe-text (b ∷ text) rest r h e = ground (arith, observe-text text rest r h.1 e)

abbrev holding : HootRestorer → Bytes → HootRestorer
holding r buf = record r { csi_buf = buf }

observe-params :
    (params : Bytes) (r : HootRestorer) (a b : ℕ) (buf rest : Bytes)
    → All (λ c. is_final c ≡ false) params
    → length buf + length params ≤ 30
    → observe (holding r (a ∷ b ∷ buf)) (params ++ rest)
      ≡ observe (holding r (a ∷ b ∷ (buf ++ params))) rest
unfolding observe observe_byte
observe-params [] r a b buf rest h fits = rw append-nil
observe-params (c ∷ params) r a b buf rest h fits = ground (
  arith,
  observe-params params r a b (buf ++ c ∷ []) rest h.1,
  length-append buf (c ∷ []),
  append_assoc buf (c ∷ []) params,
)

-- The scratch buffer does not matter to what a sequence does.
observe_private-holding :
    (r : HootRestorer) (buf : Bytes) (p : ℕ) (params : Bytes) (f : ℕ)
    → holding (observe_private (holding r buf) p params f) []
      ≡ observe_private (holding r []) p params f
unfolding observe_private
observe_private-holding r buf p [] f = ground arith
observe_private-holding r buf p (c ∷ params) f = ground arith

observe-final :
    (r : HootRestorer) (p : ℕ) (params rest : Bytes) (f : ℕ)
    → is_final f ≡ true
    → length params ≤ 28
    → observe (holding r (esc ∷ b'[' ∷ p ∷ params)) (f ∷ rest)
      ≡ observe (observe_private (holding r []) p params f) rest
unfolding observe observe_byte observe_csi
observe-final r p params rest f hf fits = ground (
  arith,
  length-append params (f ∷ []),
  split_last-append params f,
  observe_private-holding r (esc ∷ b'[' ∷ p ∷ (params ++ f ∷ [])) p params f,
)

-- A CSI sequence of at most 32 bytes does what its private marker, its parameters and its final
-- byte say, and leaves nothing in the buffer.
pub observe-csi :
    (r : HootRestorer) (p : ℕ) (params rest : Bytes) (f : ℕ)
    → Between r
    → is_final p ≡ false
    → All (λ c. is_final c ≡ false) params
    → is_final f ≡ true
    → length params ≤ 28
    → observe r (esc ∷ b'[' ∷ p ∷ (params ++ f ∷ rest))
      ≡ observe (observe_private (holding r []) p params f) rest
unfolding observe observe_byte
observe-csi r p params rest f e hp h hf fits =
    begun
    ∙ observe-params (p ∷ params) r esc b'[' [] (f ∷ rest) (hp, h) (omega arith)
    ∙ observe-final r p params rest f hf fits
  where
    begun :
        observe r (esc ∷ b'[' ∷ p ∷ (params ++ f ∷ rest))
        ≡ observe (holding r (esc ∷ b'[' ∷ [])) (p ∷ (params ++ f ∷ rest))
    begun = rw e refl
