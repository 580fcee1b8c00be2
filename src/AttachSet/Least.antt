-- ===== src/AttachSet/Least.antt =====
-- The effective size is the least: no member is cut, and no smaller size than needed is taken.
use mathlib.Core.Path.{subst}
use hootty.Base.{
  ℕ, ◌≤◌, Bool, List, [], ◌∷◌, map, ◌≡◌, refl, sym, ap, ◌⊎◌, inl, inr, arith, ltb, if◌then◌else◌,
  All, Bool-cases,
}
use hootty.AttachSet.{AttachWinsize, narrow, narrow_all, effective_of}

-- The least of some numbers: below all of them, and one of them.
abbrev Among : ℕ → List ℕ → Type 0
Among n [] = ⊥
Among n (x ∷ xs) = (n ≡ x) ⊎ Among n xs

abbrev pub IsLeast : ℕ → List ℕ → Type 0
IsLeast n xs = All (λ x. n ≤ x) xs × Among n xs

abbrev pub all_cols : List AttachWinsize → List ℕ
all_cols wss = map (λ ws. ws.cols) wss

abbrev pub all_rows : List AttachWinsize → List ℕ
all_rows wss = map (λ ws. ws.rows) wss

-- The least width and the least height of the declared sizes.
abbrev pub IsEffective : AttachWinsize → List AttachWinsize → Type 0
IsEffective eff wss = IsLeast eff.cols (all_cols wss) × IsLeast eff.rows (all_rows wss)

lower : ℕ → List ℕ → ℕ
lower n [] = n
lower n (x ∷ xs) = lower (if ltb x n then x else n) xs

narrow_all-lower :
    (wss : List AttachWinsize) (eff : AttachWinsize)
    → ((narrow_all eff wss).cols ≡ lower eff.cols (all_cols wss))
      × ((narrow_all eff wss).rows ≡ lower eff.rows (all_rows wss))
unfolding lower
narrow_all-lower [] eff = (refl, refl)
narrow_all-lower (ws ∷ wss) eff = narrow_all-lower wss (narrow eff ws)

lower_le : (xs : List ℕ) (n : ℕ) → lower n xs ≤ n
unfolding lower
lower_le [] n = omega arith
lower_le (x ∷ xs) n = ground (arith, lower_le xs (if ltb x n then x else n))

lower-IsLeast : (xs : List ℕ) (n : ℕ) → IsLeast (lower n xs) (n ∷ xs)
unfolding lower
lower-IsLeast [] n = ((omega arith, tt), inl refl)
lower-IsLeast (x ∷ xs) n =
    let lower_with = λ (b : Bool). lower (if b then x else n) xs in
    let whole = λ (m : ℕ). IsLeast m (n ∷ x ∷ xs) in
    elim (Bool-cases (ltb x n)) [
      | inl e ↦
          let (below, one) = lower-IsLeast xs x in
          let less : lower x xs ≤ n = ground (arith, below.0) in
          subst whole (sym (ap lower_with e)) ((less, (below.0, below.1)), inr one)
      | inr e ↦
          let (below, one) = lower-IsLeast xs n in
          let less : lower n xs ≤ x = ground (arith, below.0) in
          subst whole (sym (ap lower_with e))
            ((below.0, (less, below.1)), elim one [ inl h ↦ inl h | inr h ↦ inr (inr h) ])
    ]

-- recomputeLocked yields the least width and the least height of the members.
pub effective_of-IsEffective :
    (current ws : AttachWinsize) (wss : List AttachWinsize)
    → IsEffective (effective_of current (ws ∷ wss)) (ws ∷ wss)
effective_of-IsEffective current ws wss =
    let (c, r) = narrow_all-lower wss ws in
    (
      subst (λ n. IsLeast n (all_cols (ws ∷ wss))) (sym c) (lower-IsLeast (all_cols wss) ws.cols),
      subst (λ n. IsLeast n (all_rows (ws ∷ wss))) (sym r) (lower-IsLeast (all_rows wss) ws.rows),
    )
