-- ===== src/Stripper/Grammar.antt =====
-- The query sequences as a grammar, and the recognisers of vtquery_stripper.go against it.
use native.Mathlib.Decide.{ℕ_discrete}
use hootty.Base.{
  ℕ, ◌≤◌, true, false, ◌&&◌, Option, none, some, List, [], ◌∷◌, ◌++◌, ◌≡◌, refl, ap, ◌⊎◌, inl, inr,
  ◌↔◌, arith, ltb, ◌==◌, length, Bytes, All, all, split_last, split_last-append, length-append,
  same_iff, one_of, Bool-cases,
}
use hootty.Stripper.Query.{
  is_digit, params_are_da, params_are_dsr, params_are_size_query, params_are_decrqm, private_number,
  csi_final_query,
}

abbrev pub OneOf : Bytes → List Bytes → Type 0
OneOf x [] = ⊥
OneOf x (y ∷ ys) = (x ≡ y) ⊎ OneOf x ys

pub one_of_iff : (x : Bytes) (ys : List Bytes) → (one_of x ys ≡ true) ↔ OneOf x ys
one_of_iff x [] = (λ h. cc, λ h. absurd h)
one_of_iff x (y ∷ ys) = ground (arith, same_iff x y, one_of_iff x ys)

abbrev pub IsDigit : ℕ → Type 0
IsDigit c = (b'0' ≤ c) × (c ≤ b'9')

pub all-is_digit_iff : (ds : Bytes) → (all is_digit ds ≡ true) ↔ All IsDigit ds
all-is_digit_iff [] = (λ _. tt, λ _. refl)
all-is_digit_iff (d ∷ ds) = ground (arith, all-is_digit_iff ds)

abbrev pub attribute_params : List Bytes
attribute_params = [] ∷ (b'0' ∷ []) ∷ (b'?' ∷ []) ∷ (b'>' ∷ []) ∷ (b'=' ∷ []) ∷ []

abbrev pub size_params : List Bytes
size_params = (b'1' ∷ b'4' ∷ []) ∷ (b'1' ∷ b'6' ∷ []) ∷ (b'1' ∷ b'8' ∷ []) ∷ (b'1' ∷ b'9' ∷ []) ∷ []

-- The parameters and the final byte of a CSI sequence that asks for a reply.
pub data CsiAsks (params : Bytes) (final : ℕ) : Type 0 where
  attributes : final ≡ b'c' → OneOf params attribute_params → CsiAsks params final
  status : final ≡ b'n' → OneOf params ((b'5' ∷ []) ∷ (b'6' ∷ []) ∷ []) → CsiAsks params final
  private_status :
      (d : ℕ) (ds : Bytes)
      → final ≡ b'n'
      → params ≡ b'?' ∷ d ∷ ds
      → All IsDigit (d ∷ ds)
      → CsiAsks params final
  version : final ≡ b'q' → params ≡ b'>' ∷ [] → CsiAsks params final
  size : final ≡ b't' → OneOf params size_params → CsiAsks params final
  mode :
      (d : ℕ) (ds : Bytes)
      → final ≡ b'p'
      → params ≡ b'?' ∷ d ∷ (ds ++ b'$' ∷ [])
      → All IsDigit (d ∷ ds)
      → CsiAsks params final
  keyboard : final ≡ b'u' → params ≡ b'?' ∷ [] → CsiAsks params final

-- What `split_last` returns is the list cut before its last member.
abbrev SplitsTo : Bytes → Option (Bytes × ℕ) → Type 0
SplitsTo xs none = xs ≡ []
SplitsTo xs (some (front, last)) = xs ≡ front ++ last ∷ []

pub split_last-SplitsTo : (xs : Bytes) → SplitsTo xs (split_last xs)
split_last-SplitsTo [] = refl
split_last-SplitsTo (x ∷ xs) = go (split_last xs) (split_last-SplitsTo xs)
  where
    go :
        (o : Option (Bytes × ℕ))
        → SplitsTo xs o
        → SplitsTo
            (x ∷ xs)
            (elim o [ none ↦ some ([], x) | some (front, last) ↦ some (x ∷ front, last) ])
    go none h = ap (◌∷◌ x) h
    go (some (front, last)) h = ap (◌∷◌ x) h

private_number-CsiAsks : (params : Bytes) → private_number params ≡ true → CsiAsks params b'n'
unfolding private_number
private_number-CsiAsks [] h = cc
private_number-CsiAsks (a ∷ []) h = cc
private_number-CsiAsks (a ∷ b ∷ ds) h =
    private_status b ds refl (ground arith) (ground (arith, all-is_digit_iff (b ∷ ds)))

dsr-CsiAsks : (params : Bytes) → params_are_dsr params ≡ true → CsiAsks params b'n'
unfolding params_are_dsr
dsr-CsiAsks params h = elim (Bool-cases (private_number params)) [
  | inl p ↦ private_number-CsiAsks params p
  | inr p ↦ status refl (
      ground (
        arith,
        same_iff params (b'5' ∷ []),
        same_iff params (b'6' ∷ []),
        same_iff params (b'?' ∷ b'5' ∷ []),
        same_iff params (b'?' ∷ b'6' ∷ []),
      ))
]

mode-CsiAsks :
    (a : ℕ) (middle : Bytes) (last : ℕ)
    → ltb (length (a ∷ (middle ++ last ∷ []))) 3 ≡ false
    → (a == b'?' && last == b'$' && all is_digit middle) ≡ true
    → CsiAsks (a ∷ (middle ++ last ∷ [])) b'p'
mode-CsiAsks a [] last long h = absurd (ground arith)
mode-CsiAsks a (d ∷ ds) last long h =
    mode d ds refl (ground arith) (ground (arith, all-is_digit_iff (d ∷ ds)))

decrqm-CsiAsks : (params : Bytes) → params_are_decrqm params ≡ true → CsiAsks params b'p'
unfolding params_are_decrqm
decrqm-CsiAsks [] h = cc
decrqm-CsiAsks (a ∷ rest) h = go (split_last rest) refl (split_last-SplitsTo rest)
  where
    go : (o : Option (Bytes × ℕ)) → split_last rest ≡ o → SplitsTo rest o → CsiAsks (a ∷ rest) b'p'
    go none e k = absurd (ground arith)
    go (some (middle, last)) e k =
        let long : ltb (length (a ∷ rest)) 3 ≡ false = ground arith in
        rw k (mode-CsiAsks a middle last (rw k at long) (ground arith))

decrqm_mode :
    (d : ℕ) (ds : Bytes)
    → All IsDigit (d ∷ ds)
    → params_are_decrqm (b'?' ∷ d ∷ (ds ++ b'$' ∷ [])) ≡ true
unfolding params_are_decrqm
decrqm_mode d ds h = ground (
  arith,
  length-append ds (b'$' ∷ []),
  split_last-append (d ∷ ds) b'$',
  all-is_digit_iff (d ∷ ds),
)

da-OneOf : (params : Bytes) → params_are_da params ≡ true → OneOf params attribute_params
unfolding params_are_da
da-OneOf params h = (one_of_iff params attribute_params).0 h

size_query-OneOf : (params : Bytes) → params_are_size_query params ≡ true → OneOf params size_params
unfolding params_are_size_query
size_query-OneOf params h = (one_of_iff params size_params).0 h

dsr_status :
    (params : Bytes) → OneOf params ((b'5' ∷ []) ∷ (b'6' ∷ []) ∷ []) → params_are_dsr params ≡ true
unfolding params_are_dsr
dsr_status params h = ground arith

dsr_private : (d : ℕ) (ds : Bytes) → All IsDigit (d ∷ ds) → params_are_dsr (b'?' ∷ d ∷ ds) ≡ true
unfolding params_are_dsr
dsr_private d ds h = ground (arith, all-is_digit_iff (d ∷ ds))

-- The switch on the final byte accepts exactly the sequences of the grammar.
pub csi_final_query-CsiAsks :
    (params : Bytes) (final : ℕ) → csi_final_query params final ≡ true → CsiAsks params final
unfolding csi_final_query
csi_final_query-CsiAsks params final h = elim (ℕ_discrete final b'c') [
  | yes e ↦ attributes e (da-OneOf params (ground arith))
  | no c ↦ elim (ℕ_discrete final b'n') [
    | yes e ↦ rw e (dsr-CsiAsks params (ground arith))
    | no n ↦ elim (ℕ_discrete final b'q') [
      | yes e ↦ version e (ground (arith, same_iff params (b'>' ∷ [])))
      | no q ↦ elim (ℕ_discrete final b't') [
        | yes e ↦ size e (size_query-OneOf params (ground arith))
        | no t ↦ elim (ℕ_discrete final b'p') [
          | yes e ↦ rw e (decrqm-CsiAsks params (ground arith))
          | no p ↦ keyboard (ground arith) (ground (arith, same_iff params (b'?' ∷ [])))
        ]
      ]
    ]
  ]
]

pub CsiAsks-csi_final_query :
    (params : Bytes) (final : ℕ) → CsiAsks params final → csi_final_query params final ≡ true
unfolding csi_final_query
CsiAsks-csi_final_query params final (attributes e p) =
    rw e (unfold params_are_da in (one_of_iff params attribute_params).1 p)
CsiAsks-csi_final_query params final (status e p) = rw e (dsr_status params p)
CsiAsks-csi_final_query params final (private_status d ds e p h) = rw (e, p) (dsr_private d ds h)
CsiAsks-csi_final_query params final (version e p) = ground arith
CsiAsks-csi_final_query params final (size e p) =
    rw e (unfold params_are_size_query in (one_of_iff params size_params).1 p)
CsiAsks-csi_final_query params final (mode d ds e p h) = rw (e, p) (decrqm_mode d ds h)
CsiAsks-csi_final_query params final (keyboard e p) = ground arith
