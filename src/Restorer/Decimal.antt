-- ===== src/Restorer/Decimal.antt =====
-- Decimal digits: they write their number, and there are not many of them.
use hootty.Base.{
  ℕ, zero, suc, ◌+◌, ◌-◌, ◌*◌, ◌/◌, ◌%◌, ◌≤◌, ◌<◌, true, [], ◌∷◌, ◌++◌, ◌≡◌, refl, arith, ltb,
  length, Bytes, length-append, all, Bool-cases, inl, inr,
}
use hootty.Stripper.Query.{is_digit}
use hootty.Restorer.{number_from, decimal}

number_from-append :
    (xs : Bytes) (n d : ℕ) → number_from n (xs ++ d ∷ []) ≡ number_from n xs * 10 + (d - b'0')
number_from-append [] n d = refl
number_from-append (x ∷ xs) n d = number_from-append xs (n * 10 + (x - b'0')) d

pub decimal-number : (fuel n : ℕ) → n < fuel → number_from 0 (decimal fuel n) ≡ n
unfolding decimal
decimal-number zero n h = elim h [ ]
decimal-number (suc fuel) n h = elim (Bool-cases (ltb n 10)) [
  | inl e ↦ rw e (omega arith)
  | inr e ↦
      let big : 10 ≤ n = ground arith in
      rw e (
        omega (
          arith,
          number_from-append (decimal fuel (n / 10)) 0 (b'0' + n % 10),
          decimal-number fuel (n / 10) (omega arith),
        ))
]

all-snoc :
    (xs : Bytes) (d : ℕ)
    → all is_digit xs ≡ true
    → is_digit d ≡ true
    → all is_digit (xs ++ d ∷ []) ≡ true
all-snoc [] d h k = ground arith
all-snoc (x ∷ xs) d h k = ground (arith, all-snoc xs d)

pub decimal-digits : (fuel n : ℕ) → all is_digit (decimal fuel n) ≡ true
unfolding decimal
decimal-digits zero n = refl
decimal-digits (suc fuel) n = elim (Bool-cases (ltb n 10)) [
  | inl e ↦ rw e (ground arith)
  | inr e ↦ rw e (
      all-snoc (decimal fuel (n / 10)) (b'0' + n % 10) (decimal-digits fuel (n / 10))
        (ground arith))
]

abbrev pub ten : ℕ → ℕ
ten zero = 1
ten (suc k) = 10 * ten k

pub decimal-short : (fuel n k : ℕ) → n < ten k → length (decimal fuel n) ≤ suc k
unfolding decimal
decimal-short zero n k h = omega arith
decimal-short (suc fuel) n zero h = ground arith
decimal-short (suc fuel) n (suc k) h = elim (Bool-cases (ltb n 10)) [
  | inl e ↦ rw e (omega arith)
  | inr e ↦ rw e (
      omega (
        arith,
        length-append (decimal fuel (n / 10)) ((b'0' + n % 10) ∷ []),
        decimal-short fuel (n / 10) k (omega arith),
      ))
]
