-- ===== src/Wire/PrefixKey.antt =====
-- What a prefix-key spec may stand for.
use hootty.Base.{ℕ, ◌≤◌, ◌<◌, some, [], ◌∷◌, ◌≡◌, ◌⊎◌, inl, inr, arith, Bytes, Option-cases}
use hootty.Wire.{
  control_byte, control_letter, parse_hex_byte, unprintable, hex_or_single, parse_prefix_key,
}

-- No printable ASCII byte.
abbrev pub IsControl : ℕ → Type 0
IsControl b = (b < 0x20) ⊎ (0x7f ≤ b)

control_byte-IsControl : (letter b : ℕ) → control_byte letter ≡ some b → IsControl b
unfolding control_byte
control_byte-IsControl letter b h = ground arith

unprintable-IsControl : (n b : ℕ) → unprintable n ≡ some b → IsControl b
unprintable-IsControl n b h = ground arith

hex_or_single-IsControl : (spec : Bytes) (b : ℕ) → hex_or_single spec ≡ some b → IsControl b
hex_or_single-IsControl [] b h = ground arith
hex_or_single-IsControl (c ∷ []) b h = unprintable-IsControl c b h
hex_or_single-IsControl (z ∷ x ∷ digits) b h = elim (Option-cases (parse_hex_byte digits)) [
  | inl e ↦ ground arith
  | inr (n, e) ↦ ground arith
]

-- A spec that is accepted never stands for a printable ASCII byte: it is below 0x20, or 0x7f, or
-- from 0x80 on.
pub parse_prefix_key-IsControl :
    (spec : Bytes) (b : ℕ) → parse_prefix_key spec ≡ some b → IsControl b
unfolding parse_prefix_key
parse_prefix_key-IsControl spec b h = elim (Option-cases (control_letter spec)) [
  | inl e ↦ hex_or_single-IsControl spec b (rw (e, parse_prefix_key) at h)
  | inr (letter, e) ↦ control_byte-IsControl letter b (rw (e, parse_prefix_key) at h)
]
