-- ===== src/Chord/Params.antt =====
-- The parameters of a CSI u report.
use hootty.Base.{
  ℕ, ◌+◌, ◌-◌, ◌*◌, ◌%◌, ◌≤◌, ◌<◌, true, false, [], ◌∷◌, ◌++◌, ◌≡◌, refl, ap, arith, ◌==◌, Bytes,
  All, All-append,
}
use hootty.Stripper.Query.{is_digit, is_final}
use hootty.Chord.{uint_mod, split_byte, parse_uint_from, sub_params, parse_csi_u_params}

abbrev pub IsDigit : ℕ → Type 0
IsDigit b = is_digit b ≡ true

-- The number that decimal digits write behind `n`.
abbrev pub value_from : ℕ → Bytes → ℕ
value_from n [] = n
value_from n (d ∷ ds) = value_from (n * 10 + (d - b'0')) ds

abbrev pub value : Bytes → ℕ
value ds = value_from 0 ds

value_from-grows : (ds : Bytes) (n : ℕ) → n ≤ value_from n ds
value_from-grows [] n = omega arith
value_from-grows (d ∷ ds) n = omega (arith, value_from-grows ds (n * 10 + (d - b'0')))

-- Digits are read as their number, where it fits 64 bits.
pub parse_uint_from-value :
    (ds : Bytes) (n : ℕ)
    → All IsDigit ds
    → value_from n ds < uint_mod
    → parse_uint_from n ds ≡ value_from n ds
unfolding parse_uint_from
parse_uint_from-value [] n h fits = refl
parse_uint_from-value (d ∷ ds) n h fits =
    let m = n * 10 + (d - b'0') in
    let small : m % uint_mod ≡ m = omega (arith, value_from-grows ds m) in
    rw h.0 (rw small (parse_uint_from-value ds m h.1 fits))

-- Bytes without the separator, and such bytes in front of one.
split_byte-free :
    (bs : Bytes) (sep : ℕ) → All (λ b. (b == sep) ≡ false) bs → split_byte sep bs ≡ (bs, [])
split_byte-free [] sep h = refl
split_byte-free (b ∷ bs) sep h = rw (split_byte-free bs sep h.1, h.0) refl

split_byte-free_sep :
    (bs rest : Bytes) (sep : ℕ)
    → All (λ b. (b == sep) ≡ false) bs
    → split_byte sep (bs ++ sep ∷ rest) ≡ (bs, (split_byte sep rest).0 ∷ (split_byte sep rest).1)
split_byte-free_sep [] rest sep h = ground arith
split_byte-free_sep (b ∷ bs) rest sep h = rw (split_byte-free_sep bs rest sep h.1, h.0) refl

digits-free :
    (ds : Bytes) (sep : ℕ)
    → is_digit sep ≡ false
    → All IsDigit ds
    → All (λ b. (b == sep) ≡ false) ds
digits-free [] sep hs h = tt
digits-free (d ∷ ds) sep hs h = (ground arith, digits-free ds sep hs h.1)

digits-params : (ds : Bytes) → All IsDigit ds → All (λ b. is_final b ≡ false) ds
digits-params [] h = tt
digits-params (d ∷ ds) h = (ground arith, digits-params ds h.1)

-- A group of a report and its two numbers: decimal digits, or two of them with a `:` between, where
-- they fit 64 bits. A group of one number has 0 for the second.
pub data Group : Bytes → ℕ → ℕ → Type 0 where
  single : (ds : Bytes) → All IsDigit ds → value ds < uint_mod → Group ds (value ds) 0
  double :
      (ds es : Bytes)
      → All IsDigit ds
      → All IsDigit es
      → value ds < uint_mod
      → value es < uint_mod
      → Group (ds ++ b':' ∷ es) (value ds) (value es)

sub_params-Group : (g : Bytes) (a b : ℕ) → Group g a b → sub_params g ≡ (a, b)
sub_params-Group g a b (single ds h fits) =
    rw (split_byte-free ds b':' (digits-free ds b':' refl h))
      (ap (λ n. (n, 0)) (parse_uint_from-value ds 0 h fits))
sub_params-Group g a b (double ds es h k fits fits_k) =
    rw
      (
        split_byte-free_sep ds es b':' (digits-free ds b':' refl h),
        split_byte-free es b':' (digits-free es b':' refl k),
        parse_uint_from-value ds 0 h fits,
        parse_uint_from-value es 0 k fits_k,
      )
      refl

Group-free : (g : Bytes) (a b : ℕ) → Group g a b → All (λ c. (c == b';') ≡ false) g
Group-free g a b (single ds h fits) = digits-free ds b';' refl h
Group-free g a b (double ds es h k fits fits_k) =
    All-append (λ c. (c == b';') ≡ false) ds (b':' ∷ es) (digits-free ds b';' refl h)
      (refl, digits-free es b';' refl k)

-- No byte of a group ends the sequence.
pub Group-params : (g : Bytes) (a b : ℕ) → Group g a b → All (λ c. is_final c ≡ false) g
Group-params g a b (single ds h fits) = digits-params ds h
Group-params g a b (double ds es h k fits fits_k) =
    All-append (λ c. is_final c ≡ false) ds (b':' ∷ es) (digits-params ds h)
      (refl, digits-params es k)

-- `<cp>[:<alt>]u`
pub parse_csi_u_params-cp :
    (g : Bytes) (a b : ℕ) → Group g a b → parse_csi_u_params g ≡ (a, b, 0, 0)
unfolding parse_csi_u_params
parse_csi_u_params-cp g a b k =
    ground (arith, split_byte-free g b';' (Group-free g a b k), sub_params-Group g a b k)

-- `<cp>[:<alt>];<mod>[:<event>]u`
pub parse_csi_u_params-mod :
    (g h : Bytes) (a b c d : ℕ)
    → Group g a b
    → Group h c d
    → parse_csi_u_params (g ++ b';' ∷ h) ≡ (a, b, c, d)
unfolding parse_csi_u_params
parse_csi_u_params-mod g h a b c d k l = ground (
  arith,
  split_byte-free_sep g h b';' (Group-free g a b k),
  split_byte-free h b';' (Group-free h c d l),
  sub_params-Group g a b k,
  sub_params-Group h c d l,
)
