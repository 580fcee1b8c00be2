-- ===== src/Restorer/Reset.antt =====
-- What Cleanup does to a terminal, in the terms of the terminal: the modes that it ends with.
use mathlib.Core.Path.{subst}
use hootty.Base.{
  ℕ, ◌+◌, Bool, true, false, none, List, [], ◌∷◌, ◌++◌, ◌≡◌, refl, sym, ap, ◌∙◌, arith, ◌==◌,
  if◌then◌else◌, length, Bytes, all, append_assoc, append-nil, Bool-cases, inl, inr, ◌⊎◌, ◌||◌,
}
use hootty.Io.{File, write_file}
use hootty.Stripper.Query.{esc, is_digit, is_final}
use hootty.Restorer.{
  HootRestorer, number_from, decimal, kitty_pop, is_negative, modify_other_keys_off, write_strings,
  cleanup_strings, cleanup,
}
use hootty.Restorer.Decimal.{decimal-digits}
use hootty.Restorer.Sequences.{hoot_cleanup_sequence}

-- A terminal between two bytes: what it is in the middle of, and its private and its plain modes.
pub data Reading : Type 0 where
  plain after_esc after_paren in_osc : Reading
  in_csi : Bytes → Reading

pub record Terminal : Type 0 where
  pub reading : Reading
  pub private_modes : ℕ → Bool
  pub modes : ℕ → Bool

abbrev with_mode : (ℕ → Bool) → ℕ → Bool → ℕ → Bool
with_mode modes n on m = if m == n then on else modes m

-- A mode is set or reset; the other CSI sequences are none of these modes' business.
abbrev set_mode : Bytes → Bool → Terminal → Terminal
set_mode [] on t = t
set_mode (c ∷ cs) on t =
    if c == b'?'
    then record t { private_modes = with_mode t.private_modes (number_from 0 cs) on }
    else if is_digit c
    then record t { modes = with_mode t.modes (number_from 0 (c ∷ cs)) on }
    else t

abbrev end_csi : Bytes → ℕ → Terminal → Terminal
end_csi params f t =
    if f == b'h' then set_mode params true t else if f == b'l' then set_mode params false t else t

-- An escape is one more byte, but for `ESC (`, which is two more, and for CSI and OSC; OSC goes on
-- up to a BEL.
unfoldable read_byte : Terminal → Reading → ℕ → Terminal
read_byte t plain b = record t { reading = if b == esc then after_esc else plain }
read_byte t after_esc b = record t {
  reading =
      if b == b'['
      then in_csi []
      else if b == b']'
      then in_osc
      else if b == b'('
      then after_paren
      else plain;
}
read_byte t after_paren b = record t { reading = plain }
read_byte t in_osc b = record t { reading = if b == 0x07 then plain else in_osc }
read_byte t (in_csi params) b =
    if is_final b
    then end_csi params b (record t { reading = plain })
    else record t { reading = in_csi (params ++ b ∷ []) }

unfoldable pub read : Terminal → Bytes → Terminal
unfolding read_byte
read t [] = t
read t (b ∷ bs) = read (read_byte t t.reading b) bs

-- The modes that an attach may leave changed, and how they are to be.
abbrev private_defaults : List (ℕ × Bool)
private_defaults =
    (47, false)
    ∷ (1047, false)
    ∷ (1049, false)
    ∷ (25, true)
    ∷ (9, false)
    ∷ (1000, false)
    ∷ (1002, false)
    ∷ (1003, false)
    ∷ (1005, false)
    ∷ (1006, false)
    ∷ (1015, false)
    ∷ (1016, false)
    ∷ (1, false)
    ∷ (66, false)
    ∷ (67, false)
    ∷ (1004, false)
    ∷ (2004, false)
    ∷ (1039, false)
    ∷ (5, false)
    ∷ (6, false)
    ∷ (7, true)
    ∷ (4, false)
    ∷ (45, false)
    ∷ (1045, false)
    ∷ (3, false)
    ∷ (2026, false)
    ∷ (2027, false)
    ∷ (2031, false)
    ∷ (2048, false)
    ∷ (69, false)
    ∷ []

abbrev mode_defaults : List (ℕ × Bool)
mode_defaults = (2, false) ∷ (4, false) ∷ (20, false) ∷ []

abbrev IsIn : (ℕ → Bool) → List (ℕ × Bool) → Type 0
IsIn modes [] = Unit {0}
IsIn modes ((n, on) ∷ ds) = (modes n ≡ on) × IsIn modes ds

-- Between sequences, with all of them as they are to be.
pub record IsReset (t : Terminal) : Type 0 where
  pub whole : t.reading ≡ plain
  pub private_modes : IsIn t.private_modes private_defaults
  pub modes : IsIn t.modes mode_defaults

abbrev concat : List Bytes → Bytes
concat [] = []
concat (s ∷ ss) = s ++ concat ss

read-catalogue :
    (private_modes modes : ℕ → Bool)
    → IsReset (
        read
          (record { reading = plain; private_modes = private_modes; modes = modes })
          (concat hoot_cleanup_sequence))
unfolding read
read-catalogue private_modes modes = record {
  whole = refl;
  private_modes = ground arith;
  modes = (refl, (refl, (refl, tt)));
}

-- Between sequences, with these modes.
abbrev between : (ℕ → Bool) → (ℕ → Bool) → Terminal
between private_modes modes = record {
  reading = plain;
  private_modes = private_modes;
  modes = modes;
}

abbrev within_csi : (ℕ → Bool) → (ℕ → Bool) → Bytes → Terminal
within_csi private_modes modes params = record {
  reading = in_csi params;
  private_modes = private_modes;
  modes = modes;
}

read_byte-collects :
    (p m : ℕ → Bool) (params : Bytes) (d : ℕ)
    → is_final d ≡ false
    → read_byte (within_csi p m params) (in_csi params) d ≡ within_csi p m (params ++ d ∷ [])
unfolding read_byte
read_byte-collects p m params d h = rw (h, read_byte) refl

read-digits :
    (p m : ℕ → Bool) (ds params rest : Bytes)
    → all is_digit ds ≡ true
    → read (within_csi p m params) (ds ++ b'u' ∷ rest) ≡ read (between p m) rest
unfolding read
read-digits p m [] params rest h = refl
read-digits p m (d ∷ ds) params rest h =
    let more : is_final d ≡ false = ground arith in
    ap (λ t. read t (ds ++ b'u' ∷ rest)) (read_byte-collects p m params d more)
    ∙ read-digits p m ds (params ++ d ∷ []) rest (ground arith)

kitty_pop-cases :
    (n : ℕ)
    → (kitty_pop n ≡ [])
      ⊎ ((ds : Bytes) × (all is_digit ds ≡ true)
          × (kitty_pop n ≡ esc ∷ b'[' ∷ b'<' ∷ (ds ++ b'u' ∷ [])))
unfolding kitty_pop
kitty_pop-cases n = elim (Bool-cases (n == 0 || is_negative n)) [
  | inl e ↦ inl (rw e refl)
  | inr e ↦ elim (Bool-cases (n == 1)) [
    | inl one ↦ inr ([], refl, rw (e, one) refl)
    | inr many ↦ inr (decimal (n + 1) n, decimal-digits (n + 1) n, rw (e, many) refl)
  ]
]

popped :
    (p m : ℕ → Bool) (ds rest : Bytes)
    → all is_digit ds ≡ true
    → read (between p m) ((esc ∷ b'[' ∷ b'<' ∷ (ds ++ b'u' ∷ [])) ++ rest) ≡ read (between p m) rest
unfolding read
popped p m ds rest h = rw (append_assoc ds (b'u' ∷ []) rest) (read-digits p m ds (b'<' ∷ []) rest h)

read-kitty_pop :
    (p m : ℕ → Bool) (n : ℕ) (rest : Bytes)
    → read (between p m) (kitty_pop n ++ rest) ≡ read (between p m) rest
read-kitty_pop p m n rest = elim (kitty_pop-cases n) [
  | inl none_open ↦ rw none_open refl
  | inr (ds, digits, e) ↦ rw e (popped p m ds rest digits)
]

write_strings-concat :
    (ss : List Bytes) (w : File)
    → w.room ≡ none
    → write_strings w ss ≡ (record w { content = w.content ++ concat ss }, true)
unfolding write_strings write_file
write_strings-concat [] w h = rw append-nil refl
write_strings-concat (s ∷ ss) w h = ground (
  arith,
  write_strings-concat ss (record w { content = w.content ++ s }) h,
  append_assoc w.content s (concat ss),
)

concat-pops :
    (s : Bytes) (ss : List Bytes)
    → concat ((if length s == 0 then [] else s ∷ []) ++ ss) ≡ s ++ concat ss
concat-pops [] ss = refl
concat-pops (b ∷ bs) ss = ground arith

-- The end of modifyOtherKeys is none of the modes' business.
read-modify_off :
    (p m : ℕ → Bool) (rest : Bytes)
    → read (between p m) (modify_other_keys_off ++ rest) ≡ read (between p m) rest
unfolding read
read-modify_off p m rest = refl

read-off :
    (p m : ℕ → Bool) (there : Bool)
    → IsReset (
        read
          (between p m)
          (concat ((if there then modify_other_keys_off ∷ [] else []) ++ hoot_cleanup_sequence)))
read-off p m true =
    subst IsReset (sym (read-modify_off p m (concat hoot_cleanup_sequence))) (read-catalogue p m)
read-off p m false = read-catalogue p m

-- Whatever modes a terminal is in, between sequences, and whatever the restorer has observed:
-- where the terminal takes every byte, Cleanup succeeds, and its bytes leave the terminal between
-- sequences, on the primary screen with the cursor shown and wraparound on, and with bracketed
-- paste, focus events, synchronized output, every mouse mode and the other modes of the catalogue
-- off.
pub cleanup-IsReset :
    (r : HootRestorer) (t : Terminal)
    → t.reading ≡ plain
    → ((cleanup r (record { content = []; room = none })).1 ≡ true)
      × IsReset (read t (cleanup r (record { content = []; room = none })).0.content)
unfolding cleanup
cleanup-IsReset r t start =
    let written =
      write_strings-concat (cleanup_strings r) (record { content = []; room = none }) refl in
    let off = if r.modify_other_keys then modify_other_keys_off ∷ [] else [] in
    let p = t.private_modes in
    let m = t.modes in
    (
      ap (λ x. x.1) written,
      subst (λ x. IsReset (read t x.0.content)) (sym written)
          (subst (λ bs. IsReset (read t bs))
            (sym (concat-pops (kitty_pop r.kitty_pops) (off ++ hoot_cleanup_sequence)))
            (subst
              (λ g. IsReset (
                read (record t { reading = g })
                  (kitty_pop r.kitty_pops ++ concat (off ++ hoot_cleanup_sequence))))
              (sym start)
              (subst IsReset
                (sym (read-kitty_pop p m r.kitty_pops (concat (off ++ hoot_cleanup_sequence))))
                (read-off p m r.modify_other_keys)))),
    )
