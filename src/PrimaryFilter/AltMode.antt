-- ===== src/PrimaryFilter/AltMode.antt =====
-- Which complete CSI sequences switch to or from an alternate screen.
use hootty.Base.{
  not, if◌then◌else◌, ℕ, Bool, true, false, ◌||◌, Option, none, some, List, [], ◌∷◌, ◌++◌, ◌≡◌,
  refl, sym, ◌∙◌, ◌⊎◌, ◌↔◌, arith, ◌==◌, length-append, Bytes, split_last-append, append_assoc,
  append-nil, one_of,
}
use hootty.Stripper.Grammar.{OneOf, one_of_iff}
use hootty.Stripper.OscGrammar.{segments}
use hootty.Stripper.Strips.{CsiIntroducer, strip_csi_introducer_lem}
use hootty.PrimaryFilter.{names_alt, csi_alt_screen_mode}

-- The private modes of the alternate screen: 47, 1047 and 1049.
abbrev alternate_screens : List Bytes
alternate_screens =
    (b'4' ∷ b'7' ∷ []) ∷ (b'1' ∷ b'0' ∷ b'4' ∷ b'7' ∷ []) ∷ (b'1' ∷ b'0' ∷ b'4' ∷ b'9' ∷ []) ∷ []

-- Some segment is one of them.
abbrev SomeAlt : List Bytes → Type 0
SomeAlt [] = ⊥
SomeAlt (s ∷ ss) = OneOf s alternate_screens ⊎ SomeAlt ss

abbrev pub some_alt : List Bytes → Bool
some_alt [] = false
some_alt (s ∷ ss) = one_of s alternate_screens || some_alt ss

abbrev pub NamesAlt : Bytes → Type 0
NamesAlt params = SomeAlt ((segments params).0 ∷ (segments params).1)

some_alt_iff : (ss : List Bytes) → (some_alt ss ≡ true) ↔ SomeAlt ss
some_alt_iff [] = (λ h. cc, λ h. absurd h)
some_alt_iff (s ∷ ss) = ground (arith, one_of_iff s alternate_screens, some_alt_iff ss)

names_alt-segments :
    (cs seg : Bytes)
    → names_alt seg cs
      ≡ (one_of (seg ++ (segments cs).0) alternate_screens || some_alt (segments cs).1)
unfolding names_alt
names_alt-segments [] seg = ground (arith, append-nil seg)
names_alt-segments (c ∷ cs) seg = ground (
  arith,
  append-nil seg,
  names_alt-segments cs [],
  names_alt-segments cs (seg ++ c ∷ []),
  append_assoc seg (c ∷ []) (segments cs).0,
)

names_alt_iff : (params : Bytes) → (names_alt [] params ≡ true) ↔ NamesAlt params
names_alt_iff params =
    rw (names_alt-segments params []) (some_alt_iff ((segments params).0 ∷ (segments params).1))

-- The final byte that switches: `h` enters and `l` leaves.
abbrev pub switch_byte : Bool → ℕ
switch_byte true = b'h'
switch_byte false = b'l'

-- `CSI ? params h` and `CSI ? params l` with an alternate screen mode among the parameters.
pub record Switches (params : Bytes) (f : ℕ) (enter : Bool) : Type 0 where
  pub numbers : Bytes
  pub private : params ≡ b'?' ∷ numbers
  pub final_byte : f ≡ switch_byte enter
  pub named : NamesAlt numbers

-- What a terminal makes of the parameters and the final byte of a CSI sequence: the alternate
-- screen (true) for a private mode set with such a mode among its parameters, the primary screen
-- for such a reset, and nothing else.
abbrev pub switch_of : Bytes → ℕ → Option Bool
switch_of [] f = none
switch_of (mark ∷ numbers) f =
    if not (f == b'h' || f == b'l')
    then none
    else if not (mark == b'?')
    then none
    else if some_alt ((segments numbers).0 ∷ (segments numbers).1)
    then some (f == b'h')
    else none

-- The decision behind the introducer and the bound on the length.
coded : Bytes → ℕ → Option Bool
coded [] f = none
coded (mark ∷ numbers) f =
    if not (f == b'h' || f == b'l')
    then none
    else if not (mark == b'?')
    then none
    else if names_alt [] numbers
    then some (f == b'h')
    else none

coded-switch_of : (params : Bytes) (f : ℕ) → coded params f ≡ switch_of params f
unfolding coded
coded-switch_of [] f = refl
coded-switch_of (mark ∷ numbers) f = rw (names_alt-segments numbers []) refl

csi_alt_screen_mode-coded :
    (i params : Bytes) (f : ℕ)
    → CsiIntroducer i
    → csi_alt_screen_mode (i ++ (params ++ f ∷ [])) ≡ coded params f
unfolding csi_alt_screen_mode coded names_alt
csi_alt_screen_mode-coded i [] f hi = rw (strip_csi_introducer_lem i (f ∷ []) hi) refl
csi_alt_screen_mode-coded i (a ∷ []) f hi =
    rw (strip_csi_introducer_lem i (a ∷ f ∷ []) hi) (ground arith)
csi_alt_screen_mode-coded i (a ∷ b ∷ params) f hi = ground (
  arith,
  strip_csi_introducer_lem i (a ∷ b ∷ (params ++ f ∷ [])) hi,
  split_last-append (a ∷ b ∷ params) f,
  length-append params (f ∷ []),
)

pub csi_alt_screen_mode-switch_of :
    (i params : Bytes) (f : ℕ)
    → CsiIntroducer i
    → csi_alt_screen_mode (i ++ (params ++ f ∷ [])) ≡ switch_of params f
csi_alt_screen_mode-switch_of i params f hi =
    csi_alt_screen_mode-coded i params f hi ∙ coded-switch_of params f

coded-Switches :
    (params : Bytes) (f : ℕ) (enter : Bool) → coded params f ≡ some enter → Switches params f enter
unfolding coded
coded-Switches [] f enter h = ground arith
coded-Switches (a ∷ numbers) f true h = record {
  numbers = numbers;
  private = ground arith;
  final_byte = ground arith;
  named = (names_alt_iff numbers).0 (ground arith);
}
coded-Switches (a ∷ numbers) f false h = record {
  numbers = numbers;
  private = ground arith;
  final_byte = ground arith;
  named = (names_alt_iff numbers).0 (ground arith);
}

Switches-coded :
    (params : Bytes) (f : ℕ) (enter : Bool) → Switches params f enter → coded params f ≡ some enter
unfolding coded
Switches-coded params f true s =
    rw (s.private, s.final_byte, (names_alt_iff s.numbers).1 s.named) refl
Switches-coded params f false s =
    rw (s.private, s.final_byte, (names_alt_iff s.numbers).1 s.named) refl

-- A complete CSI sequence switches the screen exactly when it is a private mode set (`h`, enter)
-- or reset (`l`, leave) one of whose parameters is 47, 1047 or 1049.
pub csi_alt_screen_mode_iff :
    (i params : Bytes) (f : ℕ) (enter : Bool)
    → CsiIntroducer i
    → (csi_alt_screen_mode (i ++ (params ++ f ∷ [])) ≡ some enter) ↔ Switches params f enter
csi_alt_screen_mode_iff i params f enter hi = (
  λ h. coded-Switches params f enter (sym (csi_alt_screen_mode-coded i params f hi) ∙ h),
  λ s. csi_alt_screen_mode-coded i params f hi ∙ Switches-coded params f enter s,
)
