-- ===== src/Spawn/Keyed.antt =====
-- Maps as lists of pairs, and strings that are cut at their first `=`.
use hootty.Base.{
  ℕ, Bool, true, false, none, some, [], ◌∷◌, ◌≡◌, refl, sym, ap, ◌∙◌, arith, inl, inr, ◌==◌,
  if◌then◌else◌, Bytes, All, same, same_iff, Bool-cases,
}
use hootty.Spawn.Env.{Vars, cut, get, put, name_byte, name_bytes, validate_env_name, entry}

abbrev pub Free : Bytes → Type 0
Free name = All (λ b. (b == b'=') ≡ false) name

-- Every name once, and none with a `=`.
abbrev pub Keyed : Vars → Type 0
Keyed [] = Unit {0}
Keyed ((n, v) ∷ m) = Free n × (get n m ≡ none) × Keyed m

pub same_refl : (a : Bytes) → same a a ≡ true
same_refl a = (same_iff a a).1 refl

pub cut-entry : (name value : Bytes) → Free name → cut (entry name value) ≡ some (name, value)
unfolding cut
cut-entry [] value h = refl
cut-entry (b ∷ bs) value h = rw (h.0, cut-entry bs value h.1) refl

name_byte-free : (first : Bool) (b : ℕ) → name_byte first b ≡ true → (b == b'=') ≡ false
unfolding name_byte
name_byte-free true b h = ground arith
name_byte-free false b h = ground arith

name_bytes-Free : (first : Bool) (bs : Bytes) → name_bytes first bs ≡ true → Free bs
unfolding name_bytes
name_bytes-Free first [] h = tt
name_bytes-Free first (b ∷ bs) h = elim (Bool-cases (name_byte first b)) [
  | inl e ↦ (name_byte-free first b e, name_bytes-Free false bs (rw e at h))
  | inr e ↦ ground arith
]

pub validate_env_name-Free : (name : Bytes) → validate_env_name name ≡ true → Free name
unfolding validate_env_name
validate_env_name-Free [] h = tt
validate_env_name-Free (b ∷ bs) h = name_bytes-Free true (b ∷ bs) h

pub get-put-other : (q n v : Bytes) (m : Vars) → same q n ≡ false → get q (put n v m) ≡ get q m
unfolding get put
get-put-other q n v [] h = rw h refl
get-put-other q n v ((n2, v2) ∷ m) h = elim (Bool-cases (same n n2)) [
  | inl e ↦ rw e (rw (sym ((same_iff n n2).0 e)) (rw h refl))
  | inr e ↦ rw e (ap (λ o. if same q n2 then some v2 else o) (get-put-other q n v m h))
]

pub put-Keyed : (n v : Bytes) (m : Vars) → Free n → Keyed m → Keyed (put n v m)
unfolding put get
put-Keyed n v [] free h = (free, refl, tt)
put-Keyed n v ((n2, v2) ∷ m) free h = elim (Bool-cases (same n n2)) [
  | inl e ↦ rw e h
  | inr e ↦ rw e (h.0, get-put-other n2 n v m (flipped n n2 e) ∙ h.1, put-Keyed n v m free h.2)
]
  where
    flipped : (a b : Bytes) → same a b ≡ false → same b a ≡ false
    flipped a b e = elim (Bool-cases (same b a)) [
      | inl k ↦
          let bad : true ≡ false = sym (same_refl a) ∙ ap (same a) (sym ((same_iff b a).0 k)) ∙ e in
          ground arith
      | inr k ↦ k
    ]
