-- ===== src/Registry/Sorted.antt =====
-- The order of the snapshot.
use hootty.Base.{
  Bool, ℕ, ◌+◌, ◌≤◌, List, [], ◌∷◌, ◌≡◌, refl, arith, ltb, if◌then◌else◌, All, Bool-cases, inl, inr,
}
use hootty.Registry.{AttachmentRecord, AttachRegistry, sink, sort_onto, reversed, records, snapshot}

-- Later to earlier, and earlier to later.
abbrev Falling : List AttachmentRecord → Type 0
Falling [] = Unit
Falling (x ∷ xs) = All (λ y. y.started_at ≤ x.started_at) xs × Falling xs

abbrev pub Rising : List AttachmentRecord → Type 0
Rising [] = Unit
Rising (x ∷ xs) = All (λ y. x.started_at ≤ y.started_at) xs × Rising xs

-- How often `p` holds in a list.
abbrev pub count : (AttachmentRecord → Bool) → List AttachmentRecord → ℕ
count p [] = 0
count p (x ∷ xs) = (if p x then 1 else 0) + count p xs

All-sink :
    (bound : ℕ) (x : AttachmentRecord) (ys : List AttachmentRecord)
    → x.started_at ≤ bound
    → All (λ y. y.started_at ≤ bound) ys
    → All (λ y. y.started_at ≤ bound) (sink x ys)
unfolding sink
All-sink bound x [] h k = (h, tt)
All-sink bound x (y ∷ ys) h k = elim (Bool-cases (ltb x.started_at y.started_at)) [
  | inl e ↦ rw e (k.0, All-sink bound x ys h k.1)
  | inr e ↦ rw e (h, k)
]

All-le :
    (a b : ℕ) (ys : List AttachmentRecord)
    → a ≤ b
    → All (λ y. y.started_at ≤ a) ys
    → All (λ y. y.started_at ≤ b) ys
All-le a b [] h k = tt
All-le a b (y ∷ ys) h k = (omega (arith, k.0), All-le a b ys h k.1)

sink-Falling :
    (x : AttachmentRecord) (ys : List AttachmentRecord) → Falling ys → Falling (sink x ys)
unfolding sink
sink-Falling x [] h = (tt, tt)
sink-Falling x (y ∷ ys) h = elim (Bool-cases (ltb x.started_at y.started_at)) [
  | inl e ↦ rw e (All-sink y.started_at x ys (ground arith) h.0, sink-Falling x ys h.1)
  | inr e ↦
      let below : y.started_at ≤ x.started_at = ground arith in
      rw e ((below, All-le y.started_at x.started_at ys below h.0), h)
]

sort_onto-Falling : (xs ys : List AttachmentRecord) → Falling ys → Falling (sort_onto ys xs)
unfolding sort_onto
sort_onto-Falling [] ys h = h
sort_onto-Falling (x ∷ xs) ys h = sort_onto-Falling xs (sink x ys) (sink-Falling x ys h)

Above : List AttachmentRecord → List AttachmentRecord → Type 0
Above out [] = Unit
Above out (x ∷ xs) = All (λ y. x.started_at ≤ y.started_at) out × Above out xs

Above-cons :
    (x : AttachmentRecord) (out xs : List AttachmentRecord)
    → All (λ y. y.started_at ≤ x.started_at) xs
    → Above out xs
    → Above (x ∷ out) xs
unfolding Above
Above-cons x out [] h a = tt
Above-cons x out (y ∷ xs) h a = ((h.0, a.0), Above-cons x out xs h.1 a.1)

reversed-Rising :
    (xs out : List AttachmentRecord)
    → Falling xs
    → Rising out
    → Above out xs
    → Rising (reversed out xs)
unfolding Above
reversed-Rising [] out f r a = r
reversed-Rising (x ∷ xs) out f r a =
    reversed-Rising xs (x ∷ out) f.1 (a.0, r) (Above-cons x out xs f.0 a.1)

Above-nothing : (xs : List AttachmentRecord) → Above [] xs
unfolding Above
Above-nothing [] = tt
Above-nothing (x ∷ xs) = (tt, Above-nothing xs)

count-sink :
    (p : AttachmentRecord → Bool) (x : AttachmentRecord) (ys : List AttachmentRecord)
    → count p (sink x ys) ≡ count p (x ∷ ys)
unfolding sink
count-sink p x [] = refl
count-sink p x (y ∷ ys) = elim (Bool-cases (ltb x.started_at y.started_at)) [
  | inl e ↦ rw e (omega (arith, count-sink p x ys))
  | inr e ↦ rw e refl
]

count-sort_onto :
    (p : AttachmentRecord → Bool) (xs ys : List AttachmentRecord)
    → count p (sort_onto ys xs) ≡ count p ys + count p xs
unfolding sort_onto
count-sort_onto p [] ys = omega arith
count-sort_onto p (x ∷ xs) ys = omega (arith, count-sort_onto p xs (sink x ys), count-sink p x ys)

count-reversed :
    (p : AttachmentRecord → Bool) (xs out : List AttachmentRecord)
    → count p (reversed out xs) ≡ count p out + count p xs
count-reversed p [] out = omega arith
count-reversed p (x ∷ xs) out = omega (arith, count-reversed p xs (x ∷ out))

-- The snapshot is ordered by the time of the attachment, earliest first, and holds every member's
-- record as often as the registry does, whatever order the map is walked in.
pub snapshot-Rising :
    (r : AttachRegistry) (p : AttachmentRecord → Bool)
    → Rising (snapshot r) × (count p (snapshot r) ≡ count p (records r.members))
unfolding snapshot
snapshot-Rising r p =
    let sorted = sort_onto [] (records r.members) in
    (
      reversed-Rising sorted [] (sort_onto-Falling (records r.members) [] tt) tt
          (Above-nothing sorted),
      omega (arith, count-reversed p sorted [], count-sort_onto p (records r.members) []),
    )
