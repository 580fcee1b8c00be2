-- ===== src/Pty/Split.antt =====
-- pty_libghostty.go, splitSnapshotRows: the rows of a snapshot that have left the screen.
use hootty.Base.{
  ℕ, zero, suc, ◌+◌, ◌<◌, min, ◌&&◌, ◌||◌, true, false, Option, none, some, [], ◌∷◌, ◌++◌, ◌≡◌,
  refl, sym, ap, ◌∙◌, ◌⊎◌, inl, inr, arith, ◌==◌, if◌then◌else◌, length, Bytes, append_assoc,
  append-nil, Bool-cases,
}

abbrev pub prepend : ℕ → Option (Bytes × Bytes) → Option (Bytes × Bytes)
prepend a none = none
prepend a (some (line, rest)) = some (a ∷ line, rest)

-- `bytes.Index(rest, "\r\n")`: the bytes up to the line end and with it, and those behind.
unfoldable pub cut_line : Bytes → Option (Bytes × Bytes)
cut_line [] = none
cut_line (a ∷ []) = none
cut_line (a ∷ b ∷ bs) =
    let later = cut_line (b ∷ bs) in
    if a == b'\r' && b == b'\n' then some (a ∷ b ∷ [], bs) else prepend a later

abbrev pub under : Bytes → Option (Bytes × Bytes) → Option (Bytes × Bytes)
under line none = none
under line (some (lines, rest)) = some (line ++ lines, rest)

-- The loop; none is its return inside.
unfoldable pub split_loop : ℕ → Bytes → Option (Bytes × Bytes)
unfolding cut_line
split_loop zero rest = some ([], rest)
split_loop (suc rows) rest = elim (cut_line rest) [
  | none ↦ none
  | some (line, rest) ↦ under line (split_loop rows rest)
]

unfoldable pub split_snapshot_rows : Bytes → ℕ → Bytes × Bytes
unfolding split_loop
split_snapshot_rows snap rows =
    if rows == 0 || length snap == 0
    then ([], snap)
    else elim (split_loop rows snap) [ none ↦ (snap, []) | some parts ↦ parts ]

-- The line ends of some bytes.
unfoldable pub line_ends : Bytes → ℕ
line_ends [] = 0
line_ends (a ∷ []) = 0
line_ends (a ∷ b ∷ bs) =
    let more = line_ends bs in
    let fewer = line_ends (b ∷ bs) in if a == b'\r' && b == b'\n' then suc more else fewer

-- What cut_line finds: the bytes up to the first line end.
abbrev Cuts : Bytes → Option (Bytes × Bytes) → Type 0
Cuts bs none = line_ends bs ≡ 0
Cuts bs (some (line, rest)) =
    (line ++ rest ≡ bs) × ((xs : Bytes) → line_ends (line ++ xs) ≡ suc (line_ends xs))

prepend-Cuts :
    (a b : ℕ) (bs : Bytes) (o : Option (Bytes × Bytes))
    → (a == b'\r' && b == b'\n') ≡ false
    → Cuts (b ∷ bs) o
    → Cuts (a ∷ b ∷ bs) (prepend a o)
unfolding line_ends
prepend-Cuts a b bs none h v = ground (arith, v, h)
prepend-Cuts a b bs (some ([], rest)) h (whole, adds) = absurd (omega (arith, adds []))
prepend-Cuts a b bs (some (c ∷ line, rest)) h (whole, adds) =
    let c_is_b : c ≡ b = grind (arith, whole) in
    (ap (◌∷◌ a) whole, λ xs. ground (arith, h, c_is_b, adds xs))

cut_line-Cuts : (bs : Bytes) → Cuts bs (cut_line bs)
unfolding cut_line line_ends
cut_line-Cuts [] = refl
cut_line-Cuts (a ∷ []) = refl
cut_line-Cuts (a ∷ b ∷ bs) = elim (Bool-cases (a == b'\r' && b == b'\n')) [
  | inl e ↦ rw e (refl, λ xs. rw e refl)
  | inr e ↦ rw e (prepend-Cuts a b bs (cut_line (b ∷ bs)) e (cut_line-Cuts (b ∷ bs)))
]

-- What the loop finds: that many lines, or fewer line ends than that in all.
abbrev Splits : ℕ → Bytes → Option (Bytes × Bytes) → Type 0
Splits rows snap none = line_ends snap < rows
Splits rows snap (some (lines, rest)) =
    (lines ++ rest ≡ snap) × ((xs : Bytes) → line_ends (lines ++ xs) ≡ rows + line_ends xs)

under-Splits :
    (rows : ℕ) (snap line rest : Bytes) (o : Option (Bytes × Bytes))
    → Cuts snap (some (line, rest))
    → Splits rows rest o
    → Splits (suc rows) snap (under line o)
under-Splits rows snap line rest none (whole, adds) fewer =
    let all_ends : line_ends snap ≡ suc (line_ends rest) = ap line_ends (sym whole) ∙ adds rest in
    omega (arith, fewer, all_ends)
under-Splits rows snap line rest (some (lines, r)) (whole, adds) (w, a) = (
  append_assoc line lines r ∙ ap (line ++◌) w ∙ whole,
  λ xs. omega (arith, ap line_ends (append_assoc line lines xs), adds (lines ++ xs), a xs),
)

split_loop-cut :
    (rows : ℕ) (snap : Bytes) (o : Option (Bytes × Bytes))
    → ((rest : Bytes) → Splits rows rest (split_loop rows rest))
    → Cuts snap o
    → Splits
        (suc rows)
        snap
        (elim o [ none ↦ none | some (line, rest) ↦ under line (split_loop rows rest) ])
split_loop-cut rows snap none v c = omega (arith, c)
split_loop-cut rows snap (some (line, rest)) v c =
    under-Splits rows snap line rest (split_loop rows rest) c (v rest)

split_loop-Splits : (rows : ℕ) (snap : Bytes) → Splits rows snap (split_loop rows snap)
unfolding split_loop line_ends
split_loop-Splits zero snap = (refl, λ xs. omega arith)
split_loop-Splits (suc rows) snap =
    split_loop-cut rows snap (cut_line snap) (split_loop-Splits rows) (cut_line-Cuts snap)

either_zero : (m n : ℕ) → (m == 0 || n == 0) ≡ true → (m ≡ 0) ⊎ (n ≡ 0)
either_zero m n h = ground arith

-- What splitSnapshotRows promises of its two parts.
pub record IsSplit (snap : Bytes) (rows : ℕ) (parts : Bytes × Bytes) : Type 0 where
  pub whole : parts.0 ++ parts.1 ≡ snap
  pub lines : line_ends parts.0 ≡ min rows (line_ends snap)

Splits-IsSplit :
    (rows : ℕ) (snap : Bytes) (o : Option (Bytes × Bytes))
    → Splits rows snap o
    → IsSplit snap rows (elim o [ none ↦ (snap, []) | some parts ↦ parts ])
unfolding line_ends
Splits-IsSplit rows snap none v = record { whole = append-nil snap; lines = omega (arith, v) }
Splits-IsSplit rows snap (some (lines, rest)) (w, a) =
    let here : line_ends lines ≡ rows + 0 = ap line_ends (sym (append-nil lines)) ∙ a [] in
    let there : line_ends snap ≡ rows + line_ends rest = ap line_ends (sym w) ∙ a rest in
    record { whole = w; lines = omega (arith, here, there) }

-- splitSnapshotRows loses no byte and makes none up: its two parts in order are the snapshot, and
-- the first holds as many line ends as there are rows of scrollback, or all where there are fewer.
pub split_snapshot_rows-IsSplit :
    (snap : Bytes) (rows : ℕ) → IsSplit snap rows (split_snapshot_rows snap rows)
unfolding split_snapshot_rows line_ends
split_snapshot_rows-IsSplit snap rows = elim (Bool-cases (rows == 0 || length snap == 0)) [
  | inl e ↦ rw e (record { whole = refl; lines = no_lines snap e })
  | inr e ↦ rw e (Splits-IsSplit rows snap (split_loop rows snap) (split_loop-Splits rows snap))
]
  where
    no_lines :
        (snap : Bytes) → (rows == 0 || length snap == 0) ≡ true → 0 ≡ min rows (line_ends snap)
    no_lines [] h = omega arith
    no_lines (b ∷ bs) h = elim (either_zero rows (length (b ∷ bs)) h) [
      | inl e ↦ omega (arith, e)
      | inr e ↦ omega (arith, e)
    ]
