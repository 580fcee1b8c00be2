-- ===== src/Spawn/Split.antt =====
-- cmd/hoot/serve_spawn.go, splitCmd: the words of a command line, on the runes of the text.
use hootty.Base.{
  ℕ, Bool, true, false, ◌||◌, Option, none, some, List, [], ◌∷◌, ◌++◌, append-nil, append_assoc,
  ◌≡◌, sym, ap, ◌∙◌, ◌==◌, ==_refl, if◌then◌else◌, All,
}

abbrev pub Word : Type 0
Word = List ℕ

pub data Split : Type 0 where
  words : List Word → Split
  unterminated : ℕ → Split

abbrev pub is_quote : ℕ → Bool
is_quote r = r == 0x22 || r == 0x27

abbrev pub is_blank : ℕ → Bool
is_blank r = r == 0x20 || r == 0x09 || r == 0x0a

abbrev pub flush : List Word → Word → List Word
flush out [] = out
flush out (c ∷ cs) = out ++ (c ∷ cs) ∷ []

-- The loop, with `quote` none for 0.
unfoldable pub split_loop : List ℕ → List Word → Word → Option ℕ → Split
split_loop [] out cur (some quote) = unterminated quote
split_loop [] out cur none = words (flush out cur)
split_loop (r ∷ rs) out cur (some quote) =
    let closed = split_loop rs out cur none in
    let inside = split_loop rs out (cur ++ r ∷ []) (some quote) in
    if r == quote then closed else inside
split_loop (r ∷ rs) out cur none =
    let opened = split_loop rs out cur (some r) in
    let flushed = split_loop rs (flush out cur) [] none in
    let more = split_loop rs out (cur ++ r ∷ []) none in
    if is_quote r then opened else if is_blank r then flushed else more

unfoldable pub split_cmd : List ℕ → Split
unfolding split_loop
split_cmd s = split_loop s [] [] none

-- A word and the quote that it is put in.
abbrev pub Quoted : Type 0
Quoted = ℕ × Word

abbrev pub CanQuote : Quoted → Type 0
CanQuote w = (is_quote w.0 ≡ true) × All (λ r. (r == w.0) ≡ false) w.1

unfoldable pub quoted_line : List Quoted → List ℕ
quoted_line [] = []
quoted_line ((q, w) ∷ ws) = q ∷ (w ++ q ∷ 0x20 ∷ quoted_line ws)

-- The words that are not empty.
unfoldable pub kept : List Quoted → List Word
kept [] = []
kept ((q, []) ∷ ws) = kept ws
kept ((q, r ∷ rs) ∷ ws) = (r ∷ rs) ∷ kept ws

split_loop-quoted :
    (w rest : List ℕ) (out : List Word) (cur : Word) (q : ℕ)
    → All (λ r. (r == q) ≡ false) w
    → split_loop (w ++ q ∷ rest) out cur (some q) ≡ split_loop rest out (cur ++ w) none
unfolding split_loop
split_loop-quoted [] rest out cur q h =
    rw (==_refl q) (ap (λ c. split_loop rest out c none) (sym (append-nil cur)))
split_loop-quoted (r ∷ w) rest out cur q h = rw h.0 (
    split_loop-quoted w rest out (cur ++ r ∷ []) q h.1
    ∙ ap (λ c. split_loop rest out c none) (append_assoc cur (r ∷ []) w))

split_loop-line :
    (ws : List Quoted) (out : List Word)
    → All CanQuote ws
    → split_loop (quoted_line ws) out [] none ≡ words (out ++ kept ws)
unfolding split_loop quoted_line kept
split_loop-line [] out h = ap words (sym (append-nil out))
split_loop-line ((q, []) ∷ ws) out h = rw (h.0.0, ==_refl q) (split_loop-line ws out h.1)
split_loop-line ((q, r ∷ rs) ∷ ws) out h = rw h.0.0 (
    split_loop-quoted (r ∷ rs) (0x20 ∷ quoted_line ws) out [] q h.0.1
    ∙ split_loop-line ws (out ++ (r ∷ rs) ∷ []) h.1
    ∙ ap words (append_assoc out ((r ∷ rs) ∷ []) (kept ws)))

-- A line of words, each in a quote that does not occur in it and with a blank behind, is split into
-- exactly the words that are not empty, in order.
pub split_cmd-quoted :
    (ws : List Quoted) → All CanQuote ws → split_cmd (quoted_line ws) ≡ words (kept ws)
unfolding split_cmd
split_cmd-quoted ws h = split_loop-line ws [] h
