-- ===== src/Chord/Prefix.antt =====
-- The prefix key and the chord key in both of their encodings.
use hootty.Base.{
  ℕ, ◌-◌, suc, ◌+◌, ◌<◌, true, false, none, some, List, [], ◌∷◌, ◌++◌, map, ◌≡◌, ◌≢◌, ◌≤◌, ◌⊎◌, inl,
  inr, refl, ap, ◌∙◌, arith, length, Bytes, All, All-append, length-append,
}
use hootty.Stripper.Query.{esc, is_final}
use hootty.Chord.{
  KeyEvent, raw_event, csi_event, Action, forward_bytes, detach, normal, after_pref, Stopped,
  has_ctrl, is_prefix_codepoint, is_prefix_key, match_chord, fsm_step, run_loop, run_chord_fsm,
}
use hootty.Chord.Keys.{read_key_event-Taken, Reads, Reads-byte, Reads-csi}
use hootty.Chord.Run.{run_loop-step, run_loop-stop}
use hootty.Chord.Params.{Group, Group-params, parse_csi_u_params-mod, parse_csi_u_params-cp}

abbrev pub typed : Bytes → List Action
typed bs = map (λ b. forward_bytes (b ∷ [])) bs

-- A typed byte: no escape, and not the prefix key.
abbrev pub IsTyped : ℕ → ℕ → Type 0
IsTyped prefix b = (b ≢ esc) × (b ≢ prefix)

abbrev behind : Bytes → Stopped → Stopped
behind text s = record s { actions = typed text ++ s.actions }

fsm_step-typed :
    (prefix b : ℕ)
    → IsTyped prefix b
    → fsm_step prefix normal (raw_event (b ∷ [])) ≡ (forward_bytes (b ∷ []) ∷ [], some normal)
unfolding fsm_step is_prefix_key
fsm_step-typed prefix b h = ground arith

run_loop-typed :
    (text rest : Bytes) (fuel prefix : ℕ)
    → All (IsTyped prefix) text
    → run_loop (length text + fuel) prefix normal (text ++ rest)
      ≡ behind text (run_loop fuel prefix normal rest)
run_loop-typed [] rest fuel prefix h = ap (λ n. run_loop n prefix normal rest) (omega arith)
run_loop-typed (b ∷ text) rest fuel prefix h =
    let more : suc (length text) + fuel ≡ suc (length text + fuel) = omega arith in
    ap (λ n. run_loop n prefix normal (b ∷ (text ++ rest))) more
    ∙ run_loop-step (length text + fuel) prefix normal normal (b ∷ (text ++ rest)) (text ++ rest)
        (raw_event (b ∷ [])) (forward_bytes (b ∷ []) ∷ []) (Reads-byte b h.0.0 (text ++ rest))
        (fsm_step-typed prefix b h.0)
    ∙ ap (behind (b ∷ [])) (run_loop-typed text rest fuel prefix h.1)

-- The bytes of the prefix key: the byte itself, or a CSI u report with ctrl, of a press, whose
-- codepoint or alternate codepoint is one that yields it. An event tag of 0, 1 or none is a press.
pub data PrefixKey (prefix : ℕ) : Bytes → Type 0 where
  legacy : prefix ≢ esc → PrefixKey prefix (prefix ∷ [])
  kitty :
      (g h : Bytes) (cp alt mods event : ℕ)
      → Group g cp alt
      → Group h mods event
      → (is_prefix_codepoint prefix cp ≡ true)
        ⊎ ((alt ≢ 0) × (is_prefix_codepoint prefix alt ≡ true))
      → has_ctrl mods ≡ true
      → event ≤ 1
      → PrefixKey prefix (esc ∷ b'[' ∷ ((g ++ b';' ∷ h) ++ b'u' ∷ []))

-- The bytes of a plain `.`: the byte itself, or a CSI u report of its codepoint, which may be the
-- alternate one, with no modifiers or, for a press, with some that are not ctrl.
pub data DotKey : Bytes → Type 0 where
  legacy : DotKey (b'.' ∷ [])
  kitty :
      (g : Bytes) (cp alt : ℕ)
      → Group g cp alt
      → (cp ≡ b'.') ⊎ (alt ≡ b'.')
      → DotKey (esc ∷ b'[' ∷ (g ++ b'u' ∷ []))
  kitty_modified :
      (g h : Bytes) (cp alt mods event : ℕ)
      → Group g cp alt
      → Group h mods event
      → (cp ≡ b'.') ⊎ (alt ≡ b'.')
      → has_ctrl mods ≡ false
      → event ≤ 1
      → DotKey (esc ∷ b'[' ∷ ((g ++ b';' ∷ h) ++ b'u' ∷ []))

record KeyRead (k : Bytes) (P : KeyEvent → Type 0) : Type 0 where
  ev : KeyEvent
  reads : Reads k ev
  holds : P ev

groups-params :
    (g h : Bytes) (a b c d : ℕ)
    → Group g a b
    → Group h c d
    → All (λ x. is_final x ≡ false) (g ++ b';' ∷ h)
groups-params g h a b c d k l =
    All-append (λ x. is_final x ≡ false) g (b';' ∷ h) (Group-params g a b k)
      (refl, Group-params h c d l)

-- What a report of these numbers is to the loop.
abbrev report : Bytes → ℕ → ℕ → ℕ → ℕ → KeyEvent
report raw cp alt mods event = record {
  raw = raw;
  csi_u = true;
  cp = cp;
  alt_cp = alt;
  mod_param = mods;
  event = event;
}

report-prefix :
    (prefix : ℕ) (raw : Bytes) (cp alt mods event : ℕ)
    → (is_prefix_codepoint prefix cp ≡ true) ⊎ ((alt ≢ 0) × (is_prefix_codepoint prefix alt ≡ true))
    → has_ctrl mods ≡ true
    → event ≤ 1
    → is_prefix_key prefix (report raw cp alt mods event) ≡ true
unfolding is_prefix_key
report-prefix prefix raw cp alt mods event (inl named) ctrl press = ground (arith, named, ctrl)
report-prefix prefix raw cp alt mods event (inr (there, named)) ctrl press =
    ground (arith, there, named, ctrl)

report-dot :
    (prefix : ℕ) (raw : Bytes) (cp alt mods event : ℕ)
    → (cp ≡ b'.') ⊎ (alt ≡ b'.')
    → has_ctrl mods ≡ false
    → event ≤ 1
    → fsm_step prefix after_pref (report raw cp alt mods event) ≡ (detach ∷ [], none)
unfolding fsm_step match_chord
report-dot prefix raw cp alt mods event (inl dot) plain press = ground (arith, dot, plain)
report-dot prefix raw cp alt mods event (inr dot) plain press = ground (arith, dot, plain)

PrefixKey-read :
    (prefix : ℕ) (k : Bytes) → PrefixKey prefix k → KeyRead k (λ ev. is_prefix_key prefix ev ≡ true)
unfolding is_prefix_key
PrefixKey-read prefix k (legacy h) = record {
  ev = raw_event (prefix ∷ []);
  reads = Reads-byte prefix h;
  holds = ground arith;
}
PrefixKey-read prefix k (kitty g h cp alt mods event hg hh named ctrl press) = record {
  ev = csi_event k (g ++ b';' ∷ h) b'u';
  reads = Reads-csi (g ++ b';' ∷ h) b'u' (groups-params g h cp alt mods event hg hh) refl;
  holds =
      rw (parse_csi_u_params-mod g h cp alt mods event hg hh)
        (report-prefix prefix k cp alt mods event named ctrl press);
}

DotKey-read :
    (prefix : ℕ) (k : Bytes)
    → DotKey k
    → KeyRead k (λ ev. fsm_step prefix after_pref ev ≡ (detach ∷ [], none))
unfolding fsm_step match_chord
DotKey-read prefix k legacy = record {
  ev = raw_event (b'.' ∷ []);
  reads = Reads-byte b'.' (omega arith);
  holds = refl;
}
DotKey-read prefix k (kitty g cp alt hg dot) = record {
  ev = csi_event k g b'u';
  reads = Reads-csi g b'u' (Group-params g cp alt hg) refl;
  holds =
      rw (parse_csi_u_params-cp g cp alt hg)
        (report-dot prefix k cp alt 0 0 dot refl (omega arith));
}
DotKey-read prefix k (kitty_modified g h cp alt mods event hg hh dot plain press) = record {
  ev = csi_event k (g ++ b';' ∷ h) b'u';
  reads = Reads-csi (g ++ b';' ∷ h) b'u' (groups-params g h cp alt mods event hg hh) refl;
  holds =
      rw (parse_csi_u_params-mod g h cp alt mods event hg hh)
        (report-dot prefix k cp alt mods event dot plain press);
}

pub fsm_step-prefix :
    (prefix : ℕ) (ev : KeyEvent)
    → is_prefix_key prefix ev ≡ true
    → fsm_step prefix normal ev ≡ ([], some after_pref)
unfolding fsm_step
fsm_step-prefix prefix ev h = rw h refl

KeyRead-longer :
    (k rest : Bytes) (P : KeyEvent → Type 0) → KeyRead k P → length rest < length (k ++ rest)
KeyRead-longer k rest P r = (read_key_event-Taken (k ++ rest) r.ev rest (r.reads rest)).shorter

run_loop-detach :
    (prefix fuel : ℕ) (p d rest : Bytes)
    → PrefixKey prefix p
    → DotKey d
    → run_loop (suc (suc fuel)) prefix normal (p ++ (d ++ rest))
      ≡ record { actions = detach ∷ []; state = none; left = rest }
run_loop-detach prefix fuel p d rest hp hd =
    let first = PrefixKey-read prefix p hp in
    let second = DotKey-read prefix d hd in
    run_loop-step (suc fuel) prefix normal after_pref (p ++ (d ++ rest)) (d ++ rest) first.ev []
      (first.reads (d ++ rest)) (fsm_step-prefix prefix first.ev first.holds)
    ∙ run_loop-stop fuel prefix after_pref (d ++ rest) rest second.ev (detach ∷ [])
        (second.reads rest) second.holds

-- Typed text, then the prefix key, then `.`, each of the two as its byte or as a CSI u report of a
-- press, by its codepoint or by its alternate one, with or without an event tag: the text is
-- forwarded byte by byte, the client detaches, and the loop returns without reading what follows.
-- The prefix is not ESC where it is sent as a byte; the prefix is reported with ctrl, `.` without.
pub run_chord_fsm-detach :
    (prefix : ℕ) (text p d rest : Bytes)
    → All (IsTyped prefix) text
    → PrefixKey prefix p
    → DotKey d
    → run_chord_fsm prefix (text ++ (p ++ (d ++ rest)))
      ≡ record { actions = typed text ++ detach ∷ []; state = none; left = rest }
unfolding run_chord_fsm
run_chord_fsm-detach prefix text p d rest h hp hd =
    ap (λ n. run_loop n prefix normal (text ++ (p ++ (d ++ rest)))) enough
    ∙ run_loop-typed text (p ++ (d ++ rest)) (suc (suc spare)) prefix h
    ∙ ap (behind text) (run_loop-detach prefix spare p d rest hp hd)
  where
    spare : ℕ
    spare = length (p ++ (d ++ rest)) - 1

    enough : length (text ++ (p ++ (d ++ rest))) + 1 ≡ length text + suc (suc spare)
    enough = omega (
      arith,
      length-append text (p ++ (d ++ rest)),
      KeyRead-longer p (d ++ rest) _ (PrefixKey-read prefix p hp),
    )
