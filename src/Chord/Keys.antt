-- ===== src/Chord/Keys.antt =====
-- How the input splits into keys: no byte is lost, and what a whole key reads as.
use hootty.Base.{
  ℕ, ◌≤◌, ◌<◌, true, false, none, some, [], ◌∷◌, ◌++◌, ◌≡◌, ◌≢◌, refl, ap, ◌∙◌, arith, length,
  Bytes, All, append_assoc, append-nil,
}
use hootty.Stripper.Query.{esc, is_final}
use hootty.Chord.{KeyEvent, raw_event, csi_event, read_csi, read_key_event}

-- The event and the rest are the input, and the event has a byte at least.
pub record Taken (input : Bytes) (ev : KeyEvent) (rest : Bytes) : Type 0 where
  pub splits : input ≡ ev.raw ++ rest
  pub shorter : length rest < length input

csi_event-raw : (raw params : Bytes) (f : ℕ) → (csi_event raw params f).raw ≡ raw
csi_event-raw raw params f = ground arith

read_csi-raw :
    (bs raw params : Bytes)
    → raw ++ bs ≡ (read_csi raw params bs).0.raw ++ (read_csi raw params bs).1
unfolding read_csi
read_csi-raw [] raw params = refl
read_csi-raw (b ∷ bs) raw params = ground (
  arith,
  csi_event-raw (raw ++ b ∷ []) params b,
  read_csi-raw bs (raw ++ b ∷ []) (params ++ b ∷ []),
  append_assoc raw (b ∷ []) bs,
)

read_csi-shorter : (bs raw params : Bytes) → length (read_csi raw params bs).1 ≤ length bs
unfolding read_csi
read_csi-shorter [] raw params = omega arith
read_csi-shorter (b ∷ bs) raw params =
    ground (arith, read_csi-shorter bs (raw ++ b ∷ []) (params ++ b ∷ []))

-- Reading a key takes the bytes of its event off the input, in their order, and at least one.
pub read_key_event-Taken :
    (input : Bytes) (ev : KeyEvent) (rest : Bytes)
    → read_key_event input ≡ some (ev, rest)
    → Taken input ev rest
unfolding read_key_event
read_key_event-Taken [] ev rest h = ground arith
read_key_event-Taken (b ∷ []) ev rest h = record { splits = ground arith; shorter = ground arith }
read_key_event-Taken (b ∷ b2 ∷ bs) ev rest h = record {
  splits = ground (arith, read_csi-raw bs (b ∷ b2 ∷ []) []);
  shorter = ground (arith, read_csi-shorter bs (b ∷ b2 ∷ []) []);
}

pub read_key_event-none : (input : Bytes) → read_key_event input ≡ none → input ≡ []
unfolding read_key_event
read_key_event-none [] h = refl
read_key_event-none (b ∷ []) h = ground arith
read_key_event-none (b ∷ b2 ∷ bs) h = ground arith

-- The bytes `k` read as the event `ev`, whatever follows.
abbrev pub Reads : Bytes → KeyEvent → Type 0
Reads k ev = (rest : Bytes) → read_key_event (k ++ rest) ≡ some (ev, rest)

pub Reads-byte : (b : ℕ) → b ≢ esc → Reads (b ∷ []) (raw_event (b ∷ []))
unfolding read_key_event
Reads-byte b h [] = refl
Reads-byte b h (c ∷ rest) = ground arith

read_csi-whole :
    (ps : Bytes) (f : ℕ) (rest raw params : Bytes)
    → All (λ b. is_final b ≡ false) ps
    → is_final f ≡ true
    → read_csi raw params (ps ++ f ∷ rest)
      ≡ (csi_event (raw ++ (ps ++ f ∷ [])) (params ++ ps) f, rest)
unfolding read_csi
read_csi-whole [] f rest raw params hp hf = rw (hf, append-nil params) refl
read_csi-whole (p ∷ ps) f rest raw params hp hf = rw hp.0 (
    read_csi-whole ps f rest (raw ++ p ∷ []) (params ++ p ∷ []) hp.1 hf
    ∙ rw (append_assoc raw (p ∷ []) (ps ++ f ∷ []), append_assoc params (p ∷ []) ps))

pub Reads-csi :
    (ps : Bytes) (f : ℕ)
    → All (λ b. is_final b ≡ false) ps
    → is_final f ≡ true
    → Reads (esc ∷ b'[' ∷ (ps ++ f ∷ [])) (csi_event (esc ∷ b'[' ∷ (ps ++ f ∷ [])) ps f)
unfolding read_key_event
Reads-csi ps f hp hf rest =
    rw (append_assoc ps (f ∷ []) rest)
      (ap some (read_csi-whole ps f rest (esc ∷ b'[' ∷ []) [] hp hf))
