-- ===== src/Restorer/Bounds.antt =====
-- The scratch buffer of the restorer.
use hootty.Base.{ℕ, ◌≤◌, [], ◌∷◌, arith, length, Bytes, length-append}
use hootty.Restorer.{HootRestorer, observe_byte, observe}

abbrev pub IsBounded : HootRestorer → Type 0
IsBounded r = length r.csi_buf ≤ 32

observe_byte-IsBounded : (r : HootRestorer) (b : ℕ) → IsBounded r → IsBounded (observe_byte r b)
unfolding observe_byte
observe_byte-IsBounded r b h = ground (arith, length-append r.csi_buf (b ∷ []))

-- From a state whose scratch buffer holds 32 bytes at most, whatever is observed leaves it so.
pub observe-IsBounded : (bs : Bytes) (r : HootRestorer) → IsBounded r → IsBounded (observe r bs)
unfolding observe
observe-IsBounded [] r h = h
observe-IsBounded (b ∷ bs) r h =
    observe-IsBounded bs (observe_byte r b) (observe_byte-IsBounded r b h)
