-- ===== src/Restorer.antt =====
-- cmd/hoot/attach_restorer.go, hootRestorer: what it observes of the output and what it writes to
-- restore the local terminal. An int32 is its bit pattern.
pub mod Sequences
pub mod Bounds
pub mod Observe
pub mod Decimal
pub mod Pieces
pub mod Reset
pub mod Balance
mod Tests
use hootty.Base.{
  ℕ, zero, suc, ◌+◌, ◌-◌, ◌*◌, ◌/◌, ◌%◌, Bool, true, false, ◌&&◌, ◌||◌, Option, none, some, List,
  [], ◌∷◌, ◌++◌, ltb, leb, ◌==◌, if◌then◌else◌, length, take, drop, Bytes, split_last, same, all,
}
use hootty.Io.{File, write_file}
use hootty.Stripper.Query.{esc, is_digit, is_final}
use hootty.Chord.{split_byte}
use Sequences.{hoot_cleanup_sequence}

pub record HootRestorer : Type 0 where
  pub kitty_pops : ℕ
  pub modify_other_keys : Bool
  pub csi_buf : Bytes

abbrev pub fresh : HootRestorer
fresh = record { kitty_pops = 0; modify_other_keys = false; csi_buf = [] }

abbrev pub u32_mod : ℕ
u32_mod = 4294967296

abbrev pub is_negative : ℕ → Bool
is_negative n = leb 2147483648 n

-- The number that digits write.
abbrev pub number_from : ℕ → Bytes → ℕ
number_from n [] = n
number_from n (d ∷ ds) = number_from (n * 10 + (d - b'0')) ds

-- strconv.Atoi where it is positive: an optional `+`, then digits, below 2 ^ 63.
abbrev pub positive_digits : Bytes → Option ℕ
positive_digits [] = none
positive_digits (d ∷ ds) =
    let n = number_from 0 (d ∷ ds) in
    if all is_digit (d ∷ ds) && ltb 0 n && ltb n 9223372036854775808 then some n else none

abbrev pub positive_int : Bytes → Option ℕ
positive_int [] = none
positive_int (c ∷ cs) = if c == b'+' then positive_digits cs else positive_digits (c ∷ cs)

-- parseCSIParamDefault
unfoldable pub parse_csi_param_default : Bytes → ℕ → ℕ
parse_csi_param_default params default = elim (positive_int params) [ none ↦ default | some n ↦ n ]

-- removeKittyKbdPop for a positive `n`; Observe runs on one goroutine, so the swap succeeds.
unfoldable pub remove_kitty_kbd_pop : HootRestorer → ℕ → HootRestorer
remove_kitty_kbd_pop r n =
    let next = (r.kitty_pops + u32_mod - n % u32_mod) % u32_mod in
    record r { kitty_pops = if is_negative next then 0 else next }

unfoldable pub observe_modify_other_keys : HootRestorer → Bytes → HootRestorer
observe_modify_other_keys r [] = record r { modify_other_keys = false }
observe_modify_other_keys r (c ∷ cs) =
    let (part, parts) = split_byte b';' (c ∷ cs) in
    if same part (b'4' ∷ [])
    then record r {
      modify_other_keys = elim parts [ [] ↦ false | second ∷ _ ↦ same second (b'2' ∷ []) ];
    }
    else r

-- The switch of observeCSI.
unfoldable pub observe_private : HootRestorer → ℕ → Bytes → ℕ → HootRestorer
unfolding parse_csi_param_default remove_kitty_kbd_pop observe_modify_other_keys
observe_private r private params final =
    if private == b'>' && final == b'u'
    then record r { kitty_pops = (r.kitty_pops + 1) % u32_mod }
    else if private == b'<' && final == b'u'
    then remove_kitty_kbd_pop r (parse_csi_param_default params 1)
    else if private == b'>' && final == b'm'
    then observe_modify_other_keys r params
    else r

-- observeCSI, which needs two bytes at least.
unfoldable pub observe_csi : HootRestorer → Bytes → HootRestorer
unfolding observe_private
observe_csi r [] = r
observe_csi r (private ∷ seq) = elim (split_last seq) [
  | none ↦ r
  | some (params, final) ↦ observe_private r private params final
]

-- One round of the loop of Observe.
unfoldable pub observe_byte : HootRestorer → ℕ → HootRestorer
unfolding observe_csi
observe_byte r b =
    let longer = r.csi_buf ++ b ∷ [] in
    let empty = record r { csi_buf = [] } in
    if length r.csi_buf == 0
    then (if b == esc then record r { csi_buf = b ∷ [] } else r)
    else if length r.csi_buf == 1
    then (if b == b'['
        then record r { csi_buf = longer }
        else if b == esc
        then record r { csi_buf = take 1 r.csi_buf }
        else empty)
    else if ltb 32 (length longer)
    then empty
    else if is_final b
    then record (observe_csi (record r { csi_buf = longer }) (drop 2 longer)) { csi_buf = [] }
    else record r { csi_buf = longer }

unfoldable pub observe : HootRestorer → Bytes → HootRestorer
unfolding observe_byte
observe r [] = r
observe r (b ∷ bs) = observe (observe_byte r b) bs

-- `%d` of a positive number; a digit is left on every round.
unfoldable pub decimal : ℕ → ℕ → Bytes
decimal zero n = []
decimal (suc fuel) n =
    let front = decimal fuel (n / 10) in
    if ltb n 10 then (b'0' + n) ∷ [] else front ++ (b'0' + n % 10) ∷ []

abbrev pub kitty_push : Bytes
kitty_push = esc ∷ b'[' ∷ b'>' ∷ b'u' ∷ []

abbrev pub modify_other_keys_off : Bytes
modify_other_keys_off = esc ∷ b'[' ∷ b'>' ∷ b'4' ∷ b';' ∷ b'0' ∷ b'm' ∷ []

-- What Cleanup pops of the kitty stack.
unfoldable pub kitty_pop : ℕ → Bytes
unfolding decimal
kitty_pop n =
    if n == 0 || is_negative n
    then []
    else if n == 1
    then esc ∷ b'[' ∷ b'<' ∷ b'u' ∷ []
    else esc ∷ b'[' ∷ b'<' ∷ (decimal (n + 1) n ++ b'u' ∷ [])

-- Attach: the push is counted where it is written.
unfoldable pub attach : HootRestorer → File → HootRestorer × File × Bool
attach r w =
    let (w, whole) = write_file w kitty_push in
    if whole
    then (record r { kitty_pops = (r.kitty_pops + 1) % u32_mod }, w, true)
    else (r, w, false)

-- Writes in a row, up to the first that fails; an empty string is no write.
unfoldable pub write_strings : File → List Bytes → File × Bool
write_strings w [] = (w, true)
write_strings w (s ∷ ss) =
    let (w, whole) = write_file w s in
    let rest = write_strings w ss in if whole then rest else (w, false)

-- The strings that Cleanup writes.
abbrev pub cleanup_strings : HootRestorer → List Bytes
cleanup_strings r =
    let off = if r.modify_other_keys then modify_other_keys_off ∷ [] else [] in
    let pops = kitty_pop r.kitty_pops in
    (if length pops == 0 then [] else pops ∷ []) ++ (off ++ hoot_cleanup_sequence)

unfoldable pub cleanup : HootRestorer → File → File × Bool
unfolding kitty_pop write_strings
cleanup r w = write_strings w (cleanup_strings r)
