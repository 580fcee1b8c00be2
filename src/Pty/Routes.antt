-- ===== src/Pty/Routes.antt =====
-- pty_libghostty_routes.go: the HTTP handlers of the PTY. A response is its status and, where it
-- succeeds, its body; the text of an error is not modelled.
use hootty.Base.{
  ℕ, ◌+◌, Bool, true, false, not, ◌&&◌, ◌||◌, Option, none, some, [], ◌∷◌, ◌++◌, ltb, ◌==◌,
  if◌then◌else◌, length, take, Bytes, same,
}
use hootty.Pty.{Emulator, LibghosttyPty, FormatterFormat, plain, vt, html, write}
use hootty.Pty.Requests.{
  format_bytes, bracketed_paste_active, resize, resized, setsize_failed, term_failed,
}
use hootty.Stripper.Query.{esc}

pub data Method : Type 0 where
  get post other_method : Method

pub record Response : Type 0 where
  pub status : ℕ
  pub body : Bytes

abbrev pub reply : ℕ → Response
reply status = record { status = status; body = [] }

abbrev pub input_body_cap : ℕ
input_body_cap = 1048576

-- `\x1b[200~` and `\x1b[201~`
abbrev pub paste_start : Bytes
paste_start = esc ∷ b'[' ∷ b'2' ∷ b'0' ∷ b'0' ∷ b'~' ∷ []

abbrev pub paste_end : Bytes
paste_end = esc ∷ b'[' ∷ b'2' ∷ b'0' ∷ b'1' ∷ b'~' ∷ []

abbrev pub begins : Bytes → Bytes → Bool
begins [] bs = true
begins (x ∷ xs) [] = false
begins (x ∷ xs) (b ∷ bs) = x == b && begins xs bs

-- bytes.Contains
unfoldable pub contains : Bytes → Bytes → Bool
contains bs [] = begins bs []
contains needle (b ∷ bs) = begins needle (b ∷ bs) || contains needle bs

-- The query parameter `paste`.
pub data PasteMode : Type 0 where
  paste_off paste_on paste_bad : PasteMode

unfoldable pub paste_mode : Bytes → PasteMode
paste_mode paste =
    if length paste == 0 || same paste (b'o' ∷ b'f' ∷ b'f' ∷ [])
    then paste_off
    else if same paste (b'o' ∷ b'n' ∷ [])
    then paste_on
    else paste_bad

module _ {T : Type 0} (E : Emulator T) where
  -- handleText, handleHTML and handleVT are the same but for the format.
  unfoldable pub handle_format : FormatterFormat → LibghosttyPty T → Method → Response
  unfolding format_bytes
  handle_format f p get = elim (format_bytes E f p) [
    | none ↦ reply 500
    | some out ↦ record { status = 200; body = out }
  ]
  handle_format f p method = reply 405

  unfoldable pub handle_text : LibghosttyPty T → Method → Response
  unfolding handle_format
  handle_text p method = handle_format plain p method

  unfoldable pub handle_html : LibghosttyPty T → Method → Response
  unfolding handle_format
  handle_html p method = handle_format html p method

  unfoldable pub handle_vt : LibghosttyPty T → Method → Response
  unfolding handle_format
  handle_vt p method = handle_format vt p method

  -- The end of handleInput.
  unfoldable pub write_input : LibghosttyPty T → Bytes → LibghosttyPty T × Response
  unfolding write
  write_input p data_ = let (p, ok) = write p data_ in (p, if ok then reply 204 else reply 500)

  unfoldable pub write_pasted : LibghosttyPty T → Bytes → LibghosttyPty T × Response
  unfolding write_input contains bracketed_paste_active
  write_pasted p data_ =
      if contains paste_end data_
      then (p, reply 400)
      else if not (bracketed_paste_active E p)
      then (p, reply 409)
      else write_input p (paste_start ++ data_ ++ paste_end)

  -- `body` is what the body yields, none where it fails; LimitReader lets one byte more than the
  -- cap through.
  unfoldable pub handle_input :
      LibghosttyPty T → Method → Option Bytes → Bytes → LibghosttyPty T × Response
  unfolding paste_mode write_pasted write_input
  handle_input p post none paste = (p, reply 400)
  handle_input p post (some body) paste =
      let data_ = take (input_body_cap + 1) body in
      if ltb input_body_cap (length data_) then (p, reply 413) else elim (paste_mode paste) [
        | paste_off ↦ write_input p data_
        | paste_on ↦ write_pasted p data_
        | paste_bad ↦ (p, reply 400)
      ]
  handle_input p method body paste = (p, reply 405)

  -- `size` is the decoded body, none where it is no JSON of two uint16.
  unfoldable pub handle_resize :
      LibghosttyPty T → Method → Option (ℕ × ℕ) → Bool → ℕ → LibghosttyPty T × Response
  unfolding resize
  handle_resize p post none setsize now = (p, reply 400)
  handle_resize p post (some (cols, rows)) setsize now =
      let (q, result) = resize E p setsize now cols rows in
      if cols == 0 || rows == 0 then (p, reply 400) else (
        q,
        elim result [ resized ↦ reply 204 | setsize_failed ↦ reply 500 | term_failed ↦ reply 500 ],
      )
  handle_resize p method size setsize now = (p, reply 405)
