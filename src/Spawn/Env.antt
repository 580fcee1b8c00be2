-- ===== src/Spawn/Env.antt =====
-- The child's environment: cmd/hoot/env_override.go (--env, --env-file), mergeEnv of spawn.go and
-- sanitizeChildEnv of service.go. A map of Go is a list of pairs in the order of one iteration.
-- The files, the process's own variables and strings.TrimSpace are parameters.
use hootty.Base.{
  ℕ, Bool, true, false, not, ◌&&◌, ◌||◌, Option, none, some, List, [], ◌∷◌, ◌++◌, ◌==◌, within,
  if◌then◌else◌, Bytes, same, one_of,
}

abbrev pub Vars : Type 0
Vars = List (Bytes × Bytes)

-- `strings.Cut(s, "=")`; none where there is no `=`.
unfoldable pub cut : Bytes → Option (Bytes × Bytes)
cut [] = none
cut (b ∷ bs) =
    let later = elim (cut bs) as (λ _. Option (Bytes × Bytes)) [
      | none ↦ none
      | some (name, value) ↦ some (b ∷ name, value)
    ] in
    if b == b'=' then some ([], bs) else later

-- `m[name]` and `m[name] = value`
unfoldable pub get : Bytes → Vars → Option Bytes
get name [] = none
get name ((n, v) ∷ m) = let later = get name m in if same name n then some v else later

unfoldable pub put : Bytes → Bytes → Vars → Vars
put name value [] = (name, value) ∷ []
put name value ((n, v) ∷ m) =
    let later = (n, v) ∷ put name value m in if same name n then (n, value) ∷ m else later

unfoldable pub put_all : Vars → Vars → Vars
unfolding put
put_all [] m = m
put_all ((n, v) ∷ vs) m = put_all vs (put n v m)

-- validateEnvName: a letter or `_`, then also digits.
unfoldable pub name_byte : Bool → ℕ → Bool
name_byte first b =
    b == b'_' || within b'A' b'Z' b || within b'a' b'z' b || (not first && within b'0' b'9' b)

unfoldable pub name_bytes : Bool → Bytes → Bool
unfolding name_byte
name_bytes first [] = true
name_bytes first (b ∷ bs) = name_byte first b && name_bytes false bs

unfoldable pub validate_env_name : Bytes → Bool
unfolding name_bytes
validate_env_name [] = false
validate_env_name (b ∷ bs) = name_bytes true (b ∷ bs)

pub data EnvError : Type 0 where
  no_file no_value bad_name not_set read_failed : EnvError

pub data Parsed : Type 0 where
  vars : Vars → Parsed
  refused : EnvError → Parsed

-- An opened file: the lines that the scanner yields, and whether it reaches the end.
pub record Scanned : Type 0 where
  pub lines : List Bytes
  pub whole : Bool

module _ (trim_space : Bytes → Bytes) where
  unfoldable pub parse_env_lines : List Bytes → Bool → Vars → Parsed
  unfolding cut put validate_env_name
  parse_env_lines [] true out = vars out
  parse_env_lines [] false out = refused read_failed
  parse_env_lines (l ∷ ls) whole out =
      let line = trim_space l in
      let next_line = parse_env_lines ls whole out in
      elim line [
        | [] ↦ next_line
        | b ∷ bs ↦ if b == b'#' then next_line else elim (cut (b ∷ bs)) [
          | none ↦ refused no_value
          | some (name, value) ↦
              let more = parse_env_lines ls whole (put name value out) in
              if validate_env_name name then more else refused bad_name
        ]
      ]

  unfoldable pub parse_env_file : Option Scanned → Parsed
  unfolding parse_env_lines
  parse_env_file none = refused no_file
  parse_env_file (some f) = parse_env_lines f.lines f.whole []

  module _ (open_file : Bytes → Option Scanned) (lookup : Bytes → Option Bytes) where
    unfoldable pub parse_files : List Bytes → Vars → Parsed
    unfolding parse_env_file put_all
    parse_files [] out = vars out
    parse_files (path ∷ paths) out = elim (parse_env_file (open_file path)) [
      | refused e ↦ refused e
      | vars values ↦ parse_files paths (put_all values out)
    ]

    unfoldable pub parse_specs : List Bytes → Vars → Parsed
    unfolding cut put validate_env_name
    parse_specs [] out = vars out
    parse_specs (spec ∷ specs) out = elim (cut spec) [
      | some (name, value) ↦
          let more = parse_specs specs (put name value out) in
          if validate_env_name name then more else refused bad_name
      | none ↦
          let found = elim (lookup spec) as (λ _. Parsed) [
            | none ↦ refused not_set
            | some value ↦ parse_specs specs (put spec value out)
          ] in
          if validate_env_name spec then found else refused bad_name
    ]

    unfoldable pub parse_env_overrides : List Bytes → List Bytes → Parsed
    unfolding parse_files parse_specs
    parse_env_overrides files specs = elim (parse_files files []) [
      | refused e ↦ refused e
      | vars out ↦ parse_specs specs out
    ]

-- `name + "=" + value`
abbrev pub entry : Bytes → Bytes → Bytes
entry name value = name ++ b'=' ∷ value

-- `overrides[name]`, which is empty for a name that is not there, and its tests.
abbrev pub value_of : Option Bytes → Bytes
value_of none = []
value_of (some v) = v

abbrev pub not_empty : Bytes → Bool
not_empty [] = false
not_empty (b ∷ bs) = true

abbrev pub is_some : Option Bytes → Bool
is_some none = false
is_some (some v) = true

-- The loop over the base: what it puts out, and the names that it has seen.
unfoldable pub merge_base : Vars → List Bytes → List Bytes × List Bytes
unfolding cut get
merge_base overrides [] = ([], [])
merge_base overrides (kv ∷ base) =
    let (out, seen) = merge_base overrides base in
    elim (cut kv) [
      | none ↦ (kv ∷ out, seen)
      | some (name, _) ↦
          let value = value_of (get name overrides) in
          if not_empty value
          then (entry name value ∷ out, name ∷ seen)
          else if is_some (get name overrides)
          then (entry name value ∷ out, name ∷ seen)
          else (kv ∷ out, seen)
    ]

-- The loop over the overrides.
unfoldable pub unseen : List Bytes → Vars → List Bytes
unseen seen [] = []
unseen seen ((name, value) ∷ overrides) =
    let rest = unseen seen overrides in if one_of name seen then rest else entry name value ∷ rest

unfoldable pub merge_env : List Bytes → Vars → List Bytes
unfolding merge_base unseen
merge_env base [] = base
merge_env base (o ∷ os) = let (out, seen) = merge_base (o ∷ os) base in out ++ unseen seen (o ∷ os)

abbrev pub term_name : Bytes
term_name = b'T' ∷ b'E' ∷ b'R' ∷ b'M' ∷ []

abbrev pub tmux_name : Bytes
tmux_name = b'T' ∷ b'M' ∷ b'U' ∷ b'X' ∷ []

abbrev pub tmux_pane_name : Bytes
tmux_pane_name = tmux_name ++ b'_' ∷ b'P' ∷ b'A' ∷ b'N' ∷ b'E' ∷ []

-- hootSessionEnv
abbrev pub session_name : Bytes
session_name =
    b'H' ∷ b'O' ∷ b'O' ∷ b'T' ∷ b'_' ∷ b'S' ∷ b'E' ∷ b'S' ∷ b'S' ∷ b'I' ∷ b'O' ∷ b'N' ∷ []

-- `xterm-256color`
abbrev pub child_term : Bytes
child_term =
    b'x' ∷ b't' ∷ b'e' ∷ b'r' ∷ b'm' ∷ b'-' ∷ b'2' ∷ b'5' ∷ b'6' ∷ b'c' ∷ b'o' ∷ b'l' ∷ b'o' ∷ b'r'
    ∷ []

abbrev pub dropped_names : List Bytes
dropped_names = tmux_name ∷ tmux_pane_name ∷ term_name ∷ session_name ∷ []

unfoldable pub keep_vars : List Bytes → List Bytes
unfolding cut
keep_vars [] = []
keep_vars (kv ∷ parent) =
    let rest = keep_vars parent in
    elim (cut kv) [
      | none ↦ kv ∷ rest
      | some (name, _) ↦ if one_of name dropped_names then rest else kv ∷ rest
    ]

unfoldable pub sanitize_child_env : List Bytes → Bytes → List Bytes
unfolding keep_vars
sanitize_child_env parent [] = keep_vars parent ++ entry term_name child_term ∷ []
sanitize_child_env parent (b ∷ key) =
    keep_vars parent ++ entry term_name child_term ∷ entry session_name (b ∷ key) ∷ []
