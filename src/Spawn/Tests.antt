-- ===== src/Spawn/Tests.antt =====
-- The environment of a child and split_cmd on small inputs.
use hootty.Base.{true, Option, none, some, List, [], ◌∷◌, ◌≡◌, refl, Bytes, same, if◌then◌else◌}
use hootty.Spawn.Env.{
  Vars, cut, put, name_byte, name_bytes, validate_env_name, Scanned, vars, parse_env_lines,
  parse_env_file, parse_files, parse_specs, parse_env_overrides, put_all, get, entry, merge_env,
  sanitize_child_env, tmux_name,
}
use hootty.Spawn.Merge.{values, overridden}
use hootty.Spawn.Child.{child_values, child_env-values}
use hootty.Spawn.Split.{Quoted, words, split_cmd, quoted_line, kept, split_cmd-quoted}

abbrev name : Bytes
name = b'A' ∷ b'_' ∷ b'1' ∷ []

-- A file of a comment, a blank line and `A_1=x=y`.
abbrev env_file : Bytes → Option Scanned
env_file path = some (record {
  lines = (b'#' ∷ b'c' ∷ []) ∷ [] ∷ (entry name (b'x' ∷ b'=' ∷ b'y' ∷ [])) ∷ [];
  whole = true;
})

abbrev one_var : Bytes → Option Bytes
one_var n = if same n tmux_name then some (b'1' ∷ []) else none

abbrev trimmed : Bytes → Bytes
trimmed line = line

abbrev accepted_vars : Vars
accepted_vars = (name, b'z' ∷ []) ∷ (tmux_name, b'1' ∷ []) ∷ []

-- `--env-file f --env A_1=z --env TMUX`
abbrev given : List Bytes
given = entry name (b'z' ∷ []) ∷ tmux_name ∷ []

accepted :
    parse_env_overrides trimmed env_file one_var ((b'f' ∷ []) ∷ []) given ≡ vars accepted_vars
unfolding parse_env_overrides parse_files parse_specs parse_env_file parse_env_lines put_all put cut
    name_byte name_bytes validate_env_name
accepted = refl

abbrev base_env : List Bytes
base_env = entry name (b'o' ∷ []) ∷ entry tmux_name (b'2' ∷ []) ∷ (b'w' ∷ []) ∷ []

child_env-values_example :
    values name (sanitize_child_env (merge_env base_env accepted_vars) (b'k' ∷ []))
    ≡ child_values name (b'k' ∷ []) (overridden (get name accepted_vars) (values name base_env))
child_env-values_example =
    child_env-values trimmed env_file one_var ((b'f' ∷ []) ∷ []) given base_env accepted_vars
      (b'k' ∷ []) name accepted

child_value :
    child_values name (b'k' ∷ []) (overridden (get name accepted_vars) (values name base_env))
    ≡ (b'z' ∷ []) ∷ []
unfolding get values cut
child_value = refl

-- `"a b" '' `
abbrev two_words : List Quoted
two_words = (0x22, b'a' ∷ 0x20 ∷ b'b' ∷ []) ∷ (0x27, []) ∷ []

split_cmd-quoted_example : split_cmd (quoted_line two_words) ≡ words (kept two_words)
split_cmd-quoted_example =
    split_cmd-quoted two_words ((refl, (refl, (refl, (refl, tt)))), ((refl, tt), tt))
