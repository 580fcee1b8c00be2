-- ===== src/Spawn/Parse.antt =====
-- What the overrides hold that parse_env_overrides accepts.
use hootty.Base.{
  Bool, true, false, Option, none, some, List, [], ◌∷◌, inl, inr, ◌==◌, if◌then◌else◌, Bytes,
  Option-cases, Bool-cases,
}
use hootty.Spawn.Env.{
  Vars, cut, put, put_all, validate_env_name, EnvError, Parsed, vars, refused, Scanned,
  parse_env_lines, parse_env_file, parse_files, parse_specs, parse_env_overrides,
}
use hootty.Spawn.Keyed.{Free, Keyed, validate_env_name-Free, put-Keyed}

abbrev pub Accepts : Parsed → Type 0
Accepts (vars m) = Keyed m
Accepts (refused e) = Unit {0}

put_all-Keyed : (vs m : Vars) → Keyed vs → Keyed m → Keyed (put_all vs m)
unfolding put_all
put_all-Keyed [] m k h = h
put_all-Keyed ((n, v) ∷ vs) m k h = put_all-Keyed vs (put n v m) k.2 (put-Keyed n v m k.0 h)

-- A value is put under a name that is valid.
checked :
    (name : Bytes) (e : EnvError) (more : Parsed)
    → (Free name → Accepts more)
    → Accepts (if validate_env_name name then more else refused e)
checked name e more f = elim (Bool-cases (validate_env_name name)) [
  | inl k ↦ rw k (f (validate_env_name-Free name k))
  | inr k ↦ rw k tt
]

module _ (trim_space : Bytes → Bytes) where
  parse_env_lines-Accepts :
      (ls : List Bytes) (whole : Bool) (out : Vars)
      → Keyed out
      → Accepts (parse_env_lines trim_space ls whole out)
  unfolding parse_env_lines
  parse_env_lines-Accepts [] true out h = h
  parse_env_lines-Accepts [] false out h = tt
  parse_env_lines-Accepts (l ∷ ls) whole out h =
      line_step (trim_space l) whole out ls (parse_env_lines trim_space ls whole out)
        (parse_env_lines-Accepts ls whole out h)
        (λ name value. parse_env_lines trim_space ls whole (put name value out))
        (λ name value free.
          parse_env_lines-Accepts ls whole (put name value out) (put-Keyed name value out free h))
    where
      line_step :
          (line : Bytes) (whole : Bool) (out : Vars) (ls : List Bytes) (next_line : Parsed)
          → Accepts next_line
          → (more : Bytes → Bytes → Parsed)
          → ((name value : Bytes) → Free name → Accepts (more name value))
          → Accepts (elim line as (λ _. Parsed) [
            | [] ↦ next_line
            | b ∷ bs ↦ if b == b'#' then next_line else elim (cut (b ∷ bs)) as (λ _. Parsed) [
              | none ↦ refused EnvError.no_value
              | some (name, value) ↦
                  if validate_env_name name then more name value else refused EnvError.bad_name
            ]
          ])
      line_step [] whole out ls next_line k more f = k
      line_step (b ∷ bs) whole out ls next_line k more f = elim (Bool-cases (b == b'#')) [
        | inl c ↦ rw c k
        | inr c ↦ rw c (elim (Option-cases (cut (b ∷ bs))) [
          | inl e ↦ rw e tt
          | inr ((name, value), e) ↦
              rw e (checked name EnvError.bad_name (more name value) (f name value))
        ])
      ]

  parse_env_file-Accepts : (f : Option Scanned) → Accepts (parse_env_file trim_space f)
  unfolding parse_env_file
  parse_env_file-Accepts none = tt
  parse_env_file-Accepts (some f) = parse_env_lines-Accepts f.lines f.whole [] tt

  module _ (open_file : Bytes → Option Scanned) (lookup : Bytes → Option Bytes) where
    parse_files-Accepts :
        (paths : List Bytes) (out : Vars)
        → Keyed out
        → Accepts (parse_files trim_space open_file lookup paths out)
    unfolding parse_files
    parse_files-Accepts [] out h = h
    parse_files-Accepts (p ∷ ps) out h =
        step (parse_env_file trim_space (open_file p)) (parse_env_file-Accepts (open_file p))
          (λ m k. parse_files-Accepts ps m k)
      where
        step :
            (r : Parsed)
            → Accepts r
            → ((m : Vars) → Keyed m → Accepts (parse_files trim_space open_file lookup ps m))
            → Accepts (elim r as (λ _. Parsed) [
              | refused e ↦ refused e
              | vars values ↦ parse_files trim_space open_file lookup ps (put_all values out)
            ])
        step (refused e) k f = tt
        step (vars values) k f = f (put_all values out) (put_all-Keyed values out k h)

    found :
        (o : Option Bytes) (spec : Bytes) (more : Bytes → Parsed)
        → ((value : Bytes) → Accepts (more value))
        → Accepts
            (elim o as (λ _. Parsed) [ none ↦ refused EnvError.not_set | some value ↦ more value ])
    found none spec more f = tt
    found (some value) spec more f = f value

    parse_specs-Accepts :
        (specs : List Bytes) (out : Vars)
        → Keyed out
        → Accepts (parse_specs trim_space open_file lookup specs out)
    unfolding parse_specs
    parse_specs-Accepts [] out h = h
    parse_specs-Accepts (spec ∷ specs) out h = elim (Option-cases (cut spec)) [
      | inr ((name, value), e) ↦
          rw (e, parse_specs)
            (checked name EnvError.bad_name
              (parse_specs trim_space open_file lookup specs (put name value out))
              (λ free.
                parse_specs-Accepts specs (put name value out) (put-Keyed name value out free h)))
      | inl e ↦
          rw (e, parse_specs)
            (checked spec EnvError.bad_name _ (λ free.
              found (lookup spec) spec
                (λ value. parse_specs trim_space open_file lookup specs (put spec value out))
                (λ value.
                  parse_specs-Accepts specs (put spec value out)
                    (put-Keyed spec value out free h))))
    ]

    pub parse_env_overrides-Accepts :
        (files specs : List Bytes)
        → Accepts (parse_env_overrides trim_space open_file lookup files specs)
    unfolding parse_env_overrides
    parse_env_overrides-Accepts files specs =
        step (parse_files trim_space open_file lookup files []) (parse_files-Accepts files [] tt)
      where
        step :
            (r : Parsed)
            → Accepts r
            → Accepts (elim r as (λ _. Parsed) [
              | refused e ↦ refused e
              | vars out ↦ parse_specs trim_space open_file lookup specs out
            ])
        step (refused e) k = tt
        step (vars out) k = parse_specs-Accepts specs out k
