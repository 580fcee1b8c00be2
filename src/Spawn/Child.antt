-- ===== src/Spawn/Child.antt =====
-- The environment that the child of a new session sees.
use hootty.Base.{
  true, false, ◌||◌, Option, List, [], ◌∷◌, ◌++◌, append-nil, ◌≡◌, refl, sym, ap, ◌∙◌, inl, inr,
  if◌then◌else◌, Bytes, Option-cases, Bool-cases, same, same_iff, one_of,
}
use mathlib.Core.Path.{subst}
use hootty.Spawn.Env.{
  Vars, cut, get, entry, merge_env, keep_vars, dropped_names, tmux_name, tmux_pane_name, term_name,
  session_name, child_term, sanitize_child_env, validate_env_name, vars, Scanned,
  parse_env_overrides,
}
use hootty.Spawn.Keyed.{Free, Keyed, validate_env_name-Free}
use hootty.Spawn.Parse.{Accepts, parse_env_overrides-Accepts}
use hootty.Spawn.Merge.{
  values, values_none, values_uncut, values-cut, overridden, values-append, values-entry,
  merge_env-values,
}

abbrev pub session_values : Bytes → List Bytes
session_values [] = []
session_values (b ∷ key) = (b ∷ key) ∷ []

-- TERM and HOOT_SESSION are set, the two names of tmux are gone, and the rest stays.
abbrev pub child_values : Bytes → Bytes → List Bytes → List Bytes
child_values q key vs =
    if same q term_name
    then child_term ∷ []
    else if same q session_name
    then session_values key
    else if same q tmux_name || same q tmux_pane_name
    then []
    else vs

keep_vars-values :
    (q : Bytes) (parent : List Bytes)
    → values q (keep_vars parent) ≡ (if one_of q dropped_names then [] else values q parent)
unfolding keep_vars
keep_vars-values q [] =
    rw (values_none q)
      (elim (Bool-cases (one_of q dropped_names)) [ inl k ↦ rw k refl | inr k ↦ rw k refl ])
keep_vars-values q (kv ∷ parent) =
    let ih = keep_vars-values q parent in
    elim (Option-cases (cut kv)) [
      | inl e ↦
          rw (e, keep_vars)
            (values_uncut q kv (keep_vars parent) e
              ∙ ih
              ∙ ap (λ vs. if one_of q dropped_names then [] else vs)
                  (sym (values_uncut q kv parent e)))
      | inr ((n, v), e) ↦
          rw (e, keep_vars, values-cut q kv n v parent e)
            (elim (Bool-cases (one_of n dropped_names)) [
              | inl k ↦ rw k (elim (Bool-cases (same q n)) [
                | inl m ↦
                    let d : one_of q dropped_names ≡ true = rw ((same_iff q n).0 m) k in
                    ih ∙ rw d refl
                | inr m ↦ rw m ih
              ])
              | inr k ↦
                  rw (k, values-cut q kv n v (keep_vars parent) e)
                    (elim (Bool-cases (same q n)) [
                      | inl m ↦
                          let d : one_of q dropped_names ≡ false = rw ((same_iff q n).0 m) k in
                          rw (m, d) (ap (◌∷◌ v) (ih ∙ rw d refl))
                      | inr m ↦ rw m ih
                    ])
            ])
    ]

names_in_order :
    (q : Bytes) (key : Bytes) (vs : List Bytes)
    → (if one_of q dropped_names then [] else vs)
        ++ (if same q term_name
            then child_term ∷ (if same q session_name then session_values key else [])
            else if same q session_name
            then session_values key
            else [])
      ≡ child_values q key vs
names_in_order q key vs = elim (Bool-cases (same q term_name)) [
  | inl t ↦ rw ((same_iff q term_name).0 t) refl
  | inr t ↦ elim (Bool-cases (same q session_name)) [
    | inl s ↦ rw ((same_iff q session_name).0 s) refl
    | inr s ↦ elim (Bool-cases (same q tmux_name)) [
      | inl m ↦ rw (t, s, m) refl
      | inr m ↦ elim (Bool-cases (same q tmux_pane_name)) [
        | inl p ↦ rw (t, s, m, p) refl
        | inr p ↦ rw (t, s, m, p) (append-nil vs)
      ]
    ]
  ]
]

with_rest :
    (q key : Bytes) (parent rest : List Bytes)
    → values q rest ≡ (if same q session_name then session_values key else [])
    → values q (keep_vars parent ++ entry term_name child_term ∷ rest)
      ≡ child_values q key (values q parent)
unfolding validate_env_name
with_rest q key parent rest h =
    let free : Free term_name = validate_env_name-Free term_name refl in
    values-append q (keep_vars parent) (entry term_name child_term ∷ rest)
    ∙ (rw (keep_vars-values q parent, values-entry q term_name child_term rest free, h)
        (names_in_order q key (values q parent)))

sanitize_child_env-values :
    (q key : Bytes) (parent : List Bytes)
    → values q (sanitize_child_env parent key) ≡ child_values q key (values q parent)
unfolding sanitize_child_env validate_env_name
sanitize_child_env-values q [] parent = with_rest q [] parent [] (
    rw (values_none q)
      (elim (Bool-cases (same q session_name)) [ inl k ↦ rw k refl | inr k ↦ rw k refl ]))
sanitize_child_env-values q (b ∷ key) parent =
    let free : Free session_name = validate_env_name-Free session_name refl in
    with_rest q (b ∷ key) parent (entry session_name (b ∷ key) ∷ [])
      (values-entry q session_name (b ∷ key) [] free ∙ rw (values_none q) refl)

-- Where the overrides are accepted, a session is spawned with them and sanitizes what it finds: the
-- child has TERM and HOOT_SESSION as the session sets them, neither name of tmux, under any other
-- name the override if there is one, and else the values of the environment that spawned it.
pub child_env-values :
    (trim_space : Bytes → Bytes) (open_file : Bytes → Option Scanned)
    (lookup : Bytes → Option Bytes) (files specs base : List Bytes) (ov : Vars) (key q : Bytes)
    → parse_env_overrides trim_space open_file lookup files specs ≡ vars ov
    → values q (sanitize_child_env (merge_env base ov) key)
      ≡ child_values q key (overridden (get q ov) (values q base))
child_env-values trim_space open_file lookup files specs base ov key q accepted =
    let keyed : Keyed ov =
      subst Accepts accepted
        (parse_env_overrides-Accepts trim_space open_file lookup files specs) in
    sanitize_child_env-values q key (merge_env base ov)
    ∙ ap (child_values q key) (merge_env-values q base ov keyed)
