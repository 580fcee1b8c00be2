-- ===== src/Spawn/Merge.antt =====
-- The values that an environment has for a name, through merge_env and sanitize_child_env.
use hootty.Base.{
  Bool, true, false, Option, none, some, List, [], ◌∷◌, ◌++◌, map, append-nil, ◌≡◌, refl, sym, ap,
  ◌∙◌, arith, inl, inr, if◌then◌else◌, Bytes, Option-cases, Bool-cases, same, same_iff, one_of,
}
use hootty.Spawn.Env.{Vars, cut, get, entry, not_empty, merge_base, unseen, merge_env}
use hootty.Spawn.Keyed.{Free, Keyed, cut-entry}

-- The values of the entries `name=value`, in order.
unfoldable pub values : Bytes → List Bytes → List Bytes
unfolding cut
values q [] = []
values q (kv ∷ env) =
    let rest = values q env in
    elim (cut kv) [ none ↦ rest | some (n, v) ↦ if same q n then v ∷ rest else rest ]

-- An override takes the place of every value, and is added where there is none.
abbrev pub overridden : Option Bytes → List Bytes → List Bytes
overridden none vs = vs
overridden (some v) [] = v ∷ []
overridden (some v) (w ∷ ws) = v ∷ map (λ _. v) ws

pub values-append : (q : Bytes) (a b : List Bytes) → values q (a ++ b) ≡ values q a ++ values q b
unfolding values
values-append q [] b = refl
values-append q (kv ∷ a) b = elim (Option-cases (cut kv)) [
  | inl e ↦ rw (e, values) (values-append q a b)
  | inr ((n, v), e) ↦
      rw (e, values)
        (elim (Bool-cases (same q n)) [
          | inl k ↦ rw k (ap (◌∷◌ v) (values-append q a b))
          | inr k ↦ rw k (values-append q a b)
        ])
]

pub values_none : (q : Bytes) → values q [] ≡ []
unfolding values
values_none q = refl

pub values_uncut :
    (q kv : Bytes) (env : List Bytes) → cut kv ≡ none → values q (kv ∷ env) ≡ values q env
unfolding values
values_uncut q kv env e = rw (e, values) refl

pub values-cut :
    (q kv n v : Bytes) (env : List Bytes)
    → cut kv ≡ some (n, v)
    → values q (kv ∷ env) ≡ (if same q n then v ∷ values q env else values q env)
unfolding values
values-cut q kv n v env e = rw (e, values) refl

pub values-entry :
    (q n v : Bytes) (env : List Bytes)
    → Free n
    → values q (entry n v ∷ env) ≡ (if same q n then v ∷ values q env else values q env)
values-entry q n v env free = values-cut q (entry n v) n v env (cut-entry n v free)

-- What the first loop leaves of a name.
abbrev replaced : Option Bytes → List Bytes → List Bytes
replaced none vs = vs
replaced (some v) vs = map (λ _. v) vs

abbrev replaces : Option Bytes → List Bytes → Bool
replaces (some v) (w ∷ ws) = true
replaces _ _ = false

get-Free : (n v : Bytes) (m : Vars) → Keyed m → get n m ≡ some v → Free n
unfolding get
get-Free n v [] h e = ground arith
get-Free n v ((n2, v2) ∷ m) h e = elim (Bool-cases (same n n2)) [
  | inl k ↦ rw ((same_iff n n2).0 k) h.0
  | inr k ↦ get-Free n v m h.2 (rw (k, get) at e)
]

record Merges (q : Bytes) (o : Option Bytes) (base : List Bytes) (r : List Bytes × List Bytes)
    : Type 0 where
  out : values q r.0 ≡ replaced o (values q base)
  seen : one_of q r.1 ≡ replaces o (values q base)

-- An entry that is kept, of another name or of one without an override.
Merges-keep :
    (q : Bytes) (o : Option Bytes) (kv : Bytes) (base : List Bytes) (r : List Bytes × List Bytes)
    → ((n w : Bytes) → cut kv ≡ some (n, w) → same q n ≡ true → o ≡ none)
    → Merges q o base r
    → Merges q o (kv ∷ base) (kv ∷ r.0, r.1)
unfolding values
Merges-keep q o kv base r other m = elim (Option-cases (cut kv)) [
  | inl e ↦ record { out = rw (e, values) m.out; seen = rw (e, values) m.seen }
  | inr ((n, w), e) ↦ elim (Bool-cases (same q n)) [
    | inl k ↦
        let u = other n w e k in
        record {
          out = rw (e, values) (rw (k, u) (ap (◌∷◌ w) (rw u at m.out)));
          seen = rw (e, values) (rw (k, u) (rw u at m.seen));
        }
    | inr k ↦ record { out = rw (e, values) (rw k m.out); seen = rw (e, values) (rw k m.seen) }
  ]
]

Merges-replace :
    (q n w v : Bytes) (o : Option Bytes) (kv : Bytes) (base : List Bytes)
    (r : List Bytes × List Bytes)
    → Free n
    → cut kv ≡ some (n, w)
    → (same q n ≡ true → o ≡ some v)
    → Merges q o base r
    → Merges q o (kv ∷ base) (entry n v ∷ r.0, n ∷ r.1)
unfolding values
Merges-replace q n w v o kv base r free e mine m = elim (Bool-cases (same q n)) [
  | inl k ↦
      let u = mine k in
      record {
        out = values-entry q n v r.0 free ∙ rw (e, values) (rw (k, u) (ap (◌∷◌ v) (rw u at m.out)));
        seen = rw (e, values) (rw (k, u) refl);
      }
  | inr k ↦ record {
    out = values-entry q n v r.0 free ∙ rw (e, values) (rw k m.out);
    seen = rw (e, values) (rw k m.seen);
  }
]

named : {n m w v : Bytes} → ◌≡◌ {A = Option (Bytes × Bytes)} (some (n, w)) (some (m, v)) → n ≡ m
named {n} e = ap (λ o. elim o as (λ _. Bytes) [ none ↦ n | some x ↦ x.0 ]) e

if_same : (b : Bool) (x : List Bytes × List Bytes) → (if b then x else x) ≡ x
if_same true x = refl
if_same false x = refl

merge_base-Merges :
    (q : Bytes) (ov : Vars) (base : List Bytes)
    → Keyed ov
    → Merges q (get q ov) base (merge_base ov base)
unfolding merge_base values
merge_base-Merges q ov [] h = elim (Option-cases (get q ov)) [
  | inl u ↦ rw u (record { out = refl; seen = refl })
  | inr (v, u) ↦ rw u (record { out = refl; seen = refl })
]
merge_base-Merges q ov (kv ∷ base) h =
    let ih = merge_base-Merges q ov base h in
    elim (Option-cases (cut kv)) [
      | inl e ↦
          rw (e, merge_base)
            (Merges-keep q (get q ov) kv base (merge_base ov base) (λ n w f k. ground arith) ih)
      | inr ((n, w), e) ↦ elim (Option-cases (get n ov)) [
        | inl u ↦
            rw (e, u, merge_base)
              (Merges-keep q (get q ov) kv base (merge_base ov base)
                (λ n2 w2 f k. rw ((same_iff q n2).0 k ∙ sym (named (sym e ∙ f))) u) ih)
        | inr (v, u) ↦
            rw
              (
                e,
                u,
                merge_base,
                if_same (not_empty v)
                    (entry n v ∷ (merge_base ov base).0, n ∷ (merge_base ov base).1),
              )
              (Merges-replace q n w v (get q ov) kv base (merge_base ov base) (get-Free n v ov h u)
                e (λ k. rw ((same_iff q n).0 k) u) ih)
      ]
    ]

abbrev added : Option Bytes → List Bytes
added none = []
added (some v) = v ∷ []

unseen-values :
    (q : Bytes) (seen : List Bytes) (ov : Vars)
    → Keyed ov
    → values q (unseen seen ov) ≡ (if one_of q seen then [] else added (get q ov))
unfolding unseen values get
unseen-values q seen [] h = elim (Bool-cases (one_of q seen)) [
  | inl k ↦ rw k refl
  | inr k ↦ rw k refl
]
unseen-values q seen ((n, v) ∷ ov) h =
    let ih = unseen-values q seen ov h.2 in
    elim (Bool-cases (one_of n seen)) [
      | inl s ↦
          rw (s, unseen)
            (elim (Bool-cases (same q n)) [
              | inl k ↦ let t : one_of q seen ≡ true = rw ((same_iff q n).0 k) s in ih ∙ rw t refl
              | inr k ↦ rw k ih
            ])
      | inr s ↦
          rw (s, unseen)
            (values-entry q n v (unseen seen ov) h.0 ∙ elim (Bool-cases (same q n)) [
              | inl k ↦
                  let t : one_of q seen ≡ false = rw ((same_iff q n).0 k) s in
                  let u : get q ov ≡ none = rw ((same_iff q n).0 k) h.1 in
                  rw (k, t) (ap (◌∷◌ v) (ih ∙ rw (t, u) refl))
              | inr k ↦ rw k ih
            ])
    ]

-- merge_env gives a name its override and leaves every other name alone.
pub merge_env-values :
    (q : Bytes) (base : List Bytes) (ov : Vars)
    → Keyed ov
    → values q (merge_env base ov) ≡ overridden (get q ov) (values q base)
unfolding merge_env get
merge_env-values q base [] h = refl
merge_env-values q base (o ∷ os) h =
    let m = merge_base-Merges q (o ∷ os) base h in
    let r = merge_base (o ∷ os) base in
    values-append q r.0 (unseen r.1 (o ∷ os))
    ∙ (rw (m.out, unseen-values q r.1 (o ∷ os) h, m.seen)
        (together (get q (o ∷ os)) (values q base)))
  where
    together :
        (o : Option Bytes) (vs : List Bytes)
        → replaced o vs ++ (if replaces o vs then [] else added o) ≡ overridden o vs
    together none vs = append-nil vs
    together (some v) [] = refl
    together (some v) (w ∷ ws) = ap (◌∷◌ v) (append-nil (map (λ _. v) ws))
