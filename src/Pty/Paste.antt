-- ===== src/Pty/Paste.antt =====
-- A bracketed paste: what handleInput writes cannot end the paste early.
use mathlib.Core.Path.{subst}
use hootty.Base.{
  ℕ, suc, ◌+◌, ◌≤◌, Bool, true, false, ◌||◌, Option, none, some, [], ◌∷◌, ◌++◌, ◌≡◌, refl, sym, ap,
  ◌∙◌, inl, inr, arith, ltb, if◌then◌else◌, length, take, take-all, length-take, Bytes, Bool-cases,
  Option-cases,
}
use hootty.Io.{File, write_file}
use hootty.Pty.{Emulator, LibghosttyPty, write}
use hootty.Pty.Requests.{bracketed_paste_active}
use hootty.Pty.Routes.{
  post, input_body_cap, paste_start, paste_end, begins, contains, paste_mode, paste_on, write_input,
  write_pasted, handle_input,
}

-- bytes.Index
unfoldable pub index_of : Bytes → Bytes → Option ℕ
index_of needle [] = if begins needle [] then some 0 else none
index_of needle (b ∷ bs) =
    let later = index_of needle bs in
    if begins needle (b ∷ bs) then some 0 else elim later [ none ↦ none | some i ↦ some (suc i) ]

-- No end marker begins in some bytes and ends in an end marker behind them.
begins-straddle :
    (b : ℕ) (bs : Bytes) → begins paste_end (b ∷ bs ++ paste_end) ≡ begins paste_end (b ∷ bs)
begins-straddle b [] = ground arith
begins-straddle b (c ∷ []) = ground arith
begins-straddle b (c ∷ d ∷ []) = ground arith
begins-straddle b (c ∷ d ∷ e ∷ []) = ground arith
begins-straddle b (c ∷ d ∷ e ∷ f ∷ []) = ground arith
begins-straddle b (c ∷ d ∷ e ∷ f ∷ g ∷ bs) = refl

index_of-end :
    (bs : Bytes)
    → contains paste_end bs ≡ false
    → index_of paste_end (bs ++ paste_end) ≡ some (length bs)
unfolding index_of contains
index_of-end [] h = refl
index_of-end (b ∷ bs) h =
    let parts = neither (begins paste_end (b ∷ bs)) (contains paste_end bs) h in
    rw (begins-straddle b bs) (rw parts.0 (rw (index_of-end bs parts.1) refl))
  where
    neither : (x y : Bool) → (x || y) ≡ false → (x ≡ false) × (y ≡ false)
    neither x y e = ground arith

index_of-start :
    (bs : Bytes) (i : ℕ)
    → index_of paste_end bs ≡ some i
    → index_of paste_end (paste_start ++ bs) ≡ some (6 + i)
unfolding index_of
index_of-start bs i h = rw h (ap some (omega arith))

not_above : (m n : ℕ) → ltb m n ≡ false → n ≤ m
not_above m n h = ground arith

module _ {T : Type 0} (E : Emulator T) where
  -- A paste of `body` that went through: the end marker that the program sees first is the last one.
  pub record Pasted (p : LibghosttyPty T) (body : Bytes) (q : LibghosttyPty T) : Type 0 where
    pub active : bracketed_paste_active E p ≡ true
    pub written : q.master.content ≡ p.master.content ++ (paste_start ++ body ++ paste_end)
    pub ends_last : index_of paste_end (paste_start ++ body ++ paste_end) ≡ some (6 + length body)

  write-content :
      (f : File) (bs : Bytes)
      → (write_file f bs).1 ≡ true
      → (write_file f bs).0.content ≡ f.content ++ bs
  unfolding write_file
  write-content f bs h = elim (Option-cases f.room) [
    | inl e ↦ rw e refl
    | inr (r, e) ↦ ground (arith, h, e)
  ]

  write_input-content :
      (p : LibghosttyPty T) (bs : Bytes)
      → (write_input E p bs).1.status ≡ 204
      → (write_input E p bs).0.master.content ≡ p.master.content ++ bs
  unfolding write_input write
  write_input-content p bs h = elim (Bool-cases (write_file p.master bs).1) [
    | inl e ↦ write-content p.master bs e
    | inr e ↦ absurd (grind (arith, h, e))
  ]

  write_pasted-Pasted :
      (p : LibghosttyPty T) (body : Bytes)
      → (write_pasted E p body).1.status ≡ 204
      → Pasted p body (write_pasted E p body).0
  unfolding write_pasted
  write_pasted-Pasted p body h = elim (Bool-cases (contains paste_end body)) [
    | inl e ↦ absurd (omega (arith, (rw e at h)))
    | inr clean ↦ elim (Bool-cases (bracketed_paste_active E p)) [
      | inl on ↦
          let done : write_pasted E p body ≡ write_input E p (paste_start ++ body ++ paste_end) =
            rw clean (rw on refl) in
          subst (λ r. Pasted p body r.0) (sym done)
            (record {
              active = on;
              written = write_input-content p _ (ap (λ r. r.1.status) (sym done) ∙ h);
              ends_last =
                  index_of-start (body ++ paste_end) (length body) (index_of-end body clean);
            })
      | inr off ↦ absurd (omega (arith, (rw (clean, off) at h)))
    ]
  ]

  -- Where handleInput answers 204 to a POST with paste=on, bracketed paste was on and exactly the
  -- body between the two markers was written behind what the master had taken; in these bytes
  -- the end marker stands at the very end and nowhere before.
  pub handle_input-Pasted :
      (p : LibghosttyPty T) (body paste : Bytes)
      → paste_mode paste ≡ paste_on
      → (handle_input E p post (some body) paste).1.status ≡ 204
      → Pasted p body (handle_input E p post (some body) paste).0
  unfolding handle_input
  handle_input-Pasted p body paste on h =
      elim (Bool-cases (ltb input_body_cap (length (take (input_body_cap + 1) body)))) [
        | inl e ↦ absurd (omega (arith, (rw e at h)))
        | inr e ↦
            let whole : take (input_body_cap + 1) body ≡ body = short body e in
            let done : handle_input E p post (some body) paste ≡ write_pasted E p body =
              rw (e) (rw on (ap (write_pasted E p) whole)) in
            subst (λ r. Pasted p body r.0) (sym done)
              (write_pasted-Pasted p body (ap (λ r. r.1.status) (sym done) ∙ h))
      ]
    where
      short :
          (bs : Bytes)
          → ltb input_body_cap (length (take (input_body_cap + 1) bs)) ≡ false
          → take (input_body_cap + 1) bs ≡ bs
      short bs e =
          let n : length (take (input_body_cap + 1) bs) ≤ input_body_cap = not_above _ _ e in
          take-all (input_body_cap + 1) bs (omega (arith, n, length-take (input_body_cap + 1) bs))
