-- ===== src/Pty/Stream.antt =====
-- The live stream of a subscriber: what it reads is the child's output with the queries stripped,
-- from the subscription on, however the dispatcher's actions and the reads interleave.
use hootty.Base.{
  ℕ, Bool, true, false, not, ◌&&◌, some, List, [], ◌∷◌, ◌++◌, ◌≡◌, ◌≢◌, refl, sym, ap, ◌∙◌, inl,
  inr, arith, ltb, ◌==◌, ==_iff, length, Bytes, append_assoc, append-nil, Bool-cases, Option-cases,
}
use hootty.Stripper as Query
use hootty.Stripper.Chunks.{filter-append}
use hootty.Pty.{
  Emulator, LibghosttyPty, Subscriber, deliver, cancel, subscribe, sub_at, update_at, unsubscribed,
  new_subscriber, fan_out, read_chunk, tee_recorder, feed_term, feed_primary,
}
use hootty.Pty.Live.{
  Event, read, taken, subscribed, cancelled, concat, tail, head, buffer_of, has_room, take_one,
  output, step, run, received, keeps_up, sub_at-map, sub_at-append, sub_at-update_same,
  sub_at-update_other,
}

concat-snoc : (bss : List Bytes) (bs : Bytes) → concat (bss ++ bs ∷ []) ≡ concat bss ++ bs
concat-snoc [] bs = append-nil bs
concat-snoc (x ∷ bss) bs = ap (x ++◌) (concat-snoc bss bs) ∙ sym (append_assoc x (concat bss) bs)

concat-head : (bss : List Bytes) → head bss ++ concat (tail bss) ≡ concat bss
concat-head [] = refl
concat-head (x ∷ bss) = refl

-- A subscriber with room, after a chunk.
record Delivered (chunk : Bytes) (s d : Subscriber) : Type 0 where
  bytes : concat d.buffer ≡ concat s.buffer ++ (Query.filter s.stripper chunk).1
  stripper : d.stripper ≡ (Query.filter s.stripper chunk).0
  still : d.subscribed ≡ true

empty_is_nil : (bs : Bytes) → (length bs == 0) ≡ true → bs ≡ []
empty_is_nil [] h = refl
empty_is_nil (b ∷ bs) h = absurd (omega (arith, (==_iff (length (b ∷ bs)) 0).0 h))

deliver-Delivered :
    (chunk : Bytes) (s : Subscriber)
    → s.subscribed ≡ true
    → ltb (length s.buffer) s.capacity ≡ true
    → Delivered chunk s (deliver chunk s)
unfolding deliver
deliver-Delivered chunk s h room =
    elim (Bool-cases (length (Query.filter s.stripper chunk).1 == 0)) [
      | inl e ↦
          let nothing = empty_is_nil (Query.filter s.stripper chunk).1 e in
          rw h (
            rw e (record {
              bytes = sym (ap (concat s.buffer ++◌) nothing ∙ append-nil (concat s.buffer));
              stripper = refl;
              still = refl;
            }))
      | inr e ↦ rw h (
          rw e (
            rw room (record {
              bytes = concat-snoc s.buffer (Query.filter s.stripper chunk).1;
              stripper = refl;
              still = refl;
            })))
    ]

-- The stripper goes on where it was.
rechunk :
    (chunk more : Bytes) (s d : Subscriber)
    → Delivered chunk s d
    → concat d.buffer ++ (Query.filter d.stripper more).1
      ≡ concat s.buffer ++ (Query.filter s.stripper (chunk ++ more)).1
rechunk chunk more s d v =
    let both = ap (λ bs. bs ++ (Query.filter d.stripper more).1) v.bytes in
    let on =
      ap (λ st. (concat s.buffer ++ (Query.filter s.stripper chunk).1) ++ (Query.filter st more).1)
        v.stripper in
    both
    ∙ on
    ∙ append_assoc (concat s.buffer) _ _
    ∙ ap (λ r. concat s.buffer ++ r.1) (sym (filter-append s.stripper chunk more))

both_true : {a b : Bool} → (a && b) ≡ true → (a ≡ true) × (b ≡ true)
both_true {a} {b} h = ground arith

not_same : (j k : ℕ) → j ≡ k → (j == k) ≡ false → ⊥
not_same j k eq h = grind (arith, h, eq)

of_not : {a : Bool} → not a ≡ true → a ≡ false
of_not {a} h = ground arith

module _ {T : Type 0} (E : Emulator T) where
  -- The actions before the fan-out leave the subscribers alone.
  pub record Kept (p q : LibghosttyPty T) : Type 0 where
    pub subs : q.subs ≡ p.subs
    pub done : q.done ≡ p.done

  tee_recorder-Kept :
      (p : LibghosttyPty T) (now : ℕ) (chunk : Bytes) → Kept p (tee_recorder p now chunk)
  unfolding tee_recorder
  tee_recorder-Kept p now chunk = elim (Option-cases p.rec) [
    | inl e ↦ rw e (record { subs = refl; done = refl })
    | inr (r, e) ↦ rw e (record { subs = refl; done = refl })
  ]

  feed_term-Kept : (p : LibghosttyPty T) (chunk : Bytes) → Kept p (feed_term E p chunk)
  unfolding feed_term
  feed_term-Kept p chunk = elim (Option-cases p.term) [
    | inl e ↦ rw e (record { subs = refl; done = refl })
    | inr (r, e) ↦ rw e (record { subs = refl; done = refl })
  ]

  feed_primary-Kept : (p : LibghosttyPty T) (chunk : Bytes) → Kept p (feed_primary E p chunk)
  unfolding feed_primary
  feed_primary-Kept p chunk = elim (Option-cases p.primary_term) [
    | inl e ↦ rw e (record { subs = refl; done = refl })
    | inr (r, e) ↦ rw e (record { subs = refl; done = refl })
  ]

  unfoldable pub fed : LibghosttyPty T → ℕ → Bytes → LibghosttyPty T
  fed p now chunk = feed_primary E (feed_term E (tee_recorder p now chunk) chunk) chunk

  pub fed-Kept : (p : LibghosttyPty T) (now : ℕ) (chunk : Bytes) → Kept p (fed p now chunk)
  unfolding fed
  fed-Kept p now chunk =
      let a = tee_recorder-Kept p now chunk in
      let b = feed_term-Kept (tee_recorder p now chunk) chunk in
      let c = feed_primary-Kept (feed_term E (tee_recorder p now chunk) chunk) chunk in
      record { subs = c.subs ∙ b.subs ∙ a.subs; done = c.done ∙ b.done ∙ a.done }

  pub step-read :
      (p : LibghosttyPty T) (now : ℕ) (chunk : Bytes)
      → p.done ≡ false
      → step E p (read now chunk) ≡ fan_out (fed p now chunk) chunk
  unfolding step read_chunk fed
  step-read p now chunk open_ = ground (arith, open_)

  step-cancelled :
      (j k : ℕ) (p : LibghosttyPty T)
      → p.done ≡ false
      → j ≢ k
      → (sub_at k (step E p (cancelled j)).subs ≡ sub_at k p.subs)
        × ((step E p (cancelled j)).done ≡ false)
  unfolding step cancel
  step-cancelled j k p open_ other =
      ground (arith, sub_at-update_other j k p.subs unsubscribed other)

  fanned :
      (k : ℕ) (p : LibghosttyPty T) (chunk : Bytes) (s : Subscriber)
      → sub_at k p.subs ≡ some s
      → sub_at k (fan_out p chunk).subs ≡ some (deliver chunk s)
  unfolding fan_out
  fanned k p chunk s h = sub_at-map k p.subs (deliver chunk) s h

  step-subscribed :
      (c : ℕ) (p : LibghosttyPty T)
      → p.done ≡ false
      → ((step E p (subscribed c)).subs ≡ p.subs ++ new_subscriber c ∷ [])
        × ((step E p (subscribed c)).done ≡ false)
  unfolding step subscribe
  step-subscribed c p open_ = ground (arith, open_)

  -- A subscriber that is not cancelled and always has room when output arrives: what it has read
  -- and what waits in its channel are together what its channel held and the stripped output.
  pub received-output :
      (k : ℕ) (es : List Event) (p : LibghosttyPty T) (s : Subscriber)
      → p.done ≡ false
      → sub_at k p.subs ≡ some s
      → s.subscribed ≡ true
      → keeps_up E k p es ≡ true
      → received E k p es ++ concat (buffer_of (sub_at k (run E p es).subs))
        ≡ concat s.buffer ++ (Query.filter s.stripper (output es)).1
  unfolding received keeps_up run Query.filter Query.filter_onto
  received-output k [] p s open_ h on fine = rw h (sym (append-nil (concat s.buffer)))
  received-output k (read now chunk ∷ es) p s open_ h on fine =
      let f = fed-Kept p now chunk in
      let stepped = step-read p now chunk open_ in
      let there =
        ap (λ q. sub_at k q.subs) stepped
        ∙ fanned k (fed p now chunk) chunk s (ap (sub_at k) f.subs ∙ h) in
      let ready = both_true fine in
      let d = deliver-Delivered chunk s on (ap has_room (sym h) ∙ ready.0) in
      let later =
        received-output k es (step E p (read now chunk)) (deliver chunk s)
          (ap (λ q. q.done) stepped ∙ f.done ∙ open_) there d.still ready.1 in
      later ∙ rechunk chunk (output es) s (deliver chunk s) d
  received-output k (taken j ∷ es) p s open_ h on fine = elim (Bool-cases (j == k)) [
    | inl e ↦
        let same = (==_iff j k).0 e in
        let there =
          ap (λ i. sub_at k (update_at i take_one p.subs)) same
          ∙ sub_at-update_same k p.subs take_one s h in
        let later = received-output k es (step E p (taken j)) (take_one s) open_ there on fine in
        rw e (
          rw h (
            append_assoc (head s.buffer) _ _
            ∙ ap (head s.buffer ++◌) later
            ∙ sym (append_assoc (head s.buffer) (concat (tail s.buffer)) _)
            ∙ ap (λ bs. bs ++ (Query.filter s.stripper (output es)).1) (concat-head s.buffer)))
    | inr e ↦
        let other : j ≢ k = λ eq. not_same j k eq e in
        let there = sub_at-update_other j k p.subs take_one other ∙ h in
        rw e (received-output k es (step E p (taken j)) s open_ there on fine)
  ]
  received-output k (subscribed c ∷ es) p s open_ h on fine =
      let q = step-subscribed c p open_ in
      received-output k es (step E p (subscribed c)) s (q.1)
        (ap (sub_at k) q.0 ∙ sub_at-append k p.subs (new_subscriber c ∷ []) s h) on fine
  received-output k (cancelled j ∷ es) p s open_ h on fine =
      let ready = both_true fine in
      let other : j ≢ k = λ eq. not_same j k eq (of_not ready.0) in
      let q = step-cancelled j k p open_ other in
      received-output k es (step E p (cancelled j)) s q.1 (q.0 ∙ h) on ready.1
