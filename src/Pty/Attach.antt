-- ===== src/Pty/Attach.antt =====
-- SubscribeWithSnapshotParts among the rest of the session's output.
use mathlib.Core.Path.{subst}
use hootty.Base.{
  ℕ, true, false, some, List, [], ◌∷◌, ◌++◌, ◌≡◌, refl, sym, ap, ◌∙◌, arith, Bytes, length, inl,
  inr, Option-cases,
}
use hootty.Stripper as Query
use hootty.Pty.{
  Emulator, LibghosttyPty, Subscriber, sub_at, new_subscriber, format_terminal_snapshot_parts,
  snapshot_parts_locked, cancel, subscribe, read_chunk, fan_out, tee_recorder, feed_term,
  feed_primary,
}
use hootty.Pty.Requests.{subscribe_with_snapshot_parts, live_capacity}
use hootty.Pty.Live.{
  Event, read, taken, subscribed, cancelled, concat, buffer_of, output, step, run, received,
  keeps_up,
}
use hootty.Pty.Stream.{received-output, fed, fed-Kept, step-read}

module _ {T : Type 0} (E : Emulator T) where
  -- The terminal that has seen the output of the events.
  unfoldable pub seen : T → List Event → T
  seen t [] = t
  seen t (read now chunk ∷ es) = seen (E.vt_write t chunk).0 es
  seen t (e ∷ es) = seen t es

  -- A PTY that runs with this terminal.
  record Shows (t : T) (p : LibghosttyPty T) : Type 0 where
    running : p.done ≡ false
    screen : p.term ≡ some t

  tee_recorder-term :
      (p : LibghosttyPty T) (now : ℕ) (chunk : Bytes) → (tee_recorder p now chunk).term ≡ p.term
  unfolding tee_recorder
  tee_recorder-term p now chunk = elim (Option-cases p.rec) [
    | inl e ↦ rw e refl
    | inr (r, e) ↦ rw e refl
  ]

  feed_primary-term : (p : LibghosttyPty T) (chunk : Bytes) → (feed_primary E p chunk).term ≡ p.term
  unfolding feed_primary
  feed_primary-term p chunk = elim (Option-cases p.primary_term) [
    | inl e ↦ rw e refl
    | inr (r, e) ↦ rw e refl
  ]

  fed-term :
      (t : T) (p : LibghosttyPty T) (now : ℕ) (chunk : Bytes)
      → p.term ≡ some t
      → (fed E p now chunk).term ≡ some (E.vt_write t chunk).0
  unfolding fed feed_term
  fed-term t p now chunk h =
      let q = tee_recorder p now chunk in
      let before : q.term ≡ some t = tee_recorder-term p now chunk ∙ h in
      feed_primary-term (feed_term E q chunk) chunk ∙ fed_here q before
    where
      fed_here :
          (q : LibghosttyPty T)
          → q.term ≡ some t
          → (feed_term E q chunk).term ≡ some (E.vt_write t chunk).0
      fed_here q e = rw e refl

  step-Shows :
      (e : Event) (t : T) (p : LibghosttyPty T) → Shows t p → Shows (seen t (e ∷ [])) (step E p e)
  unfolding step seen read_chunk fan_out tee_recorder feed_term feed_primary cancel subscribe
  step-Shows (read now chunk) t p v =
      let stepped = step-read E p now chunk v.running in
      record {
        running = ap (λ q. q.done) stepped ∙ (fed-Kept E p now chunk).done ∙ v.running;
        screen = ap (λ q. q.term) stepped ∙ fed-term t p now chunk v.screen;
      }
  step-Shows (taken k) t p v = record { running = v.running; screen = v.screen }
  step-Shows (subscribed c) t p v = record {
    running = ground (arith, v.running);
    screen = ground (arith, v.screen);
  }
  step-Shows (cancelled k) t p v = record {
    running = ground (arith, v.running);
    screen = ground (arith, v.screen);
  }

  seen-cons : (e : Event) (es : List Event) (t : T) → seen t (e ∷ es) ≡ seen (seen t (e ∷ [])) es
  unfolding seen
  seen-cons (read now chunk) es t = refl
  seen-cons (taken k) es t = refl
  seen-cons (subscribed c) es t = refl
  seen-cons (cancelled k) es t = refl

  run-Shows :
      (es : List Event) (t : T) (p : LibghosttyPty T) → Shows t p → Shows (seen t es) (run E p es)
  unfolding run seen
  run-Shows [] t p v = v
  run-Shows (e ∷ es) t p v =
      subst (λ u. Shows u (run E (step E p e) es)) (sym (seen-cons e es t))
        (run-Shows es (seen t (e ∷ [])) (step E p e) (step-Shows e t p v))

  sub_at-new :
      (subs : List Subscriber) (s : Subscriber) → sub_at (length subs) (subs ++ s ∷ []) ≡ some s
  sub_at-new [] s = refl
  sub_at-new (x ∷ subs) s = sub_at-new subs s

  -- The PTY with the new subscriber of an attach.
  unfoldable pub attached : LibghosttyPty T → LibghosttyPty T
  attached p = record p { subs = p.subs ++ new_subscriber live_capacity ∷ [] }

  subscribes :
      (t : T) (p : LibghosttyPty T) (parts : Bytes × Bytes)
      → Shows t p
      → E.is_alternate t ≡ some false
      → format_terminal_snapshot_parts E t ≡ some parts
      → subscribe_with_snapshot_parts E p ≡ (attached p, some parts)
  unfolding subscribe_with_snapshot_parts attached snapshot_parts_locked
  subscribes t p parts v primary ok = rw (v.running) (rw (v.screen) (rw primary (rw ok refl)))

  -- A running PTY that has a terminal, after any events that leave it on its primary screen, and
  -- where the emulator formats that screen: SubscribeWithSnapshotParts returns the two parts of
  -- the screen as all output before has left it, and the new channel, while it keeps up with the
  -- later output and is not cancelled, yields and holds exactly that output through a fresh
  -- stripper.
  pub subscribe_with_snapshot_parts-received :
      (before after : List Event) (t : T) (p : LibghosttyPty T) (parts : Bytes × Bytes)
      → p.done ≡ false
      → p.term ≡ some t
      → E.is_alternate (seen t before) ≡ some false
      → format_terminal_snapshot_parts E (seen t before) ≡ some parts
      → keeps_up E (length (run E p before).subs) (attached (run E p before)) after ≡ true
      → (subscribe_with_snapshot_parts E (run E p before) ≡ (attached (run E p before), some parts))
        × (received E (length (run E p before).subs) (attached (run E p before)) after
              ++ concat (
                  buffer_of (
                    sub_at
                      (length (run E p before).subs)
                      (run E (attached (run E p before)) after).subs))
            ≡ (Query.filter Query.initial (output after)).1)
  unfolding attached
  subscribe_with_snapshot_parts-received before after t p parts open_ screen primary ok fine =
      let v = run-Shows before t p (record { running = open_; screen = screen }) in
      (
        subscribes (seen t before) (run E p before) parts v primary ok,
        received-output E (length (run E p before).subs) after (attached (run E p before))
            (new_subscriber live_capacity) v.running
            (sub_at-new (run E p before).subs (new_subscriber live_capacity)) refl fine,
      )
