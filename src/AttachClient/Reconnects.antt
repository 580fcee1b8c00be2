-- ===== src/AttachClient/Reconnects.antt =====
-- When runConnectLoop ends, and when it does not.
use mathlib.Core.Path.{subst}
use hootty.Base.{
  ℕ, ◌<◌, ◌+◌, ◌%◌, ◌^◌, min, zero, suc, Bool, true, false, List, [], ◌∷◌, ◌≡◌, ◌≢◌, refl, sym, ◌∙◌,
  arith, length, All, inl, inr, ◌⊎◌,
}
use hootty.AttachClient.{SharedSession, set_send, clear_send, take_switched, reset_tier}
use hootty.AttachClient.Backoff.{Woken, timer, key, switch, cancelled, wait_loop}
use hootty.AttachClient.ConnectLoop.{
  Attempt, connected, dial_failed, ConnectState, Round, again, ends, backed_off, session_shared,
  after_session, after_failed_dial, connect_round, run_connect_loop,
}
use hootty.AttachClient.Waits.{wait_backoff-ComesBack, advanced}

-- A round in which the user and the server leave the session alone: no clone, no cancellation, and
-- no answer that there is no such session.
pub record IsPlain (a : Attempt) : Type 0 where
  pub dial : (a.dial ≡ connected) ⊎ (a.dial ≡ dial_failed)
  pub stays : a.switches ≡ false
  pub live : a.cancelled ≡ false
  pub waits : All (λ w. (w ≢ cancelled) × (w ≢ switch)) a.wakes

-- A loop that has connected once, to the session it is meant to show, with `n` waits to go before
-- the counter of the tiers overflows.
pub record IsReconnecting (n : ℕ) (st : ConnectState) : Type 0 where
  pub once : st.got_connected_once ≡ true
  pub settled : st.shared.switched ≡ false
  pub tier : st.shared.tier + n < 2147483648

wait_loop-shared :
    (remain : ℕ) (wakes : List Woken) (s : SharedSession)
    → All (λ w. (w ≢ cancelled) × (w ≢ switch)) wakes
    → ((wait_loop remain wakes s).shared.switched ≡ s.switched)
      × ((wait_loop remain wakes s).shared.tier ≡ s.tier)
unfolding wait_loop
wait_loop-shared zero wakes s h = (refl, refl)
wait_loop-shared (suc remain) [] s h = ground (arith, wait_loop-shared remain [] s tt)
wait_loop-shared (suc remain) (timer ∷ ws) s h = ground (arith, wait_loop-shared remain ws s h.1)
wait_loop-shared (suc remain) (key ∷ ws) s h = ground arith
wait_loop-shared (suc remain) (switch ∷ ws) s h = absurd (h.0.1 refl)
wait_loop-shared (suc remain) (cancelled ∷ ws) s h = absurd (h.0.0 refl)

not_cancelled :
    (wakes : List Woken)
    → All (λ w. (w ≢ cancelled) × (w ≢ switch)) wakes
    → All (λ w. w ≢ cancelled) wakes
not_cancelled [] h = tt
not_cancelled (w ∷ ws) h = (h.0.0, not_cancelled ws h.1)

-- The bus behind the wait.
abbrev waited : List Woken → SharedSession → SharedSession
waited wakes s = (wait_loop (min (2 ^ s.tier) 30) wakes (advanced s)).shared

backed_off-again :
    (wakes : List Woken) (st : ConnectState) (next : SharedSession → SharedSession)
    → All (λ w. (w ≢ cancelled) × (w ≢ switch)) wakes
    → st.shared.tier < 2147483648
    → backed_off wakes st next ≡ again (record st { shared = next (waited wakes st.shared) })
unfolding backed_off
backed_off-again wakes st next h small =
    let back = wait_backoff-ComesBack wakes st.shared small (not_cancelled wakes h) in
    rw (back.returns, back.goes_on, backed_off) refl

waited-IsReconnecting :
    (n : ℕ) (wakes : List Woken) (s : SharedSession) (wake : Bool)
    → All (λ w. (w ≢ cancelled) × (w ≢ switch)) wakes
    → s.switched ≡ false
    → s.tier + suc n < 2147483648
    → ((waited wakes s).switched ≡ false) × ((waited wakes s).tier + n < 2147483648)
waited-IsReconnecting n wakes s wake h settled small =
    let kept = wait_loop-shared (min (2 ^ s.tier) 30) wakes (advanced s) h in
    let up : (s.tier + 1) % 4294967296 ≡ s.tier + 1 = omega arith in
    (kept.0 ∙ settled, omega (arith, kept.1, up, small))

-- The loop goes on, as one that has connected once.
abbrev pub GoesOn : ℕ → Round → Type 0
GoesOn n (again st) = IsReconnecting n st
GoesOn n (ends e) = ⊥

after_session-GoesOn :
    (n : ℕ) (a : Attempt) (st : ConnectState)
    → IsPlain a
    → st.shared.switched ≡ false
    → st.shared.tier + suc n < 2147483648
    → GoesOn n (after_session true a st)
unfolding after_session take_switched
after_session-GoesOn n a st plain settled small =
    let st' : ConnectState = record {
      got_connected_once = true;
      shared = record st.shared { switched = false };
    } in
    let w = waited-IsReconnecting n a.wakes st'.shared false plain.waits refl small in
    rw (plain.live) (
      rw settled (
        subst (GoesOn n)
          (sym (
            backed_off-again a.wakes st' (λ s. record s { wake = false }) plain.waits
              (omega (arith, small))))
          (record { once = refl; settled = w.0; tier = w.1 })))

after_failed_dial-GoesOn :
    (n : ℕ) (a : Attempt) (st : ConnectState)
    → IsPlain a
    → IsReconnecting (suc n) st
    → GoesOn n (after_failed_dial true a st)
unfolding after_failed_dial
after_failed_dial-GoesOn n a st plain v =
    let w = waited-IsReconnecting n a.wakes st.shared false plain.waits v.settled v.tier in
    rw (v.once) (
      subst (GoesOn n)
        (sym (
          backed_off-again a.wakes (record { got_connected_once = true; shared = st.shared })
            (λ s. s) plain.waits (omega (arith, v.tier))))
        (record { once = refl; settled = w.0; tier = w.1 }))

session_shared-keeps :
    (s : SharedSession)
    → ((session_shared false s).switched ≡ s.switched) × ((session_shared false s).tier ≡ 0)
unfolding session_shared set_send clear_send reset_tier
session_shared-keeps s = (refl, refl)

connect_round-GoesOn :
    (n : ℕ) (a : Attempt) (st : ConnectState)
    → IsPlain a
    → IsReconnecting (suc n) st
    → GoesOn n (connect_round true a st)
unfolding connect_round
connect_round-GoesOn n a st plain v = elim (plain.dial) [
  | inl e ↦
      let k = session_shared-keeps st.shared in
      rw e (
        rw (plain.stays) (
          after_session-GoesOn n a (record st { shared = session_shared false st.shared }) plain
            (k.0 ∙ v.settled) (omega (arith, k.1, v.tier))))
  | inr e ↦ rw e (after_failed_dial-GoesOn n a st plain v)
]

after_round :
    (n : ℕ) (more : List Attempt) (r : Round)
    → GoesOn n r
    → ((st : ConnectState) → IsReconnecting n st → GoesOn 0 (run_connect_loop true more st))
    → GoesOn 0
        (elim r as (λ _. Round) [ again st ↦ run_connect_loop true more st | ends e ↦ ends e ])
after_round n more (again st) v later = later st v
after_round n more (ends e) v later = absurd v

-- With reconnect on, a loop that has connected once never ends by itself: whatever drops, a clean
-- end of the server's stream included, and failed dials follow, any number of them short of the
-- overflow of the tiers, it still runs, where the context is not done, the server does not answer
-- that there is no such session, and no clone switches the target.
pub run_connect_loop-GoesOn :
    (more : List Attempt) (st : ConnectState)
    → IsReconnecting (length more) st
    → All IsPlain more
    → GoesOn 0 (run_connect_loop true more st)
unfolding run_connect_loop
run_connect_loop-GoesOn [] st v plain = v
run_connect_loop-GoesOn (a ∷ more) st v plain =
    after_round (length more) more (connect_round true a st)
      (connect_round-GoesOn (length more) a st plain.0 v)
      λ st' v'. run_connect_loop-GoesOn more st' v' plain.1
