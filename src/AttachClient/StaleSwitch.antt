-- ===== src/AttachClient/StaleSwitch.antt =====
-- A clone while the client waits to dial again: the flag that it leaves behind.
use mathlib.Core.Path.{subst}
use hootty.Base.{
  ℕ, zero, suc, ◌^◌, ◌≤◌, ◌<◌, min, true, false, some, List, [], ◌∷◌, ◌≡◌, refl, sym, ap, ◌∙◌,
  arith,
}
use native.Mathlib.Nat.{pow-suc}
use hootty.AttachClient.{
  SharedSession, set_send, clear_send, mark_switched, take_switched, reset_tier,
}
use hootty.AttachClient.Backoff.{Woken, switch, wait_loop, wait_backoff}
use hootty.AttachClient.Waits.{backoff_delay-power, advanced}
use hootty.AttachClient.ConnectLoop.{
  Attempt, connected, dial_failed, ConnectState, Round, again, ends, error, backed_off,
  session_shared, after_session, after_failed_dial, connect_round, run_connect_loop,
}

delay_pos : (t : ℕ) → 1 ≤ min (2 ^ t) 30
delay_pos zero = omega arith
delay_pos (suc t) = omega (arith, delay_pos t, pow-suc 2 t)

-- The bus behind a wait that a clone ends.
abbrev cloned : SharedSession → SharedSession
cloned s = record (mark_switched (advanced s)) { wake = false }

wait_loop-switch :
    (d : ℕ) (ws : List Woken) (s : SharedSession)
    → 1 ≤ d
    → s.wake ≡ false
    → wait_loop d (switch ∷ ws) s
      ≡ record { shared = record (mark_switched s) { wake = false }; go_on = true; slept = 0 }
unfolding wait_loop
wait_loop-switch zero ws s h asleep = ground arith
wait_loop-switch (suc d) ws s h asleep = ground (arith, asleep)

wait_backoff-switch :
    (ws : List Woken) (s : SharedSession)
    → s.tier < 2147483648
    → s.wake ≡ false
    → wait_backoff (switch ∷ ws) s ≡ some (record { shared = cloned s; go_on = true; slept = 0 })
unfolding wait_backoff
wait_backoff-switch ws s small asleep =
    rw (backoff_delay-power s.tier small, wait_backoff)
      (ap some (wait_loop-switch (min (2 ^ s.tier) 30) ws (advanced s) (delay_pos s.tier) asleep))

backed_off-back :
    (wakes : List Woken) (st : ConnectState) (s : SharedSession)
    → wait_backoff wakes st.shared ≡ some (record { shared = s; go_on = true; slept = 0 })
    → backed_off wakes st (λ s. s) ≡ again (record st { shared = s })
unfolding backed_off
backed_off-back wakes st s e = rw (e, backed_off) refl

run_connect_loop-again :
    (a : Attempt) (more : List Attempt) (st st' : ConnectState)
    → connect_round true a st ≡ again st'
    → run_connect_loop true (a ∷ more) st ≡ run_connect_loop true more st'
unfolding run_connect_loop
run_connect_loop-again a more st st' e = rw (e, run_connect_loop) refl

run_connect_loop-ends :
    (a : Attempt) (more : List Attempt) (st : ConnectState)
    → connect_round true a st ≡ ends error
    → run_connect_loop true (a ∷ more) st ≡ ends error
unfolding run_connect_loop
run_connect_loop-ends a more st e = rw (e, run_connect_loop) refl

-- A dial that fails, and a clone in the wait behind it.
clone_round :
    (x : Attempt) (ws : List Woken) (st : ConnectState)
    → x.dial ≡ dial_failed
    → x.wakes ≡ switch ∷ ws
    → st.got_connected_once ≡ true
    → st.shared.tier < 2147483648
    → st.shared.wake ≡ false
    → connect_round true x st ≡ again (record st { shared = cloned st.shared })
unfolding connect_round after_failed_dial
clone_round x ws st fails woken once small asleep =
    let w = wait_backoff-switch ws st.shared small asleep in
    let redial =
      backed_off-back x.wakes st (cloned st.shared)
        (ap (λ wakes. wait_backoff wakes st.shared) woken ∙ w) in
    ground (arith, fails, once, redial)

-- The session that the next dial opens, and its drop.
abbrev redialled : SharedSession → SharedSession
redialled s = (take_switched (session_shared false s)).0

stale_round :
    (a : Attempt) (st : ConnectState)
    → a.dial ≡ connected
    → a.switches ≡ false
    → a.cancelled ≡ false
    → st.shared.switched ≡ true
    → connect_round true a st
      ≡ again (record { got_connected_once = false; shared = redialled st.shared })
unfolding connect_round after_session take_switched session_shared set_send clear_send reset_tier
stale_round a st dial stays live stale = ground (arith, dial, stays, live, stale)

failed_round :
    (b : Attempt) (st : ConnectState)
    → b.dial ≡ dial_failed
    → st.got_connected_once ≡ false
    → connect_round true b st ≡ ends error
unfolding connect_round after_failed_dial
failed_round b st fails never = ground (arith, fails, never)

-- The loop dials again as one that has not connected before, and no wait has advanced the tier.
abbrev pub DialsAfresh : Round → Type 0
DialsAfresh (again st) = (st.got_connected_once ≡ false) × (st.shared.tier ≡ 0)
DialsAfresh (ends e) = ⊥

-- With reconnect on, a loop that has connected once, in a tier short of the overflow of its counter
-- and with no wake pending: a dial fails, and the user clones in the wait behind it. The next dial
-- connects, to the clone already. When that session drops, with no clone while it ran and the
-- context not done, the loop takes the drop for the switch: whatever there is to wake it, it
-- does not wait, and it dials as if it had never connected; so it ends with an error where that
-- dial fails.
pub run_connect_loop-stale_switch :
    (x a b : Attempt) (ws : List Woken) (st : ConnectState)
    → st.got_connected_once ≡ true
    → st.shared.tier < 2147483648
    → st.shared.wake ≡ false
    → x.dial ≡ dial_failed
    → x.wakes ≡ switch ∷ ws
    → a.dial ≡ connected
    → a.switches ≡ false
    → a.cancelled ≡ false
    → b.dial ≡ dial_failed
    → DialsAfresh (run_connect_loop true (x ∷ a ∷ []) st)
      × (run_connect_loop true (x ∷ a ∷ b ∷ []) st ≡ ends error)
unfolding run_connect_loop take_switched session_shared set_send clear_send reset_tier mark_switched
run_connect_loop-stale_switch x a b ws st once small asleep fails woken dial stays live fails_b =
    let waiting : ConnectState = record st { shared = cloned st.shared } in
    let afresh : ConnectState = record {
      got_connected_once = false;
      shared = redialled (cloned st.shared);
    } in
    let first = clone_round x ws st fails woken once small asleep in
    let second = stale_round a waiting dial stays live refl in
    (
      subst DialsAfresh
          (sym (
            run_connect_loop-again x (a ∷ []) st waiting first
            ∙ run_connect_loop-again a [] waiting afresh second))
          (refl, refl),
      run_connect_loop-again x (a ∷ b ∷ []) st waiting first
          ∙ run_connect_loop-again a (b ∷ []) waiting afresh second
          ∙ run_connect_loop-ends b [] afresh (failed_round b afresh fails_b refl),
    )
