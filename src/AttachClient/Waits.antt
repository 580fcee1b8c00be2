-- ===== src/AttachClient/Waits.antt =====
-- How long waitBackoff waits, and that it always comes back.
use hootty.Base.{
  ℕ, zero, suc, ◌+◌, ◌^◌, ◌≤◌, ◌<◌, ◌%◌, min, true, false, Option, some, List, [], ◌∷◌, ◌≡◌, ◌≢◌,
  refl, ap, arith, All,
}
use native.Mathlib.Nat.{pow-suc}
use hootty.AttachClient.{SharedSession}
use hootty.AttachClient.Backoff.{
  Woken, timer, cancelled, Waited, backoff_delay, wait_loop, wait_backoff,
}

power_above : (n : ℕ) → 30 ≤ 2 ^ (5 + n)
power_above zero = omega arith
power_above (suc n) = omega (arith, power_above n, ap (2 ^◌) (next n), pow-suc 2 (5 + n))
  where
    next : (n : ℕ) → 5 + suc n ≡ suc (5 + n)
    next n = omega arith

-- The schedule is the powers of two up to 30 seconds.
pub backoff_delay-power :
    (tier : ℕ) → tier < 2147483648 → backoff_delay tier ≡ some (min (2 ^ tier) 30)
unfolding backoff_delay
backoff_delay-power zero h = refl
backoff_delay-power (suc zero) h = refl
backoff_delay-power (suc (suc zero)) h = refl
backoff_delay-power (suc (suc (suc zero))) h = refl
backoff_delay-power (suc (suc (suc (suc zero)))) h = refl
backoff_delay-power (suc (suc (suc (suc (suc n))))) h =
    let whole : suc (suc (suc (suc (suc n)))) ≡ 5 + n = omega arith in
    ground (arith, h, ap (2 ^◌) whole, power_above n)

wait_loop-slept :
    (remain : ℕ) (wakes : List Woken) (s : SharedSession)
    → (wait_loop remain wakes s).slept ≤ remain
unfolding wait_loop
wait_loop-slept zero wakes s = omega arith
wait_loop-slept (suc remain) [] s = ground (arith, wait_loop-slept remain [] s)
wait_loop-slept (suc remain) (timer ∷ ws) s = ground (arith, wait_loop-slept remain ws s)
wait_loop-slept (suc remain) (w ∷ ws) s = ground arith

wait_loop-go_on :
    (remain : ℕ) (wakes : List Woken) (s : SharedSession)
    → All (λ w. w ≢ cancelled) wakes
    → (wait_loop remain wakes s).go_on ≡ true
unfolding wait_loop
wait_loop-go_on zero wakes s h = refl
wait_loop-go_on (suc remain) [] s h = ground (arith, wait_loop-go_on remain [] s tt)
wait_loop-go_on (suc remain) (timer ∷ ws) s h = ground (arith, wait_loop-go_on remain ws s h.1)
wait_loop-go_on (suc remain) (cancelled ∷ ws) s h = absurd (h.0 refl)
wait_loop-go_on (suc remain) (w ∷ ws) s h = ground arith

wait_loop-timers :
    (remain : ℕ) (s : SharedSession)
    → s.wake ≡ false
    → wait_loop remain [] s ≡ record { shared = s; go_on = true; slept = remain }
unfolding wait_loop
wait_loop-timers zero s asleep = refl
wait_loop-timers (suc remain) s asleep = ground (arith, asleep, wait_loop-timers remain s asleep)

-- The bus behind the choice of a delay.
abbrev pub advanced : SharedSession → SharedSession
advanced s = record s { tier = (s.tier + 1) % 4294967296 }

-- A wait of `d` seconds at most that comes back to dial again.
pub record ComesBack (d : ℕ) (wakes : List Woken) (s : SharedSession) (o : Option Waited)
    : Type 0 where
  pub returns : o ≡ some (wait_loop d wakes (advanced s))
  pub bounded : (wait_loop d wakes (advanced s)).slept ≤ d
  pub goes_on : (wait_loop d wakes (advanced s)).go_on ≡ true

-- Whatever wakes it but the end of the context, a wait in any tier short of the overflow of its
-- counter comes back to dial again; it takes at most two to the tier seconds and at most 30.
pub wait_backoff-ComesBack :
    (wakes : List Woken) (s : SharedSession)
    → s.tier < 2147483648
    → All (λ w. w ≢ cancelled) wakes
    → ComesBack (min (2 ^ s.tier) 30) wakes s (wait_backoff wakes s)
unfolding wait_backoff
wait_backoff-ComesBack wakes s h not_cancelled = record {
  returns = rw (backoff_delay-power s.tier h, wait_backoff) refl;
  bounded = wait_loop-slept (min (2 ^ s.tier) 30) wakes (advanced s);
  goes_on = wait_loop-go_on (min (2 ^ s.tier) 30) wakes (advanced s) not_cancelled;
}
