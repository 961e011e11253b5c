-- ===== src/Chat/Connection.antt =====
-- The pane's connection: reconnecting with a bounded delay, and what ends it.
use agentleh_app.Base.{
  ℕ, zero, suc, false, some, Text, if◌then◌else◌, ◌==◌, ltb, ◌-◌, ◌+◌, ◌*◌, ◌^◌, ◌≤◌, ◌≡◌, ◌≢◌,
  refl, arith, ◌⊎◌, inl, inr, ap, Bool-cases, ==_iff,
}
use agentleh_app.Js.{Number}
use native.Mathlib.Nat.{pow-le-pow_right}
use agentleh_app.Chat.Pane.{Platform, reconnecting, offline, Pane}
use agentleh_app.Chat.Socket.{backoff, policy_violation, on_close, on_open, unmount}

two_pow_mono : (a b : ℕ) → a ≤ b → 2 ^ a ≤ 2 ^ b
two_pow_mono a b h = pow-le-pow_right (omega arith) h

backoff_bounds : (n : ℕ) → (1000 ≤ backoff n) × (backoff n ≤ 30000)
unfolding backoff
backoff_bounds n = let h = two_pow_mono 0 (n - 1) (omega arith) in (omega arith, omega arith)

backoff_saturates : (n : ℕ) → 6 ≤ n → backoff n ≡ 30000
unfolding backoff
backoff_saturates n h = omega (arith, two_pow_mono 5 (n - 1) (omega arith))

backoff_eq : (n m : ℕ) → m ≡ n + 1 → backoff m ≡ (if ltb n 5 then 1000 * 2 ^ n else 30000)
unfolding backoff
backoff_eq n m h = ground (arith, backoff_saturates m, two_pow_mono n 4, two_pow_mono 5 n)

module _ (now : Number) (p : Platform) (reason denied : Text) where
  -- After a close the pane cannot send. Code 1008 leaves it offline with no new timer; any other
  -- code arms the timer, with a delay of 1 to 30 seconds, and counts one more attempt.
  on_close_cases :
      (code : ℕ) (s : Pane)
      → ((on_close now p code reason denied s).can_send ≡ false)
        × (((code ≡ policy_violation)
              × ((on_close now p code reason denied s).conn ≡ offline)
              × ((on_close now p code reason denied s).timer ≡ s.timer))
            ⊎ ((code ≢ policy_violation)
                × ((on_close now p code reason denied s).conn ≡ reconnecting)
                × ((on_close now p code reason denied s).attempt ≡ s.attempt + 1)
                × ((d : ℕ) × ((on_close now p code reason denied s).timer ≡ some d)
                    × (1000 ≤ d)
                    × (d ≤ 30000))))
  unfolding on_close
  on_close_cases code s = elim (Bool-cases (code == policy_violation)) [
    | inl e ↦ rw e (refl, inl ((==_iff code policy_violation).0 e, refl, refl))
    | inr e ↦ rw e (
      refl,
      inr (
        ground arith,
        refl,
        refl,
        (
          backoff (s.attempt + 1),
          refl,
          (backoff_bounds (s.attempt + 1)).0,
          (backoff_bounds (s.attempt + 1)).1,
        ),
      ),
    )
  ]

  -- n transient closes in a row, with no open in between.
  pub closes : ℕ → Pane → Pane
  closes zero s = s
  closes (suc n) s = on_close now p 1006 reason denied (closes n s)

  closes-attempt : (n : ℕ) (s : Pane) → (closes n s).attempt ≡ n + s.attempt
  unfolding closes on_close
  closes-attempt zero s = omega arith
  closes-attempt (suc n) s = omega (arith, closes-attempt n s)

  -- From the sixth close in a row after an open on, the delay is 30 seconds; before it, it doubles from one second.
  closes-timer :
      (n : ℕ) (s : Pane)
      → (closes (suc n) (on_open s)).timer ≡ some (if ltb n 5 then 1000 * 2 ^ n else 30000)
  unfolding closes on_close on_open
  closes-timer n s = ap some (
      backoff_eq n ((closes n (on_open s)).attempt + 1)
        (omega (arith, closes-attempt n (on_open s))))

  -- A close event that follows the unmount of the pane arms a reconnect timer, unless its code is 1008.
  on_close-unmount :
      (code : ℕ) (s : Pane)
      → code ≢ policy_violation
      → (on_close now p code reason denied (unmount s)).timer ≡ some (backoff (s.attempt + 1))
  unfolding on_close unmount
  on_close-unmount code s h = ground arith
