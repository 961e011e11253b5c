-- ===== src/Integrations/Cancel.antt =====
-- The panel's "Cancel" and its unmount while a request of the poller is in flight.
use agentleh_app.Base.{
  ℕ, ◌+◌, Bool, true, false, not, List, [], ◌∷◌, some, ◌≡◌, ◌∙◌, ◌≤◌, ◌<◌, refl, arith, ==_refl,
}
use agentleh_app.Js.{ok, throw, Outcome}
use agentleh_app.Integrations.Panel.{
  Google, Timer, Panel, poll_interval_ms, stop_polling, set_timer, tick, poll_answered, unmount,
  stopping, unmounted, ticked, poll_arrived, take_timer, act, step, run,
}

-- An answer that ends no consent.
abbrev pub goes_on : Outcome Google → Bool
goes_on (ok google) = not google.connected
goes_on (throw e) = true

-- An answer that goes on sets a timer.
record Rearmed (t u : Panel) : Type 0 where
  timers : u.timers ≡ record { id = t.next_id; due = t.clock + poll_interval_ms } ∷ t.timers
  polls : u.polls + 1 ≡ t.polls
  polled : u.polled ≡ t.polled
  deadline : u.poll_deadline ≡ t.poll_deadline
  clock : u.clock ≡ t.clock
  waiting : u.waiting_for_consent ≡ t.waiting_for_consent

poll_arrived-Rearmed :
    (r : Outcome Google) (t : Panel)
    → 0 < t.polls
    → goes_on r ≡ true
    → Rearmed t (step (0, poll_arrived r) t)
unfolding step act poll_answered set_timer
poll_arrived-Rearmed (ok google) t p g = ground arith
poll_arrived-Rearmed (throw e) t p g = ground arith

take_timer-head :
    (id due : ℕ) (ts : List Timer)
    → take_timer id (record { id = id; due = due } ∷ ts) ≡ some (record { id = id; due = due }, ts)
unfolding take_timer
take_timer-head id due ts = rw (==_refl id) refl

-- What a poller does when its timer fires in time.
record Asks (t v : Panel) : Type 0 where
  polled : v.polled ≡ t.polled + 1
  polls : v.polls ≡ t.polls
  waiting : v.waiting_for_consent ≡ t.waiting_for_consent

ticked-Asks :
    (t u : Panel)
    → Rearmed t u
    → t.clock + poll_interval_ms ≤ t.poll_deadline
    → Asks t (step (poll_interval_ms, ticked t.next_id) u)
unfolding step act tick
ticked-Asks t u h d =
    let found : take_timer t.next_id u.timers
        ≡ some (record { id = t.next_id; due = t.clock + poll_interval_ms }, t.timers) =
      rw h.timers (take_timer-head t.next_id (t.clock + poll_interval_ms) t.timers) in
    ground (arith, found, h.polls, h.polled, h.deadline, h.clock, h.waiting)

-- Cancelling and unmounting leave the request in flight.
record Halted (s t : Panel) : Type 0 where
  polls : t.polls ≡ s.polls
  polled : t.polled ≡ s.polled
  deadline : t.poll_deadline ≡ s.poll_deadline
  clock : t.clock ≡ s.clock
  next : t.next_id ≡ s.next_id

stopping-Halted : (s : Panel) → Halted s (step (0, stopping) s)
unfolding step act stop_polling
stopping-Halted s = ground arith

unmounted-Halted : (s : Panel) → Halted s (step (0, unmounted) s)
unfolding step act unmount
unmounted-Halted s = ground arith

goes_on_lem :
    (r : Outcome Google) (s t : Panel)
    → Halted s t
    → 0 < s.polls
    → goes_on r ≡ true
    → s.clock + poll_interval_ms ≤ s.poll_deadline
    → Asks t (run ((0, poll_arrived r) ∷ (poll_interval_ms, ticked s.next_id) ∷ []) t)
unfolding run
goes_on_lem r s t h p g d = rw (← h.next) (
    ticked-Asks t (step (0, poll_arrived r) t) (poll_arrived-Rearmed r t (omega (arith, h.polls)) g)
      (omega (arith, h.clock, h.deadline)))

-- Where a request of the poller is in flight, cancelling the panel does not end the poller: an answer that brings no
-- connection sets a new timer, and where that fires before the deadline, the poller asks again, though the panel no
-- longer waits for a consent.
run-stopping :
    (r : Outcome Google) (s : Panel)
    → 0 < s.polls
    → goes_on r ≡ true
    → s.clock + poll_interval_ms ≤ s.poll_deadline
    → let after =
        run ((0, stopping) ∷ (0, poll_arrived r) ∷ (poll_interval_ms, ticked s.next_id) ∷ []) s in
      (after.polled ≡ s.polled + 1) × (after.polls ≡ s.polls) × (after.waiting_for_consent ≡ false)
unfolding run
run-stopping r s p g d =
    let h = stopping-Halted s in
    let a = goes_on_lem r s (step (0, stopping) s) h p g d in
    (omega (arith, a.polled, h.polled), a.polls ∙ h.polls, a.waiting ∙ stopped s)
  where
    stopped : (s : Panel) → (step (0, stopping) s).waiting_for_consent ≡ false
    stopped s = unfold step act stop_polling in refl

-- So it is where the panel is unmounted.
run-unmounted :
    (r : Outcome Google) (s : Panel)
    → 0 < s.polls
    → goes_on r ≡ true
    → s.clock + poll_interval_ms ≤ s.poll_deadline
    → (run
        ((0, unmounted) ∷ (0, poll_arrived r) ∷ (poll_interval_ms, ticked s.next_id) ∷ [])
        s).polled
      ≡ s.polled + 1
unfolding run
run-unmounted r s p g d =
    let h = unmounted-Halted s in
    let a = goes_on_lem r s (step (0, unmounted) s) h p g d in omega (arith, a.polled, h.polled)
