-- ===== src/Integrations/Deadline.antt =====
-- The poller gives up: how often it asks after one start.
use agentleh_app.Base.{
  ℕ, ◌+◌, ◌*◌, ◌-◌, Bool, true, false, List, [], ◌∷◌, some, ◌==◌, leb, ltb, length, ◌≡◌, ◌≤◌, ◌<◌,
  refl, ◌∙◌, arith, All, inl, inr, Option-cases, Bool-cases, if_elim,
}
use agentleh_app.Js.{ok, throw, Outcome}
use agentleh_app.Integrations.Panel.{
  Google, Timer, Panel, poll_interval_ms, poll_timeout_ms, clear_timeout, stop_polling, set_timer,
  start_polling, tick, poll_answered, handle_connect, refresh, refresh_answered, handle_disconnect,
  disconnect_answered, connect_answered, disconnect_refreshed, unmount, Event, refreshing, stopping,
  unmounted, refreshed, disconnect_refreshing, connecting, disconnecting, connect_arrived,
  disconnect_arrived, ticked, poll_arrived, take_timer, act, step, run,
}
use agentleh_app.Integrations.Timers.{
  take_timer_lem, All-empty, clear_timeout-length, clear_timeout-All,
}

-- The answer to a connection whose tab has opened is the one call of `startPolling`.
abbrev pub starts_polling : Event → Bool
starts_polling (connect_arrived (ok true)) = true
starts_polling _ = false

-- Each round of a poller that was started at `began` comes three seconds behind the one before it: `n` requests were
-- made, and at most one timer or request is pending.
record IsPaced (began n : ℕ) (s : Panel) : Type 0 where
  deadline : s.poll_deadline ≡ began + poll_timeout_ms
  one : length s.timers + s.polls ≤ 1
  due : All (λ t. began + (n + 1) * poll_interval_ms ≤ t.due) s.timers
  in_time : n * poll_interval_ms ≤ poll_timeout_ms
  begun : began + n * poll_interval_ms ≤ s.clock

-- The state after some requests of the poller.
record IsPacedBy (began base : ℕ) (s : Panel) : Type 0 where
  n : ℕ
  made : s.polled ≡ base + n
  paced : IsPaced began n s

module _ {began base : ℕ} where
  -- Time passes, and what the poller does not read may change.
  later :
      (s t : Panel)
      → IsPacedBy began base s
      → t.poll_deadline ≡ s.poll_deadline
      → t.timers ≡ s.timers
      → t.polls ≡ s.polls
      → t.polled ≡ s.polled
      → s.clock ≤ t.clock
      → IsPacedBy began base t
  later s t h a b c d e = record {
    n = h.n;
    made = d ∙ h.made;
    paced = record {
      deadline = a ∙ h.paced.deadline;
      one = rw (b, c) h.paced.one;
      due = rw b h.paced.due;
      in_time = h.paced.in_time;
      begun = omega (arith, h.paced.begun);
    };
  }

  cleared :
      (s : Panel)
      → IsPacedBy began base s
      → IsPacedBy began base (record s { timers = clear_timeout s.poll_timeout s.timers })
  cleared s h = record {
    n = h.n;
    made = h.made;
    paced = record {
      deadline = h.paced.deadline;
      one = omega (arith, h.paced.one, clear_timeout-length s.poll_timeout s.timers);
      due = clear_timeout-All _ s.poll_timeout s.timers h.paced.due;
      in_time = h.paced.in_time;
      begun = h.paced.begun;
    };
  }

  timer_set :
      (s : Panel)
      → IsPacedBy began base s
      → length s.timers + s.polls ≡ 0
      → IsPacedBy began base (set_timer s)
  unfolding set_timer
  timer_set s h e = record {
    n = h.n;
    made = h.made;
    paced = record {
      deadline = h.paced.deadline;
      one = omega arith;
      due = (
        omega (arith, h.paced.begun),
        All-empty (λ t. began + (h.n + 1) * poll_interval_ms ≤ t.due) s.timers (omega arith),
      );
      in_time = h.paced.in_time;
      begun = h.paced.begun;
    };
  }

  fewer :
      (s : Panel) (h : IsPacedBy began base s)
      → IsPacedBy began base (record s { polls = s.polls - 1 })
  fewer s h = record {
    n = h.n;
    made = h.made;
    paced = record {
      deadline = h.paced.deadline;
      one = omega (arith, h.paced.one);
      due = h.paced.due;
      in_time = h.paced.in_time;
      begun = h.paced.begun;
    };
  }

  tick_lem :
      (id : ℕ) (t : Timer) (ts : List Timer) (s : Panel)
      → IsPacedBy began base s
      → take_timer id s.timers ≡ some (t, ts)
      → t.due ≤ s.clock
      → IsPacedBy began base (tick (record s { timers = ts }))
  unfolding tick stop_polling
  tick_lem id t ts s h e d =
      let pace = λ (t : Timer). began + (h.n + 1) * poll_interval_ms ≤ t.due in
      let (counted, own, left) = take_timer_lem pace id s.timers t ts e h.paced.due in
      elim (Bool-cases (ltb s.poll_deadline s.clock)) [
        | inl past ↦
            rw (tick, past)
              (record {
                n = h.n;
                made = h.made;
                paced = record {
                  deadline = h.paced.deadline;
                  one = omega (arith, counted, h.paced.one, clear_timeout-length s.poll_timeout ts);
                  due = clear_timeout-All pace s.poll_timeout ts left;
                  in_time = h.paced.in_time;
                  begun = h.paced.begun;
                };
              })
        | inr in_time ↦
            rw (tick, in_time)
              (record {
                n = h.n + 1;
                made = omega (arith, h.made);
                paced = record {
                  deadline = h.paced.deadline;
                  one = omega (arith, counted, h.paced.one);
                  due =
                      All-empty (λ t. began + (h.n + 1 + 1) * poll_interval_ms ≤ t.due) ts
                        (omega (arith, counted, h.paced.one));
                  in_time = ground (arith, own, h.paced.deadline);
                  begun = omega (arith, own);
                };
              })
      ]

  answered_lem :
      (r : Outcome Google) (s : Panel)
      → IsPacedBy began base s
      → 0 < s.polls
      → IsPacedBy began base (poll_answered r (record s { polls = s.polls - 1 }))
  unfolding poll_answered stop_polling
  answered_lem (throw e) s h p =
      timer_set (record s { polls = s.polls - 1 }) (fewer s h) (omega (arith, h.paced.one))
  answered_lem (ok google) s h p =
      let got = record s { polls = s.polls - 1; status = some google } in
      let paced : IsPacedBy began base got =
        later (record s { polls = s.polls - 1 }) got (fewer s h) refl refl refl refl
          (omega arith) in
      if_elim (IsPacedBy began base) google.connected _ _
        (later (record got { timers = clear_timeout s.poll_timeout s.timers }) _ (cleared got paced)
          refl refl refl refl (omega arith))
        (timer_set got paced (omega (arith, h.paced.one)))

  act_lem :
      (e : Event) (s : Panel)
      → starts_polling e ≡ false
      → IsPacedBy began base s
      → IsPacedBy began base (act e s)
  unfolding act refresh stop_polling unmount refresh_answered disconnect_refreshed handle_connect
      connect_answered handle_disconnect disconnect_answered
  act_lem refreshing s w h = later s _ h refl refl refl refl (omega arith)
  act_lem stopping s w h =
      later (record s { timers = clear_timeout s.poll_timeout s.timers }) _ (cleared s h) refl refl
        refl refl (omega arith)
  act_lem unmounted s w h =
      later (record s { timers = clear_timeout s.poll_timeout s.timers }) _ (cleared s h) refl refl
        refl refl (omega arith)
  act_lem (refreshed (ok g)) s w h = later s _ h refl refl refl refl (omega arith)
  act_lem (refreshed (throw e)) s w h = later s _ h refl refl refl refl (omega arith)
  act_lem (disconnect_refreshing (ok g)) s w h = later s _ h refl refl refl refl (omega arith)
  act_lem (disconnect_refreshing (throw e)) s w h = later s _ h refl refl refl refl (omega arith)
  act_lem (connecting c) s w h =
      later s _ h (ground arith) (ground arith) (ground arith) (ground arith) (ground arith)
  act_lem (disconnecting c) s w h =
      later s _ h (ground arith) (ground arith) (ground arith) (ground arith) (ground arith)
  act_lem (connect_arrived (ok true)) s w h = absurd (ground arith)
  act_lem (connect_arrived (ok false)) s w h = later s _ h refl refl refl refl (omega arith)
  act_lem (connect_arrived (throw e)) s w h = later s _ h refl refl refl refl (omega arith)
  act_lem (disconnect_arrived (ok u)) s w h = later s _ h refl refl refl refl (omega arith)
  act_lem (disconnect_arrived (throw e)) s w h = later s _ h refl refl refl refl (omega arith)
  act_lem (ticked id) s w h = elim (Option-cases (take_timer id s.timers)) [
    | inl e ↦ rw (act, e) h
    | inr ((t, ts), e) ↦ elim (Bool-cases (leb t.due s.clock)) [
      | inl q ↦ rw (act, e, q) (tick_lem id t ts s h e (ground arith))
      | inr q ↦ rw (act, e, q) h
    ]
  ]
  act_lem (poll_arrived r) s w h = elim (Bool-cases (s.polls == 0)) [
    | inl q ↦ rw (act, q) h
    | inr q ↦ rw (act, q) (answered_lem r s h (ground arith))
  ]

  run_lem :
      (es : List (ℕ × Event)) (s : Panel)
      → All (λ e. starts_polling e.1 ≡ false) es
      → IsPacedBy began base s
      → IsPacedBy began base (run es s)
  unfolding run step
  run_lem [] s w h = h
  run_lem ((delay, e) ∷ es) s (w, ws) h =
      let at = record s { clock = s.clock + delay } in
      run_lem es (act e at) ws (act_lem e at w (later s at h refl refl refl refl (omega arith)))

-- A poller that starts where none is pending makes at most 40 requests, whatever comes, until the next start.
pub start_polling-polled :
    (es : List (ℕ × Event)) (s : Panel)
    → length s.timers + s.polls ≡ 0
    → All (λ e. starts_polling e.1 ≡ false) es
    → (run es (start_polling s)).polled ≤ s.polled + 40
unfolding start_polling
start_polling-polled es s none_pending w =
    let started = record s {
      waiting_for_consent = true;
      poll_deadline = s.clock + poll_timeout_ms;
    } in
    let paced : IsPacedBy s.clock s.polled started = record {
      n = 0;
      made = omega arith;
      paced = record {
        deadline = refl;
        one = omega arith;
        due = All-empty _ s.timers (omega arith);
        in_time = omega arith;
        begun = omega arith;
      };
    } in
    let after = run_lem es (set_timer started) w (timer_set started paced none_pending) in
    omega (arith, after.made, after.paced.in_time)
