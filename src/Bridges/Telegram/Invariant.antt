-- ===== src/Bridges/Telegram/Invariant.antt =====
-- The dialog's invariant: one round of polling at most is pending for each run of the effect, and a live run polls.
use agentleh_app.Base.{
  ℕ, ◌+◌, true, false, not, ◌&&◌, ◌||◌, List, [], ◌∷◌, none, some, keep, ◌==◌, ◌≡◌, refl, arith,
  Bool-cases, inl, inr, Option-cases, if_elim,
}
use agentleh_app.Bridges.Telegram.Runs.{count-keep}
use agentleh_app.Bridges.Telegram.{
  Dialog, mounted, is_waiting, is_none, is_idle, is_quick, polling, start_quick_connect, Event, act,
}
use agentleh_app.Bridges.Telegram.Effects.{
  same_place, same_dependencies, clean_up, arm, deadline_of, polling_effect, starting_effect,
  settle, step, run,
}
use agentleh_app.Bridges.Telegram.Ready.{Ready, IsReady, Ready-fewer, Ready-none, Ready-armed}
use agentleh_app.Bridges.Telegram.Acts.{act-live, act-IsReady}

pub record IsOrderly (s : Dialog) : Type 0 where
  pub ready : IsReady s
  pub live_polls : is_none s.live || polling s ≡ true

clean_up-IsReady : (s : Dialog) → IsReady s → IsReady (clean_up s) × ((clean_up s).live ≡ none)
unfolding clean_up
clean_up-IsReady s h = elim (Option-cases s.live) [
  | inl e ↦ rw (clean_up, e) (h, e)
  | inr (r, e) ↦
      rw (clean_up, e)
        (
          Ready-none (is_waiting s.status) (
              Ready-fewer h (keep (λ k. not (k.first && k.effect_run == r)) s.ticks) s.polls (λ i.
                omega (arith, count-keep i (λ k. not (k.first && k.effect_run == r)) s.ticks))),
          refl,
        )
]

arm-IsOrderly : (now : ℕ) (s : Dialog) → IsReady s → s.live ≡ none → IsOrderly (arm now s)
unfolding arm
arm-IsOrderly now s h e = elim (Bool-cases (polling s)) [
  | inl p ↦ rw (arm, p) (record { ready = armed p; live_polls = p })
  | inr p ↦ rw (arm, p) (record { ready = h; live_polls = rw e refl })
]
  where
    armed :
        polling s ≡ true
        → Ready
            (some s.next_run)
            (s.next_run + 1)
            (record { effect_run = s.next_run; deadline = deadline_of now s; first = true }
              ∷ s.ticks)
            s.polls
            s.closes
            (is_waiting s.status)
    armed p =
        let waits : is_waiting s.status ≡ true = ground arith in
        rw waits (Ready-armed (deadline_of now s) (Ready-none false h))

same_dependencies-polling : (s t : Dialog) → same_dependencies s t ≡ true → polling s ≡ polling t
same_dependencies-polling s t h = ground arith

polling_effect-IsOrderly :
    (now : ℕ) (before s : Dialog)
    → IsReady s
    → s.live ≡ before.live
    → is_none before.live || polling before ≡ true
    → IsOrderly (polling_effect now before s)
unfolding polling_effect
polling_effect-IsOrderly now before s h e sound = elim (Bool-cases (same_dependencies before s)) [
  | inl same ↦
      rw (polling_effect, same)
        (record { ready = h; live_polls = ground (arith, same_dependencies-polling before s) })
  | inr other ↦
      let (ready, dead) = clean_up-IsReady s h in
      rw (polling_effect, other) (arm-IsOrderly now (clean_up s) ready dead)
]

starting_effect-IsReady : (before s : Dialog) → IsOrderly s → IsReady (starting_effect before s)
unfolding starting_effect start_quick_connect
starting_effect-IsReady before s h = elim (Option-cases s.live) [
  | inl e ↦
      if_elim IsReady (same_place before s) s _ h.ready
        (if_elim IsReady _ (start_quick_connect s) s (rw e (Ready-none true h.ready)) h.ready)
  | inr (r, e) ↦
      let busy : (s.is_open && is_quick s.tab && is_none s.managed && is_idle s.status) ≡ false =
        ground arith in
      if_elim IsReady (same_place before s) s _ h.ready (rw busy h.ready)
]

starting_effect-live : (before s : Dialog) → (starting_effect before s).live ≡ s.live
unfolding starting_effect start_quick_connect
starting_effect-live before s = ground arith

settle-IsOrderly :
    (now : ℕ) (before s : Dialog)
    → IsOrderly before
    → IsReady s
    → s.live ≡ before.live
    → IsOrderly (settle now before s)
unfolding settle
settle-IsOrderly now before s b h e =
    let once = polling_effect-IsOrderly now before s h e b.live_polls in
    polling_effect-IsOrderly now (polling_effect now before s)
      (starting_effect before (polling_effect now before s))
      (starting_effect-IsReady before (polling_effect now before s) once)
      (starting_effect-live before (polling_effect now before s)) once.live_polls

pub step-IsOrderly : (e : ℕ × Event) (s : Dialog) → IsOrderly s → IsOrderly (step e s)
unfolding step
step-IsOrderly (now, e) s h =
    settle-IsOrderly now s (act now e s) h (act-IsReady now e s h.ready) (act-live now e s)

run_from-IsOrderly : (es : List (ℕ × Event)) (s : Dialog) → IsOrderly s → IsOrderly (run es s)
unfolding run
run_from-IsOrderly [] s h = h
run_from-IsOrderly (e ∷ es) s h = run_from-IsOrderly es (step e s) (step-IsOrderly e s h)

-- Whatever events follow the mount, at most one round of each run of the polling effect is pending, as a timer or as a
-- request in flight, and a run is live only while the dialog is open on the quick tab, has a link, and waits.
pub run-IsOrderly : (es : List (ℕ × Event)) → IsOrderly (run es mounted)
run-IsOrderly es =
    run_from-IsOrderly es mounted
      (unfold mounted in record { ready = fresh_start; live_polls = refl })
  where
    fresh_start : Ready none 0 [] [] [] false
    fresh_start = record {
      single = λ i. omega arith;
      fresh = λ i l. omega arith;
      live_old = λ r e. absurd (ground arith);
      closes_old = tt;
      closes_done = tt;
    }
