-- ===== src/Bridges/Telegram/Retry.antt =====
-- The button "Try again" of the Telegram dialog, `onRetry` of frontend/src/components/BridgesPanel.tsx.
use agentleh_app.Base.{
  ℕ, Bool, true, false, List, [], ◌∷◌, none, ◌≡◌, refl, ap, ◌∙◌, arith, All, ◌⊎◌,
}
use agentleh_app.Js.{ok, throw}
use agentleh_app.Bridges.Telegram.{
  idle, failed, expired, Dialog, polling, tick, poll_answered, close_fired, save_telegram, Answer,
  pending, error, Event, opened, closed, retried, saving, picked, typed, start_arrived, ticked,
  poll_arrived, close_due, save_arrived, act,
}
use agentleh_app.Bridges.Telegram.Effects.{
  same_place, same_dependencies, clean_up, arm, polling_effect, starting_effect, settle, step, run,
}

same_dependencies_refl : (s : Dialog) → same_dependencies s s ≡ true
same_dependencies_refl s = ground arith

-- Where nothing has changed on which the effects depend, they do nothing.
settle-same :
    (now : ℕ) (before s : Dialog) → same_dependencies before s ≡ true → settle now before s ≡ s
unfolding settle polling_effect starting_effect
settle-same now before s h =
    let place : same_place before s ≡ true = ground arith in
    rw (polling_effect, h, starting_effect, place, polling_effect, same_dependencies_refl s) refl

-- The dialog that "Try again" leaves: it says that a link is being made.
pub record IsStuck (s : Dialog) : Type 0 where
  pub no_link : s.managed ≡ none
  pub not_begun : s.status ≡ idle
  pub no_run : s.live ≡ none

-- The events that switch the tab or open or close the dialog, and the late answer to an earlier request of a link.
abbrev pub switches : Event → Bool
switches opened = true
switches closed = true
switches (picked tab) = true
switches (start_arrived r) = true
switches (save_arrived r) = true
switches _ = false

-- An event leaves what the effects depend on, and asks for no link.
record Inert (s t : Dialog) : Type 0 where
  same : same_dependencies s t ≡ true
  stuck : IsStuck t
  same_starts : t.starts ≡ s.starts

act-Inert :
    (now : ℕ) (e : Event) (s : Dialog) → IsStuck s → switches e ≡ false → Inert s (act now e s)
unfolding act save_telegram poll_answered close_fired tick
act-Inert now opened s h w = absurd (ground arith)
act-Inert now closed s h w = absurd (ground arith)
act-Inert now retried s h w = ground (arith, same_dependencies_refl s)
act-Inert now saving s h w = ground (arith, same_dependencies_refl s)
act-Inert now (picked tab) s h w = absurd (ground arith)
act-Inert now (typed text) s h w = ground (arith, same_dependencies_refl s)
act-Inert now (start_arrived r) s h w = absurd (ground arith)
act-Inert now (ticked r) s h w = ground (arith, same_dependencies_refl s)
act-Inert now (poll_arrived r (ok pending)) s h w = ground (arith, same_dependencies_refl s)
act-Inert now (poll_arrived r (ok Answer.connected)) s h w =
    ground (arith, same_dependencies_refl s)
act-Inert now (poll_arrived r (ok (error e))) s h w = ground (arith, same_dependencies_refl s)
act-Inert now (poll_arrived r (throw e)) s h w = ground (arith, same_dependencies_refl s)
act-Inert now (close_due r) s h w = ground (arith, same_dependencies_refl s)
act-Inert now (save_arrived r) s h w = absurd (ground arith)

run-IsStuck :
    (es : List (ℕ × Event)) (s : Dialog)
    → IsStuck s
    → All (λ e. switches e.1 ≡ false) es
    → IsStuck (run es s) × ((run es s).starts ≡ s.starts)
unfolding run step
run-IsStuck [] s h w = (h, refl)
run-IsStuck ((now, e) ∷ es) s h (w, ws) =
    let inert = act-Inert now e s h w in
    let (stuck, starts) = run-IsStuck es (act now e s) inert.stuck ws in
    let same = settle-same now s (act now e s) inert.same in
    (rw same stuck, ap (λ (t : Dialog). (run es t).starts) same ∙ starts ∙ inert.same_starts)

abbrev retry_pressed : Dialog → Dialog
retry_pressed s = record s { managed = none; status = idle }

-- The dialog once the run that is live, if any, is cleaned up.
record IsCleaned (s t : Dialog) : Type 0 where
  stuck : IsStuck t
  same_starts : t.starts ≡ s.starts
  place : same_place s t ≡ true
  silent : polling t ≡ false

clean_up-IsCleaned : (s : Dialog) → IsCleaned s (clean_up (retry_pressed s))
unfolding clean_up
clean_up-IsCleaned s = ground (arith, same_dependencies_refl s)

retried_lem :
    (now : ℕ) (s : Dialog)
    → (s.status ≡ failed) ⊎ (s.status ≡ expired)
    → step (now, retried) s ≡ clean_up (retry_pressed s)
unfolding step settle act polling_effect starting_effect arm
retried_lem now s h =
    let changed : same_dependencies s (retry_pressed s) ≡ false = ground arith in
    let c = clean_up-IsCleaned s in
    rw
      (
        polling_effect,
        changed,
        arm,
        c.silent,
        starting_effect,
        c.place,
        polling_effect,
        same_dependencies_refl (clean_up (retry_pressed s)),
      )
      refl

-- After a failed or expired connection "Try again" asks for no new link, and none is asked for as long as the dialog
-- is not closed or opened, the tab is not switched, and no answer to an earlier request comes: it waits for a link.
run-retried :
    (now : ℕ) (es : List (ℕ × Event)) (s : Dialog)
    → (s.status ≡ failed) ⊎ (s.status ≡ expired)
    → All (λ e. switches e.1 ≡ false) es
    → IsStuck (run es (step (now, retried) s))
      × ((run es (step (now, retried) s)).starts ≡ s.starts)
run-retried now es s h w =
    let c = clean_up-IsCleaned s in
    let (stuck, starts) = run-IsStuck es (clean_up (retry_pressed s)) c.stuck w in
    rw (retried_lem now s h) (stuck, starts ∙ c.same_starts)
