-- ===== src/Bridges/Telegram/Polling.antt =====
-- What the polling effect asks for and when, and two timers that do not do what they are for.
use agentleh_app.Base.{
  ℕ, ◌+◌, Bool, true, false, ◌&&◌, List, [], ◌∷◌, some, ◌==◌, ◌≡◌, ◌≤◌, refl, arith, All,
  Bool-cases, inl, inr, ◌⊎◌, Option-cases, any, ◌∙◌,
}
use agentleh_app.Js.{ok, throw}
use agentleh_app.Bridges.Telegram.Invariant.{IsOrderly, step-IsOrderly, run-IsOrderly}
use agentleh_app.Bridges.Telegram.{
  Round, Dialog, mounted, is_waiting, polling, is_live, take_run, tick, poll_answered, close_fired,
  save_telegram, save_answered, start_answered, start_quick_connect, open_telegram_modal, Answer,
  pending, error, Event, opened, closed, retried, saving, picked, typed, start_arrived, ticked,
  poll_arrived, close_due, save_arrived, act,
}
use agentleh_app.Bridges.Telegram.Effects.{
  clean_up, arm, polling_effect, starting_effect, settle, step, run,
}

-- The effects neither open nor close the dialog, nor do they ask for the status.
record SameOutside (s t : Dialog) : Type 0 where
  same_open : t.is_open ≡ s.is_open
  same_polled : t.polled ≡ s.polled

polling_effect-SameOutside :
    (now : ℕ) (before s : Dialog) → SameOutside s (polling_effect now before s)
unfolding polling_effect arm clean_up
polling_effect-SameOutside now before s = ground arith

starting_effect-SameOutside : (before s : Dialog) → SameOutside s (starting_effect before s)
unfolding starting_effect start_quick_connect
starting_effect-SameOutside before s = ground arith

settle-SameOutside : (now : ℕ) (before s : Dialog) → SameOutside s (settle now before s)
unfolding settle
settle-SameOutside now before s =
    let once = polling_effect now before s in
    ground (
      arith,
      polling_effect-SameOutside now before s,
      starting_effect-SameOutside before once,
      polling_effect-SameOutside now once (starting_effect before once),
    )

All-any : (P : ℕ → Type 0) (r : ℕ) (cs : List ℕ) → All P cs → any (λ c. c == r) cs ≡ true → P r
unfolding any
All-any P r [] h k = absurd (ground arith)
All-any P r (c ∷ cs) (h, hs) k = elim (Bool-cases (c == r)) [
  | inl e ↦ let same : c ≡ r = ground arith in rw (← same) h
  | inr e ↦ All-any P r cs hs (ground arith)
]

-- A timer that is to close the dialog finds its run cancelled.
close_fired-is_open :
    (r : ℕ) (s : Dialog)
    → IsOrderly s
    → any (λ c. c == r) s.closes ≡ true
    → (close_fired r s).is_open ≡ s.is_open
unfolding close_fired
close_fired-is_open r s h k = ground (
  arith,
  All-any (λ c. (is_live c s.live && is_waiting s.status) ≡ false) r s.closes h.ready.closes_done k,
)

-- The events by which the user, or an answer to a pasted token, can close the dialog.
abbrev pub dismisses : Event → Bool
dismisses closed = true
dismisses (save_arrived r) = true
dismisses _ = false

act-is_open :
    (now : ℕ) (e : Event) (s : Dialog)
    → IsOrderly s
    → s.is_open ≡ true
    → dismisses e ≡ false
    → (act now e s).is_open ≡ true
unfolding act open_telegram_modal save_telegram start_answered tick poll_answered
act-is_open now opened s h o d = refl
act-is_open now retried s h o d = o
act-is_open now saving s h o d = ground arith
act-is_open now (picked tab) s h o d = o
act-is_open now (typed text) s h o d = o
act-is_open now (start_arrived (ok n)) s h o d = o
act-is_open now (start_arrived (throw e)) s h o d = o
act-is_open now (ticked r) s h o d = ground arith
act-is_open now (poll_arrived r (ok pending)) s h o d = ground arith
act-is_open now (poll_arrived r (ok Answer.connected)) s h o d = ground arith
act-is_open now (poll_arrived r (ok (error e))) s h o d = ground arith
act-is_open now (poll_arrived r (throw e)) s h o d = ground arith
act-is_open now (close_due r) s h o d = ground (arith, close_fired-is_open r s h)
act-is_open now closed s h o d = absurd (ground arith)
act-is_open now (save_arrived r) s h o d = absurd (ground arith)

stays_open :
    (es : List (ℕ × Event)) (s : Dialog)
    → IsOrderly s
    → s.is_open ≡ true
    → All (λ e. dismisses e.1 ≡ false) es
    → (run es s).is_open ≡ true
unfolding run step
stays_open [] s h o d = o
stays_open ((now, e) ∷ es) s h o (d, ds) =
    stays_open es (step (now, e) s) (step-IsOrderly (now, e) s h)
      ((settle-SameOutside now s (act now e s)).same_open ∙ act-is_open now e s h o d) ds

-- A dialog that is open stays open, through all events but the user's closing it and an answer to a pasted token: the
-- timer that a connection starts to close it never does.
run-is_open :
    (before later : List (ℕ × Event))
    → (run before mounted).is_open ≡ true
    → All (λ e. dismisses e.1 ≡ false) later
    → (run later (run before mounted)).is_open ≡ true
run-is_open before later o d = stays_open later (run before mounted) (run-IsOrderly before) o d

-- What a call of `getTelegramManagedStatus` comes from: a timer of a run that was pending and was not past its deadline.
pub record IsDue (now : ℕ) (e : Event) (s : Dialog) : Type 0 where
  pub effect_run : ℕ
  pub round : Round
  pub others : List Round
  pub by_timer : e ≡ ticked effect_run
  pub was_pending : take_run effect_run s.ticks ≡ some (round, others)
  pub in_time : now ≤ round.deadline

tick-polled :
    (now r : ℕ) (k : Round) (ks : List Round) (s : Dialog)
    → IsOrderly s
    → take_run r s.ticks ≡ some (k, ks)
    → ((tick now k (record s { ticks = ks })).polled ≡ s.polled)
      ⊎ (((tick now k (record s { ticks = ks })).polled ≡ s.polled + 1)
          × (polling s ≡ true)
          × (now ≤ k.deadline))
unfolding tick
tick-polled now r k ks s h e = ground arith

act-polled :
    (now : ℕ) (e : Event) (s : Dialog)
    → IsOrderly s
    → ((act now e s).polled ≡ s.polled)
      ⊎ (((act now e s).polled ≡ s.polled + 1) × (polling s ≡ true) × IsDue now e s)
unfolding act open_telegram_modal save_telegram start_answered poll_answered close_fired
    save_answered
act-polled now opened s h = inl refl
act-polled now closed s h = inl refl
act-polled now retried s h = inl refl
act-polled now saving s h = inl (ground arith)
act-polled now (picked tab) s h = inl refl
act-polled now (typed text) s h = inl refl
act-polled now (start_arrived (ok n)) s h = inl refl
act-polled now (start_arrived (throw e)) s h = inl refl
act-polled now (ticked r) s h = elim (Option-cases (take_run r s.ticks)) [
  | inl e ↦ inl (rw (act, e) refl)
  | inr ((k, ks), e) ↦ elim (tick-polled now r k ks s h e) [
    | inl same ↦ inl (rw (act, e) same)
    | inr (more, polls, due) ↦ inr (
      rw (act, e) more,
      polls,
      record {
        effect_run = r;
        round = k;
        others = ks;
        by_timer = refl;
        was_pending = e;
        in_time = due;
      },
    )
  ]
]
act-polled now (poll_arrived r (ok pending)) s h = inl (ground arith)
act-polled now (poll_arrived r (ok Answer.connected)) s h = inl (ground arith)
act-polled now (poll_arrived r (ok (error e))) s h = inl (ground arith)
act-polled now (poll_arrived r (throw e)) s h = inl (ground arith)
act-polled now (close_due r) s h = inl (ground arith)
act-polled now (save_arrived (ok u)) s h = inl refl
act-polled now (save_arrived (throw e)) s h = inl refl

-- In every state that can be reached, an event makes at most one call of `getTelegramManagedStatus`, and makes one only
-- while the dialog is open on the quick tab, has a link and waits, as a pending timer that is not past its deadline.
pub step-polled :
    (es : List (ℕ × Event)) (now : ℕ) (e : Event)
    → ((step (now, e) (run es mounted)).polled ≡ (run es mounted).polled)
      ⊎ (((step (now, e) (run es mounted)).polled ≡ (run es mounted).polled + 1)
          × (polling (run es mounted) ≡ true)
          × IsDue now e (run es mounted))
unfolding step
step-polled es now e =
    let s = run es mounted in
    rw ((settle-SameOutside now s (act now e s)).same_polled)
      (act-polled now e s (run-IsOrderly es))
