-- ===== src/Examples/Panels.antt =====
-- Runs of the Telegram dialog, the integrations panel and the usage tab, under frontend/src/components.
use agentleh_app.Base.{
  length, some, ℕ, zero, suc, ◌+◌, true, false, List, [], ◌∷◌, Option, none, Text, codes, ◌≡◌, ◌≤◌,
  refl, ◌⊎◌,
}
use agentleh_app.Js.{Js, str, Outcome, ok, throw, type_error}
use agentleh_app.Bridges.Telegram
use agentleh_app.Bridges.Telegram.Effects
use agentleh_app.Bridges.Telegram.{Dialog, Answer, Status, failed, expired}
use agentleh_app.Bridges.Telegram.Invariant.{IsOrderly, run-IsOrderly}
use agentleh_app.Bridges.Telegram.Polling.{step-polled, IsDue}
use agentleh_app.Integrations.Panel
use agentleh_app.Integrations.Panel.{Google, Panel, start_polling}
use agentleh_app.Integrations.Deadline.{start_polling-polled}
use agentleh_app.Prefs.Lang.{Lang}
use agentleh_app.Reminders
use agentleh_app.Reminders.{Reminder, relative_from_now}
use agentleh_app.Usage
use agentleh_app.Usage.{RangeSelection}
use agentleh_app.Usage.Current.{IsCurrent, run-IsCurrent}

-- The dialog is opened, gets its link, asks once and learns that the user connected.
abbrev connecting_events : List (ℕ × Telegram.Event)
connecting_events =
    (0, Telegram.opened)
    ∷ (5, Telegram.start_arrived (ok 900))
    ∷ (2505, Telegram.ticked 0)
    ∷ (2600, Telegram.poll_arrived 0 (ok Answer.connected))
    ∷ []

run-IsOrderly_example : IsOrderly (Effects.run connecting_events Telegram.mounted)
run-IsOrderly_example = run-IsOrderly connecting_events

abbrev linked_events : List (ℕ × Telegram.Event)
linked_events = (0, Telegram.opened) ∷ (5, Telegram.start_arrived (ok 900)) ∷ []

step-polled_example :
    ((Effects.step (2505, Telegram.ticked 0) (Effects.run linked_events Telegram.mounted)).polled
      ≡ (Effects.run linked_events Telegram.mounted).polled)
    ⊎ (((Effects.step (2505, Telegram.ticked 0) (Effects.run linked_events Telegram.mounted)).polled
          ≡ (Effects.run linked_events Telegram.mounted).polled + 1)
        × (Telegram.polling (Effects.run linked_events Telegram.mounted) ≡ true)
        × IsDue 2505 (Telegram.ticked 0) (Effects.run linked_events Telegram.mounted))
step-polled_example = step-polled linked_events 2505 (Telegram.ticked 0)

abbrev idle_panel : Panel
idle_panel = record {
  clock = 0;
  status = none;
  loading = false;
  shown = none;
  busy = false;
  waiting_for_consent = false;
  want_calendar = true;
  want_email = true;
  poll_timeout = none;
  poll_deadline = 0;
  timers = [];
  next_id = 0;
  polls = 0;
  polled = 0;
  requested = [];
  disconnects = 0;
  changed = 0;
}

abbrev not_yet : Google
not_yet = record { connected = false; account = [] }

abbrev asking_events : List (ℕ × Panel.Event)
asking_events =
    (3000, Panel.ticked 0) ∷ (100, Panel.poll_arrived (ok not_yet)) ∷ (3000, Panel.ticked 1) ∷ []

start_polling-polled_example :
    (Panel.run asking_events (start_polling idle_panel)).polled ≤ idle_panel.polled + 40
start_polling-polled_example =
    start_polling-polled asking_events idle_panel refl (refl, (refl, (refl, tt)))

-- No text is a date, and the first request fails.
abbrev no_date : Text → Option ℕ
no_date t = none

abbrev numbered : ℕ → RangeSelection → Outcome Js
numbered zero r = throw type_error
numbered (suc n) r = ok (str (codes "usage"))

-- The answer for the first range comes behind the one for the second.
run-IsCurrent_example : IsCurrent no_date numbered (
    Usage.run no_date numbered
      (Usage.picked 1000000000 Usage.last_7d ∷ Usage.answered 2 ∷ Usage.answered 1 ∷ [])
      (Usage.mounted [] []))
run-IsCurrent_example =
    run-IsCurrent no_date numbered
      (Usage.picked 1000000000 Usage.last_7d ∷ Usage.answered 2 ∷ Usage.answered 1 ∷ []) [] []

-- The time of a reminder is in its text.
abbrev by_length : Text → Option ℕ
by_length t = some (length t)

abbrev same_format : Text → Lang → Text
same_format t l = t

abbrev one_shot : Reminder
one_shot = record {
  job_id = codes "j";
  agent_id = codes "a";
  kind = Reminders.at;
  at_time = codes "at";
  every_ms = 0;
  expr = [];
  tz = [];
  text = [];
  message = [];
}
