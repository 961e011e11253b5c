-- ===== src/Bridges/Telegram.antt =====
-- The Telegram dialog of frontend/src/components/BridgesPanel.tsx: the quick connection with its polling, and the
-- pasted token. An effect of React runs after a change of what it depends on, its cleanup first; a run of the polling
-- effect is a number, and its flag `cancelled` is set once it is no longer `live`. State updates are applied at once.
pub mod Effects
pub mod Runs
pub mod Ready
pub mod Acts
pub mod Invariant
pub mod Polling
pub mod Retry
use agentleh_app.Base.{
  ℕ, zero, suc, ◌+◌, ◌-◌, ◌*◌, Bool, true, false, not, ◌&&◌, List, [], ◌∷◌, Option, none, some,
  Text, is_empty, trim, keep, any, ltb, ◌==◌, if◌then◌else◌,
}
use agentleh_app.Js.{Outcome, ok, throw, Error}

pub data Tab : Type 0 where
  quick paste : Tab

pub data Status : Type 0 where
  idle waiting connected failed expired : Status

-- `TelegramManagedStart`: the number stands for the identity of the object.
pub record Managed : Type 0 where
  pub serial : ℕ
  pub expires_in_seconds : ℕ

-- A round of polling that a run of the effect has pending, with the deadline that the run was armed with.
pub record Round : Type 0 where
  pub effect_run : ℕ
  pub deadline : ℕ
  pub first : Bool  -- the timer that the cleanup clears

pub record Dialog : Type 0 where
  pub is_open : Bool  -- `tgModalOpen`
  pub tab : Tab
  pub token : Text
  pub busy : Bool
  pub shown_error : Option Error  -- `tgError`
  pub managed : Option Managed
  pub issued : ℕ  -- how many objects `managed` has been
  pub status : Status  -- `tgManagedStatus`
  pub started_at : Option ℕ
  pub live : Option ℕ  -- the run of the polling effect that is not cleaned up
  pub next_run : ℕ
  pub ticks : List Round  -- pending timers
  pub polls : List Round  -- calls of `getTelegramManagedStatus` in flight
  pub closes : List ℕ  -- pending timers that close the dialog, by run
  pub starts : ℕ  -- how often `startTelegramManagedConnect` was called
  pub polled : ℕ  -- how often `getTelegramManagedStatus` was called
  pub saved : List Text  -- the tokens given to `connectTelegramBridge`, the latest first
  pub refreshed : ℕ  -- how often the panel's `refresh` was called by the dialog

unfoldable pub mounted : Dialog
mounted = record {
  is_open = false;
  tab = quick;
  token = [];
  busy = false;
  shown_error = none;
  managed = none;
  issued = 0;
  status = idle;
  started_at = none;
  live = none;
  next_run = 0;
  ticks = [];
  polls = [];
  closes = [];
  starts = 0;
  polled = 0;
  saved = [];
  refreshed = 0;
}

abbrev pub is_quick : Tab → Bool
is_quick quick = true
is_quick paste = false

abbrev pub is_waiting : Status → Bool
is_waiting waiting = true
is_waiting _ = false

abbrev pub is_idle : Status → Bool
is_idle idle = true
is_idle _ = false

abbrev pub is_none {ℓ} : {A : Type ℓ} → Option A → Bool
is_none none = true
is_none (some a) = false

-- Whether the polling effect polls.
abbrev pub polling : Dialog → Bool
polling s = s.is_open && is_quick s.tab && not (is_none s.managed) && is_waiting s.status

-- `openTelegramModal`
unfoldable pub open_telegram_modal : Dialog → Dialog
open_telegram_modal s = record s {
  token = [];
  shown_error = none;
  tab = quick;
  managed = none;
  status = idle;
  started_at = none;
  is_open = true;
}

-- `startQuickConnect`, up to its request.
unfoldable pub start_quick_connect : Dialog → Dialog
start_quick_connect s = record s {
  shown_error = none;
  managed = none;
  status = waiting;
  starts = s.starts + 1;
}

-- The rest of it: the answer carries `expires_in_seconds`.
unfoldable pub start_answered : ℕ → Outcome ℕ → Dialog → Dialog
start_answered now (ok seconds) s = record s {
  managed = some (record { serial = s.issued; expires_in_seconds = seconds });
  issued = s.issued + 1;
  started_at = some now;
}
start_answered now (throw e) s = record s { status = failed; shown_error = some e }

-- Whether a run of the effect is cancelled.
abbrev pub is_live : ℕ → Option ℕ → Bool
is_live r none = false
is_live r (some l) = l == r

-- The first pending round of a run, and the others.
unfoldable pub take_run : ℕ → List Round → Option (Round × List Round)
take_run r [] = none
take_run r (k ∷ ks) =
    let rest : Option (Round × List Round) = elim (take_run r ks) [
      | none ↦ none
      | some (j, js) ↦ some (j, k ∷ js)
    ] in
    if k.effect_run == r then some (k, ks) else rest

-- `tick`, up to its request.
unfoldable pub tick : ℕ → Round → Dialog → Dialog
tick now k s =
    if not (is_live k.effect_run s.live)
    then s
    else if ltb k.deadline now
    then record s { status = expired }
    else record s { polls = k ∷ s.polls; polled = s.polled + 1 }

-- What `getTelegramManagedStatus` says; `pending` is any other status.
pub data Answer : Type 0 where
  pending : Answer
  connected : Answer
  error : Error → Answer

abbrev pub again : Round → Round
again k = record k { first = false }

-- The rest of `tick`: an exception is shown and followed by another round, whether or not the run is cancelled.
unfoldable pub poll_answered : Round → Outcome Answer → Dialog → Dialog
poll_answered k (throw e) s = record s { shown_error = some e; ticks = again k ∷ s.ticks }
poll_answered k (ok pending) s =
    if is_live k.effect_run s.live then record s { ticks = again k ∷ s.ticks } else s
poll_answered k (ok Answer.connected) s =
    if is_live k.effect_run s.live
    then record s {
      status = Status.connected;
      refreshed = s.refreshed + 1;
      closes = k.effect_run ∷ s.closes;
    }
    else s
poll_answered k (ok (error e)) s =
    if is_live k.effect_run s.live then record s { status = failed; shown_error = some e } else s

unfoldable pub take_close : ℕ → List ℕ → List ℕ
take_close r [] = []
take_close r (c ∷ cs) = if c == r then cs else c ∷ take_close r cs

-- The timer of 1.5 seconds behind a connection.
unfoldable pub close_fired : ℕ → Dialog → Dialog
close_fired r s =
    let left = record s { closes = take_close r s.closes } in
    if is_live r s.live then record left { is_open = false } else left

-- `saveTelegram`, up to its request, and the rest of it.
unfoldable pub save_telegram : Dialog → Dialog
save_telegram s =
    let token = trim s.token in
    if is_empty token
    then s
    else record s { busy = true; shown_error = none; saved = token ∷ s.saved }

unfoldable pub save_answered : Outcome (Unit {0}) → Dialog → Dialog
save_answered (ok u) s = record s { is_open = false; busy = false }
save_answered (throw e) s = record s { shown_error = some e; busy = false }

pub data Event : Type 0 where
  opened closed retried saving : Event
  picked : Tab → Event
  typed : Text → Event
  start_arrived : Outcome ℕ → Event
  ticked : ℕ → Event
  poll_arrived : ℕ → Outcome Answer → Event
  close_due : ℕ → Event
  save_arrived : Outcome (Unit {0}) → Event

-- What an event does by itself. A timer or an answer of a run that has none pending is no event.
unfoldable pub act : ℕ → Event → Dialog → Dialog
act now opened s = open_telegram_modal s
act now closed s = record s { is_open = false }
act now retried s = record s { managed = none; status = idle }
act now saving s = save_telegram s
act now (picked tab) s = record s { tab = tab }
act now (typed text) s = record s { token = text }
act now (start_arrived r) s = start_answered now r s
act now (ticked r) s = elim (take_run r s.ticks) [
  | none ↦ s
  | some (k, ks) ↦ tick now k (record s { ticks = ks })
]
act now (poll_arrived r a) s = elim (take_run r s.polls) [
  | none ↦ s
  | some (k, ks) ↦ poll_answered k a (record s { polls = ks })
]
act now (close_due r) s = if any (λ c. c == r) s.closes then close_fired r s else s
act now (save_arrived r) s = save_answered r s
