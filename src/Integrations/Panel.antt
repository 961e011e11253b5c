-- ===== src/Integrations/Panel.antt =====
-- The state of frontend/src/components/IntegrationsPanel.tsx: the consent of Google in another tab, for which the
-- panel polls. An event comes some time after the one before it. State updates are applied at once.
use agentleh_app.Base.{
  ℕ, ◌+◌, ◌-◌, Bool, true, false, not, ◌&&◌, List, [], ◌∷◌, ◌++◌, Option, none, some, Text, keep,
  ltb, leb, ◌==◌, if◌then◌else◌,
}
use agentleh_app.Js.{Outcome, ok, throw}

pub data Capability : Type 0 where
  calendar email : Capability

-- `integrations.google` of the response.
pub record Google : Type 0 where
  pub connected : Bool
  pub account : Text

pub record Timer : Type 0 where
  pub id : ℕ
  pub due : ℕ

-- The messages of the panel; the second is the one of a poller that gave up.
pub data Message : Type 0 where
  load_failed not_detected start_failed disconnect_failed : Message

pub record Panel : Type 0 where
  pub clock : ℕ
  pub status : Option Google
  pub loading : Bool
  pub shown : Option Message  -- `error`
  pub busy : Bool
  pub waiting_for_consent : Bool
  pub want_calendar : Bool
  pub want_email : Bool
  pub poll_timeout : Option ℕ  -- `pollTimeoutRef`: it keeps the id of a timer that has fired
  pub poll_deadline : ℕ
  pub timers : List Timer  -- pending rounds of the poller
  pub next_id : ℕ
  pub polls : ℕ  -- requests of the poller in flight
  pub polled : ℕ  -- how many the poller made
  pub requested : List (List Capability)  -- what `startGoogleConnect` was asked for, the latest first
  pub disconnects : ℕ  -- calls of `disconnectGoogle`
  pub changed : ℕ  -- calls of `onChange`

abbrev pub poll_interval_ms : ℕ
poll_interval_ms = 3000

abbrev pub poll_timeout_ms : ℕ
poll_timeout_ms = 120000

-- `window.clearTimeout`
unfoldable pub clear_timeout : Option ℕ → List Timer → List Timer
clear_timeout none timers = timers
clear_timeout (some id) timers = keep (λ t. not (t.id == id)) timers

unfoldable pub stop_polling : Panel → Panel
unfolding clear_timeout
stop_polling s = record s {
  timers = clear_timeout s.poll_timeout s.timers;
  poll_timeout = none;
  waiting_for_consent = false;
}

-- `pollTimeoutRef.current = window.setTimeout(tick, POLL_INTERVAL_MS)`
unfoldable pub set_timer : Panel → Panel
set_timer s = record s {
  timers = record { id = s.next_id; due = s.clock + poll_interval_ms } ∷ s.timers;
  poll_timeout = some s.next_id;
  next_id = s.next_id + 1;
}

unfoldable pub start_polling : Panel → Panel
start_polling s =
    set_timer (record s { waiting_for_consent = true; poll_deadline = s.clock + poll_timeout_ms })

-- `tick`, up to its request.
unfoldable pub tick : Panel → Panel
tick s =
    if ltb s.poll_deadline s.clock
    then record (stop_polling s) { shown = some not_detected }
    else record s { polls = s.polls + 1; polled = s.polled + 1 }

-- The rest of `tick`; its request is one of those in flight.
unfoldable pub poll_answered : Outcome Google → Panel → Panel
poll_answered (ok google) s =
    let got = record s { status = some google } in
    if google.connected
    then record (stop_polling got) { changed = s.changed + 1 }
    else set_timer got
poll_answered (throw e) s = set_timer s

abbrev pub is_connected : Option Google → Bool
is_connected none = false
is_connected (some google) = google.connected

unfoldable pub capabilities : Panel → List Capability
capabilities s =
    (if s.want_calendar then calendar ∷ [] else []) ++ (if s.want_email then email ∷ [] else [])

-- `handleConnect`, up to its request, with the answer to the question whether to replace the account.
unfoldable pub handle_connect : Bool → Panel → Panel
unfolding capabilities
handle_connect confirmed s =
    if not s.want_calendar && not s.want_email
    then s
    else if is_connected s.status && not confirmed
    then s
    else record s { busy = true; shown = none; requested = capabilities s ∷ s.requested }

-- The rest of it: whether the tab opened, or the popup was blocked and the page left for Google.
unfoldable pub connect_answered : Outcome Bool → Panel → Panel
connect_answered (ok opened) s = record (if opened then start_polling s else s) { busy = false }
connect_answered (throw e) s = record s { shown = some start_failed; busy = false }

-- `refresh`, and its end.
unfoldable pub refresh : Panel → Panel
refresh s = record s { loading = true; shown = none }

unfoldable pub refresh_answered : Outcome Google → Panel → Panel
refresh_answered (ok google) s = record s { status = some google; loading = false }
refresh_answered (throw e) s = record s { shown = some load_failed; loading = false }

-- `handleDisconnect`, up to its request; `refresh` follows it.
unfoldable pub handle_disconnect : Bool → Panel → Panel
handle_disconnect confirmed s =
    if confirmed then record s { busy = true; shown = none; disconnects = s.disconnects + 1 } else s

unfoldable pub disconnect_answered : Outcome (Unit {0}) → Panel → Panel
unfolding refresh
disconnect_answered (ok u) s = refresh s
disconnect_answered (throw e) s = record s { shown = some disconnect_failed; busy = false }

-- The end of the `refresh` that follows a disconnection: a failure of it is shown, and not thrown.
unfoldable pub disconnect_refreshed : Outcome Google → Panel → Panel
unfolding refresh_answered
disconnect_refreshed r s =
    let t = refresh_answered r s in record t { changed = t.changed + 1; busy = false }

-- The cleanup of the effect without dependencies.
unfoldable pub unmount : Panel → Panel
unfolding clear_timeout
unmount s = record s { timers = clear_timeout s.poll_timeout s.timers; poll_timeout = none }

pub data Event : Type 0 where
  refreshing stopping unmounted : Event
  refreshed disconnect_refreshing : Outcome Google → Event
  connecting disconnecting : Bool → Event
  connect_arrived : Outcome Bool → Event
  disconnect_arrived : Outcome (Unit {0}) → Event
  ticked : ℕ → Event
  poll_arrived : Outcome Google → Event

-- The first pending timer of an id.
unfoldable pub take_timer : ℕ → List Timer → Option (Timer × List Timer)
take_timer id [] = none
take_timer id (t ∷ ts) =
    let rest : Option (Timer × List Timer) = elim (take_timer id ts) [
      | none ↦ none
      | some (u, us) ↦ some (u, t ∷ us)
    ] in
    if t.id == id then some (t, ts) else rest

-- A timer that is not pending or not due, or an answer with no request in flight, is no event.
unfoldable pub act : Event → Panel → Panel
act refreshing s = refresh s
act stopping s = stop_polling s
act unmounted s = unmount s
act (refreshed r) s = refresh_answered r s
act (disconnect_refreshing r) s = disconnect_refreshed r s
act (connecting confirmed) s = handle_connect confirmed s
act (disconnecting confirmed) s = handle_disconnect confirmed s
act (connect_arrived r) s = connect_answered r s
act (disconnect_arrived r) s = disconnect_answered r s
act (ticked id) s = elim (take_timer id s.timers) [
  | none ↦ s
  | some (t, ts) ↦ if leb t.due s.clock then tick (record s { timers = ts }) else s
]
act (poll_arrived r) s =
    if s.polls == 0 then s else poll_answered r (record s { polls = s.polls - 1 })

-- An event, with the time since the one before it.
unfoldable pub step : ℕ × Event → Panel → Panel
step (delay, e) s = act e (record s { clock = s.clock + delay })

unfoldable pub run : List (ℕ × Event) → Panel → Panel
run [] s = s
run (e ∷ es) s = run es (step e s)
