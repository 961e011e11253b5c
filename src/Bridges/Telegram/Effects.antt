-- ===== src/Bridges/Telegram/Effects.antt =====
-- The effects of the Telegram dialog of frontend/src/components/BridgesPanel.tsx, and its runs of events.
use agentleh_app.Base.{
  ℕ, zero, suc, ◌+◌, ◌*◌, Bool, true, false, not, ◌&&◌, List, [], ◌∷◌, Option, none, some, keep,
  ◌==◌, if◌then◌else◌,
}
use agentleh_app.Bridges.Telegram.{
  Status, Managed, Dialog, is_quick, is_idle, is_none, polling, start_quick_connect, Event, act,
  idle, waiting, failed, expired,
}

abbrev pub same_number : Option ℕ → Option ℕ → Bool
same_number none none = true
same_number (some a) (some b) = a == b
same_number _ _ = false

abbrev pub same_managed : Option Managed → Option Managed → Bool
same_managed none none = true
same_managed (some a) (some b) = a.serial == b.serial
same_managed _ _ = false

abbrev pub same_bool : Bool → Bool → Bool
same_bool true b = b
same_bool false b = not b

abbrev pub status_number : Status → ℕ
status_number idle = 0
status_number waiting = 1
status_number Status.connected = 2
status_number failed = 3
status_number expired = 4

-- What both effects depend on, and what the polling effect does besides.
abbrev pub same_place : Dialog → Dialog → Bool
same_place s t = same_bool s.is_open t.is_open && same_bool (is_quick s.tab) (is_quick t.tab)

abbrev pub same_dependencies : Dialog → Dialog → Bool
same_dependencies s t =
    same_place s t
    && same_managed s.managed t.managed
    && status_number s.status == status_number t.status
    && same_number s.started_at t.started_at

-- The cleanup of the polling effect.
unfoldable pub clean_up : Dialog → Dialog
clean_up s = elim s.live [
  | none ↦ s
  | some r ↦ record s {
    live = none;
    ticks = keep (λ k. not (k.first && k.effect_run == r)) s.ticks;
  }
]

-- `expires_in_seconds || 900`
abbrev pub or_900 : ℕ → ℕ
or_900 zero = 900
or_900 (suc n) = suc n

unfoldable pub deadline_of : ℕ → Dialog → ℕ
deadline_of now s =
    let started : ℕ = elim s.started_at [ none ↦ now | some t ↦ t ] in
    let seconds : ℕ = elim s.managed [ none ↦ 900 | some m ↦ or_900 m.expires_in_seconds ] in
    started + seconds * 1000

-- The body of the polling effect.
unfoldable pub arm : ℕ → Dialog → Dialog
arm now s =
    if polling s
    then record s {
      live = some s.next_run;
      next_run = s.next_run + 1;
      ticks =
          record { effect_run = s.next_run; deadline = deadline_of now s; first = true } ∷ s.ticks;
    }
    else s

unfoldable pub polling_effect : ℕ → Dialog → Dialog → Dialog
polling_effect now before s = if same_dependencies before s then s else arm now (clean_up s)

-- The effect that starts the quick connection.
unfoldable pub starting_effect : Dialog → Dialog → Dialog
starting_effect before s =
    if same_place before s
    then s
    else if s.is_open && is_quick s.tab && is_none s.managed && is_idle s.status
    then start_quick_connect s
    else s

-- Both effects in their order, and the polling effect again after the updates of the other.
unfoldable pub settle : ℕ → Dialog → Dialog → Dialog
settle now before s =
    let once = polling_effect now before s in polling_effect now once (starting_effect before once)

unfoldable pub step : ℕ × Event → Dialog → Dialog
step (now, e) s = settle now s (act now e s)

-- The events with the time at which each comes.
unfoldable pub run : List (ℕ × Event) → Dialog → Dialog
run [] s = s
run (e ∷ es) s = run es (step e s)
