-- ===== src/Bridges/Panel.antt =====
-- The panel itself in frontend/src/components/BridgesPanel.tsx: its loading, the number of bridges that are connected, and
-- the test and the removal of the Telegram bot. State updates are applied at once.
use agentleh_app.Base.{
  ℕ, zero, suc, ◌+◌, Bool, true, false, not, ◌&&◌, List, [], ◌∷◌, ◌++◌, Option, none, some, Text,
  codes, or_text, take_at, if◌then◌else◌, ◌≡◌, ◌⊎◌, inl, inr, refl, arith, Bool-cases, Option-cases,
}
use agentleh_app.Js.{Outcome-cases, Outcome, ok, throw, Error}

-- `data.bridges`, by what the panel reads of it.
pub record Bridges : Type 0 where
  pub whatsapp_enabled : Bool
  pub telegram_enabled : Bool

-- What `testTelegramBridge` is answered with.
pub record Test : Type 0 where
  pub works : Bool  -- `ok`
  pub bot_username : Text
  pub detail : Text
  pub error_text : Text  -- `error`

pub data Request : Type 0 where
  get_bridges test_bridge disconnect_bridge : Request

pub data Result : Type 0 where
  told : Text → Result
  failed : Error → Result

pub record Panel : Type 0 where
  pub is_open : Bool
  pub bridges : Option Bridges  -- `data`
  pub loading : Bool
  pub shown_error : Option Error
  pub tg_busy : Bool
  pub test_result : Option Result
  pub timers : ℕ  -- those of 6 s that are to clear the result
  pub requests : List Request  -- the latest first
  pub in_flight : List Request

abbrev pub asking : Request → Panel → Panel
asking r s = record s { requests = r ∷ s.requests; in_flight = r ∷ s.in_flight }

-- The state of the panel once its effect has called `refresh`.
unfoldable pub mounted : Panel
mounted = record {
  is_open = false;
  bridges = none;
  loading = true;
  shown_error = none;
  tg_busy = false;
  test_result = none;
  timers = 0;
  requests = get_bridges ∷ [];
  in_flight = get_bridges ∷ [];
}

-- The rest of `refresh`.
unfoldable pub refreshed : Outcome Bridges → Panel → Panel
refreshed (ok b) s = record s { bridges = some b; loading = false }
refreshed (throw e) s = record s { shown_error = some e; loading = false }

abbrev pub one : Bool → ℕ
one b = if b then 1 else 0

-- `connectedCount`; the chat on the web is always on.
unfoldable pub connected_count : Option Bridges → ℕ
connected_count none = 1
connected_count (some b) = one b.whatsapp_enabled + one b.telegram_enabled + 1

-- `testTelegram`
unfoldable pub test_telegram : Panel → Panel
test_telegram s = asking test_bridge (record s { test_result = none })

unfoldable pub result_en : Test → Text
result_en r =
    if r.works
    then codes "Connection OK (@" ++ or_text r.bot_username (codes "?") ++ codes ")"
    else codes "Token invalid: " ++ or_text r.detail r.error_text

unfoldable pub tested : Outcome Test → Panel → Panel
tested (ok r) s = record s { test_result = some (told (result_en r)); timers = s.timers + 1 }
tested (throw e) s = record s { test_result = some (failed e) }

unfoldable pub timer_fired : Panel → Panel
timer_fired s = elim s.timers [ zero ↦ s | suc n ↦ record s { timers = n; test_result = none } ]

-- `disconnectTelegram`, with the answer of the browser's dialog.
unfoldable pub disconnect_telegram : Bool → Panel → Panel
disconnect_telegram agreed s =
    if agreed then asking disconnect_bridge (record s { tg_busy = true }) else s

unfoldable pub disconnected : Outcome Bridges → Panel → Panel
disconnected (ok b) s = record s { bridges = some b; tg_busy = false }
disconnected (throw e) s = record s { shown_error = some e; tg_busy = false }

abbrev pub has_telegram : Option Bridges → Bool
has_telegram none = false
has_telegram (some b) = b.telegram_enabled

-- What the requests are answered with.
pub record Answers : Type 0 where
  pub bridges : Outcome Bridges
  pub test : Outcome Test

unfoldable pub answered : Answers → Request → Panel → Panel
answered a get_bridges s = refreshed a.bridges s
answered a test_bridge s = tested a.test s
answered a disconnect_bridge s = disconnected a.bridges s

pub data Event : Type 0 where
  toggled test_pressed timer_due : Event
  disconnect_pressed : Bool → Event
  arrived : ℕ → Answers → Event  -- the answer of the request at this place of those in flight

module _ (can_edit : Bool) where
  -- Whether the buttons of a connected bot are there.
  abbrev pub has_buttons : Panel → Bool
  has_buttons s = s.is_open && can_edit && has_telegram s.bridges

  unfoldable pub step : Event → Panel → Panel
  step toggled s = record s { is_open = not s.is_open }
  step test_pressed s = if has_buttons s then test_telegram s else s
  step timer_due s = timer_fired s
  step (disconnect_pressed agreed) s =
      if has_buttons s && not s.tg_busy then disconnect_telegram agreed s else s
  step (arrived n a) s = elim (take_at n s.in_flight) [
    | none ↦ s
    | some (r, rest) ↦ answered a r (record s { in_flight = rest })
  ]

  unfoldable pub run : List Event → Panel → Panel
  run [] s = s
  run (e ∷ es) s = run es (step e s)

  -- An event makes at most one request: a test, or a removal, which is agreed to and is made while no other change goes on;
  -- both are made only for those who may edit, with a connected bot.
  step-requests :
      (e : Event) (s : Panel)
      → ((step e s).requests ≡ s.requests)
        ⊎ ((has_buttons s ≡ true)
            × (((step e s).requests ≡ test_bridge ∷ s.requests)
                ⊎ (((step e s).requests ≡ disconnect_bridge ∷ s.requests)
                    × (e ≡ disconnect_pressed true)
                    × (s.tg_busy ≡ false))))
  unfolding step test_telegram disconnect_telegram timer_fired answered refreshed tested
      disconnected
  step-requests toggled s = inl refl
  step-requests test_pressed s = elim (Bool-cases (has_buttons s)) [
    | inl h ↦ inr (h, inl (rw h refl))
    | inr h ↦ inl (rw h refl)
  ]
  step-requests timer_due s = inl (ground arith)
  step-requests (disconnect_pressed true) s = elim (Bool-cases (has_buttons s)) [
    | inl h ↦ elim (Bool-cases s.tg_busy) [
      | inl b ↦ inl (rw (h, b) refl)
      | inr b ↦ inr (h, inr (rw (h, b) refl, refl, b))
    ]
    | inr h ↦ inl (rw h refl)
  ]
  step-requests (disconnect_pressed false) s = inl (ground arith)
  step-requests (arrived n a) s = elim (Option-cases (take_at n s.in_flight)) [
    | inl e ↦ inl (rw (step, e) refl)
    | inr ((get_bridges, rest), e) ↦ elim (Outcome-cases a.bridges) [
      | inl (b, q) ↦ inl (rw (step, e, q) refl)
      | inr (x, q) ↦ inl (rw (step, e, q) refl)
    ]
    | inr ((test_bridge, rest), e) ↦ elim (Outcome-cases a.test) [
      | inl (b, q) ↦ inl (rw (step, e, q) refl)
      | inr (x, q) ↦ inl (rw (step, e, q) refl)
    ]
    | inr ((disconnect_bridge, rest), e) ↦ elim (Outcome-cases a.bridges) [
      | inl (b, q) ↦ inl (rw (step, e, q) refl)
      | inr (x, q) ↦ inl (rw (step, e, q) refl)
    ]
  ]
