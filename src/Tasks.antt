-- ===== src/Tasks.antt =====
-- The scheduled tasks of an agent, frontend/src/components/AgentScheduledTasksPanel.tsx, over the reminders of Reminders.
-- `new Date(text).getTime()` is a parameter, and none where the date is invalid.
use agentleh_app.Base.{
  ℕ, ◌+◌, ◌/◌, ◌<◌, Bool, true, false, not, ◌&&◌, ◌||◌, List, [], ◌∷◌, ◌++◌, Option, none, some,
  Text, codes, is_empty, keep, decimal, ltb, leb, ◌≡◌, refl, arith, if◌then◌else◌,
}
use agentleh_app.Js.{Outcome, ok, throw}
use agentleh_app.Prefs.Lang.{Lang, he, en}
use agentleh_app.Reminders.{at, every, cron, unknown, Reminder, he_every, he_hours}

-- `isRecurring`
abbrev pub is_recurring : Reminder → Bool
is_recurring r = elim r.kind [ every ↦ true | cron ↦ true | at ↦ false | unknown ↦ false ]

-- `Math.round(ms / 3_600_000)`
unfoldable pub rounded_hours : ℕ → ℕ
rounded_hours ms = (ms + 1800000) / 3600000

-- `taskWhen`; `show` is `toLocaleString`.
unfoldable pub task_when : (Text → Text) → Reminder → Lang → Text
unfolding rounded_hours
task_when show r lang = elim r.kind [
  | cron ↦ codes "↻ " ++ r.expr
  | every ↦ elim lang [
    | he ↦ codes "↻ " ++ (he_every ++ (decimal (rounded_hours r.every_ms) ++ he_hours))
    | en ↦ codes "↻ every " ++ (decimal (rounded_hours r.every_ms) ++ codes "h")
  ]
  | at ↦ if is_empty r.at_time then [] else show r.at_time
  | unknown ↦ if is_empty r.at_time then [] else show r.at_time
]

module _ (parse : Text → Option ℕ) (now : ℕ) where
  unfoldable pub is_upcoming : Reminder → Bool
  is_upcoming r =
      is_recurring r
      || (not (is_empty r.at_time) && elim (parse r.at_time) [ none ↦ false | some t ↦ ltb now t ])

  unfoldable pub is_past : Reminder → Bool
  is_past r =
      not (is_recurring r)
      && (not (is_empty r.at_time) && elim (parse r.at_time) [ none ↦ false | some t ↦ leb t now ])

  unfoldable pub upcoming : List Reminder → List Reminder
  upcoming rs = keep is_upcoming rs

  unfoldable pub past : List Reminder → List Reminder
  past rs = keep is_past rs

pub record Panel : Type 0 where
  pub open_now : Bool
  pub loading : Bool
  pub reminders : List Reminder
  pub cancelling : Option Text
  pub cancels : List Text  -- the jobs that were asked to be cancelled, the latest first
  pub loads : ℕ  -- calls of `listTenantReminders`

unfoldable pub load : Panel → Panel
load s = record s { loading = true; loads = s.loads + 1 }

-- A failure leaves the tasks as they are.
unfoldable pub load_answered : Outcome (List Reminder) → Panel → Panel
load_answered (ok rs) s = record s { reminders = rs; loading = false }
load_answered (throw e) s = record s { loading = false }

-- `cancel`, with the answer of the browser's dialog, up to its request, and the rest of it.
unfoldable pub cancel : Reminder → Bool → Panel → Panel
cancel r agreed s =
    if agreed then record s { cancelling = some r.job_id; cancels = r.job_id ∷ s.cancels } else s

unfoldable pub cancel_answered : Outcome (Unit {0}) → Panel → Panel
unfolding load
cancel_answered (ok u) s = record (load s) { cancelling = none }
cancel_answered (throw e) s = record s { cancelling = none }

-- A task that repeats more often than every half hour is told to repeat every zero hours.
task_when-zero :
    (show : Text → Text) (r : Reminder)
    → r.kind ≡ every
    → r.every_ms < 1800000
    → task_when show r en ≡ codes "↻ every " ++ (decimal 0 ++ codes "h")
unfolding task_when rounded_hours
task_when-zero show r k h =
    let zero_hours : (r.every_ms + 1800000) / 3600000 ≡ 0 = omega arith in rw (k, zero_hours) refl
