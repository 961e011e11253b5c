-- ===== src/Reminders.antt =====
-- The reminders of a workspace, frontend/src/components/RemindersTab.tsx. Times are milliseconds since 1970. State
-- updates are applied at once.
pub mod Sections
pub mod Relative
use agentleh_app.Base.{
  ℕ, zero, suc, ◌+◌, ◌-◌, ◌/◌, ◌++◌, Bool, true, false, not, ◌&&◌, ◌||◌, List, [], ◌∷◌, Option,
  none, some, Text, codes, is_empty, text_eq, keep, decimal, ltb, leb, ◌==◌, if◌then◌else◌,
}
use agentleh_app.Js.{Outcome, ok, throw, Error}
use agentleh_app.Prefs.Lang.{Lang, he, en}

pub data Kind : Type 0 where
  at every cron unknown : Kind

-- A field that is missing is empty, or zero.
pub record Reminder : Type 0 where
  pub job_id : Text
  pub agent_id : Text
  pub kind : Kind
  pub at_time : Text  -- `schedule.at`
  pub every_ms : ℕ
  pub expr : Text
  pub tz : Text
  pub text : Text  -- `payload.text`
  pub message : Text  -- `payload.message`

-- An integer, by its size.
pub record Signed : Type 0 where
  pub negative : Bool
  pub size : ℕ

-- The Hebrew words, as code points.
abbrev pub he_in : Text
he_in = 0x5d1 ∷ 0x5e2 ∷ 0x5d5 ∷ 0x5d3 ∷ 0x20 ∷ []

abbrev pub he_minutes : Text
he_minutes = 0x5d3 ∷ 0x5f3 ∷ []

abbrev pub he_hours : Text
he_hours = 0x20 ∷ 0x5e9 ∷ 0x5e2 ∷ 0x5d5 ∷ 0x5ea ∷ []

abbrev pub he_days : Text
he_days = 0x20 ∷ 0x5d9 ∷ 0x5de ∷ 0x5d9 ∷ 0x5dd ∷ []

abbrev pub he_now : Text
he_now = 0x5e2 ∷ 0x5db ∷ 0x5e9 ∷ 0x5d9 ∷ 0x5d5 ∷ []

abbrev pub he_every : Text
he_every = 0x5db ∷ 0x5dc ∷ 0x20 ∷ []

abbrev pub he_whole_minutes : Text
he_whole_minutes = 0x20 ∷ 0x5d3 ∷ 0x5e7 ∷ 0x5d5 ∷ 0x5ea ∷ []

unfoldable pub minus : ℕ → ℕ → Signed
minus a b =
    if ltb a b
    then record { negative = true; size = b - a }
    else record { negative = false; size = a - b }

-- `Math.round(x / unit)` for an even unit: a half goes up.
unfoldable pub round_quotient : Signed → ℕ → Signed
round_quotient x unit =
    if x.negative
    then record { negative = true; size = (x.size + unit / 2 - 1) / unit }
    else record { negative = false; size = (x.size + unit / 2) / unit }

-- The number in a template; a zero has no sign.
unfoldable pub signed_text : Signed → Text
signed_text x = (if x.negative && not (x.size == 0) then codes "-" else []) ++ decimal x.size

unfoldable pub in_units : Lang → Signed → Text → Text → Text
unfolding signed_text
in_units he x he_unit en_unit = he_in ++ (signed_text x ++ he_unit)
in_units en x he_unit en_unit = codes "in " ++ (signed_text x ++ en_unit)

-- `relativeFromNow` of a time that is valid.
unfoldable pub relative_of : Lang → Signed → Text
unfolding in_units round_quotient
relative_of lang diff_ms =
    let diff_min = round_quotient diff_ms 60000 in
    let diff_hours = round_quotient diff_min 60 in
    if ltb diff_min.size 1
    then elim lang [ he ↦ he_now | en ↦ codes "now" ]
    else if ltb diff_min.size 60
    then in_units lang diff_min (he_minutes) (codes "m")
    else if ltb diff_hours.size 24
    then in_units lang diff_hours (he_hours) (codes "h")
    else in_units lang (round_quotient diff_hours 24) (he_days) (codes "d")

pub record Listing : Type 0 where
  pub reminders : List Reminder
  pub failed_agents : List Text  -- `errors`, by the agent

pub record Tab : Type 0 where
  pub listing : Option Listing  -- `data`
  pub loading : Bool
  pub load_error : Option Error
  pub cancelling : Option Text
  pub cancel_error : Option Error
  pub cancels : List (Text × Text)  -- the agents and jobs given to `cancelTenantReminder`, the latest first

-- `refresh`, and its end where it is not torn down.
unfoldable pub refresh : Tab → Tab
refresh s = record s { loading = true; load_error = none }

unfoldable pub refresh_answered : Outcome Listing → Tab → Tab
refresh_answered (ok l) s = record s { listing = some l; loading = false }
refresh_answered (throw e) s = record s { load_error = some e; loading = false }

-- `handleCancel`, up to its request, with the answer to its question, and the rest of it.
unfoldable pub handle_cancel : Bool → Reminder → Tab → Tab
handle_cancel confirmed r s =
    if confirmed
    then record s {
      cancelling = some r.job_id;
      cancel_error = none;
      cancels = (r.agent_id, r.job_id) ∷ s.cancels;
    }
    else s

unfoldable pub without_job : Text → Listing → Listing
without_job job l = record l { reminders = keep (λ x. not (text_eq x.job_id job)) l.reminders }

unfoldable pub cancel_answered : Reminder → Outcome (Unit {0}) → Tab → Tab
unfolding without_job
cancel_answered r (ok u) s = record s {
  listing = elim s.listing [ none ↦ none | some l ↦ some (without_job r.job_id l) ];
  cancelling = none;
}
cancel_answered r (throw e) s = record s { cancel_error = some e; cancelling = none }

unfoldable pub reminder_text : Reminder → Text
reminder_text r =
    if not (is_empty r.text)
    then r.text
    else if not (is_empty r.message)
    then r.message
    else codes "—"

abbrev pub is_recurring : Reminder → Bool
is_recurring r = elim r.kind [ cron ↦ true | every ↦ true | at ↦ false | unknown ↦ false ]

unfoldable pub recurring : List Reminder → List Reminder
recurring rs = keep is_recurring rs

-- `parse` is `new Date(text).getTime()`, none for NaN; `format` is `formatWhen`, over `toLocaleString`.
module _ (parse : Text → Option ℕ) (format : Text → Lang → Text) where
  unfoldable pub relative_from_now : ℕ → Text → Lang → Text
  unfolding relative_of minus
  relative_from_now now iso lang =
      if is_empty iso
      then []
      else elim (parse iso) [ none ↦ [] | some d ↦ relative_of lang (minus d now) ]

  unfoldable pub schedule_summary : ℕ → Reminder → Lang → Text
  unfolding relative_from_now round_quotient
  schedule_summary now r lang = elim r.kind [
    | at ↦
        if is_empty r.at_time
        then codes "—"
        else format r.at_time lang ++ (codes " · " ++ relative_from_now now r.at_time lang)
    | cron ↦
        if is_empty r.expr
        then codes "—"
        else codes "cron: "
          ++ (r.expr ++ (if is_empty r.tz then [] else codes " (" ++ (r.tz ++ codes ")")))
    | every ↦ if r.every_ms == 0 then codes "—" else elim lang [
      | he ↦
          he_every
          ++ (decimal (round_quotient (record { negative = false; size = r.every_ms }) 60000).size
              ++ he_whole_minutes)
      | en ↦
          codes "every "
          ++ (decimal (round_quotient (record { negative = false; size = r.every_ms }) 60000).size
              ++ codes "m")
    ]
    | unknown ↦ codes "—"
  ]

  -- The time of a one-shot reminder.
  unfoldable pub time_of : Reminder → Option ℕ
  time_of r = elim r.kind [
    | at ↦ if is_empty r.at_time then none else parse r.at_time
    | every ↦ none
    | cron ↦ none
    | unknown ↦ none
  ]

  unfoldable pub is_upcoming : ℕ → Reminder → Bool
  unfolding time_of
  is_upcoming now r = elim (time_of r) [ none ↦ false | some t ↦ ltb now t ]

  unfoldable pub is_past : ℕ → Reminder → Bool
  unfolding time_of
  is_past now r = elim (time_of r) [ none ↦ false | some t ↦ leb t now ]

  unfoldable pub upcoming_oneshot : ℕ → List Reminder → List Reminder
  unfolding is_upcoming
  upcoming_oneshot now rs = keep (is_upcoming now) rs

  unfoldable pub past_oneshot : ℕ → List Reminder → List Reminder
  unfolding is_past
  past_oneshot now rs = keep (is_past now) rs
