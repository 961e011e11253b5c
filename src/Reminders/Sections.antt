-- ===== src/Reminders/Sections.antt =====
-- The sections of the reminders.
use agentleh_app.Base.{ℕ, Bool, true, false, not, ◌&&◌, Option, none, some, Text, if◌then◌else◌}
use agentleh_app.Prefs.Lang.{Lang}
use agentleh_app.Reminders.{Reminder, is_recurring, time_of}

module _ (parse : Text → Option ℕ) (format : Text → Lang → Text) where
  abbrev has_time : Option ℕ → Bool
  has_time none = false
  has_time (some t) = true

  -- What no section lists: a kind that is not known, or a one-shot reminder without a valid time.
  abbrev pub is_unlisted : Reminder → Bool
  is_unlisted r = not (is_recurring r) && not (has_time (time_of parse format r))

  abbrev one : Bool → ℕ
  one b = if b then 1 else 0
