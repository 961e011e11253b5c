-- ===== src/Bridges/Activity.antt =====
-- The last activity of a Telegram bot, `renderTelegramActivityLabel` of frontend/src/components/BridgesPanel.tsx. Times are
-- milliseconds; the time of a date is none where it is invalid. A time to come counts as now.
use agentleh_app.Base.{
  ℕ, ◌+◌, ◌-◌, ◌*◌, ◌/◌, ◌<◌, ◌≤◌, Bool, true, false, Option, none, some, Text, codes, ◌++◌,
  decimal, ltb, arith, if◌then◌else◌, inl, inr, Bool-cases,
}

-- The labels, without their words.
pub data Activity : Type 0 where
  connecting no_messages just_now days_unknown : Activity
  minutes hours days : ℕ → Activity

unfoldable pub since : ℕ → Activity
since mins =
    let hrs = mins / 60 in
    if ltb mins 1
    then just_now
    else if ltb mins 60
    then minutes mins
    else if ltb hrs 24
    then hours hrs
    else days (hrs / 24)

-- `last` is `last_update_at`, with its time.
unfoldable pub activity : Bool → Option (Option ℕ) → ℕ → Activity
unfolding since
activity false last now = connecting
activity true none now = no_messages
activity true (some none) now = days_unknown
activity true (some (some last)) now = since ((now - last) / 60000)

unfoldable pub activity_label_en : Activity → Text
activity_label_en connecting = codes "Connecting…"
activity_label_en no_messages = codes "Connected. No messages received yet."
activity_label_en just_now = codes "Last activity: just now"
activity_label_en days_unknown = codes "Last activity: NaNd ago"
activity_label_en (minutes n) = codes "Last activity: " ++ (decimal n ++ codes "m ago")
activity_label_en (hours n) = codes "Last activity: " ++ (decimal n ++ codes "h ago")
activity_label_en (days n) = codes "Last activity: " ++ (decimal n ++ codes "d ago")

-- A number of a unit is at least one and below the next unit, and is the time rounded down; "just now" is below a minute.
-- The other labels tell no time.
abbrev pub Tells : Activity → ℕ → Type 0
Tells just_now ms = ms < 60000
Tells (minutes n) ms = (1 ≤ n) × (n < 60) × (n * 60000 ≤ ms) × (ms < (n + 1) * 60000)
Tells (hours n) ms = (1 ≤ n) × (n < 24) × (n * 3600000 ≤ ms) × (ms < (n + 1) * 3600000)
Tells (days n) ms = (1 ≤ n) × (n * 86400000 ≤ ms) × (ms < (n + 1) * 86400000)
Tells connecting ms = ⊥
Tells no_messages ms = ⊥
Tells days_unknown ms = ⊥

-- The label of a bot that is ready and has a last message tells the time since then: in minutes below an hour, in
-- hours below a day, and in days from then on, rounded down, and never as zero of a unit; below a minute it is "just now".
-- It is none of the labels that tell no time.
pub activity-Tells : (last now : ℕ) → Tells (activity true (some (some last)) now) (now - last)
unfolding activity since
activity-Tells last now = told (now - last)
  where
    told : (ms : ℕ) → Tells (since (ms / 60000)) ms
    told ms = elim (Bool-cases (ltb (ms / 60000) 1)) [
      | inl e ↦ rw e (ground arith)
      | inr e ↦ elim (Bool-cases (ltb (ms / 60000) 60)) [
        | inl q ↦ rw (e, q) (ground arith, ground arith, ground arith, ground arith)
        | inr q ↦ elim (Bool-cases (ltb (ms / 60000 / 60) 24)) [
          | inl r ↦ rw (e, q, r) (ground arith, ground arith, ground arith, ground arith)
          | inr r ↦ rw (e, q, r) (ground arith, ground arith, ground arith)
        ]
      ]
    ]
