-- ===== src/Usage.antt =====
-- The usage tab, frontend/src/components/UsageTab.tsx: the range that is asked for, and the answer that is shown.
-- Times are milliseconds since 1970 in UTC; a text of `toISOString` stands for its time.
pub mod Ranges
pub mod Current
pub mod Breakdown
use agentleh_app.Base.{
  ℕ, ◌+◌, ◌-◌, ◌*◌, ◌/◌, Bool, true, false, not, ◌&&◌, List, [], ◌∷◌, Option, none, some, Text,
  is_empty, keep, ◌==◌, if◌then◌else◌,
}
use agentleh_app.Js.{Js, Outcome, ok, throw, Error}

pub data RangeKind : Type 0 where
  current last_7d last_30d custom : RangeKind

pub record RangeSelection : Type 0 where
  pub kind : RangeKind
  pub from : Option ℕ
  pub to : Option ℕ

abbrev pub day_ms : ℕ
day_ms = 86400000

unfoldable pub iso_at_start_of_day_utc : ℕ → ℕ
iso_at_start_of_day_utc d = d / day_ms * day_ms

unfoldable pub iso_at_end_of_day_utc : ℕ → ℕ
iso_at_end_of_day_utc d = (d / day_ms + 1) * day_ms

-- A call of `getTenantUsage` by a run of the effect.
pub record Request : Type 0 where
  pub serial : ℕ
  pub range : RangeSelection

pub record UsageState : Type 0 where
  pub range : RangeSelection
  pub custom_from : Text
  pub custom_to : Text
  pub usage : Option Js  -- `data`
  pub loading : Bool
  pub shown_error : Option Error
  pub latest : ℕ  -- the run of the effect that is not cancelled
  pub in_flight : List Request

abbrev pub range_number : RangeKind → ℕ
range_number current = 0
range_number last_7d = 1
range_number last_30d = 2
range_number custom = 3

abbrev pub same_time : Option ℕ → Option ℕ → Bool
same_time none none = true
same_time (some a) (some b) = a == b
same_time _ _ = false

-- The body of the effect, which cancels the run before.
unfoldable pub load : UsageState → UsageState
load s = record s {
  loading = true;
  shown_error = none;
  latest = s.latest + 1;
  in_flight = record { serial = s.latest + 1; range = s.range } ∷ s.in_flight;
}

-- `setRange`: the effect runs where its dependencies change.
unfoldable pub set_range : RangeSelection → UsageState → UsageState
unfolding load
set_range r s =
    let same =
      same_time r.from s.range.from
      && same_time r.to s.range.to
      && range_number r.kind == range_number s.range.kind in
    if same then record s { range = r } else load (record s { range = r })

-- `new Date(text)` is a parameter, and none where the date is invalid; then `toISOString` throws.
unfoldable pub apply_custom_range : (Text → Option ℕ) → Text → Text → UsageState → UsageState
apply_custom_range parse from to s =
    if is_empty from then s else if is_empty to then s else elim (parse from) [
      | none ↦ s
      | some a ↦ elim (parse to) [
        | none ↦ s
        | some b ↦
            set_range
              (record {
                kind = custom;
                from = some (iso_at_start_of_day_utc a);
                to = some (iso_at_end_of_day_utc b);
              })
              s
      ]
    ]

abbrev pub last_days : RangeKind → ℕ → ℕ → RangeSelection
last_days kind days now = record {
  kind = kind;
  from = some (iso_at_start_of_day_utc (now - days * day_ms));
  to = some (iso_at_end_of_day_utc now);
}

-- `onPickKind`
unfoldable pub on_pick_kind : (Text → Option ℕ) → ℕ → RangeKind → UsageState → UsageState
on_pick_kind parse now current s = set_range (record { kind = current; from = none; to = none }) s
on_pick_kind parse now last_7d s = set_range (last_days last_7d 7 now) s
on_pick_kind parse now last_30d s = set_range (last_days last_30d 30 now) s
on_pick_kind parse now custom s = apply_custom_range parse s.custom_from s.custom_to s

-- The end of a request: a cancelled run changes nothing.
unfoldable pub arrived : ℕ → Outcome Js → UsageState → UsageState
arrived serial r s =
    let left = record s { in_flight = keep (λ q. not (q.serial == serial)) s.in_flight } in
    if serial == s.latest
    then elim r [
      | ok usage ↦ record left { usage = some usage; loading = false }
      | throw e ↦ record left { shown_error = some e; loading = false }
    ]
    else left

pub data Event : Type 0 where
  picked : ℕ → RangeKind → Event
  typed_from typed_to : Text → Event
  applied : Event
  answered : ℕ → Event

-- The request of a serial number.
unfoldable pub find_request : ℕ → List Request → Option Request
find_request serial [] = none
find_request serial (q ∷ qs) = if q.serial == serial then some q else find_request serial qs

-- `fetch` is what the request of a serial number is answered with; an answer without its request is no event.
module _ (parse : Text → Option ℕ) (fetch : ℕ → RangeSelection → Outcome Js) where
  unfoldable pub step : Event → UsageState → UsageState
  step (picked now kind) s = on_pick_kind parse now kind s
  step (typed_from text) s = record s { custom_from = text }
  step (typed_to text) s = record s { custom_to = text }
  step applied s = apply_custom_range parse s.custom_from s.custom_to s
  step (answered serial) s = elim (find_request serial s.in_flight) [
    | none ↦ s
    | some r ↦ arrived serial (fetch serial r.range) s
  ]

  unfoldable pub run : List Event → UsageState → UsageState
  run [] s = s
  run (e ∷ es) s = run es (step e s)

-- The tab once its effect has run for the first time.
unfoldable pub mounted : Text → Text → UsageState
unfolding load
mounted from to = load (record {
  range = record { kind = current; from = none; to = none };
  custom_from = from;
  custom_to = to;
  usage = none;
  loading = true;
  shown_error = none;
  latest = 0;
  in_flight = [];
})
