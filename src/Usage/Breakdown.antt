-- ===== src/Usage/Breakdown.antt =====
-- What the usage tab shows of an answer, `UsageTab` and `AgentRow` of frontend/src/components/UsageTab.tsx. Amounts are
-- numbers, as after `Number`; a percentage is kept as a fraction. `fmtDate`, which is the browser's, is a parameter, and so
-- is what the fields of the answer hold.
pub mod Complete
use agentleh_app.Base.{
  ℕ, ◌+◌, ◌*◌, ◌≤◌, Bool, true, false, not, ◌||◌, List, [], ◌∷◌, ◌++◌, Option, none, some, Text,
  codes, text_eq, is_empty, keep, map, length, decimal, ltb, leb, ◌==◌, if◌then◌else◌, ◌≡◌, ◌↔◌,
  refl, arith, suc, ap, leb→le, length-append, Bool-cases, inl, inr,
}
use agentleh_app.Js.{Js, Error}
use agentleh_app.Format.{micros_to_usd}
use agentleh_app.Prefs.Lang.{Bilingual}
use agentleh_app.Labels.{plan_label}
use agentleh_app.Usage.{RangeKind, current, UsageState}

pub record AgentUsageRow : Type 0 where
  pub agent_id : Text
  pub agent_name : Text
  pub deleted_at : Option Text
  pub llm_micros : ℕ
  pub search_micros : ℕ
  pub tts_micros : ℕ
  pub embedding_micros : ℕ
  pub event_count : ℕ

pub record UsageTotals : Type 0 where
  pub llm_micros : Option ℕ
  pub search_micros : Option ℕ
  pub tts_micros : Option ℕ
  pub embedding_micros : Option ℕ

pub record Subscription : Type 0 where
  pub plan_id : Text
  pub period_end : Text
  pub base_allowance_micros : ℕ
  pub used_micros : ℕ

pub record TenantUsage : Type 0 where
  pub range : Option (Text × Text)  -- from and to
  pub subscription : Option Subscription
  pub totals : UsageTotals
  pub agents : List AgentUsageRow

-- `!!a.deleted_at`
abbrev pub is_deleted : AgentUsageRow → Bool
is_deleted a = elim a.deleted_at [ none ↦ false | some t ↦ not (is_empty t) ]

unfoldable pub live_agents : List AgentUsageRow → List AgentUsageRow
live_agents rs = keep (λ r. not (is_deleted r)) rs

unfoldable pub deleted_agents : List AgentUsageRow → List AgentUsageRow
deleted_agents rs = keep is_deleted rs

-- `n ?? 0`
abbrev pub or_zero : Option ℕ → ℕ
or_zero none = 0
or_zero (some n) = n

abbrev pub no_totals : UsageTotals
no_totals = record {
  llm_micros = none;
  search_micros = none;
  tts_micros = none;
  embedding_micros = none;
}

unfoldable pub total_micros : UsageTotals → ℕ
total_micros t =
    or_zero t.llm_micros
    + or_zero t.search_micros
    + or_zero t.tts_micros
    + or_zero t.embedding_micros

-- The share `part / whole`, at most 1; `whole` is not 0.
pub record Share : Type 0 where
  pub part : ℕ
  pub whole : ℕ

unfoldable pub allowance_pct : Subscription → Option Share
allowance_pct s =
    if s.base_allowance_micros == 0
    then none
    else if leb s.base_allowance_micros s.used_micros
    then some (record { part = 1; whole = 1 })
    else some (record { part = s.used_micros; whole = s.base_allowance_micros })

-- The share is at least so many percent.
abbrev pub at_least : ℕ → Share → Bool
at_least percent p = leb (percent * p.whole) (100 * p.part)

pub data BarColor : Type 0 where
  danger warning brand : BarColor

unfoldable pub bar_color : Share → BarColor
bar_color p = if at_least 100 p then danger else if at_least 80 p then warning else brand

-- A row for an agent, with the mark behind the name of a deleted one.
pub record Row : Type 0 where
  pub agent_name : Text
  pub mark_en : Option Text
  pub agent_id : Text
  pub amounts : List Text
  pub events : Text

pub data Table : Type 0 where
  failed : Error → Table
  skeleton no_usage : Table
  table : List Row → Option ℕ → Table  -- with the button for so many deleted agents

pub record Plan : Type 0 where
  pub plan : Bilingual
  pub period_end : Text
  pub used : Text
  pub allowance : Text
  pub bar : Option (Share × BarColor)

pub record Shown : Type 0 where
  pub plan : Option Plan
  pub period : Option Text
  pub tiles : List Text
  pub is_muted : Bool
  pub table : Table

unfoldable pub row_total : AgentUsageRow → ℕ
row_total r = r.llm_micros + r.search_micros + r.tts_micros + r.embedding_micros

abbrev pub collapse_threshold : ℕ
collapse_threshold = 5

module _ (to_fixed : ℕ → ℕ → ℕ → Text) (fmt_date : Text → Text) (hebrew : Text → Text) where
  abbrev usd : Option ℕ → Text
  usd m = micros_to_usd to_fixed m

  unfoldable pub mark_en : AgentUsageRow → Option Text
  mark_en r = elim r.deleted_at [
    | none ↦ none
    | some t ↦
        if is_empty t
        then none
        else if text_eq t (codes "unknown")
        then some (codes "deleted")
        else some (codes "deleted " ++ fmt_date t)
  ]

  unfoldable pub agent_row : AgentUsageRow → Row
  agent_row r = record {
    agent_name = r.agent_name;
    mark_en = mark_en r;
    agent_id = r.agent_id;
    amounts =
        usd (some r.llm_micros)
        ∷ usd (some r.search_micros)
        ∷ usd (some r.tts_micros)
        ∷ usd (some r.embedding_micros)
        ∷ usd (some (row_total r))
        ∷ [];
    events = decimal r.event_count;
  }

  unfoldable pub rows : Bool → List AgentUsageRow → Table
  rows show_deleted rs =
      let live = map agent_row (live_agents rs) in
      let deleted = deleted_agents rs in
      if ltb (length deleted) collapse_threshold || show_deleted
      then table (live ++ map agent_row deleted) none
      else table live (some (length deleted))

  unfoldable pub breakdown : Bool → Option Error → Bool → List AgentUsageRow → Table
  breakdown show_deleted (some e) loading rs = failed e
  breakdown show_deleted none true rs = skeleton
  breakdown show_deleted none false [] = no_usage
  breakdown show_deleted none false (r ∷ rs) = rows show_deleted (r ∷ rs)

  unfoldable pub format_range : Text × Text → Text
  format_range (from, to) =
      if is_empty from
      then []
      else if is_empty to
      then []
      else fmt_date from ++ codes " – " ++ fmt_date to

  unfoldable pub plan_line : Subscription → Plan
  plan_line s = record {
    plan = plan_label hebrew (some s.plan_id);
    period_end = fmt_date s.period_end;
    used = usd (some s.used_micros);
    allowance = usd (some s.base_allowance_micros);
    bar = elim (allowance_pct s) [ none ↦ none | some p ↦ some (p, bar_color p) ];
  }

  abbrev is_current : RangeKind → Bool
  is_current current = true
  is_current _ = false

  unfoldable pub tiles : UsageTotals → List Text
  tiles t =
      usd (some (total_micros t))
      ∷ usd t.llm_micros
      ∷ usd t.search_micros
      ∷ usd t.tts_micros
      ∷ usd t.embedding_micros
      ∷ []

  -- `read` is what the fields of an answer hold.
  unfoldable pub view : (Js → TenantUsage) → Bool → UsageState → Shown
  view read show_deleted s = elim s.usage [
    | none ↦ record {
      plan = none;
      period = none;
      tiles = tiles no_totals;
      is_muted = s.loading;
      table = breakdown show_deleted s.shown_error s.loading [];
    }
    | some js ↦
        let d = read js in
        record {
          plan = elim d.subscription [
            | none ↦ none
            | some sub ↦ if is_current s.range.kind then some (plan_line sub) else none
          ];
          period = elim d.range [ none ↦ none | some r ↦ some (format_range r) ];
          tiles = tiles d.totals;
          is_muted = s.loading;
          table = breakdown show_deleted s.shown_error s.loading d.agents;
        }
  ]
