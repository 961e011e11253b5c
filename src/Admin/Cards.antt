-- ===== src/Admin/Cards.antt =====
-- The cards of the language models in frontend/src/pages/AdminPage.tsx. `(n / d).toFixed(k)`, `toLocaleString` and `String`
-- are parameters.
use agentleh_app.Base.{
  ℕ, Bool, false, List, [], ◌∷◌, ◌++◌, Option, none, some, Text, codes, map, decimal,
}
use agentleh_app.Admin.Plans.{fmt_usd}

pub record Cell : Type 0 where
  pub text : Text
  pub is_danger : Bool

pub data Card : Type 0 where
  empty_card : Text → Text → Card  -- the title and the hint
  card_table : Text → List Text → List (List Cell) → Card

-- `hint ?? 'No data in window.'`
unfoldable pub empty_with : Text → Option Text → Card
empty_with title none = empty_card title (codes "No data in window.")
empty_with title (some hint) = empty_card title hint

abbrev pub plain_cell : Text → Cell
plain_cell t = record { text = t; is_danger = false }

-- `AdminLlmAnalytics`; `Pct` is a percentage as it comes.
pub record CostRow : Type 0 where
  pub upstream : Text
  pub model : Text
  pub events : ℕ
  pub cost_micros : ℕ
  pub input_tokens : ℕ
  pub output_tokens : ℕ
  pub cached_tokens : ℕ
  pub avg_latency_ms : ℕ

pub record ThinkingRow (Pct : Type 0) : Type 0 where
  pub model : Text
  pub events : ℕ
  pub avg_thoughts : Option Pct
  pub avg_output : Option Pct
  pub thoughts_share_pct : Option Pct

pub record TruncationRow (Pct : Type 0) : Type 0 where
  pub model : Text
  pub total : ℕ
  pub truncated : ℕ
  pub pct : Option Pct

pub record ToolRow : Type 0 where
  pub tool_name : Text
  pub calls : ℕ
  pub distinct_agents : ℕ
  pub distinct_models : ℕ

pub record ErrorRow (Pct : Type 0) : Type 0 where
  pub upstream : Text
  pub model : Text
  pub total : ℕ
  pub errors : ℕ
  pub pct : Option Pct

module _ (to_fixed : ℕ → ℕ → ℕ → Text) (locale : ℕ → Text) where
  unfoldable pub cost_per_model_card : List CostRow → Card
  cost_per_model_card [] = empty_with (codes "Cost per model") none
  cost_per_model_card (r ∷ rs) =
      card_table (codes "Cost per model")
        (codes "Upstream"
          ∷ codes "Model"
          ∷ codes "Calls"
          ∷ codes "Input tok"
          ∷ codes "Output tok"
          ∷ codes "Cached tok"
          ∷ codes "Avg latency"
          ∷ codes "$ spent"
          ∷ [])
        (map cost_row (r ∷ rs))
    where
      cost_row : CostRow → List Cell
      cost_row r = map plain_cell (
          r.upstream
          ∷ r.model
          ∷ decimal r.events
          ∷ locale r.input_tokens
          ∷ locale r.output_tokens
          ∷ locale r.cached_tokens
          ∷ (decimal r.avg_latency_ms ++ codes "ms")
          ∷ fmt_usd to_fixed (some r.cost_micros)
          ∷ [])

  unfoldable pub tool_frequency_card : List ToolRow → Card
  tool_frequency_card [] = empty_with (codes "Tool calls") (some (codes "no tool calls in window"))
  tool_frequency_card (r ∷ rs) =
      card_table (codes "Top tools called")
        (codes "Tool" ∷ codes "Calls" ∷ codes "Agents" ∷ codes "Models" ∷ [])
        (map tool_row (r ∷ rs))
    where
      tool_row : ToolRow → List Cell
      tool_row r = map plain_cell (
          r.tool_name
          ∷ decimal r.calls
          ∷ decimal r.distinct_agents
          ∷ decimal r.distinct_models
          ∷ [])

-- `String` and `>` on percentages.
module _ {Pct : Type 0} (string : Pct → Text) (exceeds : ℕ → Pct → Bool) where
  abbrev or_dash : Option Pct → Text
  or_dash none = codes "—"
  or_dash (some n) = string n

  abbrev percent : Option Pct → Text
  percent none = codes "—"
  percent (some p) = string p ++ codes "%"

  -- The cell of a percentage, which is in the colour of danger above a limit.
  unfoldable pub rate_cell : ℕ → Option Pct → Cell
  rate_cell limit none = plain_cell (percent none)
  rate_cell limit (some p) = record { text = percent (some p); is_danger = exceeds limit p }

  unfoldable pub thinking_burn_card : List (ThinkingRow Pct) → Card
  thinking_burn_card [] =
      empty_with (codes "Thinking-token burn") (some (codes "no thinking-enabled calls yet"))
  thinking_burn_card (r ∷ rs) =
      card_table (codes "Thinking-token burn")
        (codes "Model"
          ∷ codes "Calls"
          ∷ codes "Avg thoughts"
          ∷ codes "Avg output"
          ∷ codes "% thoughts"
          ∷ [])
        (map thinking_row (r ∷ rs))
    where
      thinking_row : ThinkingRow Pct → List Cell
      thinking_row r = map plain_cell (
          r.model
          ∷ decimal r.events
          ∷ or_dash r.avg_thoughts
          ∷ or_dash r.avg_output
          ∷ percent r.thoughts_share_pct
          ∷ [])

  unfoldable pub truncation_rate_card : List (TruncationRow Pct) → Card
  truncation_rate_card [] =
      empty_with (codes "Truncation rate") (some (codes "no finish_reason data yet"))
  truncation_rate_card (r ∷ rs) =
      card_table (codes "Truncation rate (finish=length)")
        (codes "Model" ∷ codes "Total" ∷ codes "Truncated" ∷ codes "%" ∷ [])
        (map truncation_row (r ∷ rs))
    where
      truncation_row : TruncationRow Pct → List Cell
      truncation_row r =
          plain_cell r.model
          ∷ plain_cell (decimal r.total)
          ∷ plain_cell (decimal r.truncated)
          ∷ rate_cell 10 r.pct
          ∷ []

  unfoldable pub error_rate_card : List (ErrorRow Pct) → Card
  error_rate_card [] = empty_with (codes "Error rate") (some (codes "no LLM traffic in window"))
  error_rate_card (r ∷ rs) =
      card_table (codes "Error rate (HTTP ≥ 400)")
        (codes "Upstream" ∷ codes "Model" ∷ codes "Total" ∷ codes "Errors" ∷ codes "%" ∷ [])
        (map error_row (r ∷ rs))
    where
      error_row : ErrorRow Pct → List Cell
      error_row r =
          plain_cell r.upstream
          ∷ plain_cell r.model
          ∷ plain_cell (decimal r.total)
          ∷ plain_cell (decimal r.errors)
          ∷ rate_cell 1 r.pct
          ∷ []
