-- ===== src/Admin/Plans.antt =====
-- The plans, the tones of states and the names of models in frontend/src/pages/AdminPage.tsx. `(n / d).toFixed(k)` is a
-- parameter.
use agentleh_app.Base.{
  ℕ, ltb, List, [], ◌∷◌, ◌++◌, Option, none, some, Text, codes, text_eq, is_empty, map, decimal,
  if◌then◌else◌,
}

pub data Tone : Type 0 where
  success danger warning info neutral muted : Tone

unfoldable pub billing_mode_label : Text → Text
billing_mode_label mode =
    if text_eq mode (codes "plan_hardblock")
    then codes "hard block"
    else if text_eq mode (codes "plan_overage")
    then codes "overage"
    else if text_eq mode (codes "wallet")
    then codes "wallet"
    else mode

unfoldable pub billing_mode_tone : Text → Tone
billing_mode_tone mode =
    if text_eq mode (codes "plan_hardblock")
    then warning
    else if text_eq mode (codes "plan_overage")
    then success
    else if text_eq mode (codes "wallet")
    then info
    else muted

unfoldable pub subscription_tone : Option Text → Tone
subscription_tone none = muted
subscription_tone (some s) =
    if text_eq s (codes "active")
    then success
    else if text_eq s (codes "exhausted")
    then danger
    else if text_eq s (codes "paused")
    then warning
    else muted

unfoldable pub onboarding_tone : Text → Tone
onboarding_tone s =
    if text_eq s (codes "complete")
    then success
    else if text_eq s (codes "plan_active")
    then info
    else if text_eq s (codes "pending")
    then warning
    else muted

unfoldable pub role_tone : Text → Tone
role_tone r =
    if text_eq r (codes "superadmin")
    then info
    else if text_eq r (codes "admin")
    then neutral
    else muted

unfoldable pub model_options : List (Text × Text)
model_options =
    (codes "google/gemini-3-flash-preview", codes "Gemini 3 Flash")
    ∷ (codes "metered-openrouter/google/gemma-4-31b-it", codes "Gemma 4 31B (OpenRouter)")
    ∷ (codes "google/gemma-4-31b-it", codes "Gemma 4 31B (AI Studio)")
    ∷ []

unfoldable pub label_of : Text → List (Text × Text) → Text
label_of model [] = model
label_of model ((value, label) ∷ os) = if text_eq value model then label else label_of model os

unfoldable pub fmt_model : Option Text → Text
fmt_model none = codes "Flash (default)"
fmt_model (some m) = if is_empty m then codes "Flash (default)" else label_of m model_options

pub record PlanRow : Type 0 where
  pub plan_id : Text
  pub name_he : Text
  pub price_ils_cents : ℕ
  pub billing_mode : Text
  pub base_allowance_micros : ℕ
  pub default_overage_cap_micros : Option ℕ
  pub rate_limit_rpm : ℕ

module _ (to_fixed : ℕ → ℕ → ℕ → Text) where
  unfoldable pub fmt_usd : Option ℕ → Text
  fmt_usd none = codes "—"
  fmt_usd (some micros) = codes "$" ++ to_fixed micros 1000000 4

  -- The cells of a row; the first column holds the name and the id.
  unfoldable pub plans_tab : List PlanRow → List (List Text)
  plans_tab ps = map plan_row ps
    where
      cap : Option ℕ → Text
      cap none = codes "—"
      cap (some c) = if ltb 0 c then fmt_usd (some c) else codes "—"

      plan_row : PlanRow → List Text
      plan_row p =
          p.name_he
          ∷ p.plan_id
          ∷ (codes "₪" ++ to_fixed p.price_ils_cents 100 0)
          ∷ billing_mode_label p.billing_mode
          ∷ fmt_usd (some p.base_allowance_micros)
          ∷ cap p.default_overage_cap_micros
          ∷ decimal p.rate_limit_rpm
          ∷ []
