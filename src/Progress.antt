-- ===== src/Progress.antt =====
-- The progress bar, frontend/src/components/ProvisionProgressBar.tsx: the sub-tick in the label and the percentage.
-- The quotient is rounded exactly; a double could differ where it lies half-way, which it never does for the 30 ticks
-- that are sent. The numbers in a label are taken as they are spelled; a double holds those of up to 308 digits.
pub mod Bounds
use agentleh_app.Base.{
  ℕ, zero, suc, ◌+◌, ◌*◌, ◌/◌, min, Bool, true, false, List, [], ◌∷◌, Option, none, some, Text,
  span_digits, digits_value, ◌==◌, ltb, if◌then◌else◌,
}

-- `ProvisionProgress`, with the numbers that the backend sends.
pub record Tick : Type 0 where
  pub step : ℕ
  pub total : ℕ
  pub label : Text

abbrev pub expect : ℕ → Text → Option Text
expect d [] = none
expect d (c ∷ s) = if c == d then some s else none

-- One or more digits, and the text behind them.
abbrev pub numeral : Text × Text → Option (ℕ × Text)
numeral ([], rest) = none
numeral (d ∷ digits, rest) = some (digits_value 0 (d ∷ digits), rest)

infixl 5 ◌>>=◌
abbrev pub ◌>>=◌ {ℓ κ} : {A : Type ℓ} {B : Type κ} → Option A → (A → Option B) → Option B
none >>= k = none
some a >>= k = k a

-- `/\((\d+)\/(\d+)\)/` at the start of a text.
unfoldable pub match_sub : Text → Option (ℕ × ℕ)
match_sub s = do
  inside ← expect b'(' s
  first ← numeral (span_digits inside)
  between ← expect b'/' first.1
  second ← numeral (span_digits between)
  close ← expect b')' second.1
  some (first.0, second.0)

-- `.exec(label)`: the first match.
unfoldable pub exec_sub : Text → Option (ℕ × ℕ)
exec_sub [] = none
exec_sub (c ∷ s) =
    let later = exec_sub s in elim (match_sub (c ∷ s)) [ some m ↦ some m | none ↦ later ]

-- `subTick` and `subTotal`
unfoldable pub sub_of : Text → ℕ × ℕ
sub_of label = elim (exec_sub label) [ some m ↦ m | none ↦ (0, 30) ]

-- `Math.round(35 + Math.min(1, subTick / subTotal) * 50)`
unfoldable pub health_pct : ℕ → ℕ → ℕ
health_pct tick total =
    if ltb 0 total then 35 + (100 * min tick total + total) / (2 * total) else 35

unfoldable pub step_pct : ℕ → ℕ × ℕ → ℕ
unfolding health_pct
step_pct zero sub = 3
step_pct (suc zero) sub = 15
step_pct (suc (suc zero)) sub = 25
step_pct (suc (suc (suc zero))) sub = 35
step_pct (suc (suc (suc (suc zero)))) (tick, total) = health_pct tick total
step_pct (suc (suc (suc (suc (suc n))))) sub = 92

unfoldable pub progress_pct : Bool → Tick → ℕ
progress_pct provisioning p = if provisioning then step_pct p.step (sub_of p.label) else 0
