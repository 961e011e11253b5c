-- ===== src/Usage/Breakdown/Complete.antt =====
-- The rows of the agents, and the bar of the allowance, in the usage tab.
use agentleh_app.Base.{
  ℕ, ◌+◌, ◌≤◌, Bool, true, false, ◌||◌, List, [], ◌∷◌, ◌++◌, none, some, Text, keep, map, length,
  ltb, leb, ◌==◌, if◌then◌else◌, ◌≡◌, ◌↔◌, refl, arith, suc, ap, leb→le, length-append, Bool-cases,
  inl, inr,
}
use agentleh_app.Usage.Breakdown.{
  AgentUsageRow, live_agents, deleted_agents, Subscription, Share, allowance_pct, bar_color, danger,
  Table, table, collapse_threshold, agent_row, rows,
}

module _ (to_fixed : ℕ → ℕ → ℕ → Text) (fmt_date : Text → Text) (hebrew : Text → Text) where
  abbrev shown : Table → ℕ
  shown (table listed button) = length listed
  shown _ = 0

  abbrev hidden : Table → ℕ
  hidden (table listed (some n)) = n
  hidden _ = 0

  length-map : {A : Type 0} {B : Type 0} (f : A → B) (xs : List A) → length (map f xs) ≡ length xs
  length-map f [] = refl
  length-map f (x ∷ xs) = ap suc (length-map f xs)

  one : Bool → ℕ
  one b = if b then 1 else 0

  length-keep :
      (rs : List AgentUsageRow) → length (live_agents rs) + length (deleted_agents rs) ≡ length rs
  unfolding live_agents deleted_agents keep
  length-keep [] = refl
  length-keep (r ∷ rs) = ground (arith, length-keep rs)

  -- The rows of live agents, and those of deleted ones behind them, are as many as the agents.
  length-all_rows :
      (rs : List AgentUsageRow)
      → length (
          map (agent_row to_fixed fmt_date hebrew) (live_agents rs)
          ++ map (agent_row to_fixed fmt_date hebrew) (deleted_agents rs))
        ≡ length rs
  length-all_rows rs =
      rw
        (
          length-append (map (agent_row to_fixed fmt_date hebrew) (live_agents rs))
              (map (agent_row to_fixed fmt_date hebrew) (deleted_agents rs)),
          length-map (agent_row to_fixed fmt_date hebrew) (live_agents rs),
          length-map (agent_row to_fixed fmt_date hebrew) (deleted_agents rs),
        )
        (length-keep rs)

  -- Every agent of an answer has a row or is counted by the button, and once the button is pressed every one has a row.
  rows-length :
      (show_deleted : Bool) (rs : List AgentUsageRow)
      → (shown (rows to_fixed fmt_date hebrew show_deleted rs)
            + hidden (rows to_fixed fmt_date hebrew show_deleted rs)
          ≡ length rs)
        × (shown (rows to_fixed fmt_date hebrew true rs) ≡ length rs)
  unfolding rows
  rows-length show_deleted rs = (
    counted (ltb (length (deleted_agents rs)) collapse_threshold || show_deleted),
    elim (Bool-cases (ltb (length (deleted_agents rs)) collapse_threshold)) [
      | inl e ↦ rw e (length-all_rows rs)
      | inr e ↦ rw e (length-all_rows rs)
    ],
  )
    where
      counted :
          (all : Bool)
          → let t : Table =
              if all
              then table
                  (map (agent_row to_fixed fmt_date hebrew) (live_agents rs)
                    ++ map (agent_row to_fixed fmt_date hebrew) (deleted_agents rs))
                  none
              else table
                  (map (agent_row to_fixed fmt_date hebrew) (live_agents rs))
                  (some (length (deleted_agents rs))) in
            shown t + hidden t ≡ length rs
      counted true = ground (arith, length-all_rows rs)
      counted false =
          rw (length-map (agent_row to_fixed fmt_date hebrew) (live_agents rs)) (length-keep rs)

-- The bar of the allowance is never longer than its track, and it is in the colour of danger exactly when the allowance is
-- used up.
allowance_pct-bar :
    (s : Subscription) (p : Share)
    → allowance_pct s ≡ some p
    → (p.part ≤ p.whole) × ((bar_color p ≡ danger) ↔ (s.base_allowance_micros ≤ s.used_micros))
unfolding allowance_pct bar_color
allowance_pct-bar s p e = elim (Bool-cases (s.base_allowance_micros == 0)) [
  | inl z ↦ absurd (ground arith)
  | inr z ↦ elim (Bool-cases (leb s.base_allowance_micros s.used_micros)) [
    | inl l ↦
        let full : p ≡ record { part = 1; whole = 1 } = ground arith in
        rw full (omega arith, ((λ d. leb→le s.base_allowance_micros s.used_micros l), (λ u. refl)))
    | inr l ↦
        let used : p ≡ record { part = s.used_micros; whole = s.base_allowance_micros } =
          ground arith in
        rw used (ground arith, ((λ d. ground arith), (λ u. absurd (ground arith))))
  ]
]
