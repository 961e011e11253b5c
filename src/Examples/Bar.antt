-- ===== src/Examples/Bar.antt =====
-- Runs of the progress bar, frontend/src/components/ProvisionProgressBar.tsx.
use agentleh_app.Progress.{match_sub}
use agentleh_app.Progress.{exec_sub}
use agentleh_app.Base.{digits_value, is_digit, span_digits, true, lacks, codes, ◌≡◌, refl, ◌≤◌}
use agentleh_app.Progress.{sub_of, step_pct, progress_pct}
use agentleh_app.Progress.Bounds.{progress_pct_bounds}

half_way : step_pct 4 (sub_of (codes "Waiting for agent (15/30)")) ≡ 60
unfolding step_pct sub_of exec_sub codes match_sub span_digits is_digit digits_value
half_way = refl

progress_pct_bounds_example :
    (3 ≤ progress_pct true (record { step = 4; total = 5; label = codes "Waiting (99/0)" }))
    × (progress_pct true (record { step = 4; total = 5; label = codes "Waiting (99/0)" }) ≤ 92)
progress_pct_bounds_example =
    progress_pct_bounds (record { step = 4; total = 5; label = codes "Waiting (99/0)" })

no_parenthesis : lacks b'(' (codes "Waiting ") ≡ true
unfolding lacks codes
no_parenthesis = refl
