-- ===== src/Audit/Rows.antt =====
-- The rows of the audit log that are expanded, and the workspace that its events are of.
use agentleh_app.Base.{ℕ, false, not, List, [], ◌∷◌, keep, any, ◌==◌, ◌≡◌, arith, if◌then◌else◌}
use agentleh_app.Audit.{has, toggle}

any-keep :
    (id j : ℕ) (ids : List ℕ)
    → any (λ i. i == j) (keep (λ i. not (i == id)) ids)
      ≡ (if id == j then false else any (λ i. i == j) ids)
unfolding any keep
any-keep id j [] = ground arith
any-keep id j (i ∷ ids) = ground (arith, any-keep id j ids)

-- A row that is pressed is expanded exactly when it was not, and all other rows stay as they are.
has-toggle :
    (id j : ℕ) (ids : List ℕ)
    → has (toggle id ids) j ≡ (if id == j then not (has ids j) else has ids j)
unfolding has toggle any
has-toggle id j ids = ground (arith, any-keep id j ids)
