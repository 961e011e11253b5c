-- ===== src/Format.antt =====
-- The text of an amount, frontend/src/lib/format.ts. `(n / d).toFixed(k)` is a parameter `to_fixed n d k`.
use agentleh_app.Base.{ℕ, ◌++◌, Option, none, some, Text, codes}

unfoldable pub micros_to_usd : (ℕ → ℕ → ℕ → Text) → Option ℕ → Text
micros_to_usd to_fixed none = codes "—"
micros_to_usd to_fixed (some m) = codes "$" ++ to_fixed m 1000000 2
