-- ===== src/Integrations/Timers.antt =====
-- The pending timers of the integrations panel.
use agentleh_app.Base.{
  All-keep, ℕ, ◌+◌, Bool, not, List, [], ◌∷◌, Option, none, some, keep, ◌==◌, length, ◌≡◌, ◌≤◌,
  arith, All, inl, inr, Option-cases, Bool-cases,
}
use agentleh_app.Integrations.Panel.{Timer, clear_timeout, take_timer}

pub length-keep : (p : Timer → Bool) (ts : List Timer) → length (keep p ts) ≤ length ts
unfolding keep
length-keep p [] = omega arith
length-keep p (t ∷ ts) = ground (arith, length-keep p ts)

pub take_timer_lem :
    (P : Timer → Type 0) (id : ℕ) (ts : List Timer) (t : Timer) (rest : List Timer)
    → take_timer id ts ≡ some (t, rest)
    → All P ts
    → (length ts ≡ length rest + 1) × P t × All P rest
unfolding take_timer
take_timer_lem P id [] t rest e h = absurd (ground arith)
take_timer_lem P id (u ∷ ts) t rest e (h, hs) = elim (Bool-cases (u.id == id)) [
  | inl q ↦
      let timer : u ≡ t = ground arith in
      let others : ts ≡ rest = ground arith in rw (← timer, ← others) (omega arith, h, hs)
  | inr q ↦ elim (Option-cases (take_timer id ts)) [
    | inl none_left ↦ absurd (ground arith)
    | inr ((t', rest'), found) ↦
        let (counted, own, left) = take_timer_lem P id ts t' rest' found hs in
        let timer : t' ≡ t = ground arith in
        let others : u ∷ rest' ≡ rest = ground arith in
        rw (← timer, ← others) (omega (arith, counted), own, (h, left))
  ]
]

pub All-empty : (P : Timer → Type 0) (ts : List Timer) → length ts ≡ 0 → All P ts
All-empty P [] h = tt
All-empty P (t ∷ ts) h = absurd (omega arith)

pub clear_timeout-length :
    (r : Option ℕ) (ts : List Timer) → length (clear_timeout r ts) ≤ length ts
unfolding clear_timeout
clear_timeout-length none ts = omega arith
clear_timeout-length (some id) ts = length-keep (λ t. not (t.id == id)) ts

pub clear_timeout-All :
    (P : Timer → Type 0) (r : Option ℕ) (ts : List Timer) → All P ts → All P (clear_timeout r ts)
unfolding clear_timeout
clear_timeout-All P none ts h = h
clear_timeout-All P (some id) ts h = All-keep P (λ t. not (t.id == id)) ts h
