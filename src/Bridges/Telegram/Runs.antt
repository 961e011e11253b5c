-- ===== src/Bridges/Telegram/Runs.antt =====
-- The pending rounds of the runs of the polling effect.
use agentleh_app.Base.{
  ℕ, ◌+◌, Bool, List, [], ◌∷◌, some, keep, ◌==◌, if◌then◌else◌, ◌≡◌, ◌≤◌, arith, All, Bool-cases,
  inl, inr, Option-cases,
}
use agentleh_app.Bridges.Telegram.{Round, take_run, take_close}

-- How many rounds of a run are pending.
abbrev pub count : ℕ → List Round → ℕ
count i [] = 0
count i (k ∷ ks) = (if k.effect_run == i then 1 else 0) + count i ks

pub count-keep : (i : ℕ) (p : Round → Bool) (ks : List Round) → count i (keep p ks) ≤ count i ks
unfolding keep
count-keep i p [] = omega arith
count-keep i p (k ∷ ks) = ground (arith, count-keep i p ks)

-- Taking a round of a run takes one of that run, and no other.
pub take_run-count :
    (r i : ℕ) (ks : List Round) (k : Round) (rest : List Round)
    → take_run r ks ≡ some (k, rest)
    → (k.effect_run ≡ r) × (count i ks ≡ (if r == i then 1 else 0) + count i rest)
unfolding take_run
take_run-count r i [] k rest h = absurd (ground arith)
take_run-count r i (j ∷ ks) k rest h = elim (Option-cases (take_run r ks)) [
  | inl e ↦ ground arith
  | inr ((k', rest'), e) ↦ let ih = take_run-count r i ks k' rest' e in ground arith
]

pub All-take_close {κ} : (P : ℕ → Type κ) (r : ℕ) (cs : List ℕ) → All P cs → All P (take_close r cs)
unfolding take_close
All-take_close P r [] h = h
All-take_close P r (c ∷ cs) (h, hs) = elim (Bool-cases (c == r)) [
  | inl e ↦ rw e hs
  | inr e ↦ rw e (h, All-take_close P r cs hs)
]
