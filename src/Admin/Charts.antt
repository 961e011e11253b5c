-- ===== src/Admin/Charts.antt =====
-- The charts of spending in frontend/src/pages/AdminPage.tsx: `TopAgentsCard` and `ModelBreakdownCard`, whose bars are
-- sorted, and the totals of `TrafficChart`. Amounts are in micros, as they come. `sort` is stable, as that of JavaScript.
use agentleh_app.Base.{
  ℕ, ◌+◌, ◌*◌, ◌≤◌, max, leb, leb→le, List, [], ◌∷◌, Option, none, some, Text, length,
  if◌then◌else◌, All, Bool-cases, inl, inr, ◌≡◌, refl, arith,
}

pub record TopAgent : Type 0 where
  pub agent_id : Text
  pub cost_micros : ℕ
  pub events : ℕ
  pub total_tokens : ℕ

pub record ModelUse : Type 0 where
  pub model : Text
  pub kind : Text
  pub cost_micros : ℕ
  pub events : ℕ
  pub total_tokens : ℕ

pub record Hour : Type 0 where
  pub hour : Text
  pub events : ℕ
  pub cost_micros : ℕ

-- `.sort((a, b) => b.cost_micros - a.cost_micros)`
module _ {A : Type 0} (cost : A → ℕ) where
  unfoldable pub insert : A → List A → List A
  insert x [] = x ∷ []
  insert x (y ∷ ys) =
      let rest = insert x ys in if leb (cost y) (cost x) then x ∷ y ∷ ys else y ∷ rest

  unfoldable pub sort : List A → List A
  sort [] = []
  sort (x ∷ xs) = insert x (sort xs)

  abbrev pub IsSorted : List A → Type 0
  IsSorted [] = Unit
  IsSorted (x ∷ xs) = All (λ y. cost y ≤ cost x) xs × IsSorted xs

  sum : (A → ℕ) → List A → ℕ
  sum f [] = 0
  sum f (x ∷ xs) = f x + sum f xs

  All-weaken : (a b : ℕ) (ys : List A) → a ≤ b → All (λ y. cost y ≤ a) ys → All (λ y. cost y ≤ b) ys
  All-weaken a b [] l h = h
  All-weaken a b (y ∷ ys) l (p, h) = (omega arith, All-weaken a b ys l h)

  insert-All :
      (b : ℕ) (x : A) (ys : List A)
      → cost x ≤ b
      → All (λ y. cost y ≤ b) ys
      → All (λ y. cost y ≤ b) (insert x ys)
  unfolding insert
  insert-All b x [] l h = (l, h)
  insert-All b x (y ∷ ys) l (p, h) = elim (Bool-cases (leb (cost y) (cost x))) [
    | inl e ↦ rw e (l, (p, h))
    | inr e ↦ rw e (p, insert-All b x ys l h)
  ]

  insert-IsSorted : (x : A) (ys : List A) → IsSorted ys → IsSorted (insert x ys)
  unfolding insert
  insert-IsSorted x [] h = (tt, tt)
  insert-IsSorted x (y ∷ ys) (p, h) = elim (Bool-cases (leb (cost y) (cost x))) [
    | inl e ↦
        let l : cost y ≤ cost x = leb→le (cost y) (cost x) e in
        rw e ((l, All-weaken (cost y) (cost x) ys l p), (p, h))
    | inr e ↦ rw e (insert-All (cost y) x ys (ground arith) p, insert-IsSorted x ys h)
  ]

  sum-insert : (f : A → ℕ) (x : A) (ys : List A) → sum f (insert x ys) ≡ f x + sum f ys
  unfolding insert sum
  sum-insert f x [] = refl
  sum-insert f x (y ∷ ys) = elim (Bool-cases (leb (cost y) (cost x))) [
    | inl e ↦ rw e refl
    | inr e ↦ rw e (let q = sum-insert f x ys in omega arith)
  ]

  -- Sorting puts the most expensive first, and neither drops nor repeats an entry: whatever is counted of the entries
  -- has the same sum before and after.
  sort-IsSorted : (f : A → ℕ) (xs : List A) → IsSorted (sort xs) × (sum f (sort xs) ≡ sum f xs)
  unfolding sort sum
  sort-IsSorted f [] = (tt, refl)
  sort-IsSorted f (x ∷ xs) = (
    insert-IsSorted x (sort xs) (sort-IsSorted f xs).0,
    let p = sum-insert f x (sort xs) in let q = (sort-IsSorted f xs).1 in omega arith,
  )

pub record Bars (A : Type 0) : Type 0 where
  pub bars : List A
  pub height : ℕ

-- None where the card says that there is no usage.
unfoldable pub top_agents : List TopAgent → Option (Bars TopAgent)
top_agents [] = none
top_agents (a ∷ rs) = some (record {
  bars = sort (λ r. r.cost_micros) (a ∷ rs);
  height = max 140 (length (a ∷ rs) * 36 + 30);
})

unfoldable pub model_breakdown : List ModelUse → Option (Bars ModelUse)
model_breakdown [] = none
model_breakdown (m ∷ rs) = some (record {
  bars = sort (λ r. r.cost_micros) (m ∷ rs);
  height = max 160 (length (m ∷ rs) * 36 + 30);
})

-- `totalEvents`
unfoldable pub total_events : List Hour → ℕ
total_events [] = 0
total_events (h ∷ hs) = h.events + total_events hs
