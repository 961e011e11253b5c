-- ===== src/Usage/Ranges.antt =====
-- The ranges of the usage tab told apart, and its requests found.
use agentleh_app.Base.{
  ℕ, true, ◌&&◌, List, [], ◌∷◌, Option, none, some, ◌==◌, ==_iff, ◌≡◌, refl, arith, All, inl, inr,
  Bool-cases,
}
use agentleh_app.Usage.{RangeKind, RangeSelection, Request, range_number, same_time, find_request}

same_time_sound : (a b : Option ℕ) → same_time a b ≡ true → a ≡ b
same_time_sound none none h = refl
same_time_sound (some a) (some b) h = ground arith
same_time_sound none (some b) h = absurd (ground arith)
same_time_sound (some a) none h = absurd (ground arith)

range_number_sound : (a b : RangeKind) → (range_number a == range_number b) ≡ true → a ≡ b
range_number_sound a b h = ground arith

pub same_range :
    (r q : RangeSelection)
    → (same_time r.from q.from && same_time r.to q.to && range_number r.kind == range_number q.kind)
      ≡ true
    → r ≡ q
same_range r q h =
    let a = same_time_sound r.from q.from in
    let b = same_time_sound r.to q.to in ground (arith, a, b, range_number_sound r.kind q.kind)

pub find_request-All :
    (P : Request → Type 0) (serial : ℕ) (qs : List Request) (r : Request)
    → find_request serial qs ≡ some r
    → All P qs
    → P r × (r.serial ≡ serial)
unfolding find_request
find_request-All P serial [] r e h = absurd (ground arith)
find_request-All P serial (q ∷ qs) r e (h, hs) = elim (Bool-cases (q.serial == serial)) [
  | inl same ↦ let found : q ≡ r = ground arith in rw (← found) (h, (==_iff q.serial serial).0 same)
  | inr other ↦ find_request-All P serial qs r (ground arith) hs
]
