-- ===== src/Reminders/Relative.antt =====
-- How a time that is past is told.
use agentleh_app.Base.{
  ℕ, ◌+◌, ◌-◌, ◌/◌, true, false, Option, some, Text, codes, starts_with, is_empty, ltb, ◌==◌, ◌≡◌,
  ◌≤◌, ◌<◌, refl, arith, Bool-cases, inl, inr,
}
use agentleh_app.Prefs.Lang.{Lang, en}
use agentleh_app.Reminders.{
  he_minutes, he_hours, he_days, Signed, minus, round_quotient, signed_text, in_units, relative_of,
  relative_from_now,
}

in_units-negative :
    (x : Signed) (a b : Text)
    → x.negative ≡ true
    → 1 ≤ x.size
    → starts_with (in_units en x a b) (codes "in -") ≡ true
unfolding in_units signed_text codes starts_with
in_units-negative x a b n h = let e : (x.size == 0) ≡ false = ground arith in rw (n, e) refl

abbrev before : ℕ → Signed
before n = record { negative = true; size = n }

relative_of-negative :
    (m : ℕ) → 30000 < m → starts_with (relative_of en (before m)) (codes "in -") ≡ true
unfolding relative_of round_quotient
relative_of-negative m h =
    let minutes = (m + 30000 - 1) / 60000 in
    let hours = (minutes + 30 - 1) / 60 in
    let days = (hours + 12 - 1) / 24 in
    let told : ltb minutes 1 ≡ false = ground arith in
    elim (Bool-cases (ltb minutes 60)) [
      | inl e ↦
          rw (told, e)
            (in_units-negative (before minutes) he_minutes (codes "m") refl (omega arith))
      | inr e ↦
          let long : 60 ≤ minutes = ground arith in
          elim (Bool-cases (ltb hours 24)) [
            | inl q ↦
                rw (told, e, q)
                  (in_units-negative (before hours) he_hours (codes "h") refl (omega (arith, long)))
            | inr q ↦
                let longer : 24 ≤ hours = ground arith in
                rw (told, e, q)
                  (in_units-negative (before days) he_days (codes "d") refl (omega (arith, longer)))
          ]
    ]

minus_before :
    (d delay : ℕ) → 30000 < delay → minus d (d + delay) ≡ record { negative = true; size = delay }
unfolding minus
minus_before d delay h = ground arith

-- A time that is past by more than half a minute is told, in English, as one to come in a negative time.
relative_from_now-past :
    (parse : Text → Option ℕ) (format : Text → Lang → Text) (iso : Text) (d delay : ℕ)
    → is_empty iso ≡ false
    → parse iso ≡ some d
    → 30000 < delay
    → starts_with (relative_from_now parse format (d + delay) iso en) (codes "in -") ≡ true
unfolding relative_from_now
relative_from_now-past parse format iso d delay f e h =
    rw (f, e, minus_before d delay h) (relative_of-negative delay h)
