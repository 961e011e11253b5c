-- ===== src/Base/Decimal.antt =====
-- Decimal numerals: `String(n)` of a natural number, and `parseInt` of a text of digits.
use Prim.Native.Nat.{ℕ, zero, suc, ◌+◌, ◌-◌, ◌*◌, ◌/◌, ◌%◌, ◌<◌}
use mathlib.Core.Path.{◌≡◌, refl, ◌∙◌, ap}
use mathlib.Core.Bool.{Bool, true, false, ◌&&◌}
use mathlib.Core.List.{◌++◌, [], ◌∷◌}
use mathlib.Core.Logic.{inl, inr}
use native.Mathlib.Omega.{arith}
use agentleh_app.Base.Tests.{leb, ltb, if◌then◌else◌, Bool-cases, ltb→lt}
use agentleh_app.Base.Lists.{All}
use agentleh_app.Base.Strings.{Text, lacks}

-- The fuel is above the number, which each round divides by ten.
unfoldable pub decimal_from : ℕ → ℕ → Text → Text
decimal_from zero n later = later
decimal_from (suc fuel) n later =
    let more = decimal_from fuel (n / 10) ((n % 10 + 48) ∷ later) in
    if ltb n 10 then (n % 10 + 48) ∷ later else more

unfoldable pub decimal : ℕ → Text
unfolding decimal_from
decimal n = decimal_from (suc n) n []

unfoldable pub is_digit : ℕ → Bool
is_digit c = leb 48 c && leb c 57

-- The number of digits that stand behind digits of value `acc`.
unfoldable pub digits_value : ℕ → Text → ℕ
digits_value acc [] = acc
digits_value acc (c ∷ s) = digits_value (acc * 10 + (c - 48)) s

digits_value-decimal_from :
    (fuel n : ℕ) (later : Text)
    → n < fuel
    → digits_value 0 (decimal_from fuel n later) ≡ digits_value n later
unfolding decimal_from digits_value
digits_value-decimal_from zero n later h = elim h [ ]
digits_value-decimal_from (suc fuel) n later h = elim (Bool-cases (ltb n 10)) [
  | inl e ↦ rw e (ap (λ (k : ℕ). digits_value k later) (small n (ltb→lt n 10 e)))
  | inr e ↦ rw e (
      digits_value-decimal_from fuel (n / 10) ((n % 10 + 48) ∷ later) (ground arith)
      ∙ ap (λ (k : ℕ). digits_value k later) (whole n))
]
  where
    small : (k : ℕ) → k < 10 → 0 * 10 + (k % 10 + 48 - 48) ≡ k
    small k l = omega arith

    whole : (k : ℕ) → k / 10 * 10 + (k % 10 + 48 - 48) ≡ k
    whole k = omega arith

-- Reading a numeral back gives the number.
pub digits_value-decimal : (n : ℕ) → digits_value 0 (decimal n) ≡ n
unfolding decimal digits_value
digits_value-decimal n = digits_value-decimal_from (suc n) n [] (omega arith)

abbrev pub IsDigits : Text → Type 0
IsDigits s = All (λ c. is_digit c ≡ true) s

digit-IsDigit : (n : ℕ) → is_digit (n % 10 + 48) ≡ true
unfolding is_digit
digit-IsDigit n = ground arith

decimal_from-IsDigits :
    (fuel n : ℕ) (later : Text) → IsDigits later → IsDigits (decimal_from fuel n later)
unfolding decimal_from
decimal_from-IsDigits zero n later h = h
decimal_from-IsDigits (suc fuel) n later h = elim (Bool-cases (ltb n 10)) [
  | inl e ↦ rw e (digit-IsDigit n, h)
  | inr e ↦ rw e (decimal_from-IsDigits fuel (n / 10) ((n % 10 + 48) ∷ later) (digit-IsDigit n, h))
]

pub decimal-IsDigits : (n : ℕ) → IsDigits (decimal n)
unfolding decimal
decimal-IsDigits n = decimal_from-IsDigits (suc n) n [] tt

decimal_from-cons :
    (fuel n c : ℕ) (later : Text) → (d : ℕ) × (s : Text) × (decimal_from fuel n (c ∷ later) ≡ d ∷ s)
unfolding decimal_from
decimal_from-cons zero n c later = (c, later, refl)
decimal_from-cons (suc fuel) n c later = elim (Bool-cases (ltb n 10)) [
  | inl e ↦ (n % 10 + 48, c ∷ later, rw e refl)
  | inr e ↦ rw e (decimal_from-cons fuel (n / 10) (n % 10 + 48) (c ∷ later))
]

-- A numeral is never empty.
pub decimal-cons : (n : ℕ) → (d : ℕ) × (s : Text) × (decimal n ≡ d ∷ s)
unfolding decimal
decimal-cons n = elim (Bool-cases (ltb n 10)) [
  | inl e ↦ (n % 10 + 48, [], rw e refl)
  | inr e ↦ rw e (decimal_from-cons n (n / 10) (n % 10 + 48) [])
]

IsDigits-lacks : (sep : ℕ) (s : Text) → sep < 48 → IsDigits s → lacks sep s ≡ true
unfolding lacks is_digit
IsDigits-lacks sep [] l h = refl
IsDigits-lacks sep (c ∷ s) l (h, hs) = ground (arith, IsDigits-lacks sep s l hs)

-- A numeral has no character below the digits, such as a slash.
pub decimal-lacks : (sep n : ℕ) → sep < 48 → lacks sep (decimal n) ≡ true
decimal-lacks sep n l = IsDigits-lacks sep (decimal n) l (decimal-IsDigits n)

IsDigits-lacks_above : (sep : ℕ) (s : Text) → 57 < sep → IsDigits s → lacks sep s ≡ true
unfolding lacks is_digit
IsDigits-lacks_above sep [] l h = refl
IsDigits-lacks_above sep (c ∷ s) l (h, hs) = ground (arith, IsDigits-lacks_above sep s l hs)

-- Nor one above them, such as a semicolon.
pub decimal-lacks_above : (sep n : ℕ) → 57 < sep → lacks sep (decimal n) ≡ true
decimal-lacks_above sep n l = IsDigits-lacks_above sep (decimal n) l (decimal-IsDigits n)

-- `\d+`, greedily: the digits at the start, and the rest.
unfoldable pub span_digits : Text → Text × Text
span_digits [] = ([], [])
span_digits (c ∷ s) =
    let (digits, rest) = span_digits s in if is_digit c then (c ∷ digits, rest) else ([], c ∷ s)

-- A numeral is read up to the first character behind it that is no digit.
pub span_digits-append :
    (s : Text) (c : ℕ) (rest : Text)
    → IsDigits s
    → is_digit c ≡ false
    → span_digits (s ++ c ∷ rest) ≡ (s, c ∷ rest)
unfolding span_digits
span_digits-append [] c rest h k = rw k refl
span_digits-append (d ∷ s) c rest (h, hs) k = rw (span_digits-append s c rest hs k, h) refl

pub span_digits-IsDigits : (s : Text) → IsDigits s → span_digits s ≡ (s, [])
unfolding span_digits
span_digits-IsDigits [] h = refl
span_digits-IsDigits (c ∷ s) (h, hs) = rw (span_digits-IsDigits s hs, h) refl
