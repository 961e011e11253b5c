-- ===== src/Progress/Bounds.antt =====
-- The percentage of the provisioning bar, and the sub-tick of a label (ProvisionProgressBar.tsx).
use agentleh_app.Base.{
  ℕ, zero, suc, ◌+◌, ◌*◌, ◌/◌, ◌≤◌, ◌<◌, min, true, [], ◌∷◌, ◌++◌, some, Text, is_digit,
  span_digits-append, decimal, decimal-cons, decimal-IsDigits, digits_value, digits_value-decimal,
  lacks, ltb, ltb→lt, ◌==◌, ◌≡◌, refl, ap, ◌∙◌, sym, ◌-◌, arith, Bool-cases, inl, inr, ◌⊎◌,
}
use native.Mathlib.Nat.{le-div_iff_mul-le, div-lt_iff_lt-mul, div-mul-le_self, le_trans}
use agentleh_app.Progress.{
  Tick, expect, numeral, match_sub, exec_sub, sub_of, health_pct, step_pct, progress_pct,
}

div_mono : (a b k : ℕ) → zero < k → a ≤ b → a / k ≤ b / k
div_mono a b k p h = (le-div_iff_mul-le p).1 (le_trans (div-mul-le_self a k) h)

share_bound : (t n : ℕ) → 0 < n → (100 * min t n + n) / (2 * n) < 51
share_bound t n p = (div-lt_iff_lt-mul (omega arith)).1 (omega arith)

health_pct_bounds : (t n : ℕ) → (35 ≤ health_pct t n) × (health_pct t n ≤ 85)
unfolding health_pct
health_pct_bounds t n = elim (Bool-cases (ltb 0 n)) [
  | inl e ↦ let h = share_bound t n (ltb→lt 0 n e) in rw e (omega arith, omega arith)
  | inr e ↦ rw e (omega arith, omega arith)
]

health_pct_mono : (t u n : ℕ) → t ≤ u → health_pct t n ≤ health_pct u n
unfolding health_pct
health_pct_mono t u n h = elim (Bool-cases (ltb 0 n)) [
  | inl e ↦
      let l = ltb→lt 0 n e in
      let m =
        div_mono (100 * min t n + n) (100 * min u n + n) (2 * n) (omega arith) (omega arith) in
      rw e (omega arith)
  | inr e ↦ rw e (omega arith)
]

abbrev top : ℕ → ℕ
top zero = 3
top (suc zero) = 15
top (suc (suc zero)) = 25
top (suc (suc (suc zero))) = 35
top (suc (suc (suc (suc zero)))) = 85
top (suc (suc (suc (suc (suc n))))) = 92

step_pct-top : (s : ℕ) (sub : ℕ × ℕ) → step_pct s sub ≤ top s
unfolding step_pct
step_pct-top zero sub = omega arith
step_pct-top (suc zero) sub = omega arith
step_pct-top (suc (suc zero)) sub = omega arith
step_pct-top (suc (suc (suc zero))) sub = omega arith
step_pct-top (suc (suc (suc (suc zero)))) (t, n) = (health_pct_bounds t n).1
step_pct-top (suc (suc (suc (suc (suc n))))) sub = omega arith

abbrev bottom : ℕ → ℕ
bottom zero = 3
bottom (suc zero) = 15
bottom (suc (suc zero)) = 25
bottom (suc (suc (suc zero))) = 35
bottom (suc (suc (suc (suc zero)))) = 35
bottom (suc (suc (suc (suc (suc n))))) = 92

step_pct-bottom : (s : ℕ) (sub : ℕ × ℕ) → bottom s ≤ step_pct s sub
unfolding step_pct
step_pct-bottom zero sub = omega arith
step_pct-bottom (suc zero) sub = omega arith
step_pct-bottom (suc (suc zero)) sub = omega arith
step_pct-bottom (suc (suc (suc zero))) sub = omega arith
step_pct-bottom (suc (suc (suc (suc zero)))) (t, n) = (health_pct_bounds t n).0
step_pct-bottom (suc (suc (suc (suc (suc n))))) sub = omega arith

top-bottom : (s : ℕ) → top s ≤ bottom (suc s)
top-bottom zero = omega arith
top-bottom (suc zero) = omega arith
top-bottom (suc (suc zero)) = omega arith
top-bottom (suc (suc (suc zero))) = omega arith
top-bottom (suc (suc (suc (suc zero)))) = omega arith
top-bottom (suc (suc (suc (suc (suc n))))) = omega arith

bottom-top : (s : ℕ) → bottom s ≤ top s
bottom-top s = le_trans (step_pct-bottom s (0, 1)) (step_pct-top s (0, 1))

top-later : (s k : ℕ) → top s ≤ bottom (suc (k + s))
top-later s zero = rw (none_more s) (top-bottom s)
  where
    none_more : (s : ℕ) → 0 + s ≡ s
    none_more s = omega arith
top-later s (suc k) =
    rw (one_more s k)
      (le_trans (le_trans (top-later s k) (bottom-top (suc (k + s)))) (top-bottom (suc (k + s))))
  where
    one_more : (s k : ℕ) → suc k + s ≡ suc (k + s)
    one_more s k = omega arith

-- From one tick to a later one, of a later step or of the same step with no smaller sub-tick, the percentage does not fall.
step_pct_mono :
    (s u t v n : ℕ) → (s < u) ⊎ ((s ≡ u) × (t ≤ v)) → step_pct s (t, n) ≤ step_pct u (v, n)
unfolding step_pct
step_pct_mono s u t v n (inl h) =
    let l : top s ≤ bottom u = rw (by-omega s u h) (top-later s (u - suc s)) in
    le_trans (step_pct-top s (t, n)) (le_trans l (step_pct-bottom u (v, n)))
  where
    by-omega : (s u : ℕ) → s < u → u ≡ suc (u - suc s + s)
    by-omega s u h = omega arith
step_pct_mono s u t v n (inr (e, h)) = rw (sym e) (same s)
  where
    same : (k : ℕ) → step_pct k (t, n) ≤ step_pct k (v, n)
    same zero = omega arith
    same (suc zero) = omega arith
    same (suc (suc zero)) = omega arith
    same (suc (suc (suc zero))) = omega arith
    same (suc (suc (suc (suc zero)))) = health_pct_mono t v n h
    same (suc (suc (suc (suc (suc k))))) = omega arith

-- While a tenant is provisioned, the bar stands between 3 and 92 per cent, whatever tick arrives with
-- numbers of at most 308 digits, which doubles hold.
pub progress_pct_bounds : (p : Tick) → (3 ≤ progress_pct true p) × (progress_pct true p ≤ 92)
unfolding progress_pct
progress_pct_bounds p = (
  le_trans (least p.step) (step_pct-bottom p.step (sub_of p.label)),
  le_trans (step_pct-top p.step (sub_of p.label)) (most p.step),
)
  where
    least : (s : ℕ) → 3 ≤ bottom s
    least zero = omega arith
    least (suc zero) = omega arith
    least (suc (suc zero)) = omega arith
    least (suc (suc (suc zero))) = omega arith
    least (suc (suc (suc (suc zero)))) = omega arith
    least (suc (suc (suc (suc (suc k))))) = omega arith

    most : (s : ℕ) → top s ≤ 92
    most zero = omega arith
    most (suc zero) = omega arith
    most (suc (suc zero)) = omega arith
    most (suc (suc (suc zero))) = omega arith
    most (suc (suc (suc (suc zero)))) = omega arith
    most (suc (suc (suc (suc (suc k))))) = omega arith

numeral-decimal : (n : ℕ) (rest : Text) → numeral (decimal n, rest) ≡ some (n, rest)
numeral-decimal n rest =
    let (d, s, e) = decimal-cons n in
    rw e (ap (λ (k : ℕ). some (k, rest)) (sym (ap (digits_value 0) e) ∙ digits_value-decimal n))

-- What `exec` finds at the start of the tick's parenthesis.
match_sub-pair :
    (n m : ℕ) (later : Text)
    → match_sub (b'(' ∷ (decimal n ++ b'/' ∷ (decimal m ++ b')' ∷ later))) ≡ some (n, m)
unfolding match_sub is_digit
match_sub-pair n m later =
    rw
      (
        span_digits-append (decimal n) b'/' (decimal m ++ b')' ∷ later) (decimal-IsDigits n) refl,
        numeral-decimal n (b'/' ∷ (decimal m ++ b')' ∷ later)),
        span_digits-append (decimal m) b')' later (decimal-IsDigits m) refl,
        numeral-decimal m (b')' ∷ later),
      )
      refl

exec_sub-match :
    (c : ℕ) (s : Text) (m : ℕ × ℕ) → match_sub (c ∷ s) ≡ some m → exec_sub (c ∷ s) ≡ some m
unfolding exec_sub
exec_sub-match c s m h = rw (exec_sub, h) refl

exec_sub-behind : (s rest : Text) → lacks b'(' s ≡ true → exec_sub (s ++ rest) ≡ exec_sub rest
unfolding exec_sub lacks match_sub
exec_sub-behind [] rest h = refl
exec_sub-behind (c ∷ s) rest h = elim (Bool-cases (c == b'(')) [
  | inl e ↦ ground arith
  | inr e ↦ rw (exec_sub, match_sub, expect, e) (exec_sub-behind s rest (ground arith))
]

-- A label that ends in `(n/m)` and has no parenthesis before it is read back as that pair, as the backend writes it.
sub_of-pair :
    (label : Text) (n m : ℕ) (later : Text)
    → lacks b'(' label ≡ true
    → sub_of (label ++ b'(' ∷ (decimal n ++ b'/' ∷ (decimal m ++ b')' ∷ later))) ≡ (n, m)
unfolding sub_of
sub_of-pair label n m later h =
    rw
      (
        sub_of,
        exec_sub-behind label (b'(' ∷ (decimal n ++ b'/' ∷ (decimal m ++ b')' ∷ later))) h,
        exec_sub-pair,
      )
      refl
  where
    exec_sub-pair :
        exec_sub (b'(' ∷ (decimal n ++ b'/' ∷ (decimal m ++ b')' ∷ later))) ≡ some (n, m)
    exec_sub-pair =
        exec_sub-match b'(' (decimal n ++ b'/' ∷ (decimal m ++ b')' ∷ later)) (n, m)
          (match_sub-pair n m later)
