-- ===== src/Base/Strings.antt =====
-- JavaScript strings as lists of UTF-16 code units, and the string methods that the program calls.
use Prim.Native.Char.{code}
use Prim.Native.String.{String}
use Prim.Native.Nat.{ℕ}
use mathlib.Core.Path.{ap, ◌∙◌, ◌≡◌, refl}
use mathlib.Core.Logic.{inl, inr, ◌↔◌}
use mathlib.Core.Bool.{not, Bool, true, false, ◌&&◌, ◌||◌}
use mathlib.Core.List.{append-nil, append_assoc, List, [], ◌∷◌, ◌++◌, reverse}
use native.Mathlib.Omega.{arith}
use agentleh_app.Base.Tests.{Bool-cases, leb, ◌==◌, if◌then◌else◌, ==_refl}

abbrev pub Text : Type 0
Text = List ℕ

-- A string literal of the source.
unfoldable pub codes : String → Text
codes String.[] = []
codes (String.◌∷◌ c s) = code c ∷ codes s

-- `a === b` on strings.
unfoldable pub text_eq : Text → Text → Bool
text_eq [] [] = true
text_eq [] (d ∷ b) = false
text_eq (c ∷ a) [] = false
text_eq (c ∷ a) (d ∷ b) = c == d && text_eq a b

pub text_eq_sound : (a b : Text) → text_eq a b ≡ true → a ≡ b
unfolding text_eq
text_eq_sound [] [] h = refl
text_eq_sound [] (d ∷ b) h = ground arith
text_eq_sound (c ∷ a) [] h = ground arith
text_eq_sound (c ∷ a) (d ∷ b) h = ground (arith, text_eq_sound a b)

pub text_eq_refl : (a : Text) → text_eq a a ≡ true
unfolding text_eq
text_eq_refl [] = refl
text_eq_refl (c ∷ a) = ground (arith, ==_refl c, text_eq_refl a)

pub text_eq_complete : (a b : Text) → a ≡ b → text_eq a b ≡ true
text_eq_complete a b e = rw e (text_eq_refl b)

pub text_eq_iff : (a b : Text) → (text_eq a b ≡ true) ↔ (a ≡ b)
text_eq_iff a b = (text_eq_sound a b, text_eq_complete a b)

-- A string is falsy when it is empty.
abbrev pub is_empty : Text → Bool
is_empty [] = true
is_empty (c ∷ s) = false

-- `a || b` on strings.
abbrev pub or_text : Text → Text → Text
or_text [] b = b
or_text (c ∷ a) b = c ∷ a

-- `s.startsWith(prefix)`.
unfoldable pub starts_with : Text → Text → Bool
starts_with s [] = true
starts_with [] (d ∷ p) = false
starts_with (c ∷ s) (d ∷ p) = c == d && starts_with s p

pub starts_with-append : (p s : Text) → starts_with (p ++ s) p ≡ true
unfolding starts_with
starts_with-append [] s = refl
starts_with-append (c ∷ p) s = ground (arith, ==_refl c, starts_with-append p s)

-- White space and line terminators, which `trim` removes.
unfoldable pub is_space : ℕ → Bool
is_space c =
    c == 9
    || c == 10
    || c == 11
    || c == 12
    || c == 13
    || c == 32
    || c == 0xa0
    || c == 0x1680
    || (leb 0x2000 c && leb c 0x200a)
    || c == 0x2028
    || c == 0x2029
    || c == 0x202f
    || c == 0x205f
    || c == 0x3000
    || c == 0xfeff

unfoldable pub trim_start : Text → Text
unfolding is_space
trim_start [] = []
trim_start (c ∷ s) = if is_space c then trim_start s else c ∷ s

unfoldable pub trim : Text → Text
unfolding trim_start
trim s = reverse (trim_start (reverse (trim_start s)))

-- `s.split(sep)` for a separator of one code unit; the parts are never an empty list.
unfoldable pub split_from : ℕ → Text → Text → List Text
split_from sep cur [] = cur ∷ []
split_from sep cur (c ∷ s) =
    let cut = cur ∷ split_from sep [] s in
    let go = split_from sep (cur ++ c ∷ []) s in if c == sep then cut else go

unfoldable pub split : ℕ → Text → List Text
unfolding split_from
split sep s = split_from sep [] s

-- Whether a text is free of a code unit.
unfoldable pub lacks : ℕ → Text → Bool
lacks sep [] = true
lacks sep (c ∷ s) = not (c == sep) && lacks sep s

pub split_from-append :
    (sep : ℕ) (cur a b : Text)
    → lacks sep a ≡ true
    → split_from sep cur (a ++ b) ≡ split_from sep (cur ++ a) b
unfolding lacks split_from
split_from-append sep cur [] b h = rw append-nil
split_from-append sep cur (c ∷ a) b h = elim (Bool-cases (c == sep)) [
  | inl e ↦ absurd (ground arith)
  | inr e ↦ rw e (
      split_from-append sep (cur ++ c ∷ []) a b (ground arith)
      ∙ ap (λ (t : Text). split_from sep t b) (append_assoc cur (c ∷ []) a))
]
