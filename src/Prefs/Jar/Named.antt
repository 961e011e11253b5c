-- ===== src/Prefs/Jar/Named.antt =====
-- The cookies of a browser after one of a name is placed or removed, and what is found under the name.
use agentleh_app.Base.{
  List, [], ◌∷◌, Option, none, some, Text, text_eq, text_eq_refl, ◌≡◌, refl, All, Bool-cases, inl,
  inr,
}
use agentleh_app.Prefs.Cookie.{decoded}
use agentleh_app.Prefs.Cookie.Header.{IsCookie, first_named}
use agentleh_app.Prefs.Jar.{placed, removed}

pub placed-IsCookie :
    (name value : Text) (cs : List (Text × Text))
    → IsCookie (name, value)
    → All IsCookie cs
    → All IsCookie (placed name value cs)
unfolding placed
placed-IsCookie name value [] c h = (c, tt)
placed-IsCookie name value ((n, v) ∷ cs) c (h, hs) = elim (Bool-cases (text_eq n name)) [
  | inl e ↦ rw e (c, hs)
  | inr e ↦ rw e (h, placed-IsCookie name value cs c hs)
]

pub removed-IsCookie :
    (name : Text) (cs : List (Text × Text)) → All IsCookie cs → All IsCookie (removed name cs)
unfolding removed
removed-IsCookie name [] h = tt
removed-IsCookie name ((n, v) ∷ cs) (h, hs) = elim (Bool-cases (text_eq n name)) [
  | inl e ↦ rw e (removed-IsCookie name cs hs)
  | inr e ↦ rw e (h, removed-IsCookie name cs hs)
]

pub first_named-placed :
    (decode : Text → Option Text) (name value : Text) (cs : List (Text × Text))
    → first_named decode name (placed name value cs) ≡ some (decoded decode value)
unfolding placed
first_named-placed decode name value [] = rw (text_eq_refl name) refl
first_named-placed decode name value ((n, v) ∷ cs) = elim (Bool-cases (text_eq n name)) [
  | inl e ↦ rw (e, text_eq_refl name) refl
  | inr e ↦ rw (e, e) (first_named-placed decode name value cs)
]

pub first_named-removed :
    (decode : Text → Option Text) (name : Text) (cs : List (Text × Text))
    → first_named decode name (removed name cs) ≡ none
unfolding removed
first_named-removed decode name [] = refl
first_named-removed decode name ((n, v) ∷ cs) = elim (Bool-cases (text_eq n name)) [
  | inl e ↦ rw e (first_named-removed decode name cs)
  | inr e ↦ rw (e, e) (first_named-removed decode name cs)
]
