-- ===== src/Prefs/Jar.antt =====
-- The browser's cookies as a page sees them: `document.cookie` is read as the header of the visible cookies, and an
-- assignment sets one of them, or removes it where its age is 0. The cookies of a browser are a parameter, with this
-- documented behaviour.
pub mod Named
use agentleh_app.Base.{
  ℕ, List, [], ◌∷◌, ◌++◌, Text, codes, text_eq, decimal, ◌==◌, if◌then◌else◌, ◌≡◌, All,
}
use agentleh_app.Prefs.Cookie.Header.{IsCookie}

abbrev pub attribute_text : List Text → Text
attribute_text [] = []
attribute_text (a ∷ more) = codes "; " ++ a ++ attribute_text more

-- An assignment to `document.cookie` of a cookie for the whole site, with an age in seconds and further attributes.
abbrev pub cookie_line : Text → Text → ℕ → List Text → Text
cookie_line name value age more =
    name
    ++ codes "="
    ++ value
    ++ codes "; Path=/"
    ++ codes "; Max-Age="
    ++ decimal age
    ++ codes "; SameSite=Lax"
    ++ attribute_text more

-- A cookie takes the place of the one of its name, and else comes last.
unfoldable pub placed : Text → Text → List (Text × Text) → List (Text × Text)
placed name value [] = (name, value) ∷ []
placed name value ((n, v) ∷ cs) =
    let later = placed name value cs in
    if text_eq n name then (name, value) ∷ cs else (n, v) ∷ later

unfoldable pub removed : Text → List (Text × Text) → List (Text × Text)
removed name [] = []
removed name ((n, v) ∷ cs) =
    let later = removed name cs in if text_eq n name then later else (n, v) ∷ later

pub record Browser (J : Type 0) : Type 1 where
  pub cookies : J → List (Text × Text)
  pub assign : Text → J → J
  -- The browser accepts cookies of this name with these attributes from the page, all that it shows of the name have
  -- them and its path, and all that it shows have a name.
  pub IsOwn : Text → List Text → J → Type 0
  pub cookies-IsCookie :
      (name : Text) (more : List Text) (j : J) → IsOwn name more j → All IsCookie (cookies j)
  pub assign-cookies :
      (name value : Text) (age : ℕ) (more : List Text) (j : J)
      → IsOwn name more j
      → IsCookie (name, value)
      → cookies (assign (cookie_line name value age more) j)
        ≡ (if age == 0 then removed name (cookies j) else placed name value (cookies j))
