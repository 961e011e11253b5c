-- ===== src/Prefs/Store.antt =====
-- What the theme store and the language provider use of frontend/src/lib/prefsCookie.ts, for one
-- cookie: `readCookie`, `writeCookie` and `clearCookie`. Prefs/Kept fills it with those of Prefs/Cookie, over a browser.
use agentleh_app.Base.{◌≡◌, true, Bool, ◌&&◌, [], ◌∷◌, leb, Option, none, some, Text}

-- A text of letters of the alphabet, as the preferences are written.
unfoldable pub is_word : Text → Bool
is_word [] = true
is_word (c ∷ s) = (leb 97 c && leb c 122) && is_word s

pub record CookieStore (J : Type 0) : Type 1 where
  pub IsValid : J → Type 0
  pub read : J → Option Text
  pub write : Text → J → J
  pub clear : J → J
  pub read-write : (v : Text) (j : J) → is_word v ≡ true → IsValid j → read (write v j) ≡ some v
  pub read-clear : (j : J) → IsValid j → read (clear j) ≡ none
