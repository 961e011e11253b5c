-- ===== src/Examples/Preferences.antt =====
-- Runs of the theme store and of the language provider, frontend/src/lib/themeStore.ts and i18n.tsx.
use agentleh_app.Base.{
  List, is_space, lacks, text_eq, true, false, [], ◌∷◌, Option, none, some, Text, codes, ◌≡◌, refl,
}
use agentleh_app.Js.{ok}
use agentleh_app.Prefs.Cookie.{Address, theme_cookie, lang_cookie, read_cookie}
use agentleh_app.Prefs.Cookie.Header.{IsCookie, header_of, first_named, read_cookie-header_of}
use agentleh_app.Prefs.Store.{CookieStore}
use agentleh_app.Prefs.Theme.{
  dark, light, auto, fixed, Tab, theme_text, init, set_theme, picked, system_changed, reloaded, run,
}
use agentleh_app.Prefs.Theme.Sync.{IsShown, run-init-IsShown}
use agentleh_app.Prefs.Lang.{
  he, en, Page, lang_of, primary_tag, supported, pick_initial_lang, set_lang,
}
use agentleh_app.Prefs.Kept
use agentleh_app.Examples.Browser.{browser}

-- A jar with room for the one cookie.
abbrev jar : CookieStore (Option Text)
jar = record {
  IsValid = λ j. Unit;
  read = λ j. j;
  write = λ v j. some v;
  clear = λ j. none;
  read-write = λ v j w h. refl;
  read-clear = λ j h. refl;
}

abbrev tab : Tab (Option Text)
tab = record {
  current = record { theme = auto; resolved = light };
  attribute = light;
  system_dark = true;
  storage_enabled = true;
  stored = some (theme_text dark);
  cookies = none;
  notified = 0;
}

run-init-IsShown_example :
    IsShown (run jar (picked (fixed light) ∷ system_changed false ∷ reloaded ∷ []) (init jar tab))
run-init-IsShown_example =
    run-init-IsShown jar (picked (fixed light) ∷ system_changed false ∷ reloaded ∷ []) tab

-- A page of the production host, and its tab in a browser that shows no cookie yet.
abbrev production : Address
production = record { hostname = codes "app.agentiko.io"; protocol = codes "https:" }

abbrev same : Text → Text
same s = s

abbrev real_tab : Tab (List (Text × Text))
real_tab = record {
  current = record { theme = auto; resolved = light };
  attribute = light;
  system_dark = true;
  storage_enabled = false;
  stored = none;
  cookies = [];
  notified = 0;
}

abbrev theme_store : CookieStore (List (Text × Text))
theme_store =
    Kept.store browser same some (λ v w. refl) (λ v w. refl) production theme_cookie
      Kept.theme_IsCookie

init-set_theme_example :
    (init theme_store (set_theme theme_store (fixed dark) real_tab)).current.theme ≡ fixed dark
init-set_theme_example =
    Kept.init-set_theme browser same some (λ v w. refl) (λ v w. refl) production (fixed dark)
      real_tab tt

abbrev page : Page (List (Text × Text))
page = record {
  url_lang = none;
  cookies = [];
  storage_enabled = true;
  stored = none;
  languages = codes "fr-FR" ∷ codes "en-US" ∷ [];
  language = [];
}

abbrev lang_store : CookieStore (List (Text × Text))
lang_store =
    Kept.store browser same some (λ v w. refl) (λ v w. refl) production lang_cookie
      Kept.lang_IsCookie

pick_initial_lang-set_lang_example :
    (pick_initial_lang lang_store same (set_lang lang_store same he page)).0 ≡ ok he
pick_initial_lang-set_lang_example =
    Kept.pick_initial_lang-set_lang browser same some (λ v w. refl) (λ v w. refl) production same he
      page tt refl

nothing_saved : lang_of none ≡ none
unfolding lang_of
nothing_saved = refl

french_unsupported : supported (primary_tag same (codes "fr-FR")) ≡ none
unfolding supported primary_tag text_eq
french_unsupported = refl

english_supported : supported (primary_tag same (codes "en-US")) ≡ some en
unfolding supported primary_tag text_eq
english_supported = refl

abbrev two_cookies : List (Text × Text)
two_cookies = (codes "a", codes "1") ∷ (theme_cookie, codes "dark") ∷ []

a_IsCookie : IsCookie (codes "a", codes "1")
unfolding codes lacks is_space
a_IsCookie = record { clean = refl; no_equals = refl; name_whole = refl; value_whole = refl }

theme_IsCookie : IsCookie (theme_cookie, codes "dark")
unfolding codes lacks is_space
theme_IsCookie = record { clean = refl; no_equals = refl; name_whole = refl; value_whole = refl }

theme_no_equals : lacks b'=' theme_cookie ≡ true
unfolding codes lacks
theme_no_equals = refl

read_cookie-header_of_example :
    read_cookie some theme_cookie (header_of two_cookies)
    ≡ first_named some theme_cookie two_cookies
read_cookie-header_of_example =
    read_cookie-header_of some theme_cookie theme_no_equals (codes "a", codes "1")
      ((theme_cookie, codes "dark") ∷ []) (a_IsCookie, (theme_IsCookie, tt))
