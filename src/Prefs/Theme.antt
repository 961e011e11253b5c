-- ===== src/Prefs/Theme.antt =====
-- frontend/src/lib/themeStore.ts: the theme in memory, on the page, in the cookie and in
-- localStorage.
pub mod Sync
use agentleh_app.Base.{
  ℕ, ◌+◌, Bool, true, false, List, [], ◌∷◌, Option, none, some, Text, codes, text_eq, if◌then◌else◌,
  ◌||◌,
}
use agentleh_app.Prefs.Store.{CookieStore}

pub data Mode : Type 0 where
  light dark : Mode

pub data Theme : Type 0 where
  auto : Theme
  fixed : Mode → Theme

pub record ThemeState : Type 0 where
  pub theme : Theme
  pub resolved : Mode

-- The module's variables and what it reads and writes of the page.
pub record Tab (J : Type 0) : Type 0 where
  pub current : ThemeState  -- `currentState`
  pub attribute : Mode  -- `data-theme` of the document
  pub system_dark : Bool  -- the media query `prefers-color-scheme: dark`
  pub storage_enabled : Bool  -- localStorage throws where it is disabled
  pub stored : Option Text  -- localStorage's `agentleh.theme`
  pub cookies : J
  pub notified : ℕ  -- how often the listeners were called

unfoldable pub theme_text : Mode → Text
unfolding codes
theme_text light = codes "light"
theme_text dark = codes "dark"

-- `computeResolved`
unfoldable pub compute_resolved : Bool → Theme → Mode
compute_resolved system_dark auto = if system_dark then dark else light
compute_resolved system_dark (fixed m) = m

-- `v === 'light' || v === 'dark'`, with the mode that it is.
unfoldable pub mode_of : Option Text → Option Mode
unfolding theme_text
mode_of none = none
mode_of (some v) =
    if text_eq v (theme_text light)
    then some light
    else if text_eq v (theme_text dark)
    then some dark
    else none

-- Anything else in the storage means that the user went back to `auto`.
unfoldable pub theme_of : Option Mode → Theme
theme_of none = auto
theme_of (some m) = fixed m

module _ {J : Type 0} (cookie : CookieStore J) where
  -- `applyAttribute` and the assignment of `currentState`.
  unfoldable pub apply : Theme → Tab J → Tab J
  apply theme w =
      let resolved = compute_resolved w.system_dark theme in
      record w { current = record { theme = theme; resolved = resolved }; attribute = resolved }

  -- `notify`
  unfoldable pub notify : Tab J → Tab J
  notify w = record w { notified = w.notified + 1 }

  -- The branch of localStorage in `readStoredTheme`: a pick there seeds the cookie.
  unfoldable pub read_local : Tab J → Theme × Tab J
  read_local w =
      if w.storage_enabled
      then elim (mode_of w.stored) [
        | some m ↦ (fixed m, record w { cookies = cookie.write (theme_text m) w.cookies })
        | none ↦ (auto, w)
      ]
      else (auto, w)

  -- `readStoredTheme`
  unfoldable pub read_stored_theme : Tab J → Theme × Tab J
  unfolding read_local
  read_stored_theme w = elim (mode_of (cookie.read w.cookies)) [
    | some m ↦ (fixed m, w)
    | none ↦ read_local w
  ]

  -- The module's initialisation, which a reload of the page runs again.
  unfoldable pub init : Tab J → Tab J
  init w = let (theme, w') = read_stored_theme w in apply theme w'

  -- The listener of the media query, after the system's preference has changed.
  unfoldable pub on_system_change : Bool → Tab J → Tab J
  on_system_change system_dark w =
      let w' = record w { system_dark = system_dark } in
      elim w.current.theme [ auto ↦ notify (apply auto w') | fixed m ↦ w' ]

  -- The listener of `storage`, with the new value of the theme's key.
  unfoldable pub on_storage : Option Text → Tab J → Tab J
  on_storage new_value w =
      notify (apply (theme_of (mode_of new_value)) (record w { stored = new_value }))

  -- The writes of `setTheme` to localStorage and to the cookie.
  unfoldable pub persist : Theme → Tab J → Tab J
  persist auto w = record w {
    stored = if w.storage_enabled then none else w.stored;
    cookies = cookie.clear w.cookies;
  }
  persist (fixed m) w = record w {
    stored = if w.storage_enabled then some (theme_text m) else w.stored;
    cookies = cookie.write (theme_text m) w.cookies;
  }

  -- `setTheme`
  unfoldable pub set_theme : Theme → Tab J → Tab J
  set_theme next w = notify (persist next (apply next w))

  pub data Event : Type 0 where
    picked : Theme → Event
    system_changed : Bool → Event
    stored_elsewhere : Option Text → Event
    reloaded : Event

  unfoldable pub step : Event → Tab J → Tab J
  step (picked theme) w = set_theme theme w
  step (system_changed system_dark) w = on_system_change system_dark w
  step (stored_elsewhere v) w = on_storage v w
  step reloaded w = init w

  unfoldable pub run : List Event → Tab J → Tab J
  run [] w = w
  run (e ∷ es) w = run es (step e w)
