-- ===== src/Prefs/Theme/Sync.antt =====
-- The theme store: the page shows what the theme and the system ask for, and a pick survives a
-- reload and reaches the other tabs.
use agentleh_app.Base.{codes, true, List, [], ◌∷◌, none, some, text_eq, ◌≡◌, refl, arith}
use agentleh_app.Prefs.Store.{is_word, CookieStore}
use agentleh_app.Prefs.Theme.{
  Mode, light, dark, Theme, auto, fixed, Tab, theme_text, compute_resolved, mode_of, theme_of,
  apply, notify, read_local, read_stored_theme, init, on_system_change, on_storage, persist,
  set_theme, Event, picked, system_changed, stored_elsewhere, reloaded, step, run,
}

mode_of-theme_text : (m : Mode) → mode_of (some (theme_text m)) ≡ some m
unfolding mode_of text_eq
mode_of-theme_text light = refl
mode_of-theme_text dark = refl

is_word-theme_text : (m : Mode) → is_word (theme_text m) ≡ true
unfolding is_word theme_text codes
is_word-theme_text light = refl
is_word-theme_text dark = refl

-- The page renders what the theme asks for, which is the system's mode under `auto`.
pub record IsShown {J : Type 0} (w : Tab J) : Type 0 where
  pub resolved_right : w.current.resolved ≡ compute_resolved w.system_dark w.current.theme
  pub attribute_right : w.attribute ≡ w.current.resolved

module _ {J : Type 0} (cookie : CookieStore J) where
  apply-IsShown : (t : Theme) (w : Tab J) → IsShown (apply cookie t w)
  unfolding apply
  apply-IsShown t w = record { resolved_right = refl; attribute_right = refl }

  init-IsShown : (w : Tab J) → IsShown (init cookie w)
  unfolding init
  init-IsShown w = apply-IsShown (read_stored_theme cookie w).0 (read_stored_theme cookie w).1

  step-IsShown : (e : Event cookie) (w : Tab J) → IsShown w → IsShown (step cookie e w)
  unfolding step
  step-IsShown (picked auto) w h = unfold set_theme notify persist apply in ground arith
  step-IsShown (picked (fixed m)) w h = unfold set_theme notify persist apply in ground arith
  step-IsShown (system_changed b) w h =
      unfold on_system_change notify apply compute_resolved in ground arith
  step-IsShown (stored_elsewhere v) w h = unfold on_storage notify apply in ground arith
  step-IsShown reloaded w h = init-IsShown w

  run-IsShown : (es : List (Event cookie)) (w : Tab J) → IsShown w → IsShown (run cookie es w)
  unfolding run
  run-IsShown [] w h = h
  run-IsShown (e ∷ es) w h = run-IsShown es (step cookie e w) (step-IsShown e w h)

  -- After the first load and any picks, changes of the system, changes in other tabs and reloads,
  -- the page shows the mode that the current theme and the current system preference ask for.
  pub run-init-IsShown :
      (es : List (Event cookie)) (w : Tab J) → IsShown (run cookie es (init cookie w))
  run-init-IsShown es w = run-IsShown es (init cookie w) (init-IsShown w)

  -- A pick is what a reload reads back, also where localStorage is disabled.
  pub init-set_theme :
      (t : Theme) (w : Tab J)
      → cookie.IsValid w.cookies
      → (init cookie (set_theme cookie t w)).current.theme ≡ t
  unfolding init set_theme notify persist apply read_stored_theme read_local theme_of mode_of
  init-set_theme auto w v = ground (arith, cookie.read-clear w.cookies v)
  init-set_theme (fixed m) w v = ground (
    arith,
    cookie.read-write (theme_text m) w.cookies (is_word-theme_text m) v,
    mode_of-theme_text m,
  )

  -- Where localStorage is enabled, the `storage` event that a pick brings to another tab brings that tab to the
  -- same theme.
  on_storage-set_theme :
      (t : Theme) (w other : Tab J)
      → w.storage_enabled ≡ true
      → (on_storage cookie (set_theme cookie t w).stored other).current.theme ≡ t
  unfolding set_theme notify persist apply on_storage theme_of mode_of
  on_storage-set_theme auto w other e = ground arith
  on_storage-set_theme (fixed m) w other e = ground (arith, mode_of-theme_text m)

  -- A pick that only localStorage holds is kept on the first load, and written to the cookie.
  init-seeds_cookie :
      (m : Mode) (w : Tab J)
      → cookie.IsValid w.cookies
      → cookie.read w.cookies ≡ none
      → w.storage_enabled ≡ true
      → w.stored ≡ some (theme_text m)
      → ((init cookie w).current.theme ≡ fixed m)
        × (cookie.read (init cookie w).cookies ≡ some (theme_text m))
  unfolding init apply read_stored_theme read_local mode_of
  init-seeds_cookie m w v none_yet enabled kept = ground (
    arith,
    mode_of-theme_text m,
    cookie.read-write (theme_text m) w.cookies (is_word-theme_text m) v,
  )
