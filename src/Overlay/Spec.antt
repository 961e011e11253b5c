-- ===== src/Overlay/Spec.antt =====
-- What frontend/src/lib/useBackDismiss.ts promises: the Back button closes an open overlay and leaves the page alone, an
-- overlay that is closed in another way leaves the way back as it was, and without an overlay the Back button goes to
-- the page before. A workspace that is chosen in the overlay closes it, and its page comes behind the one before.
use agentleh_app.Base.{ℕ, Bool, true, false, List, [], ◌∷◌}
use agentleh_app.Overlay.{Gesture, menu_pressed, dismissed, back_pressed, workspace_chosen}

pub record Pages : Type 0 where
  pub open_now : Bool
  pub current : ℕ
  pub before : List ℕ

-- Before the first page, the Back button leaves the application.
unfoldable pub go_back : Pages → Pages
go_back s = elim s.before [ [] ↦ s | p ∷ ps ↦ record s { current = p; before = ps } ]

unfoldable pub asked_back : Bool → Pages → Pages
unfolding go_back
asked_back true s = record s { open_now = false }
asked_back false s = go_back s

unfoldable pub chosen : ℕ → Bool → Pages → Pages
chosen p true s = record s { open_now = false; current = p; before = s.current ∷ s.before }
chosen p false s = s

unfoldable pub spec_step : Gesture → Pages → Pages
spec_step menu_pressed s = record s { open_now = true }
spec_step dismissed s = record s { open_now = false }
spec_step back_pressed s = asked_back s.open_now s
spec_step (workspace_chosen p) s = chosen p s.open_now s

unfoldable pub spec_run : List Gesture → Pages → Pages
spec_run [] s = s
spec_run (g ∷ gs) s = spec_run gs (spec_step g s)
