-- ===== src/Overlay/Refines.antt =====
-- The hook keeps what it promises, as long as `onClose` stays the same function.
use agentleh_app.Base.{ℕ, Bool, true, false, List, [], ◌∷◌, ◌≡◌, refl, ◌∙◌, ap, All, if◌then◌else◌}
use agentleh_app.Overlay.{
  Entry, page, marker, Overlay, clean_up, choose_workspace, on_close, open_drawer, pop, rerender,
  back_effect, gesture, traverse, Gesture, menu_pressed, dismissed, back_pressed, workspace_chosen,
  Event, made, rendered, traversed, step, run,
}
use agentleh_app.Overlay.Spec.{Pages, go_back, asked_back, spec_step, spec_run}

abbrev pub entries : List ℕ → List Entry
entries [] = []
entries (p ∷ ps) = page p ∷ entries ps

-- The state of the hook between two gestures: an open overlay has its own entry on top.
abbrev pub represented : Pages → Overlay
represented s = record {
  open_now = s.open_now;
  listening = s.open_now;
  stack =
      if s.open_now
      then marker ∷ entries (s.current ∷ s.before)
      else entries (s.current ∷ s.before);
  traversals = 0;
}

-- Each gesture is followed by what the browser still has to do.
abbrev pub settling : List Gesture → List Event
settling [] = []
settling (g ∷ gs) = made g ∷ traversed ∷ settling gs

-- A gesture that chooses no workspace.
abbrev pub IsStaying : Gesture → Type 0
IsStaying (workspace_chosen p) = ⊥
IsStaying _ = Unit

gesture_lem :
    (g : Gesture) (o : Bool) (p : ℕ) (ps : List ℕ)
    → IsStaying g
    → traverse (gesture g (represented (record { open_now = o; current = p; before = ps })))
      ≡ represented (spec_step g (record { open_now = o; current = p; before = ps }))
unfolding traverse gesture open_drawer on_close pop back_effect clean_up spec_step asked_back
    go_back
gesture_lem menu_pressed true p ps h = refl
gesture_lem menu_pressed false p ps h = refl
gesture_lem dismissed true p ps h = refl
gesture_lem dismissed false p ps h = refl
gesture_lem back_pressed true p ps h = refl
gesture_lem back_pressed false p [] h = refl
gesture_lem back_pressed false p (q ∷ ps) h = refl
gesture_lem (workspace_chosen q) o p ps h = absurd h

-- Where the browser carries out each `history.back()` before the next gesture, and `onClose` stays the same function,
-- the hook does what it promises for the button of the menu, those that dismiss the drawer, and the Back button: after any
-- of these gestures the overlay is open, and the history stands, as the specification tells. Choosing or creating a
-- workspace in the drawer is left out.
pub run-represented :
    (gs : List Gesture) (s : Pages)
    → All IsStaying gs
    → run (settling gs) (represented s) ≡ represented (spec_run gs s)
unfolding run step spec_run
run-represented [] s h = refl
run-represented (g ∷ gs) s (h, hs) =
    ap (run (settling gs)) (gesture_lem g s.open_now s.current s.before h)
    ∙ run-represented gs (spec_step g s) hs

-- A workspace that is chosen in the drawer closes it, and the Back button leaves its page; but the entry that the hook
-- pushed for the drawer stays in the history, below the new page, so it takes one more press to leave the page before.
run-workspace_chosen :
    (p q : ℕ) (ps : List ℕ)
    → run
        (settling (workspace_chosen q ∷ back_pressed ∷ []))
        (represented (record { open_now = true; current = p; before = ps }))
      ≡ record {
        open_now = false;
        listening = false;
        stack = marker ∷ entries (p ∷ ps);
        traversals = 0;
      }
unfolding run step gesture choose_workspace traverse pop on_close clean_up
run-workspace_chosen p q ps = refl

-- A rendering of the layout with an open overlay, such as that for another language, closes it: the entry that the
-- old effect takes back is answered by the listener of the new one.
run-rendered :
    (p : ℕ) (ps : List ℕ)
    → run
        (rendered ∷ traversed ∷ traversed ∷ [])
        (represented (record { open_now = true; current = p; before = ps }))
      ≡ represented (record { open_now = false; current = p; before = ps })
unfolding run step rerender traverse pop on_close back_effect clean_up
run-rendered p ps = refl
