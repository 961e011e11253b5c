-- ===== src/Overlay.antt =====
-- The Back button in an overlay: frontend/src/lib/useBackDismiss.ts in frontend/src/components/MobileDrawer.tsx, whose
-- `open` and `onClose` are the state of frontend/src/components/Layout.tsx. The browser's history is the stack of the
-- entries up to the current one, and `history.back()` is carried out later; entries ahead of the current one, and those
-- of other documents, are left out.
pub mod Spec
pub mod Refines
use agentleh_app.Base.{ℕ, zero, suc, ◌+◌, Bool, true, false, List, [], ◌∷◌, if◌then◌else◌}

-- An entry of the application, by its page, or one that the hook has pushed.
pub data Entry : Type 0 where
  page : ℕ → Entry
  marker : Entry

pub record Overlay : Type 0 where
  pub open_now : Bool  -- `drawerOpen`
  pub listening : Bool  -- to `popstate`
  pub stack : List Entry  -- the current entry first
  pub traversals : ℕ  -- calls of `history.back()` that are to be carried out

-- `window.history.state && window.history.state[MARKER_KEY]`
abbrev pub is_marked : List Entry → Bool
is_marked (marker ∷ es) = true
is_marked _ = false

-- The body of the effect on `open` and `onClose`, and its cleanup.
unfoldable pub back_effect : Overlay → Overlay
back_effect s = record s { stack = marker ∷ s.stack; listening = true }

unfoldable pub clean_up : Overlay → Overlay
clean_up s =
    if is_marked s.stack
    then record s { listening = false; traversals = s.traversals + 1 }
    else record s { listening = false }

-- `setDrawerOpen(true)`
unfoldable pub open_drawer : Overlay → Overlay
unfolding back_effect
open_drawer s = if s.open_now then s else back_effect (record s { open_now = true })

-- `onClose`
unfoldable pub on_close : Overlay → Overlay
unfolding clean_up
on_close s = if s.open_now then clean_up (record s { open_now = false }) else s

-- A rendering of the layout, which makes a new `onClose`: the effect runs again.
unfoldable pub rerender : Overlay → Overlay
unfolding clean_up back_effect
rerender s = if s.open_now then back_effect (clean_up s) else s

-- One entry back, with its `popstate`.
unfoldable pub pop : Overlay → Overlay
unfolding on_close
pop s = elim s.stack [
  | [] ↦ s
  | e ∷ [] ↦ s
  | e ∷ f ∷ es ↦
      let there = record s { stack = f ∷ es } in if s.listening then on_close there else there
]

-- A workspace that is chosen or has been created in the drawer: `selectTenant` pushes its page, and then comes `onClose`.
unfoldable pub choose_workspace : ℕ → Overlay → Overlay
unfolding on_close
choose_workspace p s = if s.open_now then on_close (record s { stack = page p ∷ s.stack }) else s

pub data Gesture : Type 0 where
  menu_pressed dismissed back_pressed : Gesture
  workspace_chosen : ℕ → Gesture

-- `dismissed` is the button, the backdrop or Escape; `traversed` is the browser, which carries out a `history.back()`.
pub data Event : Type 0 where
  made : Gesture → Event
  rendered traversed : Event

unfoldable pub gesture : Gesture → Overlay → Overlay
gesture menu_pressed s = open_drawer s
gesture dismissed s = on_close s
gesture back_pressed s = pop s
gesture (workspace_chosen p) s = choose_workspace p s

unfoldable pub traverse : Overlay → Overlay
traverse s = elim s.traversals [ zero ↦ s | suc n ↦ pop (record s { traversals = n }) ]

unfoldable pub step : Event → Overlay → Overlay
unfolding gesture traverse
step (made g) s = gesture g s
step rendered s = rerender s
step traversed s = traverse s

unfoldable pub run : List Event → Overlay → Overlay
run [] s = s
run (e ∷ es) s = run es (step e s)
