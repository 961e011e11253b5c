-- ===== src/Switcher/Twice.antt =====
-- What the two forms for a new workspace create.
use agentleh_app.Base.{ℕ, ◌≡◌, arith, true, false, [], ◌∷◌, Text, is_empty, trim}
use agentleh_app.Js.{ok}
use agentleh_app.Switcher.Menu
use agentleh_app.Switcher.Menu.{Menu}
use agentleh_app.Switcher.Drawer
use agentleh_app.Switcher.Drawer.{Drawer}

-- The name is submitted again before the first request is answered: two workspaces of one name are asked for, and once
-- both are created, the second is selected. So it is in both forms.
run-twice :
    (name : Text) (a b : ℕ) (m : Menu) (d : Drawer)
    → is_empty (trim name) ≡ false
    → m.in_flight ≡ 0
    → d.in_flight ≡ 0
    → m.open_now ≡ true
    → m.creating ≡ true
    → d.open_now ≡ true
    → d.creating ≡ true
    → let in_menu =
        Menu.run
          (Menu.typed name
            ∷ Menu.submitted
            ∷ Menu.submitted
            ∷ Menu.answered (ok a)
            ∷ Menu.answered (ok b)
            ∷ [])
          m in
      let in_drawer =
        Drawer.run
          (Drawer.typed name
            ∷ Drawer.submitted
            ∷ Drawer.submitted
            ∷ Drawer.answered (ok a)
            ∷ Drawer.answered (ok b)
            ∷ [])
          d in
      (in_menu.requests ≡ trim name ∷ trim name ∷ m.requests)
      × (in_menu.selected ≡ b ∷ a ∷ m.selected)
      × (in_drawer.requests ≡ trim name ∷ trim name ∷ d.requests)
      × (in_drawer.selected ≡ b ∷ a ∷ d.selected)
unfolding Menu.run Menu.step Menu.handle_create Menu.create_answered Menu.created Drawer.run
    Drawer.step Drawer.handle_create Drawer.create_answered Drawer.created Drawer.close
    Drawer.cancel_form
run-twice name a b m d e q r h i j k = (ground arith, ground arith, ground arith, ground arith)
