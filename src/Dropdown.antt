-- ===== src/Dropdown.antt =====
-- The menus that a button opens: frontend/src/components/LanguageSwitcher.tsx and ProfileMenu.tsx, and those in the rows of
-- frontend/src/pages/AdminPage.tsx. Their listeners are there while the menu is open.
use agentleh_app.Base.{
  Bool, true, false, not, List, [], ◌∷◌, ◌++◌, Option, none, some, Text, text_eq, codes, is_empty,
  is_space, trim, or_text, last?, if◌then◌else◌, ◌&&◌,
}
use agentleh_app.Admin.State.{AgentRow, is_some}
use agentleh_app.Admin.Runs.{Action, selected, rotated, delete_asked}

-- What a menu hears: `clicked` tells whether the target is in the button or the menu.
pub data Heard : Type 0 where
  button_pressed scrolled resized : Heard
  key_pressed : Text → Heard
  clicked : Bool → Heard

-- The effect of `LanguageSwitcher` and `ProfileMenu`, which do not listen for scrolling.
unfoldable pub bar_menu : Heard → Bool → Bool
bar_menu button_pressed is_open = not is_open
bar_menu (key_pressed key) is_open = if text_eq key (codes "Escape") then false else is_open
bar_menu (clicked inside) is_open = inside && is_open
bar_menu scrolled is_open = is_open
bar_menu resized is_open = is_open

-- That of `RowActionsMenu`.
unfoldable pub row_menu : Heard → Bool → Bool
row_menu button_pressed is_open = not is_open
row_menu (key_pressed key) is_open = if text_eq key (codes "Escape") then false else is_open
row_menu (clicked inside) is_open = inside && is_open
row_menu scrolled is_open = false
row_menu resized is_open = false

pub data Item : Type 0 where
  details rotate grant delete : Item

-- What the menu in the row of an agent offers.
unfoldable pub is_offered : AgentRow → Item → Bool
is_offered r details = true
is_offered r rotate = true
is_offered r grant = is_some r.tenant_id
is_offered r delete = is_some r.tenant_id

-- What an item does on the page, which for `grant` is the dialog for a plan, with the answer of the browser's dialog.
unfoldable pub item_action : AgentRow → Bool → Item → Option Action
item_action r agreed details = some (selected r.agent_id)
item_action r agreed rotate = some (rotated r.agent_id agreed)
item_action r agreed grant = none
item_action r agreed delete =
    if is_some r.tenant_id then some (delete_asked r.agent_id r.tenant_id r.agent_name) else none

abbrev pub char_at_0 : Text → Text
char_at_0 [] = []
char_at_0 (c ∷ s) = c ∷ []

-- `s.split(/\s+/)` of a text that is trimmed and not empty.
unfoldable pub words_from : Text → Text → List Text
words_from cur [] = cur ∷ []
words_from cur (c ∷ s) =
    let later = words_from (cur ++ c ∷ []) s in
    let fresh = words_from [] s in
    if is_space c then (if is_empty cur then fresh else cur ∷ fresh) else later

-- `getInitials` of `ProfileMenu`; `upper` is `toUpperCase`.
unfoldable pub get_initials : (Text → Text) → Text → Text → Text
unfolding words_from
get_initials upper full_name email =
    if is_empty (trim full_name)
    then upper (or_text (char_at_0 (trim email)) (codes "?"))
    else elim (words_from [] (trim full_name)) [
      | [] ↦ []
      | w ∷ ws ↦ elim (last? ws) [
        | none ↦ upper (char_at_0 w)
        | some z ↦ upper (char_at_0 w ++ char_at_0 z)
      ]
    ]
