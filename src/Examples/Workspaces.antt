-- ===== src/Examples/Workspaces.antt =====
-- Runs of the tabs of a workspace, of its bridges and of the overlay, under frontend/src.
use agentleh_app.Base.{
  take_at, ◌-◌, true, false, [], ◌∷◌, Option, none, some, Text, codes, text_eq, ◌≡◌, refl,
}
use agentleh_app.Js.{ok, null, Outcome, Js}
use agentleh_app.Overlay
use agentleh_app.Overlay.{menu_pressed, back_pressed, dismissed}
use agentleh_app.Overlay.Spec.{Pages, spec_run}
use agentleh_app.Overlay.Refines.{represented, settling, run-represented}
use agentleh_app.Workspace.Settings
use agentleh_app.Workspace.Settings.Requests.{IsAnswerable, step-Allows}
use agentleh_app.Workspace.Members
use agentleh_app.Workspace.Members.Changes.{IsTaken, step-Takes}
use agentleh_app.Workspace.NewAgent.{PhoneNumber}
use agentleh_app.Bridges.Whatsapp
use agentleh_app.Bridges.Whatsapp.Patches.{IsPermitted, step-IsPermitted}
use agentleh_app.Bridges.Activity.{activity, Tells, activity-Tells}
use agentleh_app.Integrations.Tab
use agentleh_app.Integrations.Tab.Own.{IsOwn, row-IsOwn}
use agentleh_app.Admin.Address.{Params, Location, get_param, delete_param}
use agentleh_app.Workspace.Page.Google.{IsTold, google_effect, google_effect-google_effect}

abbrev two_pages : Pages
two_pages = record { open_now = false; current = 1; before = 2 ∷ [] }

run-represented_example :
    Overlay.run (settling (menu_pressed ∷ back_pressed ∷ back_pressed ∷ [])) (represented two_pages)
    ≡ represented (spec_run (menu_pressed ∷ back_pressed ∷ back_pressed ∷ []) two_pages)
run-represented_example =
    run-represented (menu_pressed ∷ back_pressed ∷ back_pressed ∷ []) two_pages (tt, (tt, (tt, tt)))

abbrev of_owner : Settings.Props
of_owner = record {
  name = codes "Acme";
  billing_email = none;
  owner_user_id = 1;
  members = 1 ∷ 2 ∷ [];
  is_owner = true;
}

step-Allows_example :
    IsAnswerable of_owner
      (Settings.transfer_pressed 2 true)
      (Settings.opened of_owner)
      (Settings.step of_owner (Settings.transfer_pressed 2 true) (Settings.opened of_owner))
step-Allows_example =
    step-Allows of_owner (Settings.transfer_pressed 2 true) (Settings.opened of_owner)

abbrev of_two : Members.Props
of_two = record {
  members = 1 ∷ 2 ∷ [];
  pending_invites = [];
  is_admin_or_owner = true;
  is_owner = true;
  owner_user_id = 1;
}

step-Takes_example :
    IsTaken of_two
      (Members.remove_pressed 2 true)
      Members.opened
      (Members.step of_two (Members.remove_pressed 2 true) Members.opened)
step-Takes_example = step-Takes of_two (Members.remove_pressed 2 true) Members.opened

abbrev any_number : Text → Option PhoneNumber
any_number t = some (record { is_valid = true; number = t; international = t })

abbrev ready_panel : Whatsapp.Panel
ready_panel = record {
  wa = some (record { enabled = false; phone = none });
  modal_open = true;
  phone_input = codes "+1";
  phone_available = some true;
  phone_checking = false;
  busy = false;
  wa_error = none;
  shown_error = none;
  timer = none;
  checks = [];
  patches = [];
}

step-IsPermitted_example :
    IsPermitted any_number Whatsapp.save_pressed ready_panel
      (Whatsapp.step any_number Whatsapp.save_pressed ready_panel)
step-IsPermitted_example = step-IsPermitted any_number Whatsapp.save_pressed ready_panel

activity-Tells_example : Tells (activity true (some (some 1000)) 7300000) (7300000 - 1000)
activity-Tells_example = activity-Tells 1000 7300000

abbrev fetched : Tab.Request → Outcome Js
fetched q = ok null

row-IsOwn_example :
    IsOwn fetched (codes "a1", record { loading = false; failed = false; integrations = some null })
unfolding Tab.row Tab.lookup Tab.run Tab.step Tab.arrived Tab.mounted Tab.load Tab.requests_for
    Tab.entry_of text_eq codes take_at
row-IsOwn_example =
    row-IsOwn fetched (Tab.answered 0 ∷ []) 1 (codes "a1" ∷ []) (codes "a1")
      (record { loading = false; failed = false; integrations = some null }) refl

abbrev parse_google : Text → Params
parse_google [] = []
parse_google (c ∷ s) = (codes "google", codes "connected") ∷ []

abbrev print_google : Params → Text
print_google [] = []
print_google (p ∷ ps) = codes "google=connected"

abbrev returned : Location
returned = record { pathname = codes "/tenants/1"; search = codes "?google=connected"; hash = [] }

google_effect-google_effect_example :
    let there = (google_effect parse_google print_google returned).location in
    IsTold (codes "connected") (google_effect parse_google print_google returned)
    × (google_effect parse_google print_google there
        ≡ record { location = there; notice = none; reloads = false })
    × ((i : Text)
        → text_eq (codes "google") i ≡ false
        → get_param i (parse_google there.search) ≡ get_param i (parse_google returned.search))
unfolding get_param delete_param text_eq codes
google_effect-google_effect_example =
    google_effect-google_effect parse_google print_google returned (codes "connected") refl refl
      refl
