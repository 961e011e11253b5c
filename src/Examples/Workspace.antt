-- ===== src/Examples/Workspace.antt =====
-- Runs of the page of a workspace, of the picker of voices and of the invitation page, under frontend/src.
use agentleh_app.Base.{
  find, true, List, [], ◌∷◌, Option, none, some, Text, codes, text_eq, ◌≡◌, refl, ◌⊎◌, All,
}
use agentleh_app.Js.{ok}
use agentleh_app.App.Route.{members, tenant, parse_route}
use agentleh_app.Workspace.NewAgent
use agentleh_app.Workspace.NewAgent.{PhoneNumber, Form, can_provision}
use agentleh_app.Workspace.Deletion
use agentleh_app.Workspace.Deletion.Permits.{Granted, run-Granted}
use agentleh_app.Workspace.Page.{tab_path}
use agentleh_app.Workspace.Page.Tabs.{parse_route-tab_path}
use agentleh_app.Voices
use agentleh_app.Voices.{Gender, female, male, Manifest}
use agentleh_app.Voices.InGender.{InGender, run-InGender}
use agentleh_app.Invites
use agentleh_app.Invites.{Preview, pending}
use agentleh_app.Invites.Acceptance.{IsInvitee, step-accept_calls}

-- A reader of numbers that takes every text as it is.
abbrev as_typed : Text → Option PhoneNumber
as_typed t = some (record { is_valid = true; number = t; international = t })

-- A form with a name and a number, whose check is in flight.
abbrev asking_form : Form
asking_form =
    NewAgent.run as_typed
      (NewAgent.toggled
        ∷ NewAgent.typed_name (codes "Shuli")
        ∷ NewAgent.typed_phone (codes "+1")
        ∷ NewAgent.timer_due
        ∷ [])
      NewAgent.opened

abbrev deleting_events : List Deletion.Event
deleting_events =
    Deletion.asked (codes "a1") ∷ Deletion.typed (codes "a1") ∷ Deletion.confirmed ∷ []

run-Granted_example :
    All
      (Granted (λ a. text_eq a (codes "a1") ≡ true) (λ a. text_eq a (codes "a1") ≡ true))
      (Deletion.run deleting_events Deletion.closed).requests
unfolding text_eq codes
run-Granted_example =
    run-Granted (λ a. text_eq a (codes "a1") ≡ true) (λ a. text_eq a (codes "a1") ≡ true)
      deleting_events (refl, (refl, (tt, tt)))

parse_route-tab_path_example : parse_route (tab_path 42 members) ≡ tenant 42 members
parse_route-tab_path_example = parse_route-tab_path 42 members

abbrev two_voices : Manifest
two_voices = record {
  default_voice = codes "Kore";
  voices =
      record { name = codes "Kore"; gender = female; url = codes "k" }
      ∷ record { name = codes "Puck"; gender = male; url = codes "p" }
      ∷ [];
}

abbrev picking_events : List Voices.Event
picking_events = Voices.arrived (ok two_voices) ∷ Voices.clicked 0 ∷ Voices.locked (some male) ∷ []

run-InGender_example :
    let s = Voices.run picking_events (Voices.mounted [] none (some female)) in
    InGender s.manifest s.locked_gender s.value
unfolding find text_eq codes
run-InGender_example =
    run-InGender picking_events [] none (some female) ((refl, (refl, tt)), (tt, (tt, tt)))

abbrev same_case : Text → Text
same_case t = t

abbrev inviting_events : List Invites.Event
inviting_events =
    Invites.previewed (ok (record { email = codes "d@e"; status = pending }))
    ∷ Invites.session_arrived (some (codes "d@e"))
    ∷ []

step-accept_calls_example :
    let s = Invites.run same_case inviting_events (Invites.opened (codes "t")) in
    ((Invites.step same_case Invites.accept_clicked s).accept_calls ≡ s.accept_calls)
    ⊎ (((Invites.step same_case Invites.accept_clicked s).accept_calls ≡ codes "t" ∷ s.accept_calls)
        × IsInvitee same_case (codes "t") Invites.accept_clicked s)
step-accept_calls_example =
    step-accept_calls same_case (codes "t") inviting_events Invites.accept_clicked
