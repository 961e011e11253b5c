-- ===== src/Examples/Administration.antt =====
-- Runs of the administration, frontend/src/pages/AdminPage.tsx.
use agentleh_app.Base.{
  trim, take_at, ℕ, true, false, List, [], ◌∷◌, Option, none, some, Text, codes, text_eq, trim, ◌≡◌,
  refl, All,
}
use agentleh_app.Js.{ok, null}
use agentleh_app.Admin.State.{agents, coupons, Overview, Call, delete_agent, set_role, get_overview}
use agentleh_app.Admin.Page.{
  handle_delete_agent, type_confirmation, handle_confirm_delete_agent, handle_promote, reload,
  overview_arrived, go_on, new_role,
}
use agentleh_app.Admin.Runs
use agentleh_app.Admin.Runs.{Answers, Event, does, arrived, mounted}
use agentleh_app.Admin.Wanted.{Granted}
use agentleh_app.Admin.Permits.{run-mounted-Granted}
use agentleh_app.Admin.Requests.{IsBacked, effects_of, run-mounted-IsBacked}
use agentleh_app.Net.{Service}
use agentleh_app.Api.{Encoder}
use agentleh_app.Admin.Address.{
  Params, Location, get_param, set_param, tab_name, with_tab, read_tab_from_url, write_tab,
  read_tab_from_url-write_tab,
}
use agentleh_app.Admin.Coupons.{Coupon}
use agentleh_app.Admin.Tenants.{TenantRow, visible_rows}
use agentleh_app.Admin.Tenants.Filter.{IsSelection, IsAsked, visible_rows-IsSelection}

abbrev one_agent : Overview
one_agent = record {
  agents =
      record { agent_id = codes "a1"; agent_name = none; tenant_id = some 7; model = none } ∷ [];
  body = null;
}

abbrev all_well : Answers
all_well = record { overview = ok one_agent; detail = λ a. ok null; done = ok tt }

abbrev deleting_events : List Event
deleting_events =
    arrived 0 all_well
    ∷ does (Runs.delete_asked (codes "a1") (some 7) none)
    ∷ does (Runs.typed (codes "a1"))
    ∷ does Runs.delete_confirmed
    ∷ does (Runs.promoted 3 (codes "user") true)
    ∷ []

abbrev IsWanted : Call → Type 0
IsWanted (delete_agent t a) = (t ≡ 7) × (a ≡ codes "a1")
IsWanted (set_role u r) = u ≡ 3
IsWanted _ = Unit

run-mounted-Granted_example :
    All (Granted IsWanted (λ t. t ≡ codes "a1")) (Runs.run deleting_events (mounted agents)).calls
run-mounted-Granted_example =
    run-mounted-Granted IsWanted (λ t. t ≡ codes "a1") deleting_events agents
      (tt, ((refl, refl), (refl, (tt, ((λ e. refl), tt)))))

-- A service without a session, whose answers are all in the 200s.
abbrev service : Service ℕ
service = record {
  get_session = λ e. (ok none, e);
  refresh_session = λ e. (ok none, e);
  sign_out_local = λ e. (ok tt, e);
  fetch = λ r e. (
    ok (record { status = 200; json = ok null; text = ok []; status_text = []; stream = none }),
    e,
  );
}

abbrev encoder : Encoder
encoder = record { encode = λ t. t; query = λ ps. []; stringify = λ v. [] }

run-mounted-IsBacked_example :
    All
      (λ c.
        All
          (IsBacked service encoder IsWanted (λ t. t ≡ codes "a1"))
          (effects_of service encoder 0 c))
      (Runs.run deleting_events (mounted agents)).calls
run-mounted-IsBacked_example =
    run-mounted-IsBacked service encoder IsWanted (λ t. t ≡ codes "a1") 0 deleting_events agents
      (tt, ((refl, refl), (refl, (tt, ((λ e. refl), tt)))))

-- The deletion of that run was asked for.
deleting_calls :
    (Runs.run deleting_events (mounted agents)).calls
    ≡ set_role 3 (codes "superadmin") ∷ delete_agent 7 (codes "a1") ∷ get_overview ∷ []
unfolding Runs.run Runs.step Runs.arrive Runs.answered mounted take_at Runs.act Runs.is_ready
    handle_delete_agent type_confirmation handle_confirm_delete_agent handle_promote new_role codes
    text_eq reload overview_arrived go_on
deleting_calls = refl

-- A query with at most a tab.
abbrev parse_tab : Text → Params
parse_tab [] = []
parse_tab (c ∷ s) = (codes "tab", codes "coupons") ∷ []

abbrev print_tab : Params → Text
print_tab [] = []
print_tab (p ∷ ps) = codes "tab=coupons"

abbrev plain_address : Location
plain_address = record { pathname = codes "/admin"; search = []; hash = [] }

read_tab_from_url-write_tab_example :
    (read_tab_from_url parse_tab print_tab (write_tab parse_tab print_tab coupons plain_address)
      ≡ coupons)
    × ((i : Text)
        → text_eq (codes "tab") i ≡ false
        → get_param i (parse_tab (write_tab parse_tab print_tab coupons plain_address).search)
          ≡ get_param i (parse_tab plain_address.search))
unfolding with_tab set_param tab_name codes
read_tab_from_url-write_tab_example =
    read_tab_from_url-write_tab parse_tab print_tab coupons plain_address refl

abbrev spring : Coupon
spring = record {
  id = 1;
  code = codes "SPRING";
  disabled_at = none;
  valid_from = some (codes "f");
  valid_until = some (codes "u");
  max_redemptions = none;
  redemption_count = 0;
}

abbrev dates : Text → Option ℕ
dates t = if_from t
  where
    if_from : Text → Option ℕ
    if_from [] = none
    if_from (c ∷ s) = some c

abbrev two_rows : List TenantRow
two_rows =
    record { id = 1; name = some (codes "acme"); owner_email = none; slug = none }
    ∷ record { id = 2; name = some (codes "ace"); owner_email = none; slug = none }
    ∷ []

visible_rows-IsSelection_example :
    IsSelection
      (IsAsked (λ t. t) (trim (codes " acm ")))
      two_rows
      (visible_rows (λ t. t) (codes " acm ") two_rows)
visible_rows-IsSelection_example = visible_rows-IsSelection (λ t. t) (codes " acm ") two_rows
