-- ===== src/Integrations/Tab.antt =====
-- The integrations tab of a workspace, frontend/src/components/IntegrationsTab.tsx: the integrations of each agent, and the
-- link that was copied last. A reload is a change of the workspace or of the list of agents.
pub mod Own
use agentleh_app.Base.{
  take_at, ℕ, zero, suc, ◌+◌, Bool, true, false, not, ◌&&◌, List, [], ◌∷◌, ◌++◌, Option, none, some,
  Text, codes, decimal, text_eq, any, is_empty, ◌==◌, if◌then◌else◌,
}
use agentleh_app.Js.{Js, Outcome, ok, throw}

pub record AgentIntegrations : Type 0 where
  pub loading : Bool
  pub failed : Bool  -- whether `error` is set
  pub integrations : Option Js  -- `data`

-- A call of `getAgentIntegrations`.
pub record Request : Type 0 where
  pub tenant_id : ℕ
  pub agent_id : Text

pub record Tab : Type 0 where
  pub tenant_id : ℕ
  pub agents : List Text
  pub by_agent : List (Text × AgentIntegrations)
  pub in_flight : List Request
  pub copied : Option Text
  pub timers : ℕ  -- of two seconds, to forget what was copied

unfoldable pub lookup : Text → List (Text × AgentIntegrations) → Option AgentIntegrations
lookup a [] = none
lookup a ((b, v) ∷ m) = if text_eq b a then some v else lookup a m

abbrev pub loading_entry : AgentIntegrations
loading_entry = record { loading = true; failed = false; integrations = none }

-- `Object.fromEntries(agents.map(…))`
unfoldable pub all_loading : List Text → List (Text × AgentIntegrations)
all_loading [] = []
all_loading (a ∷ others) = (a, loading_entry) ∷ all_loading others

unfoldable pub requests_for : ℕ → List Text → List Request
requests_for t [] = []
requests_for t (a ∷ others) = record { tenant_id = t; agent_id = a } ∷ requests_for t others

-- The body of the effect, which cancels nothing.
unfoldable pub load : Tab → Tab
unfolding all_loading requests_for
load s = record s {
  by_agent = all_loading s.agents;
  in_flight = requests_for s.tenant_id s.agents ++ s.in_flight;
}

-- The props change; `same` tells whether the effect's dependencies do not.
unfoldable pub show : Bool → ℕ → List Text → Tab → Tab
unfolding load
show same tenant agents s =
    let there = record s { tenant_id = tenant; agents = agents } in
    if same then there else load there

unfoldable pub entry_of : Outcome Js → AgentIntegrations
entry_of (ok d) = record { loading = false; failed = false; integrations = some d }
entry_of (throw e) = record { loading = false; failed = true; integrations = none }

-- `fetch` is what a request is answered with; a request is taken by its place.
unfoldable pub arrived : (Request → Outcome Js) → ℕ → Tab → Tab
unfolding entry_of
arrived fetch n s = elim (take_at n s.in_flight) [
  | none ↦ s
  | some (q, rest) ↦ record s {
    by_agent = (q.agent_id, entry_of (fetch q)) ∷ s.by_agent;
    in_flight = rest;
  }
]

-- `copyLink`, once the link is in the clipboard, and its timer.
unfoldable pub copy_link : Text → Tab → Tab
copy_link key s = record s { copied = some key; timers = s.timers + 1 }

unfoldable pub timer_fired : Tab → Tab
timer_fired s = elim s.timers [ zero ↦ s | suc n ↦ record s { copied = none; timers = n } ]

pub data Event : Type 0 where
  shown : Bool → ℕ → List Text → Event
  answered : ℕ → Event
  copied_link : Text → Event
  two_seconds : Event

unfoldable pub step : (Request → Outcome Js) → Event → Tab → Tab
step fetch (shown same tenant agents) s = show same tenant agents s
step fetch (answered n) s = arrived fetch n s
step fetch (copied_link key) s = copy_link key s
step fetch two_seconds s = timer_fired s

unfoldable pub run : (Request → Outcome Js) → List Event → Tab → Tab
run fetch [] s = s
run fetch (e ∷ es) s = run fetch es (step fetch e s)

unfoldable pub mounted : ℕ → List Text → Tab
unfolding load
mounted tenant agents = load (record {
  tenant_id = tenant;
  agents = agents;
  by_agent = [];
  in_flight = [];
  copied = none;
  timers = 0;
})

-- The row of an agent.
unfoldable pub row : Tab → Text → Option AgentIntegrations
unfolding lookup
row s agent = lookup agent s.by_agent

-- The detail of `TelegramRow`, in English.
unfoldable pub telegram_detail_en : Bool → ℕ → Text
telegram_detail_en configured linked =
    if configured
    then if linked == 0
      then codes "No linked users yet"
      else decimal linked ++ (codes " linked user" ++ (if linked == 1 then [] else codes "s"))
    else codes "Not configured — contact support"
