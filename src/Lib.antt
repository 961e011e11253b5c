-- ===== src/Lib.antt =====
-- The web client of Agentleh, under frontend/src: a React application that talks to the backend's HTTP API and,
-- in the chat pane, to a WebSocket. The development models the client's own logic: what it asks for, what it does
-- with the answers, and the state that it keeps. The markup is left out.
--
-- The parts and their files:
--   * Net: `authFetch` of frontend/src/lib/api.ts, under all calls of the client. Net/Retry holds its theorems.
--   * Stream: the read loops of `submitOnboarding` and `provisionTenantAgent` in the same file, which feed the
--     progress bar. Stream/Chunking compares them with one pass over the whole text.
--   * Api: one definition for each exported function of frontend/src/lib/api.ts, by its name: Api/Tenants,
--     Api/Agents, Api/Bridges, Api/Admin, Api/Coupons, and Api/Streams for those that stream or fetch without a
--     session. A function is an `Endpoint`, the request it makes and the error it throws, and `perform` runs it.
--     Api/Perform and Api/Paths hold the theorems.
--   * Chat: frontend/src/components/ChatPane.tsx. Chat/Message reads texts and roles, Chat/Pane is the state with
--     `handleChatEvent`, Chat/Frames is `handleFrame`, and Chat/Socket is `connect` with its callbacks,
--     `sendMessage`, `abortStream`, and runs of events. The other files are lemmas and theorems.
--   * Prefs: frontend/src/lib/themeStore.ts (Prefs/Theme) and i18n.tsx (Prefs/Lang), over the interface
--     Prefs/Store of one cookie. Prefs/Cookie is prefsCookie.ts, up to the texts that it assigns to `document.cookie`;
--     Prefs/Jar says what a browser does with them, and Prefs/Kept fills the interface with the two.
--   * App: frontend/src/App.tsx, its routes (App/Route), its state (App/Shell) and its account cookie (App/Account).
--   * Coupon: frontend/src/pages/RedeemCouponPage.tsx, its messages and its state. Coupon/Modal is the dialog of
--     frontend/src/pages/TenantPage.tsx with the same calls.
--   * Progress: frontend/src/components/ProvisionProgressBar.tsx.
--   * Recording: frontend/src/lib/logrocket.ts, what the session recorder is given.
--   * Bridges/Telegram: the Telegram dialog of frontend/src/components/BridgesPanel.tsx; Effects has its effects and
--     runs, and the other children the lemmas and theorems. An effect of React is a function of the state before and
--     after an event, and a run of the polling effect is a number; the cleanup makes it no longer live.
--   * Bridges/Whatsapp: the number of an agent in the same file, Bridges/Activity the label of its last activity, and
--     Bridges/Panel the panel itself with the test and the removal of the Telegram bot.
--   * Integrations/Panel: frontend/src/components/IntegrationsPanel.tsx with a clock and the timers of the browser.
--     Integrations/Tab: frontend/src/components/IntegrationsTab.tsx, one request for each agent.
--   * Usage: the ranges and requests of frontend/src/components/UsageTab.tsx; Usage/Breakdown is what it shows.
--   * Format: frontend/src/lib/format.ts.
--   * Workspace: frontend/src/pages/TenantPage.tsx. Workspace/Page is its loading and its tabs, Workspace/NewAgent the
--     form for a new agent, and Workspace/Deletion the deletion of an agent with
--     frontend/src/components/DeleteAgentModal.tsx. Workspace/Settings and Workspace/Members are the tabs of these names,
--     Workspace/Dashboard what the first tab shows, and Workspace/Page/Google the notice behind the redirect from Google.
--   * Admin: frontend/src/pages/AdminPage.tsx. Admin/State and Admin/Page are the page with its calls and
--     dialogs, and Admin/Runs its events, with the answers in any order; Admin/Requests puts its calls through
--     `authFetch`. Admin/Address is the tab in the address; Admin/Coupons, Admin/Stats, Admin/Tenants and
--     Admin/Grant are the parts of these names, Admin/Plans, Admin/Users and Admin/Cards the rows that tables
--     and cards show, and Admin/Charts the sorted bars.
--   * Overlay: frontend/src/lib/useBackDismiss.ts over the history of the browser. Overlay/Spec is what it promises, and
--     Overlay/Refines compares the two, without the choice of a workspace in the drawer, which leaves an entry behind.
--   * Switcher: the creation of a workspace in frontend/src/components/TenantSwitcher.tsx and MobileDrawer.tsx.
--   * Audit: frontend/src/components/AuditTab.tsx. Tasks: frontend/src/components/AgentScheduledTasksPanel.tsx.
--   * Dropdown: the menus of LanguageSwitcher.tsx, ProfileMenu.tsx and of the rows of the administration.
--   * Labels: frontend/src/lib/labels.ts. Title: frontend/src/lib/useDocumentTitle.ts.
--   * Voices: frontend/src/components/VoicePicker.tsx, and Invites: frontend/src/pages/InviteAcceptPage.tsx.
--   * Onboarding: frontend/src/pages/OnboardingPage.tsx, whose submission runs Api/Streams.
--   * Reminders: frontend/src/components/RemindersTab.tsx, its sections and the texts of its times.
--   * Base and Js are shared: texts, lists and numerals, and the values of JavaScript. Examples holds runs.
--
-- A function of the source has its name in snake case; a handler takes the state and gives the next one. A call of
-- `authFetch` passes a `World`: the state of the services and the log of the calls made to them. What a client
-- function throws is a value of `Outcome`. State updates of React are applied at once, in the order of the calls.
-- Supabase, `fetch`, `document.cookie`, `JSON.parse`, `encodeURIComponent`, `toLowerCase`, `URLSearchParams`, `Date`, `toFixed`,
-- `String`
-- and the parser of phone numbers are parameters, and so are the Hebrew words where a text has them. Texts are lists of
-- UTF-16 code units or code points, as the code reads them.
--
-- Fuel: `strip_tags` has the length of its text, of which each round takes a character, and `decimal` has one more
-- than the number, which each round divides by ten. All other loops are structural.
--
-- Not modelled: the markup, with the charts over hours in the administration and the formats of dates; the description
-- of a scheduled task, which is read by regular expressions; the inside of the browser's cookies and the audio element, which are the
-- browser's; and the backend, which the client knows by its responses.
pub mod Base
pub mod Js
pub mod Net
pub mod Stream
pub mod Chat
pub mod Prefs
pub mod Api
pub mod App
pub mod Coupon
pub mod Progress
pub mod Recording
pub mod Bridges
pub mod Integrations
pub mod Usage
pub mod Admin
pub mod Overlay
pub mod Switcher
pub mod Audit
pub mod Format
pub mod Tasks
pub mod Labels
pub mod Title
pub mod Dropdown
pub mod Onboarding
pub mod Reminders
pub mod Invites
pub mod Voices
pub mod Workspace
pub mod Examples
