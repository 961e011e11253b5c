-- ===== src/Examples.antt =====
-- The theorems at concrete inputs, and runs of the definitions.
mod Requests
mod Pane
mod Pages
mod Preferences
mod Bar
mod Browser
mod Redacted
mod Panels
mod Workspace
mod Administration
mod Workspaces
