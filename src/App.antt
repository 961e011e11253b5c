-- ===== src/App.antt =====
-- frontend/src/App.tsx: the routes, the loading of the user with the choice of a workspace, and the page that is shown.
pub mod Route
pub mod Shell
pub mod Laws
pub mod Account
