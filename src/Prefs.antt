-- ===== src/Prefs.antt =====
-- The preferences: cookies, the theme and the language, under frontend/src/lib.
pub mod Store
pub mod Jar
pub mod Kept
pub mod Cookie
pub mod Theme
pub mod Lang
