-- ===== src/Prefs/Cookie.antt =====
-- frontend/src/lib/prefsCookie.ts: `readCookie` over the text of `document.cookie`, and the texts that `writeCookie`
-- and `clearCookie` assign to it. `decodeURIComponent`, which can throw, and `encodeURIComponent` are parameters.
pub mod Header
use agentleh_app.Base.{
  Bool, List, [], ◌∷◌, ◌++◌, Option, none, some, Text, codes, starts_with, text_eq, trim_start,
  split, drop, length, decimal, ◌*◌, if◌then◌else◌, reverse,
}

-- The page's address, as the cookie's attributes read it.
pub record Address : Type 0 where
  pub hostname : Text
  pub protocol : Text

abbrev pub lang_cookie : Text
lang_cookie = codes "agentleh.lang"

abbrev pub theme_cookie : Text
theme_cookie = codes "agentleh.theme"

-- `h.endsWith(suffix)`
unfoldable pub ends_with : Text → Text → Bool
unfolding starts_with
ends_with s suffix = starts_with (reverse s) (reverse suffix)

unfoldable pub cookie_domain_attr : Address → Text
unfolding ends_with codes
cookie_domain_attr a =
    if ends_with a.hostname (codes "agentiko.io") then codes "; Domain=.agentiko.io" else []

unfoldable pub secure_attr : Address → Text
unfolding codes text_eq
secure_attr a = if text_eq a.protocol (codes "https:") then codes "; Secure" else []

-- The value that a part of the header has behind its name, decoded where that succeeds.
abbrev pub decoded : (Text → Option Text) → Text → Text
decoded decode v = elim (decode v) [ some d ↦ d | none ↦ v ]

-- The loop over the parts.
unfoldable pub read_parts : (Text → Option Text) → Text → List Text → Option Text
read_parts decode prefix [] = none
read_parts decode prefix (part ∷ parts) =
    let trimmed = trim_start part in
    let later = read_parts decode prefix parts in
    if starts_with trimmed prefix
    then some (decoded decode (drop (length prefix) trimmed))
    else later

unfoldable pub read_cookie : (Text → Option Text) → Text → Text → Option Text
unfolding read_parts
read_cookie decode name header = read_parts decode (name ++ b'=' ∷ []) (split b';' header)

-- What is assigned to `document.cookie`.
unfoldable pub write_cookie : (Text → Text) → Address → Text → Text → Text
unfolding cookie_domain_attr secure_attr codes
write_cookie encode a name value =
    name
    ++ codes "="
    ++ encode value
    ++ codes "; Path=/"
    ++ codes "; Max-Age="
    ++ decimal (60 * 60 * 24 * 365)
    ++ codes "; SameSite=Lax"
    ++ cookie_domain_attr a
    ++ secure_attr a

unfoldable pub clear_cookie : Address → Text → Text
unfolding cookie_domain_attr secure_attr codes
clear_cookie a name =
    name
    ++ codes "="
    ++ codes "; Path=/"
    ++ codes "; Max-Age=0"
    ++ codes "; SameSite=Lax"
    ++ cookie_domain_attr a
    ++ secure_attr a
