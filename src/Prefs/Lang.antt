-- ===== src/Prefs/Lang.antt =====
-- The language of frontend/src/lib/i18n.tsx: `pickInitialLang`, `setLang`, `dirFor`, `t` and `tn`.
pub mod Pick
use agentleh_app.Base.{
  ℕ, Bool, true, false, ◌||◌, List, [], ◌∷◌, Option, none, some, Text, codes, text_eq, or_text,
  split, if◌then◌else◌, ◌==◌,
}
use agentleh_app.Js.{undefined, Error, rejected, Outcome, ok, throw}
use agentleh_app.Prefs.Store.{CookieStore}

pub data Lang : Type 0 where
  he en : Lang

pub data Dir : Type 0 where
  rtl ltr : Dir

pub record Bilingual : Type 0 where
  pub he : Text
  pub en : Text

-- What `pickInitialLang` and `setLang` read and write of the page.
pub record Page (J : Type 0) : Type 0 where
  pub url_lang : Option Text  -- the query's `lang`
  pub cookies : J
  pub storage_enabled : Bool  -- localStorage throws where it is disabled
  pub stored : Option Text  -- localStorage's `agentleh.lang`
  pub languages : List Text  -- `navigator.languages`
  pub language : Text  -- `navigator.language`

unfoldable pub lang_text : Lang → Text
unfolding codes
lang_text he = codes "he"
lang_text en = codes "en"

-- `v === 'he' || v === 'en'`, with the language that it is.
unfoldable pub lang_of : Option Text → Option Lang
unfolding lang_text
lang_of none = none
lang_of (some v) =
    if text_eq v (lang_text he) then some he else if text_eq v (lang_text en) then some en else none

-- `raw.toLowerCase().split('-')[0]`
unfoldable pub primary_tag : (Text → Text) → Text → Text
unfolding split
primary_tag lower raw = elim (split b'-' (lower raw)) [ [] ↦ [] | part ∷ parts ↦ part ]

-- The language of a primary tag; `iw` is an old code for Hebrew.
unfoldable pub supported : Text → Option Lang
unfolding codes
supported tag =
    if text_eq tag (codes "he") || text_eq tag (codes "iw")
    then some he
    else if text_eq tag (codes "en")
    then some en
    else none

-- The walk over the browser's languages, with Hebrew behind it.
unfoldable pub detect : (Text → Text) → List Text → Lang
unfolding supported primary_tag
detect lower [] = he
detect lower (raw ∷ langs) =
    let later = detect lower langs in
    elim (supported (primary_tag lower raw)) [ some l ↦ l | none ↦ later ]

unfoldable pub navigator_langs : List Text → Text → List Text
unfolding codes
navigator_langs [] language = or_text language (codes "he") ∷ []
navigator_langs (l ∷ ls) language = l ∷ ls

module _ {J : Type 0} (cookie : CookieStore J) (lower : Text → Text) where
  -- localStorage and then the browser; only the handoff's `try` guards localStorage.
  unfoldable pub pick_saved : Page J → Outcome Lang × Page J
  pick_saved w =
      if w.storage_enabled
      then elim (lang_of w.stored) [
        | some l ↦ (ok l, record w { cookies = cookie.write (lang_text l) w.cookies })
        | none ↦ (ok (detect lower (navigator_langs w.languages w.language)), w)
      ]
      else (throw (rejected undefined), w)

  unfoldable pub pick_cookie : Page J → Outcome Lang × Page J
  unfolding pick_saved
  pick_cookie w = elim (lang_of (cookie.read w.cookies)) [
    | some l ↦ (ok l, w)
    | none ↦ pick_saved w
  ]

  -- The handoff from the landing page: the first write that throws ends it.
  unfoldable pub pick_initial_lang : Page J → Outcome Lang × Page J
  unfolding pick_cookie
  pick_initial_lang w = elim (lang_of w.url_lang) [
    | some l ↦
        if w.storage_enabled
        then (
          ok l,
          record w {
            stored = some (lang_text l);
            cookies = cookie.write (lang_text l) w.cookies;
            url_lang = none;
          },
        )
        else pick_cookie w
    | none ↦ pick_cookie w
  ]

  -- The writes of `setLang`.
  unfoldable pub set_lang : Lang → Page J → Page J
  set_lang next w = record w {
    stored = if w.storage_enabled then some (lang_text next) else w.stored;
    cookies = cookie.write (lang_text next) w.cookies;
  }

unfoldable pub dir_for : Lang → Dir
dir_for he = rtl
dir_for en = ltr

-- `t`, and `tn` with its plural rule.
unfoldable pub translate : Lang → Bilingual → Text
translate he b = b.he
translate en b = b.en

unfoldable pub translate_count : Lang → Bilingual → Bilingual → ℕ → Text
unfolding translate
translate_count lang one other count = translate lang (if count == 1 then one else other)
