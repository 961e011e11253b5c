-- ===== src/Prefs/Kept.antt =====
-- A pick is kept in the cookie: frontend/src/lib/themeStore.ts and i18n.tsx over the cookie of
-- frontend/src/lib/prefsCookie.ts, in a browser.
use agentleh_app.Base.{
  true, List, [], ◌∷◌, ◌++◌, Option, none, some, Text, codes, text_eq, decimal, decimal_from,
  append_assoc, append-nil, split, split_from, trim_start, is_space, lacks, starts_with,
  if◌then◌else◌, ◌≡◌, refl, ◌∙◌, ap, sym, All, arith, Bool-cases, inl, inr,
}
use agentleh_app.Js.{ok}
use agentleh_app.Prefs.Store.{is_word, CookieStore}
use agentleh_app.Prefs.Cookie.{
  Address, ends_with, cookie_domain_attr, secure_attr, decoded, read_parts, read_cookie,
  write_cookie, clear_cookie, theme_cookie, lang_cookie,
}
use agentleh_app.Prefs.Cookie.Header.{IsCookie, header_of, first_named, read_cookie-header_of}
use agentleh_app.Prefs.Jar.{attribute_text, cookie_line, placed, removed, Browser}
use agentleh_app.Prefs.Theme.{Theme, Tab, init, set_theme}
use agentleh_app.Prefs.Theme.Sync
use agentleh_app.Prefs.Lang.{Lang, Page, pick_initial_lang, set_lang}
use agentleh_app.Prefs.Lang.Pick
use agentleh_app.Prefs.Jar.Named.{
  placed-IsCookie, removed-IsCookie, first_named-placed, first_named-removed,
}

-- The attributes behind those of every cookie.
abbrev pub attributes : Address → List Text
attributes a =
    (if ends_with a.hostname (codes "agentiko.io") then codes "Domain=.agentiko.io" ∷ [] else [])
    ++ (if text_eq a.protocol (codes "https:") then codes "Secure" ∷ [] else [])

attribute_text-attributes :
    (a : Address) → attribute_text (attributes a) ≡ cookie_domain_attr a ++ secure_attr a
unfolding cookie_domain_attr secure_attr codes
attribute_text-attributes a = elim (Bool-cases (ends_with a.hostname (codes "agentiko.io"))) [
  | inl e ↦ elim (Bool-cases (text_eq a.protocol (codes "https:"))) [
    | inl q ↦ rw (e, q) refl
    | inr q ↦ rw (e, q) refl
  ]
  | inr e ↦ elim (Bool-cases (text_eq a.protocol (codes "https:"))) [
    | inl q ↦ rw (e, q) refl
    | inr q ↦ rw (e, q) refl
  ]
]

write_cookie_lem :
    (encode : Text → Text) (a : Address) (name value : Text)
    → write_cookie encode a name value ≡ cookie_line name (encode value) 31536000 (attributes a)
unfolding write_cookie cookie_domain_attr secure_attr codes
write_cookie_lem encode a name value =
    append_assoc first (cookie_domain_attr a) (secure_attr a)
    ∙ ap (λ (more : Text). first ++ more) (sym (attribute_text-attributes a))
  where
    first : Text
    first =
        name
        ++ codes "="
        ++ encode value
        ++ codes "; Path=/"
        ++ codes "; Max-Age="
        ++ decimal 31536000
        ++ codes "; SameSite=Lax"

aged : (s : Text) → s ++ codes "; Max-Age=0" ≡ s ++ codes "; Max-Age=" ++ decimal 0
unfolding codes decimal decimal_from
aged s = sym (append_assoc s (codes "; Max-Age=") (codes "0"))

clear_cookie_lem :
    (a : Address) (name : Text) → clear_cookie a name ≡ cookie_line name [] 0 (attributes a)
unfolding clear_cookie cookie_domain_attr secure_attr codes
clear_cookie_lem a name =
    append_assoc
      (name ++ codes "=" ++ codes "; Path=/" ++ codes "; Max-Age=0" ++ codes "; SameSite=Lax")
      (cookie_domain_attr a) (secure_attr a)
    ∙ ap
        (λ (more : Text).
          name
          ++ codes "="
          ++ codes "; Path=/"
          ++ codes "; Max-Age=0"
          ++ codes "; SameSite=Lax"
          ++ more)
        (sym (attribute_text-attributes a))
    ∙ ap (λ (s : Text). s ++ codes "; SameSite=Lax" ++ attribute_text (attributes a))
        (aged (name ++ codes "=" ++ codes "; Path=/"))
    ∙ ap
        (λ (s : Text).
          s
          ++ codes "; Path=/"
          ++ codes "; Max-Age="
          ++ decimal 0
          ++ codes "; SameSite=Lax"
          ++ attribute_text (attributes a))
        (sym (append-nil (name ++ codes "=")))

word-lacks : (v : Text) → is_word v ≡ true → lacks b';' v ≡ true
unfolding is_word lacks
word-lacks [] h = refl
word-lacks (c ∷ v) h = ground (arith, word-lacks v)

pub theme_IsCookie : IsCookie (theme_cookie, [])
theme_IsCookie =
    unfold codes lacks is_space in
    record { clean = refl; no_equals = refl; name_whole = refl; value_whole = refl }

pub lang_IsCookie : IsCookie (lang_cookie, [])
lang_IsCookie =
    unfold codes lacks is_space in
    record { clean = refl; no_equals = refl; name_whole = refl; value_whole = refl }

-- `encodeURIComponent` and `decodeURIComponent` leave letters as they are.
module _ {J : Type 0} (browser : Browser J) (encode : Text → Text) (decode : Text → Option Text)
    (encode-word : (v : Text) → is_word v ≡ true → encode v ≡ v)
    (decode-word : (v : Text) → is_word v ≡ true → decode v ≡ some v) (a : Address) where
  read_lem :
      (name : Text) (cs : List (Text × Text))
      → IsCookie (name, [])
      → All IsCookie cs
      → read_cookie decode name (header_of cs) ≡ first_named decode name cs
  read_lem (c ∷ name) [] n h =
      unfold read_cookie read_parts split split_from starts_with trim_start in refl
  read_lem [] [] n h = absurd (ground (arith, n.clean))
  read_lem name (c ∷ cs) n h = read_cookie-header_of decode name n.no_equals c cs h

  pub read-write_lem :
      (name v : Text) (j : J)
      → IsCookie (name, [])
      → is_word v ≡ true
      → browser.IsOwn name (attributes a) j
      → read_cookie decode name
          (header_of (browser.cookies (browser.assign (write_cookie encode a name v) j)))
        ≡ some v
  read-write_lem name v j n w own =
      let cookie : IsCookie (name, v) = record {
        clean = n.clean;
        no_equals = n.no_equals;
        name_whole = n.name_whole;
        value_whole = word-lacks v w;
      } in
      let line : write_cookie encode a name v ≡ cookie_line name v 31536000 (attributes a) =
        write_cookie_lem encode a name v
        ∙ ap (λ (t : Text). cookie_line name t 31536000 (attributes a)) (encode-word v w) in
      let after : browser.cookies (browser.assign (write_cookie encode a name v) j)
          ≡ placed name v (browser.cookies j) =
        ap (λ (t : Text). browser.cookies (browser.assign t j)) line
        ∙ browser.assign-cookies name v 31536000 (attributes a) j own cookie in
      ap (λ (cs : List (Text × Text)). read_cookie decode name (header_of cs)) after
      ∙ read_lem name (placed name v (browser.cookies j)) n (
          placed-IsCookie name v (browser.cookies j) cookie
            (browser.cookies-IsCookie name (attributes a) j own))
      ∙ first_named-placed decode name v (browser.cookies j)
      ∙ rw (decoded, decode-word v w) refl

  pub read-clear_lem :
      (name : Text) (j : J)
      → IsCookie (name, [])
      → browser.IsOwn name (attributes a) j
      → read_cookie decode name
          (header_of (browser.cookies (browser.assign (clear_cookie a name) j)))
        ≡ none
  read-clear_lem name j n own =
      let after : browser.cookies (browser.assign (clear_cookie a name) j)
          ≡ removed name (browser.cookies j) =
        ap (λ (t : Text). browser.cookies (browser.assign t j)) (clear_cookie_lem a name)
        ∙ browser.assign-cookies name [] 0 (attributes a) j own n in
      ap (λ (cs : List (Text × Text)). read_cookie decode name (header_of cs)) after
      ∙ read_lem name (removed name (browser.cookies j)) n (
          removed-IsCookie name (browser.cookies j)
            (browser.cookies-IsCookie name (attributes a) j own))
      ∙ first_named-removed decode name (browser.cookies j)

  -- The interface of one cookie, filled with the functions of frontend/src/lib/prefsCookie.ts.
  unfoldable pub store : (name : Text) → IsCookie (name, []) → CookieStore J
  store name n = record {
    IsValid = λ j. browser.IsOwn name (attributes a) j;
    read = λ j. read_cookie decode name (header_of (browser.cookies j));
    write = λ v j. browser.assign (write_cookie encode a name v) j;
    clear = λ j. browser.assign (clear_cookie a name) j;
    read-write = λ v j w own. read-write_lem name v j n w own;
    read-clear = λ j own. read-clear_lem name j n own;
  }

  -- In a browser that accepts the cookie of the theme, shows none of its name but that of this path and domain, and none
  -- without a name, and where `encodeURIComponent` and its inverse leave words of small letters as they are, a pick of a
  -- theme is what a reload of the page reads back, also where localStorage is disabled.
  pub init-set_theme :
      (t : Theme) (w : Tab J)
      → browser.IsOwn theme_cookie (attributes a) w.cookies
      → (init
          (store theme_cookie theme_IsCookie)
          (set_theme (store theme_cookie theme_IsCookie) t w)).current.theme
        ≡ t
  unfolding store
  init-set_theme t w own = Sync.init-set_theme (store theme_cookie theme_IsCookie) t w own

  -- In a browser that accepts the cookie of the language, shows none of its name but that of this path and domain, and
  -- none without a name, and where `encodeURIComponent` and its inverse leave words of small letters as they are, a page
  -- without a language in the URL starts in the language that was picked last, whatever localStorage and the browser's
  -- languages are.
  pub pick_initial_lang-set_lang :
      (lower : Text → Text) (l : Lang) (w : Page J)
      → browser.IsOwn lang_cookie (attributes a) w.cookies
      → w.url_lang ≡ none
      → (pick_initial_lang
          (store lang_cookie lang_IsCookie)
          lower
          (set_lang (store lang_cookie lang_IsCookie) lower l w)).0
        ≡ ok l
  unfolding store
  pick_initial_lang-set_lang lower l w own e =
      Pick.pick_initial_lang-set_lang (store lang_cookie lang_IsCookie) lower l w own e
