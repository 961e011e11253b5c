-- ===== src/Prefs/Lang/Pick.antt =====
-- Which language a page starts in: a pick is kept, and a detected language is not written anywhere.
use agentleh_app.Base.{
  codes, true, false, List, [], ◌∷◌, none, some, Text, text_eq, ◌++◌, All, ◌≡◌, refl, arith,
}
use agentleh_app.Js.{undefined, rejected, ok, throw}
use agentleh_app.Prefs.Store.{is_word, CookieStore}
use agentleh_app.Prefs.Lang.{
  Lang, he, en, Page, lang_text, lang_of, primary_tag, supported, detect, navigator_langs,
  pick_initial_lang, set_lang,
}

lang_of-lang_text : (l : Lang) → lang_of (some (lang_text l)) ≡ some l
unfolding lang_of text_eq
lang_of-lang_text he = refl
lang_of-lang_text en = refl

is_word-lang_text : (l : Lang) → is_word (lang_text l) ≡ true
unfolding is_word lang_text codes
is_word-lang_text he = refl
is_word-lang_text en = refl

module _ {J : Type 0} (cookie : CookieStore J) (lower : Text → Text) where
  -- Without a language in the URL, a page starts in the language that was picked last, whatever
  -- localStorage and the browser's languages are.
  pub pick_initial_lang-set_lang :
      (l : Lang) (w : Page J)
      → cookie.IsValid w.cookies
      → w.url_lang ≡ none
      → (pick_initial_lang cookie lower (set_lang cookie lower l w)).0 ≡ ok l
  unfolding pick_initial_lang set_lang lang_of
  pick_initial_lang-set_lang l w v e = ground (
    arith,
    lang_of-lang_text l,
    cookie.read-write (lang_text l) w.cookies (is_word-lang_text l) v,
  )

  -- Where localStorage works, a language in the URL is taken over whatever was saved, is taken off
  -- the URL, and is what the next load starts in.
  pick_initial_lang-handoff :
      (l : Lang) (w : Page J)
      → cookie.IsValid w.cookies
      → w.storage_enabled ≡ true
      → w.url_lang ≡ some (lang_text l)
      → ((pick_initial_lang cookie lower w).0 ≡ ok l)
        × ((pick_initial_lang cookie lower w).1.url_lang ≡ none)
        × ((pick_initial_lang cookie lower (pick_initial_lang cookie lower w).1).0 ≡ ok l)
  unfolding pick_initial_lang lang_of
  pick_initial_lang-handoff l w v s e = ground (
    arith,
    lang_of-lang_text l,
    cookie.read-write (lang_text l) w.cookies (is_word-lang_text l) v,
  )

  detect-first :
      (skipped : List Text) (raw : Text) (rest : List Text) (l : Lang)
      → All (λ r. supported (primary_tag lower r) ≡ none) skipped
      → supported (primary_tag lower raw) ≡ some l
      → detect lower (skipped ++ raw ∷ rest) ≡ l
  unfolding detect
  detect-first [] raw rest l h k = rw (detect, k) refl
  detect-first (r ∷ skipped) raw rest l (h, hs) k =
      rw (detect, h) (detect-first skipped raw rest l hs k)

  navigator_langs-append :
      (skipped : List Text) (raw : Text) (rest : List Text) (language : Text)
      → navigator_langs (skipped ++ raw ∷ rest) language ≡ skipped ++ raw ∷ rest
  unfolding navigator_langs
  navigator_langs-append [] raw rest language = refl
  navigator_langs-append (r ∷ skipped) raw rest language = refl

  -- Where nothing was picked (no language in the URL, in the cookie or in localStorage, which works), the page
  -- starts in the first supported language of the browser's list, and nothing is written.
  pick_initial_lang-detect :
      (w : Page J) (skipped : List Text) (raw : Text) (rest : List Text) (l : Lang)
      → lang_of w.url_lang ≡ none
      → lang_of (cookie.read w.cookies) ≡ none
      → lang_of w.stored ≡ none
      → w.storage_enabled ≡ true
      → w.languages ≡ skipped ++ raw ∷ rest
      → All (λ r. supported (primary_tag lower r) ≡ none) skipped
      → supported (primary_tag lower raw) ≡ some l
      → pick_initial_lang cookie lower w ≡ (ok l, w)
  unfolding pick_initial_lang
  pick_initial_lang-detect w skipped raw rest l a b c d e h k =
      let walk : detect lower (navigator_langs w.languages w.language) ≡ l =
        rw (e, navigator_langs-append) (detect-first skipped raw rest l h k) in
      ground arith

  -- Where localStorage is disabled, a page whose cookie holds no language throws, whatever the URL.
  pick_initial_lang-disabled :
      (w : Page J)
      → w.storage_enabled ≡ false
      → lang_of (cookie.read w.cookies) ≡ none
      → pick_initial_lang cookie lower w ≡ (throw (rejected undefined), w)
  unfolding pick_initial_lang
  pick_initial_lang-disabled w d b = ground arith
