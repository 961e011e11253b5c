-- ===== src/Title.antt =====
-- The title of the document, frontend/src/lib/useDocumentTitle.ts.
use agentleh_app.Base.{
  List, [], ◌∷◌, ◌++◌, Option, none, some, Text, codes, is_empty, if◌then◌else◌, ◌≡◌, refl,
}

-- `prev` is what the effect has kept, while the component is mounted.
pub record Document : Type 0 where
  pub title : Text
  pub prev : Option Text

abbrev pub titled : Text → Text
titled title = if is_empty title then codes "agentiko" else title ++ codes " · agentiko"

-- The effect and its cleanup.
unfoldable pub title_effect : Text → Document → Document
title_effect title d = record { title = titled title; prev = some d.title }

unfoldable pub restore : Document → Document
restore d = elim d.prev [ none ↦ d | some t ↦ record { title = t; prev = none } ]

-- A rendering with another title runs both.
unfoldable pub retitle : Text → Document → Document
unfolding title_effect restore
retitle title d = title_effect title (restore d)

unfoldable pub retitle_all : List Text → Document → Document
retitle_all [] d = d
retitle_all (t ∷ ts) d = retitle_all ts (retitle t d)

-- A component that mounts, takes any titles one after another and unmounts leaves the title that it found, where
-- nothing else sets it meanwhile.
restore-retitle_all :
    (first : Text) (later : List Text) (found : Text)
    → (restore
        (retitle_all later (title_effect first (record { title = found; prev = none })))).title
      ≡ found
unfolding retitle_all title_effect restore retitle
restore-retitle_all first [] found = refl
restore-retitle_all first (t ∷ later) found = restore-retitle_all t later found
