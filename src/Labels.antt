-- ===== src/Labels.antt =====
-- The labels of plans and statuses, frontend/src/lib/labels.ts; the Hebrew words are a parameter.
use agentleh_app.Base.{List, [], ◌∷◌, Option, none, some, Text, codes, is_empty, if◌then◌else◌}
use agentleh_app.Prefs.Lang.{Bilingual}
use agentleh_app.Coupon.Message.{lookup_message}

abbrev pub named : (Text → Text) → Text → Text → Text × Bilingual
named hebrew slug english = (slug, record { he = hebrew slug; en = english })

unfoldable pub plan_labels : (Text → Text) → List (Text × Bilingual)
plan_labels hebrew =
    named hebrew (codes "minimal") (codes "Minimal")
    ∷ named hebrew (codes "starter") (codes "Starter")
    ∷ named hebrew (codes "business") (codes "Business")
    ∷ named hebrew (codes "premium") (codes "Premium")
    ∷ named hebrew (codes "wallet") (codes "Wallet")
    ∷ []

unfoldable pub status_labels : (Text → Text) → List (Text × Bilingual)
status_labels hebrew =
    named hebrew (codes "active") (codes "Active")
    ∷ named hebrew (codes "paused") (codes "Paused")
    ∷ named hebrew (codes "exhausted") (codes "Exhausted")
    ∷ named hebrew (codes "cancelled") (codes "Cancelled")
    ∷ named hebrew (codes "superseded") (codes "Superseded")
    ∷ named hebrew (codes "provisioning") (codes "Provisioning…")
    ∷ []

-- A slug without a label stands for itself.
unfoldable pub label_in : List (Text × Bilingual) → Option Text → Bilingual
label_in table none = record { he = codes "—"; en = codes "—" }
label_in table (some slug) =
    if is_empty slug
    then record { he = codes "—"; en = codes "—" }
    else elim (lookup_message slug table) [
      | none ↦ record { he = slug; en = slug }
      | some label ↦ label
    ]

unfoldable pub plan_label : (Text → Text) → Option Text → Bilingual
plan_label hebrew plan_id = label_in (plan_labels hebrew) plan_id

unfoldable pub status_label : (Text → Text) → Option Text → Bilingual
status_label hebrew status = label_in (status_labels hebrew) status
