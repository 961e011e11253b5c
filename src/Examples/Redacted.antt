-- ===== src/Examples/Redacted.antt =====
-- A recorded request of the client, frontend/src/lib/logrocket.ts.
use agentleh_app.Base.{[], ◌∷◌, ◌++◌, none, some, codes, ◌≡◌, refl}
use agentleh_app.Js.{null}
use agentleh_app.Net.{Headers, header}
use agentleh_app.Recording.{Recorded, sanitize_request, sanitize_response}
use agentleh_app.Recording.Redaction.{IsHidden, sanitize_request-hides}

abbrev with_bearer : Headers
with_bearer = (codes "Authorization", codes "Bearer secret") ∷ []

abbrev recorded : Recorded
recorded = record {
  url = some (codes "https://app" ++ (codes "/api/" ++ codes "auth/me"));
  headers = some with_bearer;
  body = some null;
}

sanitize_request-hides_example :
    ((sanitize_request recorded).body ≡ none)
    × ((sanitize_response recorded).body ≡ none)
    × ((shown : Headers) × ((sanitize_request recorded).headers ≡ some shown)
        × IsHidden (header (codes "Authorization") shown)
        × IsHidden (header (codes "authorization") shown)
        × IsHidden (header (codes "apikey") shown))
sanitize_request-hides_example =
    sanitize_request-hides recorded with_bearer (codes "https://app") (codes "auth/me") refl refl
