-- ===== src/Recording.antt =====
-- frontend/src/lib/logrocket.ts: what the session recorder is given of requests and of the user. A request's headers
-- are absent where they are no object.
pub mod Redaction
use agentleh_app.Base.{
  ℕ, Bool, false, ◌||◌, List, [], ◌∷◌, ◌++◌, Option, none, some, Text, codes, starts_with, any,
  decimal, if◌then◌else◌,
}
use agentleh_app.Js.{Js}
use agentleh_app.Net.{Headers, put, header}

-- What LogRocket hands to a sanitizer.
pub record Recorded : Type 0 where
  pub url : Option Text
  pub headers : Option Headers
  pub body : Option Js

-- `s.includes(part)`
unfoldable pub includes : Text → Text → Bool
unfolding starts_with
includes [] part = starts_with [] part
includes (c ∷ s) part = starts_with (c ∷ s) part || includes s part

abbrev pub sensitive_path_prefixes : List Text
sensitive_path_prefixes = codes "/api/" ∷ codes "/auth/v1/" ∷ codes "/rest/v1/" ∷ []

unfoldable pub should_strip_body : Option Text → Bool
unfolding includes any codes
should_strip_body none = false
should_strip_body (some url) = any (λ prefix. includes url prefix) sensitive_path_prefixes

-- An absent or an empty header stays as it is.
unfoldable pub redact_header : Text → Headers → Headers
redact_header key headers = elim (header key headers) [
  | none ↦ headers
  | some [] ↦ headers
  | some (c ∷ v) ↦ put key (codes "[REDACTED]") headers
]

unfoldable pub redact_headers : Headers → Headers
redact_headers headers =
    redact_header (codes "apikey")
      (redact_header (codes "authorization") (redact_header (codes "Authorization") headers))

unfoldable pub strip_body : Recorded → Recorded
strip_body r = record r { body = if should_strip_body r.url then none else r.body }

-- `requestSanitizer` and `responseSanitizer`
unfoldable pub sanitize_request : Recorded → Recorded
sanitize_request r = strip_body (record r {
  headers = elim r.headers [ none ↦ none | some headers ↦ some (redact_headers headers) ];
})

unfoldable pub sanitize_response : Recorded → Recorded
sanitize_response r = strip_body r

-- The texts among the traits of `identifyUser`, and the default workspace's id where the user has one.
unfoldable pub identity_traits : Text → Text → Text → Option ℕ → List (Text × Text) × Option ℕ
unfolding codes
identity_traits email full_name role default_tenant_id = (
  (codes "email", email) ∷ (codes "name", full_name) ∷ (codes "role", role) ∷ [],
  default_tenant_id,
)
