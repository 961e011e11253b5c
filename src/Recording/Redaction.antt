-- ===== src/Recording/Redaction.antt =====
-- The recorder gets no credential, and no body of a call of the backend.
use agentleh_app.Base.{
  true, [], ◌∷◌, ◌++◌, Option, none, some, Text, codes, starts_with, starts_with-append,
  text_eq_refl, any, ◌≡◌, refl, arith, ◌⊎◌,
}
use agentleh_app.Net.{Headers, header}
use agentleh_app.Net.Retry.{header-put}
use agentleh_app.Recording.{
  Recorded, includes, should_strip_body, redact_header, redact_headers, strip_body,
  sanitize_request, sanitize_response,
}

-- A header that is absent, empty or redacted.
abbrev pub IsHidden : Option Text → Type 0
IsHidden v = (v ≡ none) ⊎ (v ≡ some []) ⊎ (v ≡ some (codes "[REDACTED]"))

redact_header-own : (key : Text) (hs : Headers) → IsHidden (header key (redact_header key hs))
unfolding redact_header
redact_header-own key hs =
    ground (arith, header-put key key (codes "[REDACTED]") hs, text_eq_refl key)

redact_header-other :
    (key j : Text) (hs : Headers)
    → IsHidden (header j hs)
    → IsHidden (header j (redact_header key hs))
unfolding redact_header
redact_header-other key j hs h = ground (arith, header-put j key (codes "[REDACTED]") hs)

includes-behind :
    (before s part : Text) → includes s part ≡ true → includes (before ++ s) part ≡ true
unfolding includes
includes-behind [] s part h = h
includes-behind (c ∷ before) s part h = ground (arith, includes-behind before s part h)

includes-start : (s part : Text) → starts_with s part ≡ true → includes s part ≡ true
unfolding includes
includes-start [] part h = h
includes-start (c ∷ s) part h = ground (arith, h)

should_strip_body-api :
    (origin rest : Text) → should_strip_body (some (origin ++ (codes "/api/" ++ rest))) ≡ true
unfolding should_strip_body any
should_strip_body-api origin rest =
    let found = includes-behind origin (codes "/api/" ++ rest) (codes "/api/") (
      includes-start (codes "/api/" ++ rest) (codes "/api/")
        (starts_with-append (codes "/api/") rest)) in
    rw found refl

-- In a recorded request, no credential header has its value: each is absent, empty or redacted.
redact_headers-IsHidden :
    (hs : Headers)
    → IsHidden (header (codes "Authorization") (redact_headers hs))
      × IsHidden (header (codes "authorization") (redact_headers hs))
      × IsHidden (header (codes "apikey") (redact_headers hs))
unfolding redact_headers
redact_headers-IsHidden hs =
    let upper = redact_header (codes "Authorization") hs in
    let lower = redact_header (codes "authorization") upper in
    (
      redact_header-other (codes "apikey") (codes "Authorization") lower (
          redact_header-other (codes "authorization") (codes "Authorization") upper
            (redact_header-own (codes "Authorization") hs)),
      redact_header-other (codes "apikey") (codes "authorization") lower
          (redact_header-own (codes "authorization") upper),
      redact_header-own (codes "apikey") lower,
    )

-- The bodies of a request to a path of the API, at any origin, and of its response are not recorded, and of the
-- request's headers Authorization, authorization and apikey each is absent, empty or redacted.
pub sanitize_request-hides :
    (r : Recorded) (hs : Headers) (origin rest : Text)
    → r.url ≡ some (origin ++ (codes "/api/" ++ rest))
    → r.headers ≡ some hs
    → ((sanitize_request r).body ≡ none)
      × ((sanitize_response r).body ≡ none)
      × ((shown : Headers) × ((sanitize_request r).headers ≡ some shown)
          × IsHidden (header (codes "Authorization") shown)
          × IsHidden (header (codes "authorization") shown)
          × IsHidden (header (codes "apikey") shown))
unfolding sanitize_request sanitize_response strip_body
sanitize_request-hides r hs origin rest u k =
    let stripped = should_strip_body-api origin rest in
    let (upper, lower, key) = redact_headers-IsHidden hs in
    (
      rw (u, stripped) refl,
      rw (u, stripped) refl,
      (redact_headers hs, ground arith, upper, lower, key),
    )
