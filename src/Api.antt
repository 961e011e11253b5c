-- ===== src/Api.antt =====
-- The client of the backend, frontend/src/lib/api.ts: each function as the request that it makes
-- and the error that it throws when the response is not ok.
pub mod Coupons
pub mod Tenants
pub mod Agents
pub mod Bridges
pub mod Admin
pub mod Perform
pub mod Paths
pub mod Streams
use agentleh_app.Base.{
  ℕ, Bool, true, false, List, [], ◌∷◌, ◌++◌, Option, none, some, Text, codes, decimal,
  if◌then◌else◌,
}
use agentleh_app.Js.{
  Js, str, obj, end, Error, error, Outcome, ok, throw, truthy, or_js, opt, fields,
}
use agentleh_app.Net.{
  Method, get, post, patch, delete, RequestInit, Response, is_ok, Service, World, M, ◌>>=◌,
  auth_fetch,
}

-- `encodeURIComponent`, the query of a `URLSearchParams`, and `JSON.stringify`.
pub record Encoder : Type 0 where
  pub encode : Text → Text
  pub query : List (Text × Text) → Text
  pub stringify : Js → Text

-- A function of the client: the arguments of its `authFetch`, and what it throws on a response that is not ok.
pub record Endpoint : Type 0 where
  pub url : Text
  pub init : RequestInit
  pub failure : Response → Error

-- "/a/b/c" for the segments a, b and c.
unfoldable pub path : List Text → Text
path [] = []
path (segment ∷ segments) = b'/' ∷ segment ++ path segments

abbrev pub plain : Method → RequestInit
plain m = record { method = m; headers = []; body = none }

abbrev pub with_body : Method → Js → RequestInit
with_body m body = record { method = m; headers = []; body = some body }

-- `throw new Error(message)`
abbrev pub fixed : Text → Response → Error
fixed message res = error (str message)

-- `await res.json().catch(() => ({}))`
unfoldable pub body_or_empty : Response → Js
body_or_empty res = elim res.json [ ok body ↦ body | throw e ↦ obj end ]

unfoldable pub detail_of : Response → Js
unfolding body_or_empty opt codes
detail_of res = opt (body_or_empty res) (codes "detail")

-- `body?.detail?.error || message`
unfoldable pub detail_error : Text → Response → Error
unfolding detail_of or_js opt codes
detail_error message res = error (or_js (opt (detail_of res) (codes "error")) (str message))

-- `body?.detail?.message || body?.detail?.error || message`
unfoldable pub detail_message : Text → Response → Error
unfolding detail_of or_js opt codes
detail_message message res = error (
    or_js (or_js (opt (detail_of res) (codes "message")) (opt (detail_of res) (codes "error")))
      (str message))

-- `body?.detail?.detail || body?.detail?.error || message`
unfoldable pub detail_detail : Text → Response → Error
unfolding detail_of or_js opt codes
detail_detail message res = error (
    or_js (or_js (opt (detail_of res) (codes "detail")) (opt (detail_of res) (codes "error")))
      (str message))

module _ {E : Type 0} (svc : Service E) where
  -- The common shape of the functions that return the response's JSON.
  unfoldable pub perform : Endpoint → M E Js
  perform e = do
    res ← auth_fetch svc e.url e.init
    λ w. (if is_ok res then res.json else throw (e.failure res), w)

  -- The functions that return nothing read no body.
  unfoldable pub perform_void : Endpoint → M E (Unit {0})
  perform_void e = do
    res ← auth_fetch svc e.url e.init
    λ w. (if is_ok res then ok tt else throw (e.failure res), w)
