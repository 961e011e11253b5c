-- ===== src/Net.antt =====
-- frontend/src/lib/api.ts, `authFetch`: a request with the session's bearer token, one retry after
-- a token refresh on a 401, and a local sign-out when the retry fails too. The session service
-- (supabase) and `fetch` are parameters; the log records the calls that are made to them.
pub mod Retry
use agentleh_app.Base.{
  ℕ, ◌+◌, Bool, true, false, not, ◌&&◌, List, [], ◌∷◌, ◌++◌, Option, none, some, Text, text_eq,
  codes, is_empty, if◌then◌else◌, ◌==◌, leb,
}
use agentleh_app.Js.{Js, Error, Outcome, ok, throw}

abbrev pub Headers : Type 0
Headers = List (Text × Text)

-- Assigning a property of the headers object: an existing key keeps its place.
unfoldable pub put : Text → Text → Headers → Headers
put k v [] = (k, v) ∷ []
put k v ((j, w) ∷ hs) = if text_eq j k then (j, v) ∷ hs else (j, w) ∷ put k v hs

unfoldable pub spread : Headers → Headers → Headers
spread base [] = base
spread base ((k, v) ∷ hs) = spread (put k v base) hs

unfoldable pub header : Text → Headers → Option Text
header k [] = none
header k ((j, v) ∷ hs) = if text_eq j k then some v else header k hs

pub data Method : Type 0 where
  get post patch delete : Method

-- The `RequestInit` that the client's functions pass.
pub record RequestInit : Type 0 where
  pub method : Method
  pub headers : Headers
  pub body : Option Js

-- A call of `fetch`; a body is the value that `JSON.stringify` is given.
pub record Request : Type 0 where
  pub url : Text
  pub method : Method
  pub headers : Headers
  pub body : Option Js

-- What `reader.read()` delivers of a body, decoded: the chunks, then the end or a failure.
pub data Chunks : Type 0 where
  done : Chunks
  broken : Error → Chunks
  chunk : Text → Chunks → Chunks

pub record Response : Type 0 where
  pub status : ℕ
  pub json : Outcome Js
  pub text : Outcome Text
  pub status_text : Text
  pub stream : Option Chunks

-- `res.ok`
unfoldable pub is_ok : Response → Bool
is_ok r = leb 200 r.status && leb r.status 299

-- The services outside the repository: supabase's session calls, and `fetch`. `E` is their state.
pub record Service (E : Type 0) : Type 0 where
  pub get_session : E → Outcome (Option Text) × E
  pub refresh_session : E → Outcome (Option Text) × E
  pub sign_out_local : E → Outcome (Unit {0}) × E
  pub fetch : Request → E → Outcome Response × E

pub data Effect : Type 0 where
  got_session refreshed signed_out : Effect
  fetched : Request → Effect

-- The latest effect stands first.
pub record World (E : Type 0) : Type 0 where
  pub env : E
  pub log : List Effect

abbrev pub start : {E : Type 0} → E → World E
start e = record { env = e; log = [] }

abbrev pub M : Type 0 → Type 0 → Type 0
M E A = World E → Outcome A × World E

infixl 5 ◌>>=◌
abbrev pub ◌>>=◌ : {E A B : Type 0} → M E A → (A → M E B) → M E B
◌>>=◌ m f w = let (r, w') = m w in elim r [ ok a ↦ f a w' | throw e ↦ (throw e, w') ]

abbrev pub pure : {E A : Type 0} → A → M E A
pure a w = (ok a, w)

-- A call of a service, recorded in the log.
abbrev pub calling : {E A : Type 0} → Effect → (E → Outcome A × E) → M E A
calling effect f w = let (r, e) = f w.env in (r, record { env = e; log = effect ∷ w.log })

-- `.catch(() => {})`
abbrev pub ignoring : {E A : Type 0} → M E A → M E (Unit {0})
ignoring m w = (ok tt, (m w).1)

-- `if (token) headers['Authorization'] = ...`
unfoldable pub with_token : Option Text → Headers → Headers
unfolding put
with_token none hs = hs
with_token (some []) hs = hs
with_token (some (c ∷ t)) hs = put (codes "Authorization") (codes "Bearer " ++ c ∷ t) hs

unfoldable pub base_headers : RequestInit → Headers
unfolding spread
base_headers init = spread ((codes "Content-Type", codes "application/json") ∷ []) init.headers

abbrev pub request : Text → RequestInit → Headers → Request
request u init hs = record { url = u; method = init.method; headers = hs; body = init.body }

module _ {E : Type 0} (svc : Service E) where
  pub send : Request → M E Response
  send r = calling (fetched r) (svc.fetch r)

  -- The local sign-out with which every path that stays at 401 ends.
  drop_session : Response → M E Response
  drop_session res = do _ ← ignoring (calling signed_out svc.sign_out_local); pure res

  -- The second attempt; `res` is the response of the first.
  retry : Text → RequestInit → Headers → Response → Option Text → M E Response
  retry u init hs res none = drop_session res
  retry u init hs res (some []) = drop_session res
  retry u init hs res (some (c ∷ t)) = do
    again ← send (request u init (with_token (some (c ∷ t)) hs))
    if again.status == 401 then drop_session res else pure again

  unfoldable pub auth_fetch : Text → RequestInit → M E Response
  unfolding send drop_session retry
  auth_fetch u init = do
    token ← calling got_session svc.get_session
    let headers = with_token token (base_headers init)
    res ← send (request u init headers)
    if res.status == 401
        then (do renewed ← calling refreshed svc.refresh_session; retry u init headers res renewed)
        else pure res
