-- ===== src/Net/Retry.antt =====
-- `authFetch`: how often it asks, what it sends, and when it drops the session.
use agentleh_app.Base.{
  not, none, ℕ, suc, ◌≤◌, ◌≡◌, refl, Bool, true, false, List, [], ◌∷◌, ◌++◌, some, Text, text_eq,
  codes, if◌then◌else◌, ◌==◌, All, arith, starts_with, drop, is_empty, ◌&&◌, text_eq_iff,
  text_eq_refl,
}
use agentleh_app.Js.{ok}
use agentleh_app.Net.{
  Headers, put, header, RequestInit, Response, Service, Effect, got_session, refreshed, signed_out,
  fetched, start, with_token, auth_fetch,
}

-- Reading a header after setting one.
pub header-put :
    (j k v : Text) (hs : Headers)
    → header j (put k v hs) ≡ (if text_eq k j then some v else header j hs)
unfolding header put
header-put j k v [] = refl
header-put j k v ((i, w) ∷ hs) =
    ground (arith, text_eq_iff i k, text_eq_iff i j, text_eq_iff k j, header-put j k v hs)

pub header-with_token :
    (c : ℕ) (t : Text) (hs : Headers)
    → header (codes "Authorization") (with_token (some (c ∷ t)) hs)
      ≡ some (codes "Bearer " ++ c ∷ t)
unfolding with_token
header-with_token c t hs =
    rw
      (
        header-put (codes "Authorization") (codes "Authorization") (codes "Bearer " ++ c ∷ t) hs,
        text_eq_refl (codes "Authorization"),
      )
      refl

-- Whether a request carries a bearer token that is not empty.
unfoldable pub carries_bearer : Headers → Bool
carries_bearer hs = elim (header (codes "Authorization") hs) [
  | none ↦ false
  | some v ↦ starts_with v (codes "Bearer ") && not (is_empty (drop 7 v))
]

carries_bearer-with_token :
    (c : ℕ) (t : Text) (hs : Headers) → carries_bearer (with_token (some (c ∷ t)) hs) ≡ true
unfolding carries_bearer
carries_bearer-with_token c t hs =
    rw (header-with_token c t hs, carries_bearer) (unfold codes starts_with in refl)

abbrev pub CarriesBearer : Effect → Type 0
CarriesBearer (fetched r) = carries_bearer r.headers ≡ true
CarriesBearer got_session = Unit
CarriesBearer refreshed = Unit
CarriesBearer signed_out = Unit

abbrev pub drops_session : List Effect → Bool
drops_session [] = false
drops_session (signed_out ∷ log) = true
drops_session (got_session ∷ log) = drops_session log
drops_session (refreshed ∷ log) = drops_session log
drops_session (fetched r ∷ log) = drops_session log

abbrev pub fetches : List Effect → ℕ
fetches [] = 0
fetches (fetched r ∷ log) = suc (fetches log)
fetches (got_session ∷ log) = fetches log
fetches (refreshed ∷ log) = fetches log
fetches (signed_out ∷ log) = fetches log

-- A request to the url, with the method and the body of the call.
abbrev pub SameCall : Text → RequestInit → Effect → Type 0
SameCall u init (fetched r) = (r.url ≡ u) × (r.method ≡ init.method) × (r.body ≡ init.body)
SameCall u init got_session = Unit
SameCall u init refreshed = Unit
SameCall u init signed_out = Unit

module _ {E : Type 0} (svc : Service E) (u : Text) (init : RequestInit) (e : E) where
  -- Whenever `authFetch` resolves, its response has status 401 exactly when the local session was dropped.
  pub auth_fetch-drops_session :
      (res : Response)
      → (auth_fetch svc u init (start e)).0 ≡ ok res
      → drops_session (auth_fetch svc u init (start e)).1.log ≡ (res.status == 401)
  unfolding auth_fetch
  auth_fetch-drops_session res h = ground arith

  -- On every path, exceptions included, at most two requests are made.
  pub auth_fetch-fetches : fetches (auth_fetch svc u init (start e)).1.log ≤ 2
  unfolding auth_fetch
  auth_fetch-fetches = ground arith

  -- Every request goes to the url of the call, with its method and its body.
  pub auth_fetch-SameCall : All (SameCall u init) (auth_fetch svc u init (start e)).1.log
  unfolding auth_fetch
  auth_fetch-SameCall = ground arith

  -- With a session whose token is not empty, each request carries a bearer token that is not empty.
  pub auth_fetch-CarriesBearer :
      (c : ℕ) (t : Text)
      → (svc.get_session e).0 ≡ ok (some (c ∷ t))
      → All CarriesBearer (auth_fetch svc u init (start e)).1.log
  unfolding auth_fetch
  auth_fetch-CarriesBearer c t h = grind (arith, carries_bearer-with_token)
