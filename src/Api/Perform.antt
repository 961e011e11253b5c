-- ===== src/Api/Perform.antt =====
-- What the client's functions resolve and reject with, frontend/src/lib/api.ts.
use agentleh_app.Base.{true, false, ◌==◌, inl, inr, ◌≡◌, arith}
use agentleh_app.Js.{Js, ok, Outcome-cases}
use agentleh_app.Net.{Response, is_ok, Service, start, auth_fetch}
use agentleh_app.Net.Retry.{drops_session, auth_fetch-drops_session}
use agentleh_app.Api.{Endpoint, perform}

ok_not_401 : (res : Response) → is_ok res ≡ true → (res.status == 401) ≡ false
unfolding is_ok
ok_not_401 res h = ground arith

module _ {E : Type 0} (svc : Service E) (e : Endpoint) (env : E) where
  -- A call that resolves has not dropped the session, and its value is the JSON of the response that `authFetch` gave
  -- for it, whose status is in the 200s.
  pub perform_resolves :
      (v : Js)
      → (perform svc e (start env)).0 ≡ ok v
      → (drops_session (perform svc e (start env)).1.log ≡ false)
        × ((res : Response) × ((auth_fetch svc e.url e.init (start env)).0 ≡ ok res)
            × (is_ok res ≡ true)
            × (res.json ≡ ok v))
  unfolding perform
  perform_resolves v h = elim (Outcome-cases (auth_fetch svc e.url e.init (start env)).0) [
    | inr (x, q) ↦ absurd (ground arith)
    | inl (res, q) ↦ (
      ground (arith, auth_fetch-drops_session svc e.url e.init env res, ok_not_401 res),
      (res, q, ground arith, ground arith),
    )
  ]
