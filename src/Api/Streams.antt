-- ===== src/Api/Streams.antt =====
-- The calls of frontend/src/lib/api.ts whose ok response is a stream, `submitOnboarding` and
-- `provisionTenantAgent`, the calls without authentication, and `buildChatWebsocketUrl`.
use agentleh_app.Base.{
  ℕ, List, [], ◌∷◌, ◌++◌, Option, none, some, Text, codes, decimal, text_eq, if◌then◌else◌,
}
use agentleh_app.Js.{Js, str, Error, error, Outcome, ok, throw, or_js, opt}
use agentleh_app.Net.{
  get, post, Response, is_ok, Service, World, M, ◌>>=◌, auth_fetch, calling, got_session, send,
}
use agentleh_app.Stream.{Progress, Success, read_loop}
use agentleh_app.Api.{Encoder, Endpoint, path, with_body, detail_of}
use agentleh_app.Api.Agents.{provision_tenant_agent}

-- The calls of `onProgress`, in order, and how the function ends.
abbrev pub Streamed : Type 0
Streamed = List Progress × Outcome Success

-- What follows the request: the error of the call, or of a response without a body, or the stream.
unfoldable pub read_response :
    (Text → Option Js) → (Response → Error) → Text → Text → Text → Response → Streamed
read_response parse_json failure no_body failed ended res =
    if is_ok res
    then elim res.stream [
      | none ↦ ([], throw (error (str no_body)))
      | some chunks ↦ read_loop parse_json failed ended [] chunks
    ]
    else ([], throw (failure res))

-- The message of a response to the onboarding that is not ok.
unfoldable pub onboarding_failure : Response → Error
onboarding_failure res =
    let detail = detail_of res in
    let message = or_js (opt detail (codes "message_he")) (opt detail (codes "message")) in
    error (
      or_js (or_js (or_js message (opt detail (codes "error"))) detail)
        (str (codes "Onboarding failed")))

unfoldable pub onboarding_request : Js → Endpoint
onboarding_request form = record {
  url = path (codes "api" ∷ codes "onboarding" ∷ codes "submit" ∷ []);
  init = with_body post form;
  failure = onboarding_failure;
}

-- `protocol` and `host` of `window.location`.
pub record Location : Type 0 where
  pub protocol : Text
  pub host : Text

module _ {E : Type 0} (svc : Service E) where
  -- A request whose failure ends the function before any progress.
  unfoldable pub streamed : Endpoint → (Response → Streamed) → World E → Streamed × World E
  streamed e read w =
      let (r, w') = auth_fetch svc e.url e.init w in
      elim r [ ok res ↦ (read res, w') | throw x ↦ (([], throw x), w') ]

  unfoldable pub submit_onboarding : (Text → Option Js) → Js → World E → Streamed × World E
  unfolding streamed
  submit_onboarding parse_json form = streamed (onboarding_request form) (
      read_response parse_json onboarding_failure
        (codes "No response body from onboarding endpoint") (codes "Onboarding failed")
        (codes "Onboarding stream ended unexpectedly"))

  unfoldable pub run_provision_tenant_agent :
      Encoder → (Text → Option Js) → ℕ → Js → World E → Streamed × World E
  unfolding streamed
  run_provision_tenant_agent enc parse_json tenant_id body =
      let e = provision_tenant_agent enc tenant_id body in
      streamed e (
        read_response parse_json e.failure (codes "No response body from provision endpoint")
          (codes "Provision failed") (codes "Provision stream ended unexpectedly"))

  -- `fetch(url)`, with no session: the voice manifest and the preview of an invite.
  unfoldable pub fetch_public : Text → Text → M E Js
  fetch_public url message = do
    res ← send svc (record { url = url; method = get; headers = []; body = none })
    λ w. (if is_ok res then res.json else throw (error (str message)), w)

  unfoldable pub get_voice_manifest : M E Js
  unfolding fetch_public
  get_voice_manifest =
      fetch_public (path (codes "api" ∷ codes "voices" ∷ codes "manifest" ∷ []))
        (codes "Voice manifest fetch failed")

  unfoldable pub preview_invite : Encoder → Text → M E Js
  unfolding fetch_public
  preview_invite enc token =
      fetch_public
        (path (codes "api" ∷ codes "invites" ∷ codes "preview" ∷ [])
          ++ codes "?token="
          ++ enc.encode token)
        (codes "Invite preview failed")

  websocket_url : Encoder → Location → ℕ → Text → Option Text → Outcome Text
  websocket_url enc location tenant_id agent_id none =
      throw (error (str (codes "not_authenticated")))
  websocket_url enc location tenant_id agent_id (some []) =
      throw (error (str (codes "not_authenticated")))
  websocket_url enc location tenant_id agent_id (some (c ∷ t)) =
      let proto =
        if text_eq location.protocol (codes "https:") then codes "wss:" else codes "ws:" in
      ok (
        proto
        ++ codes "//"
        ++ location.host
        ++ path (
            codes "api"
            ∷ codes "tenants"
            ∷ decimal tenant_id
            ∷ codes "agents"
            ∷ agent_id
            ∷ codes "chat"
            ∷ [])
        ++ codes "?"
        ++ enc.query ((codes "access_token", c ∷ t) ∷ []))

  unfoldable pub build_chat_websocket_url : Encoder → Location → ℕ → Text → M E Text
  unfolding websocket_url
  build_chat_websocket_url enc location tenant_id agent_id = do
    token ← calling got_session svc.get_session
    λ w. (websocket_url enc location tenant_id agent_id token, w)
