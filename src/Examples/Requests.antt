-- ===== src/Examples/Requests.antt =====
-- Runs of the client of frontend/src/lib/api.ts: a service whose first answer is a 401, a stream in two
-- chunks, and paths.
use agentleh_app.Base.{
  ℕ, ◌+◌, ◌-◌, ltb, true, false, List, [], ◌∷◌, Option, none, some, Text, codes, if◌then◌else◌, ◌≡◌,
  refl, ◌≤◌, All, ◌==◌, text_eq, lacks,
}
use agentleh_app.Js.{Js, obj, end, str, Outcome, ok, fields}
use agentleh_app.Net.{
  RequestInit, get, Request, Response, Service, start, auth_fetch, Chunks, chunk, done, is_ok,
}
use agentleh_app.Net.Retry.{
  drops_session, fetches, CarriesBearer, auth_fetch-drops_session, auth_fetch-fetches,
  auth_fetch-CarriesBearer,
}
use agentleh_app.Stream.{read_loop}
use agentleh_app.Stream.Chunking.{text_of, end_of, read_whole, read_loop_lem}
use agentleh_app.Api.{Encoder, perform}
use agentleh_app.Api.Tenants.{get_me}
use agentleh_app.Api.Perform.{perform_resolves}
use agentleh_app.Api.Paths.{IsSegment}
use agentleh_app.Workspace.NewAgent.{PhoneNumber}
use agentleh_app.Onboarding.{Page, connecting}

-- A response of a status, with an object for its JSON.
abbrev answer : ℕ → Response
answer status = record {
  status = status;
  json = ok (obj end);
  text = ok [];
  status_text = [];
  stream = none;
}

-- The statuses that `fetch` answers with, in order, and 200 behind them.
abbrev next : Request → List ℕ → Outcome Response × List ℕ
next r [] = (ok (answer 200), [])
next r (status ∷ rest) = (ok (answer status), rest)

abbrev session : Service (List ℕ)
session = record {
  get_session = λ e. (ok (some (codes "old")), e);
  refresh_session = λ e. (ok (some (codes "new")), e);
  sign_out_local = λ e. (ok tt, e);
  fetch = next;
}

abbrev plain_get : RequestInit
plain_get = record { method = get; headers = []; body = none }

stays_at_401 :
    (auth_fetch session (codes "/api/me") plain_get (start (401 ∷ 401 ∷ []))).0 ≡ ok (answer 401)
unfolding auth_fetch codes
stays_at_401 = refl

auth_fetch-drops_session_example :
    drops_session (auth_fetch session (codes "/api/me") plain_get (start (401 ∷ 401 ∷ []))).1.log
    ≡ (401 == 401)
auth_fetch-drops_session_example =
    auth_fetch-drops_session session (codes "/api/me") plain_get (401 ∷ 401 ∷ []) (answer 401)
      stays_at_401

auth_fetch-fetches_example :
    fetches (auth_fetch session (codes "/api/me") plain_get (start (401 ∷ []))).1.log ≤ 2
auth_fetch-fetches_example = auth_fetch-fetches session (codes "/api/me") plain_get (401 ∷ [])

auth_fetch-CarriesBearer_example :
    All CarriesBearer (auth_fetch session (codes "/api/me") plain_get (start (401 ∷ []))).1.log
unfolding codes
auth_fetch-CarriesBearer_example =
    auth_fetch-CarriesBearer session (codes "/api/me") plain_get (401 ∷ []) b'o' (codes "ld") refl

me_after_refresh : (perform session (get_me) (start (401 ∷ []))).0 ≡ ok (obj end)
unfolding perform get_me auth_fetch is_ok codes
me_after_refresh = refl

perform_resolves_example :
    (drops_session (perform session (get_me) (start (401 ∷ []))).1.log ≡ false)
    × ((res : Response) × ((auth_fetch session (get_me).url (get_me).init (start (401 ∷ []))).0
          ≡ ok res)
        × (is_ok res ≡ true)
        × (res.json ≡ ok (obj end)))
perform_resolves_example = perform_resolves session (get_me) (401 ∷ []) (obj end) me_after_refresh

-- A parser that knows one line.
abbrev parse_done : Text → Option Js
parse_done s =
    if text_eq s (codes "done")
    then some (
        obj (
          fields (
            (codes "type", str (codes "result"))
            ∷ (codes "success", str (codes "yes"))
            ∷ (codes "agent_id", str (codes "a1"))
            ∷ [])))
    else none

abbrev two_chunks : Chunks
two_chunks = chunk (codes "{}\ndo") (chunk (codes "ne\n") done)

read_loop_lem_example :
    read_loop parse_done (codes "failed") (codes "ended") [] two_chunks
    ≡ read_whole parse_done
        (codes "failed")
        (codes "ended")
        (text_of two_chunks)
        (end_of (codes "ended") two_chunks)
read_loop_lem_example = read_loop_lem parse_done (codes "failed") (codes "ended") two_chunks

-- An encoder without slashes: a slash and what comes behind it in the table move up by one.
abbrev up : ℕ → ℕ
up c = if ltb c 47 then c else c + 1

abbrev down : ℕ → ℕ
down c = if ltb c 47 then c else c - 1

abbrev encoded : Text → Text
encoded [] = []
encoded (c ∷ s) = up c ∷ encoded s

abbrev opened : Text → Text
opened [] = []
opened (c ∷ s) = down c ∷ opened s

abbrev encoder : Encoder
encoder = record { encode = encoded; query = λ kvs. []; stringify = λ v. [] }

abbrev decode : Text → Option Text
decode s = some (opened s)

a_IsSegment : IsSegment (codes "a")
unfolding lacks codes
a_IsSegment = refl

-- A reader of numbers that knows none, and a filled form without a phone.
abbrev no_number : Text → Option PhoneNumber
no_number t = none

abbrev filled_page : Page
filled_page = record {
  form = record {
    full_name = codes "Dana";
    phone = [];
    gender = codes "female";
    agent_name = codes "Shuli";
    agent_gender = codes "female";
    tts_voice_name = codes "Kore";
  };
  loading = false;
  progress = connecting 4;
  error = none;
  completed = 0;
}
