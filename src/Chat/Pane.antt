-- ===== src/Chat/Pane.antt =====
-- The state of the chat pane, frontend/src/components/ChatPane.tsx, `handleChatEvent`, and the
-- requests over its socket. State updates are applied at once, in the order of the calls.
use agentleh_app.Base.{
  ℕ, Bool, false, not, ◌||◌, List, [], ◌∷◌, ◌++◌, Option, none, some, Text, codes, or_text,
  if◌then◌else◌, ◌+◌,
}
use agentleh_app.Js.{Js, null, str, obj, Number, truthy, opt, is_text, strict_eq, fields}
use agentleh_app.Chat.Message.{Message, assistant, system, extract_text}

-- What the pane uses of the platform: `JSON.parse`, `String(v)`, `toLowerCase`, `Date.parse`, and
-- the decimal form of a counter.
pub record Platform : Type 0 where
  pub parse_json : Text → Option Js
  pub show : Js → Text
  pub lower : Text → Text
  pub parse_date : Text → Number
  pub decimal : ℕ → Text

pub data ConnState : Type 0 where
  connecting connected reconnecting offline : ConnState

pub data ReadyState : Type 0 where
  opening open_ closing closed : ReadyState

pub record Pane : Type 0 where
  pub messages : List Message
  pub input : Text
  pub conn : ConnState
  pub can_send : Bool
  pub streaming_run : Option Js  -- `streamingRunId`
  pub socket : Option ReadyState  -- `wsRef.current`
  pub sent : List Js  -- the frames that the sockets took, the latest first
  pub req_seq : ℕ
  pub attempt : ℕ  -- `reconnectAttemptRef.current`
  pub timer : Option ℕ  -- the pending reconnect timer, with its delay in ms
  pub session_key : Js

unfoldable pub mounted : Pane
mounted = record {
  messages = [];
  input = [];
  conn = connecting;
  can_send = false;
  streaming_run = none;
  socket = none;
  sent = [];
  req_seq = 0;
  attempt = 0;
  timer = none;
  session_key = null;
}

unfoldable pub has_run : Js → Message → Bool
has_run run m = elim m.run_id [ none ↦ false | some r ↦ strict_eq r run ]

-- Overwrites the first bubble of a run, or appends a new one.
unfoldable pub upsert : Js → (Message → Message) → Message → List Message → List Message
upsert run merge fresh [] = fresh ∷ []
upsert run merge fresh (m ∷ ms) =
    let later = upsert run merge fresh ms in if has_run run m then merge m ∷ ms else m ∷ later

unfoldable pub is_terminal : Js → Bool
is_terminal state =
    is_text (codes "final") state
    || is_text (codes "aborted") state
    || is_text (codes "error") state

-- `prevId === runId ? null : prevId`
unfoldable pub clear_run : Js → Option Js → Option Js
clear_run run none = none
clear_run run (some r) = if strict_eq r run then none else some r

abbrev pub bubble : Platform → Js → Text → Number → Bool → Message
bubble p run text now streaming = record {
  id = codes "a-" ++ p.show run;
  role = assistant;
  text = text;
  ts = now;
  streaming = streaming;
  run_id = some run;
}

abbrev pub system_message : Text → Text → Number → Message
system_message id text now = record {
  id = id;
  role = system;
  text = text;
  ts = now;
  streaming = false;
  run_id = none;
}

-- A value that the source takes to be a text, without a test.
abbrev pub as_text : Platform → Js → Text
as_text p v = if truthy v then p.show v else []

-- The text of a chat event: of its message, or else its error message.
unfoldable pub event_text : Platform → Js → Text
event_text p payload =
    or_text (extract_text (opt payload (codes "message")))
      (as_text p (opt payload (codes "errorMessage")))

-- The bubble `next` of an event: it keeps its text where the event has none.
unfoldable pub merge_event : Text → Bool → Message → Message
merge_event text streaming m = record m { text = or_text text m.text; streaming = streaming }

-- `handleChatEvent`
unfoldable pub handle_chat_event : Platform → Number → Js → Pane → Pane
handle_chat_event p now payload s =
    let run = opt payload (codes "runId") in
    let state = opt payload (codes "state") in
    let text = event_text p payload in
    let terminal = is_terminal state in
    if truthy run
    then record s {
      messages =
          upsert run (merge_event text (not terminal)) (bubble p run text now (not terminal))
            s.messages;
      streaming_run = if terminal then clear_run run s.streaming_run else s.streaming_run;
    }
    else s

-- `wsRef.current?.send(frame)`: a socket that closes drops it, and one that opens throws.
unfoldable pub send_frame : Js → Pane → Pane
send_frame frame s = elim s.socket [ some open_ ↦ record s { sent = frame ∷ s.sent } | _ ↦ s ]

-- A `req` frame with the next request id.
abbrev pub req_frame : Platform → ℕ → Text → Js → Js
req_frame p n method params = obj (
    fields (
      (codes "type", str (codes "req"))
      ∷ (codes "id", str (codes "webchat-" ++ p.decimal n))
      ∷ (codes "method", str method)
      ∷ (codes "params", params)
      ∷ []))

-- `nextReqId` and the frame that carries the id.
unfoldable pub request : Platform → Text → Js → Pane → Pane
unfolding send_frame
request p method params s =
    let n = s.req_seq + 1 in send_frame (req_frame p n method params) (record s { req_seq = n })
