-- ===== src/Chat/Socket.antt =====
-- `connect` with the socket's callbacks, the unmount cleanup, `sendMessage` and `abortStream` of
-- frontend/src/components/ChatPane.tsx. The events are those of one socket at a time.
use agentleh_app.Base.{
  ℕ, Bool, true, false, not, ◌&&◌, List, [], ◌∷◌, ◌++◌, Option, none, some, Text, codes, is_empty,
  or_text, trim, if◌then◌else◌, ◌==◌, min, ◌-◌, ◌+◌, ◌*◌, ◌^◌,
}
use agentleh_app.Js.{undefined, num, str, obj, Number, or_js, fields}
use agentleh_app.Chat.Message.{user}
use agentleh_app.Chat.Pane.{
  Platform, connected, reconnecting, offline, opening, open_, closed, Pane, system_message, request,
}
use agentleh_app.Chat.Frames.{handle_frame}

abbrev pub reconnect_base_ms : ℕ
reconnect_base_ms = 1000

abbrev pub reconnect_max_ms : ℕ
reconnect_max_ms = 30000

-- The delay before the n-th attempt, n from 1.
unfoldable pub backoff : ℕ → ℕ
backoff attempt = min (reconnect_base_ms * 2 ^ (attempt - 1)) reconnect_max_ms

-- `connect`, up to the socket's first event. `url` is what `buildChatWebsocketUrl` gives, or the
-- message of what it throws. A pending timer that calls it is no longer pending.
unfoldable pub connect : Number → Platform → Option Text → Text → Pane → Pane
connect now p url failure s =
    let retrying = record s {
      conn = elim s.conn [ connected ↦ reconnecting | other ↦ other ];
      timer = none;
    } in
    elim url [
      | some u ↦ record retrying { socket = some opening }
      | none ↦ record retrying {
        conn = offline;
        messages =
            s.messages ++ system_message (codes "nocon-" ++ p.show (num now)) failure now ∷ [];
      }
    ]

-- `ws.onopen` and `ws.onerror`
unfoldable pub on_open : Pane → Pane
on_open s = record s { attempt = 0; socket = some open_ }

unfoldable pub on_error : Pane → Pane
on_error s = record s { conn = reconnecting }

abbrev pub policy_violation : ℕ
policy_violation = 1008

-- `ws.onclose`, with the close code and the reason; `denied` is the pane's own words for an empty
-- reason. The timer that is armed replaces a pending one.
unfoldable pub on_close : Number → Platform → ℕ → Text → Text → Pane → Pane
on_close now p code reason denied s =
    let shut = record s {
      can_send = false;
      socket = elim s.socket [ none ↦ none | some r ↦ some closed ];
    } in
    if code == policy_violation
    then record shut {
      conn = offline;
      messages =
          s.messages
          ++ system_message (codes "denied-" ++ p.show (num now)) (or_text reason denied) now ∷ [];
    }
    else record shut {
      conn = reconnecting;
      attempt = s.attempt + 1;
      timer = some (backoff (s.attempt + 1));
    }

-- The cleanup of the effect: it clears the timer, and closes and forgets the socket. The close
-- event comes later.
unfoldable pub unmount : Pane → Pane
unmount s = record s { timer = none; socket = none }

-- `sendMessage`
unfoldable pub send_message : Platform → Number → Pane → Pane
send_message p now s =
    let text = trim s.input in
    let ready : Bool = elim s.socket [ some open_ ↦ true | _ ↦ false ] in
    if not (is_empty text) && s.can_send && ready
    then (let key = or_js s.session_key undefined in
        let t =
          request p (codes "chat.send")
            (obj (fields ((codes "message", str text) ∷ (codes "sessionKey", key) ∷ []))) s in
        record t {
          messages =
              s.messages
              ++ (record {
                id = codes "u-webchat-" ++ p.decimal (s.req_seq + 1);
                role = user;
                text = text;
                ts = now;
                streaming = false;
                run_id = none;
              })
                ∷ [];
          input = [];
        })
    else s

-- `abortStream`
unfoldable pub abort_stream : Platform → Pane → Pane
abort_stream p s = elim s.streaming_run [
  | none ↦ s
  | some run ↦ (elim s.socket [
    | some open_ ↦ request p (codes "chat.abort") (obj (fields ((codes "runId", run) ∷ []))) s
    | _ ↦ s
  ])
]

-- Enter in the input, without Shift.
unfoldable pub on_enter : Platform → Number → Pane → Pane
on_enter p now s = elim s.streaming_run [
  | none ↦ send_message p now s
  | some run ↦ abort_stream p s
]

-- What happens to a mounted pane.
pub data Event : Type 0 where
  frame : Number → Text → Event
  opened : Event
  failed : Event
  shut : Number → ℕ → Text → Text → Event
  dialled : Number → Option Text → Text → Event
  typed : Text → Event
  sending : Number → Event
  aborting : Event
  left : Event

unfoldable pub step : Platform → Event → Pane → Pane
step p (frame now raw) s = handle_frame p now raw s
step p opened s = on_open s
step p failed s = on_error s
step p (shut now code reason denied) s = on_close now p code reason denied s
step p (dialled now url failure) s = connect now p url failure s
step p (typed text) s = record s { input = text }
step p (sending now) s = send_message p now s
step p aborting s = abort_stream p s
step p left s = unmount s

unfoldable pub run : Platform → List Event → Pane → Pane
run p [] s = s
run p (e ∷ es) s = run p es (step p e s)
