-- ===== src/Examples/Pane.antt =====
-- Runs of the chat pane of frontend/src/components/ChatPane.tsx.
use agentleh_app.Base.{
  true, not, List, [], ◌∷◌, none, some, codes, ◌≡◌, ◌≢◌, refl, arith, if◌then◌else◌, text_eq,
}
use agentleh_app.Js.{Js, null, obj, fields, str, nan, opt}
use agentleh_app.Chat.Pane.{
  Platform, Pane, mounted, reconnecting, handle_chat_event, event_text, is_terminal,
}
use agentleh_app.Chat.Socket.{Event, frame, opened, shut, policy_violation, on_enter, run}
use agentleh_app.Chat.Bubbles.{Unique}
use agentleh_app.Chat.Invariant.{run-Unique}
use agentleh_app.Chat.Delta.{ShownIn, others, handle_chat_event-ShownIn}
use agentleh_app.Chat.Waiting.{run-on_enter}

-- A delta of the run r1.
abbrev delta : Js
delta = obj (
    fields (
      (codes "runId", str (codes "r1"))
      ∷ (codes "state", str (codes "delta"))
      ∷ (codes "message", obj (fields ((codes "text", str (codes "hi")) ∷ [])))
      ∷ []))

abbrev delta_frame : Js
delta_frame = obj (
    fields (
      (codes "type", str (codes "event"))
      ∷ (codes "event", str (codes "chat"))
      ∷ (codes "payload", delta)
      ∷ []))

-- A platform whose parser knows one frame.
abbrev platform : Platform
platform = record {
  parse_json = λ raw. if text_eq raw (codes "delta") then some delta_frame else none;
  show = λ v. codes "v";
  lower = λ s. s;
  parse_date = λ s. nan;
  decimal = λ n. [];
}

abbrev two_deltas : List Event
two_deltas = opened ∷ frame nan (codes "delta") ∷ frame nan (codes "delta") ∷ []

run-Unique_example : Unique (run platform two_deltas mounted).messages
run-Unique_example = run-Unique platform two_deltas

handle_chat_event-ShownIn_example :
    ShownIn
      (str (codes "r1"))
      (event_text platform delta)
      (not (is_terminal (opt delta (codes "state"))))
      (handle_chat_event platform nan delta mounted).messages
    × (others (str (codes "r1")) (handle_chat_event platform nan delta mounted).messages
        ≡ others (str (codes "r1")) mounted.messages)
unfolding opt text_eq codes
handle_chat_event-ShownIn_example =
    handle_chat_event-ShownIn platform nan delta mounted b'r' (codes "1") refl

going_away_is_no_violation : 1001 ≢ policy_violation
going_away_is_no_violation h = omega arith

abbrev waiting : Pane
waiting = record {
  messages = [];
  input = codes "hello";
  conn = reconnecting;
  can_send = true;
  streaming_run = some (str (codes "r1"));
  socket = none;
  sent = [];
  req_seq = 1;
  attempt = 0;
  timer = none;
  session_key = null;
}

run-on_enter_example :
    ((on_enter platform nan (run platform (shut nan 1006 [] [] ∷ opened ∷ []) waiting)).messages
      ≡ (run platform (shut nan 1006 [] [] ∷ opened ∷ []) waiting).messages)
    × ((on_enter platform nan (run platform (shut nan 1006 [] [] ∷ opened ∷ []) waiting)).input
        ≡ (run platform (shut nan 1006 [] [] ∷ opened ∷ []) waiting).input)
    × ((on_enter platform nan
          (run platform (shut nan 1006 [] [] ∷ opened ∷ []) waiting)).streaming_run
        ≡ some (str (codes "r1")))
run-on_enter_example =
    run-on_enter platform (shut nan 1006 [] [] ∷ opened ∷ []) nan waiting refl (tt, (tt, tt))
