-- ===== src/Stream.antt =====
-- The NDJSON stream of the provisioning endpoints, frontend/src/lib/api.ts: the read loops of
-- `submitOnboarding` and `provisionTenantAgent`, which are the same code but for one message.
-- `JSON.parse` is a parameter; the chunks are those that the streaming `TextDecoder` returns.
pub mod Chunking
use agentleh_app.Base.{
  ℕ, Bool, true, false, not, List, [], ◌∷◌, ◌++◌, Option, none, some, Text, codes, is_empty,
  if◌then◌else◌, split_from, split, trim,
}
use agentleh_app.Js.{
  Js, undefined, str, num, Number, finite, Error, error, type_error, Outcome, ok, throw, truthy,
  or_js, opt, prop, is_text,
}
use agentleh_app.Net.{Chunks, done, broken, chunk}

-- `ProvisionProgress`
pub record Progress : Type 0 where
  pub step : Js
  pub total : Js
  pub label : Js

-- `ProvisionSuccess`
pub record Success : Type 0 where
  pub agent_id : Js
  pub gateway_url : Js
  pub port : Js
  pub status : Js

-- What a line does: nothing, a call of `onProgress`, or the end of the function.
pub data Action : Type 0 where
  skip : Action
  tick : Progress → Action
  finish : Outcome Success → Action

zero_number : Js
zero_number = num (finite false 0 0)

unfoldable pub success_of : Js → Success
unfolding or_js opt codes zero_number
success_of event = record {
  agent_id = opt event (codes "agent_id");
  gateway_url = or_js (opt event (codes "gateway_url")) (str []);
  port = or_js (opt event (codes "port")) zero_number;
  status = or_js (opt event (codes "status")) (str (codes "active"));
}

-- The branches on `event.type`; `failed` is the message of an error result without one.
unfoldable pub dispatch : Text → Js → Js → Action
unfolding success_of truthy is_text or_js opt codes
dispatch failed event kind =
    if is_text (codes "progress") kind
    then tick (record {
      step = opt event (codes "step");
      total = opt event (codes "total");
      label = opt event (codes "label");
    })
    else if is_text (codes "result") kind
    then (if truthy (opt event (codes "success"))
        then finish (ok (success_of event))
        else finish (throw (error (or_js (opt event (codes "error")) (str failed)))))
    else skip

-- `event.type` throws when the line is `null`.
unfoldable pub handle_event : Text → Js → Action
unfolding dispatch prop codes
handle_event failed event = elim (prop event (codes "type")) [
  | ok kind ↦ dispatch failed event kind
  | throw e ↦ finish (throw e)
]

module _ (parse_json : Text → Option Js) (failed : Text) where
  -- One round of the inner loop, on a line that is already trimmed.
  handle_line : Text → Action
  handle_line [] = skip
  handle_line (c ∷ line) = elim (parse_json (c ∷ line)) [
    | none ↦ skip
    | some event ↦ handle_event failed event
  ]

  -- The inner loop: the calls of `onProgress` in order, and the end if a line brings it.
  unfoldable pub run_lines : List Text → List Progress × Option (Outcome Success)
  unfolding handle_line
  run_lines [] = ([], none)
  run_lines (raw ∷ lines) =
      let later = run_lines lines in
      elim (handle_line (trim raw)) [
        | skip ↦ later
        | tick p ↦ (p ∷ later.0, later.1)
        | finish r ↦ ([], some r)
      ]

-- `buffer.split('\n')` and `lines.pop()`: the complete lines and the text that is kept.
unfoldable pub complete_lines : List Text → List Text × Text
complete_lines [] = ([], [])
complete_lines (line ∷ []) = ([], line)
complete_lines (line ∷ next ∷ rest) =
    let (lines, kept) = complete_lines (next ∷ rest) in (line ∷ lines, kept)

-- The inner loop's end, or what the rest of the stream gives behind its calls of `onProgress`.
unfoldable pub and_then :
    List Progress × Option (Outcome Success)
    → List Progress × Outcome Success
    → List Progress × Outcome Success
and_then (ticks, some r) rest = (ticks, r)
and_then (ticks, none) rest = (ticks ++ rest.0, rest.1)

module _ (parse_json : Text → Option Js) (failed ended : Text) where
  -- The outer loop over `reader.read()`.
  unfoldable pub read_loop : Text → Chunks → List Progress × Outcome Success
  read_loop buffer done = ([], throw (error (str ended)))
  read_loop buffer (broken e) = ([], throw e)
  read_loop buffer (chunk value later) =
      let (lines, kept) = complete_lines (split b'\n' (buffer ++ value)) in
      and_then (run_lines parse_json failed lines) (read_loop kept later)
