-- ===== src/Chat/Frames.antt =====
-- `handleFrame` of frontend/src/components/ChatPane.tsx, by the kinds of frames. An exception in
-- it is reported by the browser and changes nothing.
use agentleh_app.Base.{
  if_elim, Option-cases, inl, inr, ℕ, suc, Bool, true, false, ◌&&◌, List, [], ◌∷◌, ◌++◌, Option,
  none, some, Text, codes, text_eq, is_empty, if◌then◌else◌, any, last?,
}
use agentleh_app.Js.{
  Js, null, num, arr, obj, Number, finite, truthy, or_js, nullish, opt, is_text, items, fields,
}
use agentleh_app.Chat.Message.{Message, system, extract_text, normalize_role}
use agentleh_app.Chat.Pane.{
  Platform, connected, Pane, has_run, bubble, system_message, as_text, handle_chat_event, request,
}

abbrev pub limit_50 : Js
limit_50 = num (finite false 50 1075)

-- The frame `ready`: the session is open, and its history is asked for.
unfoldable pub handle_ready : Platform → Js → Pane → Pane
handle_ready p frame s =
    request p (codes "chat.history")
      (obj (
        fields
          ((codes "sessionKey", opt frame (codes "sessionKey")) ∷ (codes "limit", limit_50) ∷ [])))
      (record s {
        session_key = or_js (opt frame (codes "sessionKey")) null;
        can_send = true;
        conn = connected;
      })

unfoldable pub is_repeated : Text → Option Message → Bool
is_repeated text none = false
is_repeated text (some m) = elim m.role [ system ↦ text_eq m.text text | _ ↦ false ]

-- The frame `error`, which repeats no system message that is the last.
unfoldable pub handle_error : Platform → Number → Js → Pane → Pane
handle_error p now frame s =
    let text = codes "Proxy error: " ++ p.show (opt frame (codes "error")) in
    if is_repeated text (last? s.messages) then s else record s {
      messages = s.messages ++ system_message (codes "err-" ++ p.show (num now)) text now ∷ [];
    }

-- `typeof m?.ts === 'number' ? m.ts : Date.parse(m?.createdAt || '') || Date.now()`
unfoldable pub history_ts : Platform → Number → Js → Number
history_ts p now m = elim (opt m (codes "ts")) [
  | num n ↦ n
  | _ ↦
      (let parsed = p.parse_date (as_text p (opt m (codes "createdAt"))) in
        if truthy (num parsed) then parsed else now)
]

-- One message of the history, or nothing where it has no role or no text.
unfoldable pub history_message : Platform → Number → ℕ → Js → Option Message
unfolding history_ts
history_message p now idx m = elim (normalize_role p.lower (opt m (codes "role"))) [
  | none ↦ none
  | some role ↦
      (let text = extract_text m in
        if is_empty text
        then none
        else some (record {
          id =
              if truthy (opt m (codes "id"))
              then p.show (opt m (codes "id"))
              else codes "h-" ++ p.decimal idx ++ codes "-" ++ p.show (num now);
          role = role;
          text = text;
          ts = history_ts p now m;
          streaming = false;
          run_id = none;
        }))
]

unfoldable pub load_history : Platform → Number → ℕ → List Js → List Message
unfolding history_message
load_history p now idx [] = []
load_history p now idx (m ∷ ms) =
    let later = load_history p now (suc idx) ms in
    elim (history_message p now idx m) [ none ↦ later | some x ↦ x ∷ later ]

-- `loaded.length > 0`
abbrev pub replace_unless_empty : List Message → List Message → List Message
replace_unless_empty [] old = old
replace_unless_empty (x ∷ loaded) old = x ∷ loaded

-- `body.runId` of the response to a `chat.send`: an empty bubble, unless the run has one.
unfoldable pub handle_run_started : Platform → Number → Js → Pane → Pane
handle_run_started p now run s =
    if truthy run
    then record s {
      streaming_run = some run;
      messages =
          if any (has_run run) s.messages
          then s.messages
          else s.messages ++ bubble p run [] now true ∷ [];
    }
    else s

-- The body of a `res` frame, by its `messages` and its `runId`.
unfoldable pub handle_body : Platform → Number → Js → Js → Pane → Pane
handle_body p now (arr ms) run s = record s {
  messages = replace_unless_empty (load_history p now 0 (items ms)) s.messages;
}
handle_body p now _ run s = handle_run_started p now run s

-- The frame `res`.
unfoldable pub handle_res : Platform → Number → Js → Pane → Pane
handle_res p now frame s =
    let body =
      nullish (opt frame (codes "payload"))
        (nullish (opt frame (codes "result")) (obj (fields []))) in
    handle_body p now (opt body (codes "messages")) (opt body (codes "runId")) s

unfoldable pub handle_parsed : Platform → Number → Js → Pane → Pane
handle_parsed p now frame s =
    let kind = opt frame (codes "type") in
    if is_text (codes "ready") kind
    then handle_ready p frame s
    else if is_text (codes "error") kind
    then handle_error p now frame s
    else if is_text (codes "res") kind
    then handle_res p now frame s
    else if is_text (codes "event") kind && is_text (codes "chat") (opt frame (codes "event"))
    then handle_chat_event p now (or_js (opt frame (codes "payload")) (obj (fields []))) s
    else s

-- `handleFrame`: a text that is no JSON is dropped; the frame `null` throws, and changes nothing.
unfoldable pub handle_frame : Platform → Number → Text → Pane → Pane
handle_frame p now raw s = elim (p.parse_json raw) [
  | none ↦ s
  | some frame ↦ handle_parsed p now frame s
]

-- What every kind of frame keeps, a frame keeps.
module _ {κ} (P : Pane → Type κ) (p : Platform) (now : Number) (s : Pane) (same : P s) where
  pub handle_parsed_elim :
      (f : Js)
      → P (handle_ready p f s)
      → P (handle_error p now f s)
      → P (handle_res p now f s)
      → P (handle_chat_event p now (or_js (opt f (codes "payload")) (obj (fields []))) s)
      → P (handle_parsed p now f s)
  unfolding handle_parsed
  handle_parsed_elim f ready error res chat =
      let kind = opt f (codes "type") in
      let at_chat = handle_chat_event p now (or_js (opt f (codes "payload")) (obj (fields []))) s in
      let is_chat =
        is_text (codes "event") kind && is_text (codes "chat") (opt f (codes "event")) in
      let last = if is_chat then at_chat else s in
      let third = if is_text (codes "res") kind then handle_res p now f s else last in
      let second = if is_text (codes "error") kind then handle_error p now f s else third in
      if_elim P (is_text (codes "ready") kind) (handle_ready p f s) second ready (
        if_elim P (is_text (codes "error") kind) (handle_error p now f s) third error (
          if_elim P (is_text (codes "res") kind) (handle_res p now f s) last res
            (if_elim P is_chat at_chat s chat same)))

  pub handle_frame_elim :
      (raw : Text) → ((f : Js) → P (handle_parsed p now f s)) → P (handle_frame p now raw s)
  unfolding handle_frame
  handle_frame_elim raw h = elim (Option-cases (p.parse_json raw)) [
    | inl e ↦ rw (handle_frame, e) same
    | inr (f, e) ↦ rw (handle_frame, e) (h f)
  ]
