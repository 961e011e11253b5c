-- ===== src/Chat/Waiting.antt =====
-- Which run the pane waits for (`streamingRunId`), and what Enter does meanwhile.
use agentleh_app.Base.{
  Bool, true, false, not, ◌&&◌, ◌||◌, List, [], ◌∷◌, none, some, Text, codes, All, if◌then◌else◌,
  ◌≡◌, refl, ◌∙◌, arith, inl, inr, Option-cases,
}
use agentleh_app.Js.{Js, arr, null, obj, Number, truthy, opt, is_text, nullish, fields, or_js}
use agentleh_app.Chat.Pane.{
  Platform, Pane, is_terminal, handle_chat_event, request, send_frame, connected,
}
use agentleh_app.Chat.Frames.{
  handle_run_started, limit_50, handle_body, handle_res, handle_ready, handle_error, handle_parsed,
  handle_frame,
}
use agentleh_app.Chat.Socket.{
  Event, frame, opened, failed, shut, dialled, typed, sending, aborting, left, step, run, on_open,
  on_error, on_close, connect, unmount, send_message, abort_stream, on_enter,
}

is_history : Js → Bool
is_history (arr ms) = true
is_history _ = false

res_body : Js → Js
res_body f = nullish (opt f (codes "payload")) (nullish (opt f (codes "result")) (obj (fields [])))

-- A frame that neither starts a run nor carries a terminal chat event.
pub quiet_frame : Js → Bool
quiet_frame f =
    let kind = opt f (codes "type") in
    if is_text (codes "ready") kind || is_text (codes "error") kind
    then true
    else if is_text (codes "res") kind
    then is_history (opt (res_body f) (codes "messages"))
      || not (truthy (opt (res_body f) (codes "runId")))
    else if is_text (codes "event") kind && is_text (codes "chat") (opt f (codes "event"))
    then not (is_terminal (opt (or_js (opt f (codes "payload")) (obj (fields []))) (codes "state")))
    else true

-- An event that is no frame, or a frame that is quiet or no JSON.
abbrev pub IsQuiet : Platform → Event → Type 0
IsQuiet p (frame now raw) = (f : Js) → p.parse_json raw ≡ some f → quiet_frame f ≡ true
IsQuiet p opened = Unit
IsQuiet p failed = Unit
IsQuiet p (shut now code reason denied) = Unit
IsQuiet p (dialled now url failure) = Unit
IsQuiet p (typed text) = Unit
IsQuiet p (sending now) = Unit
IsQuiet p aborting = Unit
IsQuiet p left = Unit

module _ (p : Platform) where
  request-streaming_run :
      (method : Text) (params : Js) (s : Pane)
      → (request p method params s).streaming_run ≡ s.streaming_run
  unfolding request
  request-streaming_run method params s = ground arith

  handle_body-streaming_run :
      (now : Number) (messages r : Js) (s : Pane)
      → is_history messages || not (truthy r) ≡ true
      → (handle_body p now messages r s).streaming_run ≡ s.streaming_run
  unfolding handle_body handle_run_started is_history
  handle_body-streaming_run now (arr ms) r s h = refl
  handle_body-streaming_run now _ r s h = ground arith

  handle_error-streaming_run :
      (now : Number) (f : Js) (s : Pane) → (handle_error p now f s).streaming_run ≡ s.streaming_run
  unfolding handle_error
  handle_error-streaming_run now f s = ground arith

  handle_chat_event-streaming_run :
      (now : Number) (payload : Js) (s : Pane)
      → is_terminal (opt payload (codes "state")) ≡ false
      → (handle_chat_event p now payload s).streaming_run ≡ s.streaming_run
  unfolding handle_chat_event
  handle_chat_event-streaming_run now payload s h = ground arith

  handle_parsed-streaming_run :
      (now : Number) (f : Js) (s : Pane)
      → quiet_frame f ≡ true
      → (handle_parsed p now f s).streaming_run ≡ s.streaming_run
  unfolding handle_parsed quiet_frame res_body handle_ready handle_res
  handle_parsed-streaming_run now f s h =
      let params = obj (
        fields
          ((codes "sessionKey", opt f (codes "sessionKey")) ∷ (codes "limit", limit_50) ∷ [])) in
      let open_pane = record s {
        session_key = or_js (opt f (codes "sessionKey")) null;
        can_send = true;
        conn = connected;
      } in
      let payload = or_js (opt f (codes "payload")) (obj (fields [])) in
      ground (
        arith,
        request-streaming_run (codes "chat.history") params open_pane,
        handle_error-streaming_run now f s,
        handle_body-streaming_run now (opt (res_body f) (codes "messages"))
            (opt (res_body f) (codes "runId")) s,
        handle_chat_event-streaming_run now payload s,
      )

  step-streaming_run :
      (e : Event) (s : Pane) → IsQuiet p e → (step p e s).streaming_run ≡ s.streaming_run
  unfolding step on_open on_error unmount handle_frame
  step-streaming_run (frame now raw) s h = elim (Option-cases (p.parse_json raw)) [
    | inl e ↦ rw (handle_frame, e) refl
    | inr (f, e) ↦ rw (handle_frame, e) (handle_parsed-streaming_run now f s (h f e))
  ]
  step-streaming_run (shut now code reason denied) s h = unfold on_close in ground arith
  step-streaming_run (dialled now (some url) failure) s h = unfold connect in refl
  step-streaming_run (dialled now none failure) s h = unfold connect in refl
  step-streaming_run (sending now) s h = unfold send_message request send_frame in ground arith
  step-streaming_run aborting s h = unfold abort_stream request send_frame in ground arith
  step-streaming_run opened s h = refl
  step-streaming_run failed s h = refl
  step-streaming_run (typed text) s h = refl
  step-streaming_run left s h = refl

  -- While only quiet events come, closed and opened connections and the reloaded history among them, the pane
  -- waits for the same run.
  run-streaming_run :
      (es : List Event) (s : Pane)
      → All (IsQuiet p) es
      → (run p es s).streaming_run ≡ s.streaming_run
  unfolding run
  run-streaming_run [] s h = refl
  run-streaming_run (e ∷ es) s (h, hs) =
      run-streaming_run es (step p e s) hs ∙ step-streaming_run e s h

  enter_waits :
      (now : Number) (s : Pane) {r : Js}
      → s.streaming_run ≡ some r
      → ((on_enter p now s).messages ≡ s.messages)
        × ((on_enter p now s).input ≡ s.input)
        × ((on_enter p now s).streaming_run ≡ some r)
  unfolding on_enter abort_stream request send_frame
  enter_waits now s w = ground arith

  -- A pane that waits for a run goes on waiting through all quiet events, lost connections and reloaded histories
  -- among them, and meanwhile Enter neither adds a message nor clears the input.
  pub run-on_enter :
      (es : List Event) (now : Number) (s : Pane) {r : Js}
      → s.streaming_run ≡ some r
      → All (IsQuiet p) es
      → ((on_enter p now (run p es s)).messages ≡ (run p es s).messages)
        × ((on_enter p now (run p es s)).input ≡ (run p es s).input)
        × ((on_enter p now (run p es s)).streaming_run ≡ some r)
  run-on_enter es now s w h = enter_waits now (run p es s) (run-streaming_run es s h ∙ w)
