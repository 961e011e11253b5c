-- ===== src/Chat/Invariant.antt =====
-- What holds of the chat pane after any events: no run has two bubbles.
use agentleh_app.Base.{
  if_elim, ℕ, true, List, [], ◌∷◌, ◌++◌, Option, none, some, Text, codes, any, ◌==◌, ◌≡◌, refl,
  arith, inl, inr, Bool-cases, last?,
}
use agentleh_app.Js.{Js, arr, Number, truthy, opt, items}
use agentleh_app.Chat.Message.{Message}
use agentleh_app.Chat.Pane.{Platform, Pane, mounted, has_run, bubble, request}
use agentleh_app.Chat.Frames.{
  replace_unless_empty, load_history, is_repeated, handle_body, handle_run_started, handle_res,
  handle_ready, handle_error, handle_frame, handle_frame_elim, handle_parsed_elim,
}
use agentleh_app.Chat.Socket.{
  Event, frame, shut, dialled, sending, aborting, step, run, on_open, on_error, on_close, connect,
  unmount, send_message, abort_stream, policy_violation,
}
use agentleh_app.Chat.Bubbles.{
  Unique, NoRuns, Unique-append, Unique-NoRuns, load_history-NoRuns, Unique-plain,
  handle_chat_event-Unique,
}

module _ (p : Platform) where
  request-messages :
      (method : Text) (params : Js) (s : Pane) → (request p method params s).messages ≡ s.messages
  unfolding request
  request-messages method params s = ground arith

  replace-Unique :
      (loaded old : List Message)
      → NoRuns loaded
      → Unique old
      → Unique (replace_unless_empty loaded old)
  replace-Unique [] old h k = k
  replace-Unique (x ∷ loaded) old h k = Unique-NoRuns (x ∷ loaded) h

  handle_run_started-Unique :
      (now : Number) (r : Js) (s : Pane)
      → Unique s.messages
      → Unique (handle_run_started p now r s).messages
  unfolding handle_run_started
  handle_run_started-Unique now r s h = elim (Bool-cases (truthy r)) [
    | inr e ↦ rw e h
    | inl e ↦ (elim (Bool-cases (any (has_run r) s.messages)) [
      | inl k ↦ rw (e, k) h
      | inr k ↦
          rw (e, k) (Unique-append s.messages (bubble p r [] now true) h (λ q same. ground arith))
    ])
  ]

  handle_body-Unique :
      (now : Number) (messages r : Js) (s : Pane)
      → Unique s.messages
      → Unique (handle_body p now messages r s).messages
  unfolding handle_body
  handle_body-Unique now (arr ms) r s h =
      replace-Unique (load_history p now 0 (items ms)) s.messages
        (load_history-NoRuns p now 0 (items ms)) h
  handle_body-Unique now _ r s h = handle_run_started-Unique now r s h

  handle_error-Unique :
      (now : Number) (f : Js) (s : Pane)
      → Unique s.messages
      → Unique (handle_error p now f s).messages
  unfolding handle_error
  handle_error-Unique now f s h =
      elim (Bool-cases (
        is_repeated (codes "Proxy error: " ++ p.show (opt f (codes "error"))) (last? s.messages))) [
          | inl e ↦ rw e h
          | inr e ↦ rw e (Unique-plain s.messages _ refl h)
        ]

  handle_ready-Unique :
      (f : Js) (s : Pane) → Unique s.messages → Unique (handle_ready p f s).messages
  unfolding handle_ready
  handle_ready-Unique f s h = rw request-messages h

  handle_res-Unique :
      (now : Number) (f : Js) (s : Pane)
      → Unique s.messages
      → Unique (handle_res p now f s).messages
  unfolding handle_res
  handle_res-Unique now f s h = handle_body-Unique now _ _ s h

  handle_frame-Unique :
      (now : Number) (raw : Text) (s : Pane)
      → Unique s.messages
      → Unique (handle_frame p now raw s).messages
  handle_frame-Unique now raw s h =
      let P = λ (t : Pane). Unique t.messages in
      handle_frame_elim P p now s h raw λ f.
        handle_parsed_elim P p now s h f (handle_ready-Unique f s h) (handle_error-Unique now f s h)
          (handle_res-Unique now f s h) (handle_chat_event-Unique p now _ s h)

  connect-Unique :
      (now : Number) (url : Option Text) (failure : Text) (s : Pane)
      → Unique s.messages
      → Unique (connect now p url failure s).messages
  unfolding connect
  connect-Unique now none failure s h = Unique-plain s.messages _ refl h
  connect-Unique now (some u) failure s h = h

  on_close-Unique :
      (now : Number) (code : ℕ) (reason denied : Text) (s : Pane)
      → Unique s.messages
      → Unique (on_close now p code reason denied s).messages
  unfolding on_close
  on_close-Unique now code reason denied s h = elim (Bool-cases (code == policy_violation)) [
    | inl e ↦ rw e (Unique-plain s.messages _ refl h)
    | inr e ↦ rw e h
  ]

  send_message-Unique :
      (now : Number) (s : Pane) → Unique s.messages → Unique (send_message p now s).messages
  unfolding send_message
  send_message-Unique now s h =
      if_elim (λ (t : Pane). Unique t.messages) _ _ s (Unique-plain s.messages _ refl h) h

  abort_stream-Unique : (s : Pane) → Unique s.messages → Unique (abort_stream p s).messages
  unfolding abort_stream request
  abort_stream-Unique s h = ground arith

  -- Every event keeps the bubbles of the runs apart.
  pub step-Unique : (e : Event) (s : Pane) → Unique s.messages → Unique (step p e s).messages
  unfolding step on_open on_error unmount
  step-Unique (frame now raw) s h = handle_frame-Unique now raw s h
  step-Unique (shut now code reason denied) s h = on_close-Unique now code reason denied s h
  step-Unique (dialled now url failure) s h = connect-Unique now url failure s h
  step-Unique (sending now) s h = send_message-Unique now s h
  step-Unique aborting s h = abort_stream-Unique s h
  step-Unique _ s h = h

  run_from-Unique : (es : List Event) (s : Pane) → Unique s.messages → Unique (run p es s).messages
  unfolding run
  run_from-Unique [] s h = h
  run_from-Unique (e ∷ es) s h = run_from-Unique es (step p e s) (step-Unique e s h)

  -- Whatever events follow the mount, no two messages belong to one run.
  pub run-Unique : (es : List Event) → Unique (run p es mounted).messages
  run-Unique es = run_from-Unique es mounted (unfold mounted in tt)
