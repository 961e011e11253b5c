-- ===== src/Chat/Delta.antt =====
-- `handleChatEvent`: what a delta, a final and an aborted event do to the bubbles.
use agentleh_app.Base.{
  ℕ, Bool, true, not, List, [], ◌∷◌, some, Text, codes, or_text, text_eq_refl, find, keep, ◌≡◌, ◌⊎◌,
  refl, arith, inl, inr, Bool-cases,
}
use agentleh_app.Js.{Js, Number, truthy, opt, str, strict_eq}
use agentleh_app.Chat.Message.{Message}
use agentleh_app.Chat.Pane.{
  Platform, Pane, has_run, upsert, is_terminal, bubble, event_text, merge_event, handle_chat_event,
}

has_run-merged :
    (run : Js) (text : Text) (streaming : Bool) (m : Message)
    → has_run run (merge_event text streaming m) ≡ has_run run m
unfolding has_run merge_event
has_run-merged run text streaming m = refl

-- The messages of all other runs, before and after an upsert.
keep-upsert :
    (run : Js) (merge : Message → Message) (fresh : Message) (ms : List Message)
    → ((m : Message) → has_run run (merge m) ≡ has_run run m)
    → has_run run fresh ≡ true
    → keep (λ m. not (has_run run m)) (upsert run merge fresh ms)
      ≡ keep (λ m. not (has_run run m)) ms
unfolding keep upsert
keep-upsert run merge fresh [] same h = rw h
keep-upsert run merge fresh (m ∷ ms) same h =
    ground (arith, same m, keep-upsert run merge fresh ms same h)

-- The bubble of a run after an upsert: the fresh one, or an old one merged.
find-upsert :
    (P : Message → Type 0) (run : Js) (merge : Message → Message) (fresh : Message)
    (ms : List Message)
    → ((m : Message) → has_run run (merge m) ≡ has_run run m)
    → has_run run fresh ≡ true
    → P fresh
    → ((m : Message) → P (merge m))
    → (m : Message) × (find (has_run run) (upsert run merge fresh ms) ≡ some m) × P m
unfolding find upsert
find-upsert P run merge fresh [] same h k l = (fresh, rw h refl, k)
find-upsert P run merge fresh (m ∷ ms) same h k l = elim (Bool-cases (has_run run m)) [
  | inl e ↦ rw e (merge m, rw (same m, e) refl, l m)
  | inr e ↦ rw (e, e) (find-upsert P run merge fresh ms same h k l)
]

-- A bubble that shows an event: its text, unless that is empty, and whether the run goes on.
pub record Shows (text : Text) (streaming : Bool) (m : Message) : Type 0 where
  pub text_shown : (text ≡ []) ⊎ (m.text ≡ text)
  pub still_streaming : m.streaming ≡ streaming

or_text-left : (a b : Text) → (a ≡ []) ⊎ (or_text a b ≡ a)
or_text-left [] b = inl refl
or_text-left (c ∷ a) b = inr refl

merge_event-Shows :
    (text : Text) (streaming : Bool) (m : Message)
    → Shows text streaming (merge_event text streaming m)
unfolding merge_event
merge_event-Shows text streaming m = record {
  text_shown = or_text-left text m.text;
  still_streaming = refl;
}

has_run-bubble :
    (p : Platform) (c : ℕ) (r text : Text) (now : Number) (streaming : Bool)
    → has_run (str (c ∷ r)) (bubble p (str (c ∷ r)) text now streaming) ≡ true
unfolding has_run strict_eq
has_run-bubble p c r text now streaming = text_eq_refl (c ∷ r)

-- A message that `find` returns for the run, and that shows the event.
abbrev pub ShownIn : Js → Text → Bool → List Message → Type 0
ShownIn run text streaming ms =
    (m : Message) × (find (has_run run) ms ≡ some m) × Shows text streaming m

abbrev pub others : Js → List Message → List Message
others run ms = keep (λ m. not (has_run run m)) ms

module _ (p : Platform) (now : Number) (payload : Js) (s : Pane) (c : ℕ) (r : Text) where
  -- An event with a run id that is a text and not empty shows its text, if it has one, in the bubble that the run's
  -- id finds, which streams unless the event is terminal; all messages of other runs, or of none, stay as they are.
  pub handle_chat_event-ShownIn :
      opt payload (codes "runId") ≡ str (c ∷ r)
      → ShownIn
          (str (c ∷ r))
          (event_text p payload)
          (not (is_terminal (opt payload (codes "state"))))
          (handle_chat_event p now payload s).messages
        × (others (str (c ∷ r)) (handle_chat_event p now payload s).messages
            ≡ others (str (c ∷ r)) s.messages)
  unfolding handle_chat_event find event_text is_terminal keep
  handle_chat_event-ShownIn h =
      let text = event_text p payload in
      let streaming = not (is_terminal (opt payload (codes "state"))) in
      let merge = merge_event text streaming in
      let fresh = bubble p (str (c ∷ r)) text now streaming in
      let merged = λ (m : Message). has_run-merged (str (c ∷ r)) text streaming m in
      let own = has_run-bubble p c r text now streaming in
      rw (handle_chat_event, h)
        (
          unfold truthy in
              find-upsert (Shows text streaming) (str (c ∷ r)) merge fresh s.messages merged own
                (record { text_shown = inr refl; still_streaming = refl })
                (merge_event-Shows text streaming),
          unfold truthy in keep-upsert (str (c ∷ r)) merge fresh s.messages merged own,
        )
