-- ===== src/Chat/Bubbles.antt =====
-- The bubbles of the chat pane: one for each run, and which run the pane waits for.
use agentleh_app.Base.{
  ℕ, suc, Bool, true, false, ◌||◌, List, [], ◌∷◌, ◌++◌, none, some, codes, text_eq_iff, All, any,
  ◌≡◌, refl, sym, ◌∙◌, arith, inl, inr, Bool-cases, Option-cases,
}
use agentleh_app.Js.{
  Js, num, str, Number, infinite, finite, truthy, strict_eq, strict_eq_number, opt,
}
use agentleh_app.Chat.Message.{Message}
use agentleh_app.Chat.Pane.{merge_event, Platform, Pane, has_run, upsert, handle_chat_event}
use agentleh_app.Chat.Frames.{load_history}
use agentleh_app.Chat.Socket.{run}

strict_eq_number_trans :
    (a b c : Number)
    → strict_eq_number a c ≡ true
    → strict_eq_number b c ≡ true
    → strict_eq_number a b ≡ true
unfolding strict_eq_number
strict_eq_number_trans (finite s m e) (finite t n f) (finite r k g) h1 h2 = ground arith
strict_eq_number_trans (infinite a) (infinite b) (infinite c) h1 h2 = ground arith
strict_eq_number_trans _ _ _ h1 h2 = ground arith

-- Values that equal a third are equal.
strict_eq-join : (a b c : Js) → strict_eq a c ≡ true → strict_eq b c ≡ true → strict_eq a b ≡ true
unfolding strict_eq
strict_eq-join (str a) (str b) (str c) h1 h2 =
    ground (arith, text_eq_iff a c, text_eq_iff b c, text_eq_iff a b)
strict_eq-join (num a) (num b) (num c) h1 h2 = strict_eq_number_trans a b c h1 h2
strict_eq-join _ _ _ h1 h2 = ground arith

-- No later message has the run of `m`.
abbrev pub Apart : Message → List Message → Type 0
Apart m ms = (run : Js) → m.run_id ≡ some run → any (has_run run) ms ≡ false

-- No two messages belong to one run.
abbrev pub Unique : List Message → Type 0
Unique [] = Unit
Unique (m ∷ ms) = Apart m ms × Unique ms

strict_eq_number-sym : (a b : Number) → strict_eq_number a b ≡ true → strict_eq_number b a ≡ true
unfolding strict_eq_number
strict_eq_number-sym (finite s m e) (finite t n f) h = ground arith
strict_eq_number-sym (infinite a) (infinite b) h = ground arith
strict_eq_number-sym _ _ h = ground arith

strict_eq-sym : (a b : Js) → strict_eq a b ≡ true → strict_eq b a ≡ true
unfolding strict_eq
strict_eq-sym (str a) (str b) h = ground (arith, text_eq_iff a b, text_eq_iff b a)
strict_eq-sym (num a) (num b) h = strict_eq_number-sym a b h
strict_eq-sym _ _ h = ground arith

has_run-of :
    (run : Js) (m : Message)
    → has_run run m ≡ true
    → (r : Js) × (m.run_id ≡ some r) × (strict_eq r run ≡ true)
unfolding has_run
has_run-of run m h = elim (Option-cases m.run_id) [
  | inl e ↦ absurd (let k : (has_run run m ≡ true) = h in (ground arith))
  | inr (r, e) ↦ (r, e, rw (← h, e) refl)
]

any-append : (p : Message → Bool) (xs ys : List Message) → any p (xs ++ ys) ≡ (any p xs || any p ys)
unfolding any
any-append p [] ys = refl
any-append p (x ∷ xs) ys = ground (arith, any-append p xs ys)

any-upsert :
    (r run : Js) (merge : Message → Message) (fresh : Message) (ms : List Message)
    → ((m : Message) → (merge m).run_id ≡ m.run_id)
    → any (has_run r) ms ≡ false
    → has_run r fresh ≡ false
    → any (has_run r) (upsert run merge fresh ms) ≡ false
unfolding any upsert has_run
any-upsert r run merge fresh [] keep h k = ground arith
any-upsert r run merge fresh (m ∷ ms) keep h k =
    ground (arith, keep m, any-upsert r run merge fresh ms keep)

has_run_of_eq :
    (m : Message) (r q : Js) → m.run_id ≡ some q → strict_eq q r ≡ true → has_run r m ≡ true
unfolding has_run
has_run_of_eq m r q e h = rw e h

-- A message whose own run is not that of `m` has not the run of `m` either.
Apart-fresh :
    (m x : Message) (run : Js)
    → m.run_id ≡ some run
    → ((r : Js) → x.run_id ≡ some r → has_run r m ≡ false)
    → has_run run x ≡ false
Apart-fresh m x run e other = elim (Bool-cases (has_run run x)) [
  | inr h ↦ h
  | inl h ↦
      (let (r, k, same) = has_run-of run x h in
        cc (has_run_of_eq m r run e (strict_eq-sym r run same), other r k))
]

pub Unique-append :
    (ms : List Message) (x : Message)
    → Unique ms
    → ((r : Js) → x.run_id ≡ some r → any (has_run r) ms ≡ false)
    → Unique (ms ++ x ∷ [])
unfolding any
Unique-append [] x h other = (λ run e. refl, tt)
Unique-append (m ∷ ms) x (apart, h) other = (
  λ run e.
      rw (any-append (has_run run) ms (x ∷ []), apart run e)
        (ground (arith, Apart-fresh m x run e (λ r k. ground (arith, other r k)))),
  Unique-append ms x h (λ r k. ground (arith, other r k)),
)

Unique-upsert :
    (run : Js) (merge : Message → Message) (fresh : Message) (ms : List Message)
    → ((m : Message) → (merge m).run_id ≡ m.run_id)
    → fresh.run_id ≡ some run
    → Unique ms
    → Unique (upsert run merge fresh ms)
unfolding upsert
Unique-upsert run merge fresh [] keep e h = (λ r k. (unfold any in refl), tt)
Unique-upsert run merge fresh (m ∷ ms) keep e (apart, h) = elim (Bool-cases (has_run run m)) [
  | inl k ↦ rw k (λ r q. apart r (sym (keep m) ∙ q), h)
  | inr k ↦ rw k (
    λ r q.
        any-upsert r run merge fresh ms keep (apart r q)
          (Apart-fresh m fresh r q (λ r2 q2. ground arith)),
    Unique-upsert run merge fresh ms keep e h,
  )
]

pub handle_chat_event-Unique :
    (p : Platform) (now : Number) (payload : Js) (s : Pane)
    → Unique s.messages
    → Unique (handle_chat_event p now payload s).messages
unfolding handle_chat_event upsert merge_event
handle_chat_event-Unique p now payload s h =
    elim (Bool-cases (truthy (opt payload (codes "runId")))) [
      | inl e ↦ rw e (Unique-upsert _ _ _ s.messages (λ m. refl) refl h)
      | inr e ↦ rw e h
    ]

-- A list of messages without runs.
abbrev pub NoRuns : List Message → Type 0
NoRuns ms = All (λ m. m.run_id ≡ none) ms

pub Unique-NoRuns : (ms : List Message) → NoRuns ms → Unique ms
Unique-NoRuns [] h = tt
Unique-NoRuns (m ∷ ms) (e, h) = (λ run k. cc, Unique-NoRuns ms h)

pub load_history-NoRuns :
    (p : Platform) (now : Number) (idx : ℕ) (ms : List Js) → NoRuns (load_history p now idx ms)
unfolding load_history
load_history-NoRuns p now idx [] = tt
load_history-NoRuns p now idx (m ∷ ms) = ground (arith, load_history-NoRuns p now (suc idx) ms)

-- Appending a message without a run.
pub Unique-plain :
    (ms : List Message) (x : Message) → x.run_id ≡ none → Unique ms → Unique (ms ++ x ∷ [])
Unique-plain ms x e h = Unique-append ms x h (λ r k. cc)
