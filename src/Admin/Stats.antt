-- ===== src/Admin/Stats.antt =====
-- `StatsTab` of frontend/src/pages/AdminPage.tsx: the statistics of the machine, asked for every ten seconds, and the
-- analytics of a window of days, asked for every minute and when the window changes. No request is cancelled.
use agentleh_app.Base.{
  take_at, ℕ, zero, suc, ◌+◌, ◌/◌, ◌%◌, false, List, [], ◌∷◌, Option, none, some, ◌==◌, ◌≡◌, arith,
  if◌then◌else◌,
}
use agentleh_app.Js.{Js, Outcome, ok, throw, Error}

pub record Stats : Type 0 where
  pub vm : Option Js  -- `data`
  pub err : Option Error
  pub llm_window : ℕ
  pub llm : Option Js
  pub llm_err : Option Error
  pub vm_pending : ℕ
  pub llm_pending : List ℕ  -- the windows that are asked for, the latest first

-- `load` and `loadLlm`, up to their requests.
unfoldable pub load : Stats → Stats
load s = record s { vm_pending = s.vm_pending + 1 }

unfoldable pub load_llm : Stats → Stats
load_llm s = record s { llm_pending = s.llm_window ∷ s.llm_pending }

-- The rest of them.
unfoldable pub load_answered : Outcome Js → Stats → Stats
load_answered (ok v) s = record s { vm = some v; err = none }
load_answered (throw e) s = record s { err = some e }

unfoldable pub llm_answered : Outcome Js → Stats → Stats
llm_answered (ok v) s = record s { llm = some v; llm_err = none }
llm_answered (throw e) s = record s { llm_err = some e }

-- `setLlmWindow`, and the effect on it.
unfoldable pub pick_window : ℕ → Stats → Stats
unfolding load_llm
pick_window w s = if w == s.llm_window then s else load_llm (record s { llm_window = w })

-- The timers of ten and of sixty seconds, a pick, and answers; those of the analytics by the request's place.
pub data Event : Type 0 where
  ten_seconds minute : Event
  picked : ℕ → Event
  vm_answer : Outcome Js → Event
  llm_answer : ℕ → (ℕ → Outcome Js) → Event

unfoldable pub answer_llm : ℕ → (ℕ → Outcome Js) → Stats → Stats
unfolding llm_answered
answer_llm n f s = elim (take_at n s.llm_pending) [
  | none ↦ s
  | some (w, rest) ↦ llm_answered (f w) (record s { llm_pending = rest })
]

unfoldable pub answer_vm : Outcome Js → Stats → Stats
unfolding load_answered
answer_vm r s = elim s.vm_pending [
  | zero ↦ s
  | suc n ↦ load_answered r (record s { vm_pending = n })
]

unfoldable pub step : Event → Stats → Stats
unfolding load load_llm pick_window answer_vm answer_llm
step ten_seconds s = load s
step minute s = load_llm s
step (picked w) s = pick_window w s
step (vm_answer r) s = answer_vm r s
step (llm_answer n f) s = answer_llm n f s

unfoldable pub run : List Event → Stats → Stats
run [] s = s
run (e ∷ es) s = run es (step e s)

unfoldable pub mounted : Stats
mounted = record {
  vm = none;
  err = none;
  llm_window = 7;
  llm = none;
  llm_err = none;
  vm_pending = 1;
  llm_pending = 7 ∷ [];
}

-- What is rendered: the window of the buttons, with the analytics and their error.
pub data View : Type 0 where
  error_view : Error → View
  loading_view : View
  content : Js → ℕ → Option Js → Option Error → View

unfoldable pub view : Stats → View
view s = elim s.err [
  | some e ↦ error_view e
  | none ↦ elim s.vm [ none ↦ loading_view | some v ↦ content v s.llm_window s.llm s.llm_err ]
]

-- `uptimeDays` and `uptimeHours` of `LiveCard`.
unfoldable pub uptime : ℕ → ℕ × ℕ
uptime seconds = (seconds / 86400, seconds % 86400 / 3600)

-- The analytics of a window are in flight when another window is picked. Where they are answered last, the new window is
-- highlighted above the analytics of the old one.
run-other_window :
    (w : ℕ) (a b v : Js) (f : ℕ → Outcome Js) (s : Stats)
    → s.err ≡ none
    → s.vm ≡ some v
    → s.llm_pending ≡ s.llm_window ∷ []
    → (w == s.llm_window) ≡ false
    → f s.llm_window ≡ ok a
    → f w ≡ ok b
    → view (run (picked w ∷ llm_answer 0 f ∷ llm_answer 0 f ∷ []) s) ≡ content v w (some a) none
unfolding run step pick_window load_llm answer_llm llm_answered take_at view
run-other_window w a b v f s d e q r g h = ground arith
