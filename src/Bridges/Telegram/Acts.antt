-- ===== src/Bridges/Telegram/Acts.antt =====
-- What an event of the dialog keeps by itself.
use agentleh_app.Base.{
  ℕ, ◌+◌, false, not, ◌&&◌, List, ◌∷◌, some, ◌==◌, ◌≡◌, ◌<◌, refl, arith, inl, inr, Option-cases,
  if_elim, is_empty, trim, any,
}
use agentleh_app.Js.{ok, throw, Outcome}
use agentleh_app.Bridges.Telegram.Runs.{take_run-count, All-take_close}
use agentleh_app.Bridges.Telegram.{
  Status, Round, Dialog, is_waiting, is_live, again, take_run, take_close, tick, poll_answered,
  close_fired, save_telegram, save_answered, start_answered, open_telegram_modal, Answer, pending,
  error, Event, opened, closed, retried, saving, picked, typed, start_arrived, ticked, poll_arrived,
  close_due, save_arrived, act,
}
use agentleh_app.Bridges.Telegram.Ready.{Ready, IsReady, Ready-still, Ready-fewer}

-- No event touches the live run or the count of runs.
pub act-live : (now : ℕ) (e : Event) (s : Dialog) → (act now e s).live ≡ s.live
unfolding act open_telegram_modal save_telegram start_answered tick poll_answered close_fired
    save_answered
act-live now opened s = refl
act-live now closed s = refl
act-live now retried s = refl
act-live now saving s = ground arith
act-live now (picked tab) s = refl
act-live now (typed text) s = refl
act-live now (start_arrived (ok n)) s = refl
act-live now (start_arrived (throw e)) s = refl
act-live now (ticked r) s = ground arith
act-live now (poll_arrived r (ok pending)) s = ground arith
act-live now (poll_arrived r (ok Answer.connected)) s = ground arith
act-live now (poll_arrived r (ok (error e))) s = ground arith
act-live now (poll_arrived r (throw e)) s = ground arith
act-live now (close_due r) s = ground arith
act-live now (save_arrived (ok u)) s = refl
act-live now (save_arrived (throw e)) s = refl

tick-IsReady :
    (now r : ℕ) (k : Round) (ks : List Round) (s : Dialog)
    → take_run r s.ticks ≡ some (k, ks)
    → IsReady s
    → IsReady (tick now k (record s { ticks = ks }))
unfolding tick
tick-IsReady now r k ks s e h =
    let dropped =
      Ready-fewer h ks s.polls (λ i. omega (arith, (take_run-count r i s.ticks k ks e).1)) in
    if_elim IsReady (not (is_live k.effect_run s.live)) (record s { ticks = ks }) _ dropped
      (if_elim IsReady _ (record s { ticks = ks; status = Status.expired })
        (record s { ticks = ks; polls = k ∷ s.polls; polled = s.polled + 1 }) (Ready-still dropped)
        (Ready-fewer h ks (k ∷ s.polls) (λ i. ground (arith, take_run-count r i s.ticks k ks e))))

poll_answered-IsReady :
    (r : ℕ) (a : Outcome Answer) (k : Round) (ks : List Round) (s : Dialog)
    → take_run r s.polls ≡ some (k, ks)
    → IsReady s
    → IsReady (poll_answered k a (record s { polls = ks }))
unfolding poll_answered
poll_answered-IsReady r a k ks s e h = by_answer a
  where
    dropped : IsReady (record s { polls = ks })
    dropped = Ready-fewer h s.ticks ks (λ i. omega (arith, (take_run-count r i s.polls k ks e).1))

    moved : IsReady (record s { polls = ks; ticks = again k ∷ s.ticks })
    moved =
        Ready-fewer h (again k ∷ s.ticks) ks
          (λ i. ground (arith, take_run-count r i s.polls k ks e))

    known : k.effect_run < s.next_run
    known = ground (arith, take_run-count r r s.polls k ks e, h.fresh r)

    connects : IsReady (record s {
      polls = ks;
      status = Status.connected;
      refreshed = s.refreshed + 1;
      closes = k.effect_run ∷ s.closes;
    })
    connects = record {
      single = dropped.single;
      fresh = dropped.fresh;
      live_old = h.live_old;
      closes_old = (known, h.closes_old);
      closes_done = (ground arith, (Ready-still h).closes_done);
    }

    by_answer : (a : Outcome Answer) → IsReady (poll_answered k a (record s { polls = ks }))
    by_answer (throw x) = moved
    by_answer (ok pending) = if_elim IsReady (is_live k.effect_run s.live) _ _ moved dropped
    by_answer (ok Answer.connected) =
        if_elim IsReady (is_live k.effect_run s.live) _ _ connects dropped
    by_answer (ok (error x)) =
        if_elim IsReady (is_live k.effect_run s.live) _ _ (Ready-still dropped) dropped

pub act-IsReady : (now : ℕ) (e : Event) (s : Dialog) → IsReady s → IsReady (act now e s)
unfolding act open_telegram_modal save_telegram start_answered close_fired save_answered
act-IsReady now opened s h = Ready-still h
act-IsReady now closed s h = h
act-IsReady now retried s h = Ready-still h
act-IsReady now saving s h = if_elim IsReady (is_empty (trim s.token)) s _ h h
act-IsReady now (picked tab) s h = h
act-IsReady now (typed text) s h = h
act-IsReady now (start_arrived (ok n)) s h = h
act-IsReady now (start_arrived (throw e)) s h = Ready-still h
act-IsReady now (ticked r) s h = elim (Option-cases (take_run r s.ticks)) [
  | inl e ↦ rw (act, e) h
  | inr ((k, ks), e) ↦ rw (act, e) (tick-IsReady now r k ks s e h)
]
act-IsReady now (poll_arrived r a) s h = elim (Option-cases (take_run r s.polls)) [
  | inl e ↦ rw (act, e) h
  | inr ((k, ks), e) ↦ rw (act, e) (poll_answered-IsReady r a k ks s e h)
]
act-IsReady now (close_due r) s h =
    let left : Ready s.live s.next_run s.ticks s.polls (take_close r s.closes)
        (is_waiting s.status) =
      record {
        single = h.single;
        fresh = h.fresh;
        live_old = h.live_old;
        closes_old = All-take_close (λ c. c < s.next_run) r s.closes h.closes_old;
        closes_done =
            All-take_close (λ c. (is_live c s.live && is_waiting s.status) ≡ false) r s.closes
              h.closes_done;
      } in
    if_elim IsReady (any (λ c. c == r) s.closes) _ s
      (if_elim IsReady (is_live r s.live) _ _ left left) h
act-IsReady now (save_arrived (ok u)) s h = h
act-IsReady now (save_arrived (throw e)) s h = h
