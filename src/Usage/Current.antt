-- ===== src/Usage/Current.antt =====
-- What the usage tab shows belongs to the range that is selected, in whatever order the answers come.
use agentleh_app.Base.{
  All-keep, ℕ, ◌+◌, Bool, true, false, not, ◌&&◌, List, [], ◌∷◌, Option, none, some, Text, is_empty,
  keep, ◌==◌, ==_iff, ◌≡◌, ◌<◌, refl, arith, All, ◌⊎◌, inl, inr, Option-cases, Bool-cases, if_elim,
}
use agentleh_app.Js.{Js, Outcome, ok, throw, Error}
use agentleh_app.Usage.{
  current, last_7d, last_30d, custom, RangeSelection, Request, UsageState, range_number, same_time,
  load, set_range, apply_custom_range, last_days, on_pick_kind, arrived, Event, picked, typed_from,
  typed_to, applied, answered, find_request, step, run, mounted, iso_at_start_of_day_utc,
  iso_at_end_of_day_utc,
}
use agentleh_app.Usage.Ranges.{same_range, find_request-All}

module _ (parse : Text → Option ℕ) (fetch : ℕ → RangeSelection → Outcome Js) where
  -- The tab loads; or it shows the usage that the latest request was answered with, and no error; or it shows the error
  -- of the latest request. The latest request is one for the selected range.
  abbrev pub IsCurrent : UsageState → Type 0
  IsCurrent s =
      (s.loading ≡ true)
      ⊎ ((u : Js) × (fetch s.latest s.range ≡ ok u) × (s.usage ≡ some u) × (s.shown_error ≡ none))
      ⊎ ((e : Error) × (fetch s.latest s.range ≡ throw e) × (s.shown_error ≡ some e))

  -- A request is an older one, or the latest one, for the selected range, while the tab loads.
  abbrev Tracked : ℕ → RangeSelection → Bool → Request → Type 0
  Tracked latest range loading q =
      (q.serial < latest) ⊎ ((q.serial ≡ latest) × (q.range ≡ range) × (loading ≡ true))

  record IsTracked (s : UsageState) : Type 0 where
    requests : All (Tracked s.latest s.range s.loading) s.in_flight
    quiet : s.loading ≡ true → s.shown_error ≡ none
    shown : IsCurrent s

  older :
      {latest : ℕ} {range : RangeSelection} {loading : Bool} (range' : RangeSelection) (q : Request)
      → Tracked latest range loading q
      → Tracked (latest + 1) range' true q
  older range' q (inl l) = inl (omega arith)
  older range' q (inr (e, r, o)) = inl (omega arith)

  All-older :
      (latest : ℕ) (a b : RangeSelection) (loading : Bool) (qs : List Request)
      → All (Tracked latest a loading) qs
      → All (Tracked (latest + 1) b true) qs
  All-older latest a b loading [] h = tt
  All-older latest a b loading (q ∷ qs) (h, hs) = (older b q h, All-older latest a b loading qs hs)

  -- Without the latest request, the tab need not load.
  kept :
      (latest : ℕ) (range : RangeSelection) (loading loading' : Bool) (qs : List Request)
      → All (Tracked latest range loading) qs
      → All (Tracked latest range loading') (keep (λ q. not (q.serial == latest)) qs)
  unfolding keep
  kept latest range loading loading' [] h = tt
  kept latest range loading loading' (q ∷ qs) (h, hs) = elim (Bool-cases (q.serial == latest)) [
    | inl e ↦ rw e (kept latest range loading loading' qs hs)
    | inr e ↦ rw e (old h e, kept latest range loading loading' qs hs)
  ]
    where
      old :
          Tracked latest range loading q
          → (q.serial == latest) ≡ false
          → Tracked latest range loading' q
      old (inl l) e = inl l
      old (inr (same, r, o)) e = absurd (ground arith)

  set_range-IsTracked :
      (r : RangeSelection) (s : UsageState) → IsTracked s → IsTracked (set_range r s)
  unfolding set_range load
  set_range-IsTracked r s h =
      elim (Bool-cases (
        same_time r.from s.range.from
        && same_time r.to s.range.to
        && range_number r.kind == range_number s.range.kind)) [
          | inl e ↦ let same = same_range r s.range e in rw (set_range, e, same) h
          | inr e ↦
              rw (set_range, e)
                (record {
                  requests = (
                    inr (refl, refl, refl),
                    All-older s.latest s.range r s.loading s.in_flight h.requests,
                  );
                  quiet = λ l. refl;
                  shown = inl refl;
                })
        ]

  settled :
      (s : UsageState) (o : Outcome Js)
      → IsTracked s
      → fetch s.latest s.range ≡ o
      → s.shown_error ≡ none
      → IsTracked (arrived s.latest o s)
  unfolding arrived
  settled s (ok u) h q none_shown =
      rw (arrived, (==_iff s.latest s.latest).1 refl)
        (record {
          requests = kept s.latest s.range s.loading false s.in_flight h.requests;
          quiet = λ l. none_shown;
          shown = inr (inl (u, q, refl, none_shown));
        })
  settled s (throw e) h q none_shown =
      rw (arrived, (==_iff s.latest s.latest).1 refl)
        (record {
          requests = kept s.latest s.range s.loading false s.in_flight h.requests;
          quiet = λ l. absurd (ground arith);
          shown = inr (inr (e, q, refl));
        })

  latest_answer :
      (serial : ℕ) (r : RangeSelection) (s : UsageState)
      → serial ≡ s.latest
      → r ≡ s.range
      → arrived s.latest (fetch s.latest s.range) s ≡ arrived serial (fetch serial r) s
  latest_answer serial r s e q = cc

  arrived-IsTracked :
      (serial : ℕ) (r : Request) (s : UsageState)
      → IsTracked s
      → find_request serial s.in_flight ≡ some r
      → IsTracked (arrived serial (fetch serial r.range) s)
  unfolding arrived
  arrived-IsTracked serial r s h e = elim (Bool-cases (serial == s.latest)) [
    | inr other ↦
        rw (arrived, other)
          (record {
            requests =
                All-keep (Tracked s.latest s.range s.loading) (λ q. not (q.serial == serial))
                  s.in_flight h.requests;
            quiet = h.quiet;
            shown = h.shown;
          })
    | inl now ↦
        let (tracked, own) =
          find_request-All (Tracked s.latest s.range s.loading) serial s.in_flight r e h.requests in
        let latest : serial ≡ s.latest = (==_iff serial s.latest).0 now in
        let range : r.range ≡ s.range = ground arith in
        let loads : s.loading ≡ true = ground arith in
        rw (← latest_answer serial r.range s latest range)
          (settled s (fetch s.latest s.range) h refl (h.quiet loads))
  ]

  custom-IsTracked :
      (from to : Text) (s : UsageState)
      → IsTracked s
      → IsTracked (apply_custom_range parse from to s)
  unfolding apply_custom_range
  custom-IsTracked from to s h = if_elim IsTracked (is_empty from) s _ h (
      if_elim IsTracked (is_empty to) s _ h (elim (Option-cases (parse from)) [
        | inl e ↦ rw e h
        | inr (a, e) ↦ elim (Option-cases (parse to)) [
          | inl q ↦ rw (e, q) h
          | inr (b, q) ↦
              rw (e, q)
                (set_range-IsTracked
                  (record {
                    kind = custom;
                    from = some (iso_at_start_of_day_utc a);
                    to = some (iso_at_end_of_day_utc b);
                  })
                  s h)
        ]
      ]))

  step-IsTracked : (e : Event) (s : UsageState) → IsTracked s → IsTracked (step parse fetch e s)
  unfolding step on_pick_kind
  step-IsTracked (picked now current) s h =
      set_range-IsTracked (record { kind = current; from = none; to = none }) s h
  step-IsTracked (picked now last_7d) s h = set_range-IsTracked (last_days last_7d 7 now) s h
  step-IsTracked (picked now last_30d) s h = set_range-IsTracked (last_days last_30d 30 now) s h
  step-IsTracked (picked now custom) s h = custom-IsTracked s.custom_from s.custom_to s h
  step-IsTracked (typed_from text) s h = record {
    requests = h.requests;
    quiet = h.quiet;
    shown = h.shown;
  }
  step-IsTracked (typed_to text) s h = record {
    requests = h.requests;
    quiet = h.quiet;
    shown = h.shown;
  }
  step-IsTracked applied s h = custom-IsTracked s.custom_from s.custom_to s h
  step-IsTracked (answered serial) s h = elim (Option-cases (find_request serial s.in_flight)) [
    | inl e ↦ rw (step, e) h
    | inr (r, e) ↦ rw (step, e) (arrived-IsTracked serial r s h e)
  ]

  run-IsTracked :
      (es : List Event) (s : UsageState) → IsTracked s → IsTracked (run parse fetch es s)
  unfolding run
  run-IsTracked [] s h = h
  run-IsTracked (e ∷ es) s h = run-IsTracked es (step parse fetch e s) (step-IsTracked e s h)

  -- Whatever ranges are picked, dates typed and requests answered, and in whatever order, the tab loads, or shows the
  -- usage that the request for the selected range was answered with, or shows that request's error: an answer that comes
  -- late for another range is never shown.
  pub run-IsCurrent :
      (es : List Event) (from to : Text) → IsCurrent (run parse fetch es (mounted from to))
  unfolding mounted load
  run-IsCurrent es from to =
      (run-IsTracked es (mounted from to) (record {
        requests = (inr (refl, refl, refl), tt);
        quiet = λ l. refl;
        shown = inl refl;
      })).shown
