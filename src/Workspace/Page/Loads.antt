-- ===== src/Workspace/Page/Loads.antt =====
-- What the page of a workspace shows after its reloads.
use agentleh_app.Base.{
  ℕ, false, List, [], ◌∷◌, none, some, ◌==◌, ==_refl, ◌≡◌, refl, inl, inr, Bool-cases,
}
use agentleh_app.Js.{Outcome, ok}
use agentleh_app.App.Route.{settings}
use agentleh_app.Workspace.Page.{
  Loaded, Reload, Page, reload, reload_answered, show_tenant, take_reload, shown, answered, step,
  run, panel, tab_view, view,
}

take_reload-head : (q : Reload) (qs : List Reload) → take_reload q.serial (q ∷ qs) ≡ some (q, qs)
unfolding take_reload
take_reload-head q qs = rw (==_refl q.serial) refl

-- The latest reload in flight is answered.
answered_head :
    (q : Reload) (qs : List Reload) (r : Outcome Loaded) (s : Page)
    → s.in_flight ≡ q ∷ qs
    → step (answered q.serial r) s ≡ reload_answered q r (record s { in_flight = qs })
unfolding step
answered_head q qs r s e = rw (step, e, take_reload-head q qs) refl

settled_view :
    (q : Reload) (l : Loaded) (s : Page)
    → s.loading ≡ false
    → s.shown_error ≡ none
    → s.subpage ≡ settings
    → view (reload_answered q (ok l) s) ≡ panel settings s.tenant_id l.detail
unfolding view tab_view reload_answered
settled_view q l s h e p = elim (Bool-cases q.silent) [
  | inl a ↦ rw (a, h, e, p) refl
  | inr a ↦ rw (a, e, p) refl
]

-- A reload is in flight when the user picks another workspace, at its settings. Once both are answered, the older one
-- last, the page has the settings of the workspace that was picked, filled with the details of the other one.
run-shows :
    (q : Reload) (qs : List Reload) (t : ℕ) (mine other : Loaded) (s : Page)
    → s.in_flight ≡ q ∷ qs
    → (t == s.tenant_id) ≡ false
    → view (
        run
          (shown t settings ∷ answered s.next_serial (ok mine) ∷ answered q.serial (ok other) ∷ [])
          s)
      ≡ panel settings t other.detail
unfolding run reload
run-shows q qs t mine other s e d =
    let fresh : Reload = record { serial = s.next_serial; tenant_id = t; silent = false } in
    rw
      (
        picked,
        answered_head fresh s.in_flight (ok mine) there refl,
        answered_head q qs (ok other) loaded (unfold reload_answered in e),
      )
      (unfold reload_answered in
        settled_view q other (record loaded { in_flight = qs }) refl refl refl)
  where
    there : Page
    there = reload false (record s { tenant_id = t; subpage = settings })

    picked : step (shown t settings) s ≡ there
    picked = unfold step show_tenant in rw d refl

    loaded : Page
    loaded =
        reload_answered (record { serial = s.next_serial; tenant_id = t; silent = false }) (ok mine)
          (record there { in_flight = s.in_flight })
