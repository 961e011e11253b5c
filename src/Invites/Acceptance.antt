-- ===== src/Invites/Acceptance.antt =====
-- Who can accept an invitation.
use agentleh_app.Base.{
  Bool, true, false, List, [], ◌∷◌, none, some, Text, is_empty, text_eq_sound, if◌then◌else◌, ◌≡◌,
  refl, arith, ◌⊎◌, inl, inr, Bool-cases, Option-cases, if_elim,
}
use agentleh_app.Js.{ok, throw}
use agentleh_app.Invites.{
  pending, Preview, Page, opened, preview_arrived, signed_in_email, handle_accept, accept_answered,
  joins, refuses, handle_switch_account, emails_match, invite_view, view, Event, previewed,
  session_arrived, accept_clicked, switch_clicked, answered, offers_accept, offers_switch, step,
  run,
}

if_case :
    (P : Page → Type 0) (b : Bool) (x y : Page)
    → (b ≡ true → P x)
    → (b ≡ false → P y)
    → P (if b then x else y)
if_case P true x y f g = f refl
if_case P false x y f g = g refl

module _ (lower : Text → Text) (token : Text) where
  record IsGuarded (s : Page) : Type 0 where
    same_token : s.token ≡ token
    no_token : is_empty token ≡ true → (s.loading ≡ false) × (s.preview ≡ none)

  opened-IsGuarded : IsGuarded (opened token)
  opened-IsGuarded =
      unfold opened in record { same_token = refl; no_token = λ e. (rw e refl, refl) }

  step-IsGuarded : (e : Event) (s : Page) → IsGuarded s → IsGuarded (step lower e s)
  unfolding step preview_arrived handle_accept accept_answered handle_switch_account opened
  step-IsGuarded (previewed (ok p)) s h =
      if_case IsGuarded s.loading _ s
        (λ e. record {
          same_token = h.same_token;
          no_token = λ q. absurd (ground (arith, h.no_token q));
        })
        (λ e. h)
  step-IsGuarded (previewed (throw e)) s h =
      if_elim IsGuarded s.loading _ s
        (record { same_token = h.same_token; no_token = λ e. (refl, (h.no_token e).1) }) h
  step-IsGuarded (session_arrived session) s h = record {
    same_token = h.same_token;
    no_token = h.no_token;
  }
  step-IsGuarded accept_clicked s h = record {
    same_token = ground (arith, h.same_token);
    no_token = λ e. ground (arith, h.no_token e);
  }
  step-IsGuarded switch_clicked s h =
      if_elim IsGuarded (offers_switch (view lower s)) _ s
        (record { same_token = h.same_token; no_token = λ e. ground (arith, h.same_token) }) h
  step-IsGuarded (answered (joins t)) s h =
      if_elim IsGuarded s.accepting _ s
        (record { same_token = h.same_token; no_token = h.no_token }) h
  step-IsGuarded (answered (refuses m)) s h =
      if_elim IsGuarded s.accepting _ s
        (record { same_token = h.same_token; no_token = h.no_token }) h

  run-IsGuarded : (es : List Event) (s : Page) → IsGuarded s → IsGuarded (run lower es s)
  unfolding run
  run-IsGuarded [] s h = h
  run-IsGuarded (e ∷ es) s h = run-IsGuarded es (step lower e s) (step-IsGuarded e s h)

  -- What a call of `acceptInvite` takes.
  pub record IsInvitee (e : Event) (s : Page) : Type 0 where
    pub invite : Preview
    pub email : Text
    pub clicked : e ≡ accept_clicked
    pub with_token : is_empty token ≡ false
    pub previewed : s.preview ≡ some invite
    pub is_pending : invite.status ≡ pending
    pub signed_in : s.session ≡ some email
    pub has_email : is_empty email ≡ false
    pub same_email : lower invite.email ≡ lower email
    pub once : s.accepting ≡ false
    pub not_joined : s.joined ≡ none

  -- Which view has the button enabled.
  invite_view-offers :
      (p : Preview) (s : Page)
      → offers_accept (invite_view lower p s) ≡ true
      → (p.status ≡ pending) × (emails_match lower p s ≡ true) × (s.accepting ≡ false)
  unfolding invite_view
  invite_view-offers p s o = ground arith

  view-offers :
      (s : Page)
      → offers_accept (view lower s) ≡ true
      → (p : Preview) × (s.preview ≡ some p)
        × (s.joined ≡ none)
        × (s.loading ≡ false)
        × (offers_accept (invite_view lower p s) ≡ true)
  unfolding view
  view-offers s o = elim (Option-cases s.preview) [
    | inl e ↦ absurd (ground arith)
    | inr (p, e) ↦ elim (Option-cases s.joined) [
      | inl q ↦ (p, e, q, ground arith, ground arith)
      | inr (t, q) ↦ absurd (ground arith)
    ]
  ]

  emails_match-session :
      (p : Preview) (s : Page)
      → emails_match lower p s ≡ true
      → (email : Text) × (s.session ≡ some email)
        × (is_empty email ≡ false)
        × (lower p.email ≡ lower email)
  unfolding emails_match signed_in_email
  emails_match-session p s m = elim (Option-cases s.session) [
    | inl e ↦ absurd (ground arith)
    | inr (email, e) ↦
        (email, e, ground arith, text_eq_sound (lower p.email) (lower email) (ground arith))
  ]

  offered :
      (s : Page) → IsGuarded s → offers_accept (view lower s) ≡ true → IsInvitee accept_clicked s
  offered s h o =
      let (p, shown, alone, done, offers) = view-offers s o in
      let (is_pending, match, idle) = invite_view-offers p s offers in
      let (email, session, filled, same) = emails_match-session p s match in
      record {
        invite = p;
        email = email;
        clicked = refl;
        with_token = ground (arith, h.no_token);
        previewed = shown;
        is_pending = is_pending;
        signed_in = session;
        has_email = filled;
        same_email = same;
        once = idle;
        not_joined = alone;
      }

  act-accept_calls :
      (e : Event) (s : Page)
      → IsGuarded s
      → ((step lower e s).accept_calls ≡ s.accept_calls)
        ⊎ (((step lower e s).accept_calls ≡ token ∷ s.accept_calls) × IsInvitee e s)
  unfolding step preview_arrived accept_answered handle_switch_account
  act-accept_calls (previewed (ok p)) s h = inl (ground arith)
  act-accept_calls (previewed (throw e)) s h = inl (ground arith)
  act-accept_calls (session_arrived session) s h = inl refl
  act-accept_calls switch_clicked s h = inl (ground arith)
  act-accept_calls (answered (joins t)) s h = inl (ground arith)
  act-accept_calls (answered (refuses m)) s h = inl (ground arith)
  act-accept_calls accept_clicked s h = elim (Bool-cases (offers_accept (view lower s))) [
    | inr o ↦ inl (rw (step, o) refl)
    | inl o ↦ inr (called s h (offered s h o) o, offered s h o)
  ]
    where
      called :
          (s : Page)
          → IsGuarded s
          → IsInvitee accept_clicked s
          → offers_accept (view lower s) ≡ true
          → (step lower accept_clicked s).accept_calls ≡ token ∷ s.accept_calls
      called s h i o =
          unfold step handle_accept in rw (step, o, handle_accept, i.previewed, h.same_token) refl

  -- Whatever came before, an event calls `acceptInvite` at most once, with the token of the link, and calls it only by
  -- the button, for an invitation that is pending, by a user who is signed in with its address up to case, and while no
  -- call is under way and none has succeeded.
  pub step-accept_calls :
      (es : List Event) (e : Event)
      → let s = run lower es (opened token) in
        ((step lower e s).accept_calls ≡ s.accept_calls)
        ⊎ (((step lower e s).accept_calls ≡ token ∷ s.accept_calls) × IsInvitee e s)
  step-accept_calls es e =
      act-accept_calls e (run lower es (opened token))
        (run-IsGuarded es (opened token) opened-IsGuarded)
