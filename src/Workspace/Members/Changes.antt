-- ===== src/Workspace/Members/Changes.antt =====
-- When the members tab makes a request.
use agentleh_app.Base.{
  ℕ, true, false, not, ◌&&◌, ◌∷◌, is_empty, trim, any, ◌==◌, ◌≡◌, refl, arith, ◌⊎◌, inl, inr,
  Bool-cases,
}
use agentleh_app.Workspace.Members.{
  Props, Request, create_invite, revoke_invite, remove_member, change_role, Tab, is_sending,
  handle_invite, invite_answered, handle_revoke, handle_remove, handle_change_role, change_answered,
  Event, toggled, invite_pressed, typed_email, picked_role, revoke_pressed, remove_pressed,
  role_changed, invited, answered, has_controls, has_revoke, step,
}

module _ (p : Props) where
  -- Another member of the workspace, as the owner sees them.
  abbrev pub IsOther : ℕ → Type 0
  IsOther u =
      (any (λ m. m == u) p.members ≡ true) × (p.is_owner ≡ true) × ((u == p.owner_user_id) ≡ false)

  -- What each request takes of the event and of the state before it.
  abbrev pub Takes : Event → Tab → Request → Type 0
  Takes e s (create_invite address role) =
      (e ≡ invite_pressed)
      × (address ≡ trim s.invite_email)
      × (is_empty address ≡ false)
      × (role ≡ s.invite_role)
      × (s.show_invite ≡ true)
      × (p.is_admin_or_owner ≡ true)
      × (is_sending s.invite_status ≡ false)
  Takes e s (revoke_invite i) =
      (e ≡ revoke_pressed i true)
      × (any (λ j. j == i) p.pending_invites ≡ true)
      × (p.is_admin_or_owner ≡ true)
  Takes e s (remove_member u) = (e ≡ remove_pressed u true) × IsOther u
  Takes e s (change_role u role) = (e ≡ role_changed u role) × IsOther u

  abbrev pub IsTaken : Event → Tab → Tab → Type 0
  IsTaken e s s' =
      (s'.requests ≡ s.requests) ⊎ ((r : Request) × (s'.requests ≡ r ∷ s.requests) × Takes e s r)

  other_lem : (u : ℕ) → has_controls p u ≡ true → IsOther u
  unfolding has_controls
  other_lem u h = (ground arith, ground arith, ground arith)

  revoke_lem :
      (i : ℕ)
      → has_revoke p i ≡ true
      → (any (λ j. j == i) p.pending_invites ≡ true) × (p.is_admin_or_owner ≡ true)
  unfolding has_revoke
  revoke_lem i h = (ground arith, ground arith)

  -- An event makes at most one request. An invite is sent by the button of the form, by an admin or an owner, to an
  -- address that is not blank, while none is being sent; an invite that is pending is revoked as agreed, by one of
  -- those; and only the owner removes a member, as agreed, or changes a role, of a listed member who is not the owner.
  pub step-Takes : (e : Event) (s : Tab) → IsTaken e s (step p e s)
  unfolding step handle_invite handle_revoke handle_remove handle_change_role invite_answered
      change_answered
  step-Takes toggled s = inl (ground arith)
  step-Takes invite_pressed s =
      elim (Bool-cases
        ((s.show_invite && p.is_admin_or_owner) && not (is_sending s.invite_status))) [
          | inl e ↦ elim (Bool-cases (is_empty (trim s.invite_email))) [
            | inl q ↦ inl (ground arith)
            | inr q ↦ inr (
              create_invite (trim s.invite_email) s.invite_role,
              ground arith,
              (refl, refl, q, refl, ground arith, ground arith, ground arith),
            )
          ]
          | inr e ↦ inl (ground arith)
        ]
  step-Takes (typed_email t) s = inl (ground arith)
  step-Takes (picked_role r) s = inl (ground arith)
  step-Takes (revoke_pressed i true) s = elim (Bool-cases (has_revoke p i)) [
    | inl e ↦ let (a, b) = revoke_lem i e in inr (revoke_invite i, ground arith, (refl, a, b))
    | inr e ↦ inl (ground arith)
  ]
  step-Takes (revoke_pressed i false) s = inl (ground arith)
  step-Takes (remove_pressed u true) s = elim (Bool-cases (has_controls p u)) [
    | inl e ↦ inr (remove_member u, ground arith, (refl, other_lem u e))
    | inr e ↦ inl (ground arith)
  ]
  step-Takes (remove_pressed u false) s = inl (ground arith)
  step-Takes (role_changed u r) s = elim (Bool-cases (has_controls p u)) [
    | inl e ↦ inr (change_role u r, ground arith, (refl, other_lem u e))
    | inr e ↦ inl (ground arith)
  ]
  step-Takes (invited r) s = inl (ground arith)
  step-Takes (answered r) s = inl (ground arith)
