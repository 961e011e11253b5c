-- ===== src/Workspace/Settings/Requests.antt =====
-- When the settings tab makes a request.
use agentleh_app.Base.{
  ℕ, Bool, true, false, not, ◌&&◌, List, [], ◌∷◌, text_eq, any, keep, find, ◌==◌, ◌≡◌, refl, arith,
  ◌⊎◌, inl, inr, Bool-cases, Option-cases,
}
use agentleh_app.Workspace.Settings.{
  Props, Request, update_tenant, delete_tenant, transfer_owner, Settings, is_same, Event,
  typed_name, typed_email, save_pressed, delete_pressed, transfer_pressed, saved, transferred,
  removed, can_save, handle_save, other_members, handle_delete, handle_transfer, save_answered,
  transfer_answered, delete_answered, step,
}

module _ (p : Props) where
  -- What each request takes of the event and of the state before it.
  abbrev pub Allows : Event → Settings → Request → Type 0
  Allows e s (update_tenant n b) =
      (e ≡ save_pressed)
      × (n ≡ s.name)
      × (b ≡ s.billing_email)
      × (s.saving ≡ false)
      × ((text_eq s.name p.name ≡ false) ⊎ (is_same s.billing_email p.billing_email ≡ false))
  Allows e s delete_tenant = e ≡ delete_pressed true
  Allows e s (transfer_owner u) =
      (e ≡ transfer_pressed u true)
      × (any (λ m. m == u) p.members ≡ true)
      × ((u == p.owner_user_id) ≡ false)

  abbrev pub IsAnswerable : Event → Settings → Settings → Type 0
  IsAnswerable e s s' =
      (s'.requests ≡ s.requests)
      ⊎ ((r : Request) × (s'.requests ≡ r ∷ s.requests) × Allows e s r × (p.is_owner ≡ true))

  differs : (a b : Bool) → not (a && b) ≡ true → (a ≡ false) ⊎ (b ≡ false)
  differs true true h = absurd (ground arith)
  differs true false h = inr refl
  differs false b h = inl refl

  listed :
      (u o : ℕ) (ms : List ℕ)
      → any (λ m. m == u) (keep (λ m. not (m == o)) ms) ≡ true
      → (any (λ m. m == u) ms ≡ true) × ((u == o) ≡ false)
  unfolding any keep
  listed u o [] h = absurd (ground arith)
  listed u o (m ∷ ms) h = ground (arith, listed u o ms)

  save_lem : (s : Settings) → can_save p s ≡ true → IsAnswerable save_pressed s (handle_save p s)
  unfolding can_save handle_save
  save_lem s c = inr (
    update_tenant s.name s.billing_email,
    refl,
    (
      refl,
      refl,
      refl,
      ground arith,
      differs (text_eq s.name p.name) (is_same s.billing_email p.billing_email) (ground arith),
    ),
    ground arith,
  )

  transfer_lem :
      (u : ℕ) (s : Settings)
      → (p.is_owner && any (λ m. m == u) (other_members p)) ≡ true
      → IsAnswerable (transfer_pressed u true) s (handle_transfer p u true s)
  unfolding handle_transfer other_members
  transfer_lem u s e = elim (Option-cases (find (λ m. m == u) p.members)) [
    | inl q ↦ rw (handle_transfer, q) (inl refl)
    | inr (m, q) ↦
        let (a, b) = listed u p.owner_user_id p.members (ground arith) in
        rw (handle_transfer, q) (inr (transfer_owner u, refl, (refl, a, b), ground arith))
  ]

  -- An event makes at most one request, and makes one only for an owner: it saves what is typed, by the button, while
  -- nothing is being saved and the name or the address differs; it deletes the workspace only as agreed; and it hands
  -- the workspace over, as agreed, only to a listed member who does not own it.
  pub step-Allows : (e : Event) (s : Settings) → IsAnswerable e s (step p e s)
  unfolding step handle_delete handle_transfer other_members save_answered transfer_answered
      delete_answered
  step-Allows (typed_name t) s = inl (ground arith)
  step-Allows (typed_email t) s = inl (ground arith)
  step-Allows save_pressed s = elim (Bool-cases (can_save p s)) [
    | inl e ↦ rw (step, e) (save_lem s e)
    | inr e ↦ rw (step, e) (inl refl)
  ]
  step-Allows (delete_pressed true) s = elim (Bool-cases p.is_owner) [
    | inl e ↦ inr (delete_tenant, ground arith, refl, e)
    | inr e ↦ inl (ground arith)
  ]
  step-Allows (delete_pressed false) s = inl (ground arith)
  step-Allows (transfer_pressed u true) s =
      elim (Bool-cases (p.is_owner && any (λ m. m == u) (other_members p))) [
        | inl e ↦ rw (step, e) (transfer_lem u s e)
        | inr e ↦ inl (ground arith)
      ]
  step-Allows (transfer_pressed u false) s = inl (ground arith)
  step-Allows (saved r) s = inl (ground arith)
  step-Allows (transferred r) s = inl (ground arith)
  step-Allows (removed r) s = inl (ground arith)
